-- ===== src/System/Stream/Spoken.antt =====
-- A segment that is said, and one that is fetched.
use easy_voice_call.Base.{
  ℕ, suc, ◌+◌, ◌%◌, ◌^◌, ◌≤◌, ◌<◌, ◌≡◌, refl, ap, ◌∙◌, sym, Bool, true, false, List, [], ◌∷◌, ◌++◌,
  Option, some, length, take, arith, append_assoc, length-append, ltb-true,
}
use easy_voice_call.Base.Int.{ℤ}
use easy_voice_call.NetPacket.{NetPacket, audio_message, timestamp}
use easy_voice_call.NetPacket.Fields.{new_with_payload-Carries}
use easy_voice_call.Audio.{block_size}
use easy_voice_call.Audio.Downstream.{Segment, Engines, DownstreamProcessor, samples_of}
use easy_voice_call.Audio.Downstream.Queue.{SpscQueue}
use easy_voice_call.Audio.Downstream.Playback.{buffered, all_samples}
use easy_voice_call.Audio.Downstream.Hearing.{Takes, heard, heard-buffered, fetch-state}
use easy_voice_call.Worker.Voice.{Filters, VoiceState, packet_sent, send_segment}
use easy_voice_call.Worker.Voice.Speaking.{send_segment-speech}
use easy_voice_call.Server.RawUdp.{same}
use easy_voice_call.System.Stream.{
  Ends, Said, Line, carry, carry_all, say, play, wired, direct, sound, or_same,
}
use easy_voice_call.System.Stream.Carried.{Open, Delivers, carry-heard}

module _ {F Q X : Type 0} (filters : Filters F) (queue : SpscQueue Segment Q)
    (engines : Engines X) where
  -- The encoder takes a segment in any state, and makes 1004 bytes at most of it; the decoder, in any
  -- state, takes what the encoder has made, and makes a segment at least of it, which the echo
  -- canceller takes where it is on.
  pub record Codec (need_aec : Bool) : Type 0 where
    pub encodes :
        (f : F) (segment : List ℤ)
        → length segment ≡ block_size
        → (bytes : List ℕ) × (g : F) × (filters.encode f segment ≡ some (bytes, g))
          × (length bytes ≤ 1004)
    pub decodes :
        (f g : F) (segment : List ℤ) (bytes : List ℕ)
        → filters.encode f segment ≡ some (bytes, g)
        → (x : X) → (out : List ℤ) × (z : X) × Takes queue engines need_aec x bytes out z

  wired-Takes :
      (ends : Ends) (need_aec : Bool) (x : X) (bytes : List ℕ) (out : List ℤ) (z : X)
      → Takes queue engines need_aec x bytes out z
      → wired filters queue engines ends need_aec x bytes ≡ (out, z)
  unfolding wired
  wired-Takes ends true x bytes out z w = rw (w.opus, w.cancels) refl
  wired-Takes ends false x bytes out z w =
      rw w.opus
        (ap (λ (o : Option X). (out, or_same filters queue engines ends w.decoder o)) w.cancels)

  pub direct-step :
      (ends : Ends) (need_aec : Bool) (f g : F) (x z : X) (segment out : List ℤ) (bytes : List ℕ)
      (segments : List (List ℤ))
      → filters.encode f segment ≡ some (bytes, g)
      → wired filters queue engines ends need_aec x bytes ≡ (out, z)
      → direct filters queue engines ends need_aec f x (segment ∷ segments)
        ≡ take block_size out ∷ direct filters queue engines ends need_aec g z segments
  unfolding direct
  direct-step ends need_aec f g x z segment out bytes segments e w = rw (e, w, direct) refl

  -- A segment that has been said: the line behind it.
  pub record Spoken (ends : Ends) (need_aec : Bool) (n : ℕ) (l : Line F Q X) (said : Said)
      : Type 0 where
    pub next : Line F Q X
    pub made : say filters queue engines ends said l ≡ some next
    pub opened : Open filters queue engines ends need_aec (suc n) next
    pub bytes : List ℕ
    pub out : List ℤ
    pub encoded : filters.encode l.talker.filters said.segment ≡ some (bytes, next.talker.filters)
    pub decoded :
        wired filters queue engines ends need_aec l.listener.engines bytes
        ≡ (out, next.listener.engines)
    pub same_played : next.played ≡ l.played
    pub added :
        sound filters queue engines ends next
        ≡ sound filters queue engines ends l ++ (take block_size out ∷ [])

  say-made :
      (ends : Ends) (said : Said) (l m : Line F Q X) (t : VoiceState F) (p : NetPacket)
      → send_segment filters ends.client_tag l.talker said.segment said.up_time
        ≡ some (t, packet_sent p ∷ [])
      → carry filters queue engines ends said p (record l { talker = t }) ≡ some m
      → say filters queue engines ends said l ≡ some m
  unfolding say carry_all
  say-made ends said l m t p sent carried = rw (sent, carried, say) refl

  buffered-heard :
      (d : DownstreamProcessor Q X) (p : NetPacket) (out : List ℤ) (z : X) (n : ℕ)
      → length (buffered queue engines d) < queue.capacity d.decoded_buffer
      → length (buffered queue engines d) ≡ n
      → length (buffered queue engines (heard queue engines d p out z)) ≡ suc n
  buffered-heard d p out z n free held =
      let segment : Segment = record { time = timestamp p; samples = take block_size out } in
      rw (queue.contents-push segment d.decoded_buffer, ltb-true _ _ free)
        (omega (arith, held, length-append {0} (buffered queue engines d) (segment ∷ [])))

  module _ (ends : Ends) (tagged : 4 ≤ length ends.client_tag)
      (apart : same ends.talker_endpoint ends.listener_endpoint ≡ false) (need_aec : Bool)
      (codec : Codec need_aec) where
    pub say-Spoken :
        (said : Said) (n : ℕ) (l : Line F Q X)
        → length said.segment ≡ block_size
        → said.up_time < 2 ^ 32
        → n < 100
        → Delivers said
        → Open filters queue engines ends need_aec n l
        → Spoken ends need_aec n l said
    say-Spoken said n l whole up_fits free network o =
        let f = l.talker.filters in
        let (bytes, g, encoded, short) = codec.encodes f said.segment whole in
        let (out, z, takes) = codec.decodes f g said.segment bytes encoded l.listener.engines in
        let sn = (l.talker.sn_sending_audio + 1) % 2 ^ 32 in
        let (p, built, carries) =
          new_with_payload-Carries ends.client_tag audio_message sn said.up_time bytes tagged tt
            (omega arith) up_fits (omega arith) in
        let t : VoiceState F = record (l.talker) { filters = g; sn_sending_audio = sn } in
        let talking : Line F Q X = record l { talker = t } in
        let open_line : Open filters queue engines ends need_aec n talking = record {
          aec = o.aec;
          speaks = o.speaks;
          connection = o.connection;
          found = o.found;
          registered = o.registered;
          distinct = o.distinct;
          held = o.held;
          room_for = o.room_for;
        } in
        let d = heard queue engines l.listener p out z in
        let free_room : length (buffered queue engines l.listener)
            < queue.capacity l.listener.decoded_buffer =
          omega (arith, o.held, o.room_for) in
        let behind = heard-buffered queue engines l.listener p out z free_room in
        record {
          next = record talking {
            room = record (l.room) { counter = (l.room.counter + 1) % 2 ^ 32 };
            listener = d;
          };
          made =
              say-made ends said l _ t p
                (send_segment-speech filters ends.client_tag l.talker said.segment said.up_time
                  bytes g p o.speaks encoded built)
                (carry-heard filters queue engines ends tagged apart said p sn said.up_time bytes n
                  talking need_aec out z carries short open_line network takes);
          opened = record {
            aec = o.aec;
            speaks = o.speaks;
            connection = o.connection;
            found = o.found;
            registered = o.registered;
            distinct = o.distinct;
            held = buffered-heard l.listener p out z n free_room o.held;
            room_for = queue.capacity-push _ _ ∙ o.room_for;
          };
          bytes = bytes;
          out = out;
          encoded = encoded;
          decoded = wired-Takes ends need_aec l.listener.engines bytes out z takes;
          same_played = refl;
          added =
              ap (λ (r : List (List ℤ)). l.played ++ (samples_of l.listener.m1 ∷ r)) behind
              ∙ sym (append_assoc l.played (_ ∷ _) (_ ∷ []));
        }

  nonempty :
      (n : ℕ) (xs : List Segment)
      → length xs ≡ suc n
      → (x : Segment) × (rest : List Segment) × (xs ≡ x ∷ rest) × (length rest ≡ n)
  nonempty n [] e = absurd (omega arith)
  nonempty n (x ∷ rest) e = (x, rest, refl, omega arith)

  abbrev after_play : Line F Q X → Segment → Line F Q X
  after_play l first = record l {
    listener = record (l.listener) {
      decoded_buffer = (queue.pop l.listener.decoded_buffer).1;
      m2 = l.listener.m1;
      m1 = some first;
    };
    played = l.played ++ (samples_of l.listener.m1 ∷ []);
  }

  play-after :
      (ends : Ends) (l : Line F Q X) (first : Segment) (rest : List Segment)
      → buffered queue engines l.listener ≡ first ∷ rest
      → play filters queue engines ends l ≡ after_play l first
  unfolding play
  play-after ends l first rest e = rw (fetch-state queue engines l.listener first rest e, play) refl

  -- A fetch from a buffer that holds a segment: the line behind it.
  pub record Fetched (ends : Ends) (need_aec : Bool) (n : ℕ) (l : Line F Q X) : Type 0 where
    pub next : Line F Q X
    pub made : play filters queue engines ends l ≡ next
    pub opened : Open filters queue engines ends need_aec n next
    pub talker_kept : next.talker ≡ l.talker
    pub engines_kept : next.listener.engines ≡ l.listener.engines
    pub played_grown : length next.played ≡ length l.played + 1
    pub same_sound : sound filters queue engines ends next ≡ sound filters queue engines ends l

  pub play-Fetched :
      (ends : Ends) (need_aec : Bool) (n : ℕ) (l : Line F Q X)
      → Open filters queue engines ends need_aec (suc n) l
      → Fetched ends need_aec n l
  play-Fetched ends need_aec n l o =
      let (first, rest, full, left) = nonempty n (buffered queue engines l.listener) o.held in
      let (popped, remains) = queue.pop-front l.listener.decoded_buffer first rest full in
      record {
        next = after_play l first;
        made = play-after ends l first rest full;
        opened = record {
          aec = o.aec;
          speaks = o.speaks;
          connection = o.connection;
          found = o.found;
          registered = o.registered;
          distinct = o.distinct;
          held = ap (λ (xs : List Segment). length xs) remains ∙ left;
          room_for = queue.capacity-pop _ ∙ o.room_for;
        };
        talker_kept = refl;
        engines_kept = refl;
        played_grown = length-append {0} l.played (_ ∷ []);
        same_sound =
            append_assoc l.played (_ ∷ []) (_ ∷ _)
            ∙ ap
                (λ (xs : List Segment).
                  l.played ++ (samples_of l.listener.m1 ∷ all_samples queue engines xs))
                (ap (λ (xs : List Segment). first ∷ xs) remains ∙ sym full);
      }

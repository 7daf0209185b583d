-- ===== src/System/Stream/Heard.antt =====
-- What the listener plays is what the talker's encoder, wired to its decoder, would make of the
-- segments.
use easy_voice_call.Base.{
  bind, ℕ, zero, suc, ◌+◌, ◌^◌, ◌≤◌, ◌<◌, ◌≡◌, refl, ap, ◌∙◌, sym, Bool, true, false, List, [], ◌∷◌,
  ◌++◌, some, length, take, arith, append_assoc, append-nil, take-append,
}
use easy_voice_call.Base.Int.{ℤ}
use easy_voice_call.Audio.{silence, block_size}
use easy_voice_call.Audio.Downstream.{Segment, Engines, init, samples_of}
use easy_voice_call.Audio.Downstream.Queue.{SpscQueue}
use easy_voice_call.Audio.Downstream.Playback.{buffered, all_samples}
use easy_voice_call.Worker.Voice.{Filters, VoiceState}
use easy_voice_call.Server.RawUdp.{RawUdpRoom, RawUdpConnection, find_peer, same}
use easy_voice_call.System.Stream.{Ends, Said, Move, says, plays, Line, run, direct, sound}
use easy_voice_call.System.Stream.Carried.{Open, Delivers}
use easy_voice_call.Server.RawUdp.Peers.{Distinct, is_registered}
use easy_voice_call.System.Stream.Spoken.{
  Codec, Spoken, Fetched, say-Spoken, play-Fetched, direct-step,
}

-- With `n` segments buffered, the moves neither fill the jitter buffer of 100 nor empty it.
abbrev pub Fits : ℕ → List Move → Type 0
Fits n [] = Unit {0}
Fits n (says said ∷ moves) = (n < 100) × Fits (suc n) moves
Fits zero (plays ∷ moves) = ⊥
Fits (suc n) (plays ∷ moves) = Fits n moves

-- How often the sound card fetches.
abbrev pub fetches : List Move → ℕ
fetches [] = 0
fetches (says said ∷ moves) = fetches moves
fetches (plays ∷ moves) = suc (fetches moves)

abbrev pub segments : List Move → List (List ℤ)
segments [] = []
segments (says said ∷ moves) = said.segment ∷ segments moves
segments (plays ∷ moves) = segments moves

-- Whole segments, and times of 32 bits.
abbrev pub Whole : List Move → Type 0
Whole [] = Unit {0}
Whole (says said ∷ moves) =
    (length said.segment ≡ block_size) × (said.up_time < 2 ^ 32) × Whole moves
Whole (plays ∷ moves) = Whole moves

-- The network delivers all that is sent.
abbrev pub Delivered : List Move → Type 0
Delivered [] = Unit {0}
Delivered (says said ∷ moves) = Delivers said × Delivered moves
Delivered (plays ∷ moves) = Delivered moves

module _ {F Q X : Type 0} (filters : Filters F) (queue : SpscQueue Segment Q) (engines : Engines X)
    (ends : Ends) (tagged : 4 ≤ length ends.client_tag)
    (apart : same ends.talker_endpoint ends.listener_endpoint ≡ false) (need_aec : Bool)
    (codec : Codec filters queue engines need_aec) where
  -- A run that returns, and the sound at its end.
  pub record Runs (l : Line F Q X) (moves : List Move) (more : List (List ℤ)) : Type 0 where
    pub last : Line F Q X
    pub made : run filters queue engines ends moves l ≡ some last
    pub count : length last.played ≡ length l.played + fetches moves
    pub follows : sound filters queue engines ends last ≡ sound filters queue engines ends l ++ more

  abbrev wire : Line F Q X → List Move → List (List ℤ)
  wire l moves =
      direct filters queue engines ends need_aec l.talker.filters l.listener.engines
        (segments moves)

  says-Runs :
      (n : ℕ) (l : Line F Q X) (said : Said) (moves : List Move)
      → (s : Spoken filters queue engines ends need_aec n l said)
      → Runs s.next moves (wire s.next moves)
      → Runs l (says said ∷ moves) (wire l (says said ∷ moves))
  unfolding run
  says-Runs n l said moves s r = record {
    last = r.last;
    made = ap (bind (run filters queue engines ends moves)) s.made ∙ r.made;
    count = omega (arith, r.count, ap (λ (q : List (List ℤ)). length q) s.same_played);
    follows =
        r.follows
        ∙ ap (λ (q : List (List ℤ)). q ++ wire s.next moves) s.added
        ∙ append_assoc _ (_ ∷ []) _
        ∙ ap (λ (q : List (List ℤ)). sound filters queue engines ends l ++ q)
            (sym (
              direct-step filters queue engines ends need_aec l.talker.filters s.next.talker.filters
                l.listener.engines s.next.listener.engines said.segment s.out s.bytes
                (segments moves) s.encoded s.decoded));
  }

  plays-Runs :
      (n : ℕ) (l : Line F Q X) (moves : List Move)
      → (d : Fetched filters queue engines ends need_aec n l)
      → Runs d.next moves (wire d.next moves)
      → Runs l (plays ∷ moves) (wire l moves)
  unfolding run
  plays-Runs n l moves d r = record {
    last = r.last;
    made = ap (run filters queue engines ends moves) d.made ∙ r.made;
    count = omega (arith, r.count, d.played_grown);
    follows =
        r.follows
        ∙ ap (λ (q : List (List ℤ)). q ++ wire d.next moves) d.same_sound
        ∙ ap (λ (q : List (List ℤ)). sound filters queue engines ends l ++ q)
            (rw (d.talker_kept, d.engines_kept) refl);
  }

  run-Runs :
      (moves : List Move) (n : ℕ) (l : Line F Q X)
      → Fits n moves
      → Whole moves
      → Delivered moves
      → Open filters queue engines ends need_aec n l
      → Runs l moves (wire l moves)
  unfolding run direct
  run-Runs [] n l fits whole network o = record {
    last = l;
    made = refl;
    follows = sym (append-nil _);
    count = omega arith;
  }
  run-Runs (says said ∷ moves) n l (free, fits) (sized, timed, whole) (link, network) o =
      let s =
        say-Spoken filters queue engines ends tagged apart need_aec codec said n l sized timed free
          link o in
      says-Runs n l said moves s (run-Runs moves (suc n) s.next fits whole network s.opened)
  run-Runs (plays ∷ moves) zero l fits whole network o = absurd fits
  run-Runs (plays ∷ moves) (suc n) l fits whole network o =
      let d = play-Fetched filters queue engines ends need_aec n l o in
      plays-Runs n l moves d (run-Runs moves n d.next fits whole network d.opened)

  -- A client whose segments count as speech speaks, and another one listens, both of them registered.
  -- On a network that delivers each datagram once, whole, in its order and before the next segment is
  -- spoken, which UDP does not promise: however speaking and fetching alternate, as long as the jitter
  -- buffer neither fills nor runs empty, nothing fails, and the listener's sound card has played a
  -- silent segment and then what the talker's encoder, wired to the listener's decoder, makes of the
  -- segments, in their order. The codec takes the segments, their encodings have 1004 bytes at most,
  -- the talker's version has four bytes, the times fit 32 bits, and the connections of the room are
  -- pairwise apart, as are the two clients.
  pub stream-played :
      (x : X) (talker : VoiceState F) (room : RawUdpRoom) (c : RawUdpConnection) (moves : List Move)
      → talker.send_opus ≡ true
      → find_peer ends.talker_endpoint room.peers ≡ some c
      → is_registered ends.listener_endpoint room.peers ≡ true
      → Distinct room.peers
      → Fits 0 moves
      → Whole moves
      → Delivered moves
      → (last : Line F Q X) × (run filters queue engines ends moves (record {
        talker = talker;
        room = room;
        listener = init queue engines x need_aec;
        played = [];
      })
          ≡ some last)
        × (last.played
            ≡ take (fetches moves) (
                silence
                ∷ direct filters queue engines ends need_aec talker.filters x (segments moves)))
  unfolding init
  stream-played x talker room c moves speaks found registered distinct fits whole network =
      let l : Line F Q X = record {
        talker = talker;
        room = room;
        listener = init queue engines x need_aec;
        played = [];
      } in
      let r = run-Runs moves 0 l fits whole network (record {
        aec = refl;
        speaks = speaks;
        connection = c;
        found = found;
        registered = registered;
        distinct = distinct;
        held = ap (λ (q : List Segment). length q) (queue.contents-new 100);
        room_for = queue.capacity-new 100;
      }) in
      let heard_all =
        direct filters queue engines ends need_aec talker.filters x (segments moves) in
      let pending =
        samples_of r.last.listener.m1
        ∷ all_samples queue engines (buffered queue engines r.last.listener) in
      let counted : length r.last.played ≡ fetches moves = omega (arith, r.count) in
      let whole_sound : r.last.played ++ pending ≡ silence ∷ heard_all =
        r.follows
        ∙ ap (λ (q : List Segment). (silence ∷ all_samples queue engines q) ++ heard_all)
            (queue.contents-new 100) in
      (
        r.last,
        r.made,
        sym (take-append r.last.played pending)
            ∙ ap (λ (n : ℕ). take n (r.last.played ++ pending)) counted
            ∙ ap (λ (q : List (List ℤ)). take (fetches moves) q) whole_sound,
      )

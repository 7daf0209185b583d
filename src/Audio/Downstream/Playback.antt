-- ===== src/Audio/Downstream/Playback.antt =====
-- What the speaker plays.
use easy_voice_call.Base.{
  ◌<◌, ◌≡◌, refl, sym, ap, ◌∙◌, Bool, List, [], ◌∷◌, ◌++◌, Option, some, length, take, map,
  append_assoc, subst, ltb-true, map-append, arith, Option-cases, inl, inr,
}
use easy_voice_call.Base.Int.{ℤ}
use easy_voice_call.NetPacket.{
  NetPacket, PayloadType, audio_message, audio_message_cn, payload_type, timestamp,
}
use easy_voice_call.Audio.{silence, block_size}
use easy_voice_call.Audio.Downstream.{
  Segment, Engines, DownstreamProcessor, init, decode, append, fetch, samples_of, buffer_farend,
  enqueue, verify_order, next_segment,
}
use easy_voice_call.Audio.Downstream.Queue.{SpscQueue}

module _ {Q X : Type 0} (queue : SpscQueue Segment Q) (dsp : Engines X) where
  -- The segment that `append` makes of a packet.
  abbrev pub decoded : DownstreamProcessor Q X → NetPacket → List ℤ
  decoded s p = take block_size (decode queue dsp (payload_type p) s p silence).0

  abbrev pub buffered : DownstreamProcessor Q X → List Segment
  buffered s = queue.contents s.decoded_buffer

  abbrev pub HasRoom : DownstreamProcessor Q X → Type 0
  HasRoom s = length (buffered s) < queue.capacity s.decoded_buffer

  -- A run in which the network appends and the sound card fetches, in any order, as long as the
  -- jitter buffer neither overflows nor runs empty: the segments decoded, the segments played.
  pub data Run
      : (added : List (List ℤ)) (played : List (List ℤ)) (s : DownstreamProcessor Q X)
        → Type 0 where
    begins : (x : X) (need_aec : Bool) → Run [] [] (init queue dsp x need_aec)
    appends :
        {added played : List (List ℤ)} {s t : DownstreamProcessor Q X}
        → Run added played s
        → (p : NetPacket) → HasRoom s
        → append queue dsp s p ≡ some t
        → Run (added ++ (decoded s p ∷ [])) played t
    fetches :
        {added played : List (List ℤ)} {s : DownstreamProcessor Q X}
        → Run added played s
        → (first : Segment) (rest : List Segment) → buffered s ≡ first ∷ rest
        → Run added (played ++ ((fetch queue dsp s).0 ∷ [])) (fetch queue dsp s).1

  abbrev pub all_samples : List Segment → List (List ℤ)
  all_samples segments = map (λ (g : Segment). g.samples) segments

  fetch-buffered :
      (s : DownstreamProcessor Q X) (first : Segment) (rest : List Segment)
      → buffered s ≡ first ∷ rest
      → ((fetch queue dsp s).0 ≡ samples_of s.m1)
        × ((fetch queue dsp s).1.m1 ≡ some first)
        × (buffered (fetch queue dsp s).1 ≡ rest)
  unfolding fetch next_segment
  fetch-buffered s first rest e =
      let (e1, e2) = queue.pop-front s.decoded_buffer first rest e in
      (rw e1 refl, rw e1 refl, rw e1 e2)

  decode-buffer :
      (kind : PayloadType) (s : DownstreamProcessor Q X) (p : NetPacket) (pcm : List ℤ)
      → ((decode queue dsp kind s p pcm).1.m1 ≡ s.m1)
        × ((decode queue dsp kind s p pcm).1.decoded_buffer ≡ s.decoded_buffer)
  unfolding decode
  decode-buffer audio_message s p pcm = (refl, refl)
  decode-buffer audio_message_cn s p pcm = (refl, refl)
  decode-buffer _ s p pcm = (refl, refl)

  buffer_farend-buffer :
      (s t : DownstreamProcessor Q X) (pcm : List ℤ)
      → buffer_farend queue dsp s pcm ≡ some t
      → (t.m1 ≡ s.m1) × (t.decoded_buffer ≡ s.decoded_buffer)
  unfolding buffer_farend
  buffer_farend-buffer s t pcm e = ground arith

  enqueue-buffer :
      (s t : DownstreamProcessor Q X) (pcm : List ℤ) (p : NetPacket)
      → enqueue queue dsp pcm p (some s) ≡ some t
      → (t.m1 ≡ s.m1)
        × (t.decoded_buffer
            ≡ queue.push
                (record { time = timestamp p; samples = take block_size pcm })
                s.decoded_buffer)
  unfolding enqueue verify_order
  enqueue-buffer s t pcm p e = ground arith

  pub samples-push :
      (g : Segment) (q : Q)
      → length (queue.contents q) < queue.capacity q
      → all_samples (queue.contents (queue.push g q))
        ≡ all_samples (queue.contents q) ++ (g.samples ∷ [])
  samples-push g q room =
      rw (queue.contents-push g q, ltb-true _ _ room) (map-append _ (queue.contents q) (g ∷ []))

  pub append-buffered :
      (s t : DownstreamProcessor Q X) (p : NetPacket)
      → HasRoom s
      → append queue dsp s p ≡ some t
      → (t.m1 ≡ s.m1) × (all_samples (buffered t) ≡ all_samples (buffered s) ++ (decoded s p ∷ []))
  unfolding append enqueue verify_order buffer_farend
  append-buffered s t p room e =
      let (pcm, u) = decode queue dsp (payload_type p) s p silence in
      let (same_m1, same_buffer) = decode-buffer (payload_type p) s p silence in
      let segment : Segment = record { time = timestamp p; samples = take block_size pcm } in
      elim (Option-cases (buffer_farend queue dsp u pcm)) [
        | inl none_e ↦
            let absurd =
              subst (λ (o : Option (DownstreamProcessor Q X)). enqueue queue dsp pcm p o ≡ some t)
                none_e e in
            cc
        | inr (v, v_e) ↦
            let (v_m1, v_buffer) = buffer_farend-buffer u v pcm v_e in
            let (t_m1, t_buffer) = enqueue-buffer v t pcm p (
              subst (λ (o : Option (DownstreamProcessor Q X)). enqueue queue dsp pcm p o ≡ some t)
                v_e e) in
            (
              t_m1 ∙ v_m1 ∙ same_m1,
              ap (λ (q : Q). all_samples (queue.contents q))
                    (t_buffer ∙ ap (queue.push segment) (v_buffer ∙ same_buffer))
                  ∙ samples-push segment s.decoded_buffer room,
            )
      ]

  -- What has been played, what is to be played next and what is buffered are a silent segment and then
  -- all segments decoded, in their order.
  pub Run-played :
      {added played : List (List ℤ)} {s : DownstreamProcessor Q X}
      → Run added played s
      → played ++ (samples_of s.m1 ∷ all_samples (buffered s)) ≡ silence ∷ added
  unfolding init
  Run-played (begins x need_aec) = rw (queue.contents-new 100) refl
  Run-played (appends {s = s} {t = t} r p room e) =
      let (m1_e, buffered_e) = append-buffered s t p room e in
      rw (m1_e, buffered_e)
        (sym (append_assoc _ (_ ∷ _) (_ ∷ []))
          ∙ ap (λ (l : List (List ℤ)). l ++ (decoded s p ∷ [])) (Run-played r))
  Run-played (fetches {played = played} {s = s} r first rest e) =
      let (played_e, m1_e, rest_e) = fetch-buffered s first rest e in
      rw (played_e, m1_e, rest_e)
        (append_assoc _ (_ ∷ []) (_ ∷ _)
          ∙ ap (λ (g : List Segment). played ++ (samples_of s.m1 ∷ all_samples g)) (sym e)
          ∙ Run-played r)

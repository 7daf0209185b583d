-- ===== src/Audio/Downstream/Speech.antt =====
-- A packet of speech on its way into the jitter buffer.
use easy_voice_call.Base.{
  ℕ, ◌≤◌, ◌≡◌, refl, ap, ◌∙◌, Bool, true, false, List, [], ◌∷◌, ◌++◌, Option, some, none, length,
  take, ltb-false, if◌then◌else◌,
}
use easy_voice_call.Base.Int.{ℤ}
use easy_voice_call.NetPacket.{NetPacket, audio_message, payload_type, payload}
use easy_voice_call.Audio.{silence, block_size}
use easy_voice_call.Audio.Downstream.{
  Segment, Engines, DownstreamProcessor, decode, decode_into, append, buffer_farend, enqueue,
}
use easy_voice_call.Audio.Downstream.Queue.{SpscQueue}
use easy_voice_call.Audio.Downstream.Playback.{HasRoom, buffered, all_samples, append-buffered}

taken_or_kept :
    {X D : Type 0} (b : Bool) (o : Option X) (x : X) (f : X → D) (d : D)
    → o ≡ some x
    → (t : D) × ((if b then elim o [ none ↦ none | some y ↦ some (f y) ] else some d) ≡ some t)
taken_or_kept true o x f d e = (f x, rw e refl)
taken_or_kept false o x f d e = (d, refl)

unless :
    {D : Type 0} (b : Bool) (d : D) → b ≡ false → (t : D) × ((if b then none else some d) ≡ some t)
unless b d e = (d, rw e refl)

module _ {Q X : Type 0} (queue : SpscQueue Segment Q) (dsp : Engines X) where
  -- The decoder makes `out` of the bytes, a segment at least, and the echo canceller takes it.
  pub record Decodes (d : DownstreamProcessor Q X) (bytes : List ℕ) (out : List ℤ) : Type 0 where
    pub decoder : X
    pub canceller : X
    pub opus : dsp.opus_decode d.engines bytes ≡ (some out, decoder)
    pub cancels : dsp.buffer_farend decoder out ≡ some canceller
    pub long : block_size ≤ length out

  decode_speech :
      (d : DownstreamProcessor Q X) (p : NetPacket) (bytes : List ℕ) (out : List ℤ)
      → payload p ≡ bytes
      → (w : Decodes d bytes out)
      → decode queue dsp audio_message d p silence
        ≡ (out, record d { engines = w.decoder; last_is_cn_packet = false })
  unfolding decode decode_into
  decode_speech d p bytes out e w = rw (e, w.opus) refl

  farend_taken :
      (d : DownstreamProcessor Q X) (out : List ℤ) (x : X)
      → dsp.buffer_farend d.engines out ≡ some x
      → (t : DownstreamProcessor Q X) × (buffer_farend queue dsp d out ≡ some t)
  unfolding buffer_farend
  farend_taken d out x e =
      taken_or_kept d.need_aec (dsp.buffer_farend d.engines out) x (λ y. record d { engines = y }) d
        e

  enqueued :
      (d : DownstreamProcessor Q X) (out : List ℤ) (p : NetPacket)
      → block_size ≤ length out
      → (t : DownstreamProcessor Q X) × (enqueue queue dsp out p (some d) ≡ some t)
  unfolding enqueue
  enqueued d out p long = unless _ _ (ltb-false (length out) 160 long)

  after_decode : NetPacket → List ℤ × DownstreamProcessor Q X → Option (DownstreamProcessor Q X)
  after_decode p (pcm, s) = enqueue queue dsp pcm p (buffer_farend queue dsp s pcm)

  append-decode :
      (d : DownstreamProcessor Q X) (p : NetPacket)
      → append queue dsp d p ≡ after_decode p (decode queue dsp (payload_type p) d p silence)
  unfolding append after_decode
  append-decode d p = refl

  -- A packet whose payload the decoder takes is appended: its segment is the first 160 samples that
  -- the decoder makes of the payload, behind all that the jitter buffer holds.
  pub append_speech :
      (d : DownstreamProcessor Q X) (p : NetPacket) (bytes : List ℕ) (out : List ℤ)
      → HasRoom queue dsp d
      → payload_type p ≡ audio_message
      → payload p ≡ bytes
      → Decodes d bytes out
      → (t : DownstreamProcessor Q X) × (append queue dsp d p ≡ some t)
        × (all_samples queue dsp (buffered queue dsp t)
            ≡ all_samples queue dsp (buffered queue dsp d) ++ (take block_size out ∷ []))
  unfolding after_decode
  append_speech d p bytes out room kind same w =
      let spoken =
        ap (λ k. decode queue dsp k d p silence) kind ∙ decode_speech d p bytes out same w in
      let kept : DownstreamProcessor Q X = record d {
        engines = w.decoder;
        last_is_cn_packet = false;
      } in
      let (u, taken) = farend_taken kept out w.canceller w.cancels in
      let (t, made) = enqueued u out p w.long in
      let e : append queue dsp d p ≡ some t =
        append-decode d p
        ∙ ap (after_decode p) spoken
        ∙ ap (enqueue queue dsp out p) taken
        ∙ made in
      let (m1, behind) = append-buffered queue dsp d t p room e in
      let segments = all_samples queue dsp (buffered queue dsp d) in
      (
        t,
        e,
        behind
            ∙ ap (λ (r : List ℤ × DownstreamProcessor Q X). segments ++ (take block_size r.0 ∷ []))
                spoken,
      )

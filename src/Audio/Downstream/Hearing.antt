-- ===== src/Audio/Downstream/Hearing.antt =====
-- What append of DownstreamProcessor.cpp leaves after a packet of speech.
use easy_voice_call.Base.{
  ℕ, ◌≤◌, ◌≡◌, refl, ap, ◌∙◌, Bool, false, List, [], ◌∷◌, ◌++◌, Option, some, length, take, ltb,
  ltb-false, if◌then◌else◌, arith,
}
use easy_voice_call.Base.Int.{ℤ}
use easy_voice_call.NetPacket.{
  NetPacket, audio_message, payload_type, payload, timestamp, serial_number,
}
use easy_voice_call.Audio.{silence, block_size}
use easy_voice_call.Audio.Downstream.{
  Segment, Engines, DownstreamProcessor, decode, decode_into, append, buffer_farend, enqueue,
  verify_order, fetch, next_segment, samples_of,
}
use easy_voice_call.Audio.Downstream.Queue.{SpscQueue}
use easy_voice_call.Audio.Downstream.Playback.{HasRoom, buffered, all_samples, samples-push}

module _ {Q X : Type 0} (queue : SpscQueue Segment Q) (dsp : Engines X) where
  -- The decoder makes `out` of the bytes, a segment at least; the echo canceller, where it is on, takes
  -- it, and the engines are in state `z` then.
  pub record Takes (need_aec : Bool) (x : X) (bytes : List ℕ) (out : List ℤ) (z : X) : Type 0 where
    pub decoder : X
    pub opus : dsp.opus_decode x bytes ≡ (some out, decoder)
    pub cancels : (if need_aec then dsp.buffer_farend decoder out else some decoder) ≡ some z
    pub long : block_size ≤ length out

  abbrev pub heard : DownstreamProcessor Q X → NetPacket → List ℤ → X → DownstreamProcessor Q X
  heard d p out z = record d {
    decoded_buffer =
        queue.push (record { time = timestamp p; samples = take block_size out }) d.decoded_buffer;
    engines = z;
    largest_received_media_data_timestamp =
        if ltb (timestamp p) d.largest_received_media_data_timestamp
        then d.largest_received_media_data_timestamp
        else timestamp p;
    last_received_audio_sn = serial_number p;
    last_is_cn_packet = false;
  }

  decode_opus :
      (d : DownstreamProcessor Q X) (p : NetPacket) (out : List ℤ) (y : X)
      → dsp.opus_decode d.engines (payload p) ≡ (some out, y)
      → decode queue dsp audio_message d p silence
        ≡ (out, record d { engines = y; last_is_cn_packet = false })
  unfolding decode decode_into
  decode_opus d p out y e = rw e refl

  farend_state :
      (d : DownstreamProcessor Q X) (out : List ℤ) (z : X)
      → (if d.need_aec then dsp.buffer_farend d.engines out else some d.engines) ≡ some z
      → buffer_farend queue dsp d out ≡ some (record d { engines = z })
  unfolding buffer_farend
  farend_state d out z e = ground arith

  enqueue_state :
      (d : DownstreamProcessor Q X) (out : List ℤ) (p : NetPacket)
      → block_size ≤ length out
      → enqueue queue dsp out p (some d)
        ≡ some (record (verify_order queue dsp d p) {
          decoded_buffer =
              queue.push
                (record { time = timestamp p; samples = take block_size out })
                d.decoded_buffer;
        })
  unfolding enqueue
  enqueue_state d out p long = rw (ltb-false (length out) block_size long) refl

  after_decode : NetPacket → List ℤ × DownstreamProcessor Q X → Option (DownstreamProcessor Q X)
  after_decode p (pcm, s) = enqueue queue dsp pcm p (buffer_farend queue dsp s pcm)

  append-after_decode :
      (d : DownstreamProcessor Q X) (p : NetPacket)
      → append queue dsp d p ≡ after_decode p (decode queue dsp (payload_type p) d p silence)
  unfolding append after_decode
  append-after_decode d p = refl

  pub append-heard :
      (d : DownstreamProcessor Q X) (p : NetPacket) (out : List ℤ) (z : X)
      → payload_type p ≡ audio_message
      → Takes d.need_aec d.engines (payload p) out z
      → append queue dsp d p ≡ some (heard d p out z)
  unfolding after_decode verify_order
  append-heard d p out z kind w =
      let kept : DownstreamProcessor Q X = record d {
        engines = w.decoder;
        last_is_cn_packet = false;
      } in
      append-after_decode d p
      ∙ ap (λ k. after_decode p (decode queue dsp k d p silence)) kind
      ∙ ap (after_decode p) (decode_opus d p out w.decoder w.opus)
      ∙ ap (enqueue queue dsp out p) (farend_state kept out z w.cancels)
      ∙ enqueue_state (record kept { engines = z }) out p w.long

  pub heard-buffered :
      (d : DownstreamProcessor Q X) (p : NetPacket) (out : List ℤ) (z : X)
      → HasRoom queue dsp d
      → all_samples queue dsp (buffered queue dsp (heard d p out z))
        ≡ all_samples queue dsp (buffered queue dsp d) ++ (take block_size out ∷ [])
  heard-buffered d p out z room =
      samples-push queue dsp (record { time = timestamp p; samples = take block_size out })
        d.decoded_buffer room

  -- A fetch from a buffer that holds a segment.
  pub fetch-state :
      (d : DownstreamProcessor Q X) (first : Segment) (rest : List Segment)
      → buffered queue dsp d ≡ first ∷ rest
      → fetch queue dsp d ≡ (
        samples_of d.m1,
        record d { decoded_buffer = (queue.pop d.decoded_buffer).1; m2 = d.m1; m1 = some first },
      )
  unfolding fetch next_segment
  fetch-state d first rest e =
      let (popped, left) = queue.pop-front d.decoded_buffer first rest e in rw popped refl

-- ===== src/Audio/Downstream.antt =====
-- client_essential/audio_engine/: DownstreamProcessor.hpp and DownstreamProcessor.cpp, JitterBuffer.hpp,
-- PacketLossConcealment_ZeroInsertion.hpp and the part of Fade.hpp that it calls; decode of
-- client_essential/OpusDec.hpp. Boost's queue, opus, the comfort-noise generator and the echo
-- canceller are parameters, and so is the floating-point product of a sample and a factor.
pub mod Queue
pub mod Playback
pub mod Speech
pub mod Hearing
pub mod Blocks
pub mod Fetching
pub mod Dump
use easy_voice_call.Base.{
  ℕ, zero, suc, ◌+◌, Bool, true, false, List, [], ◌∷◌, ◌++◌, Option, none, some, length, take, drop,
  replicate, ltb, if◌then◌else◌,
}
use easy_voice_call.Base.Int.{ℤ, pos}
use easy_voice_call.NetPacket.{
  NetPacket, PayloadType, audio_message, audio_message_cn, payload, payload_type, timestamp,
  serial_number,
}
use easy_voice_call.Audio.{block_size, silence}
use Queue.{SpscQueue}

-- What the jitter buffer holds: a segment and the time of its packet.
pub record Segment : Type 0 where
  pub time : ℕ
  pub samples : List ℤ

-- The third-party codecs and filters, their joint state `X`. `opus_decode` gives `none` for an
-- error, `buffer_farend` for a result that is not 0; `scaled n v` is v * exp(-step * n) as an int16_t.
pub record Engines (X : Type 0) : Type 0 where
  pub opus_decode : X → List ℕ → Option (List ℤ) × X
  pub update_sid : X → List ℕ → X
  pub generate : X → List ℤ → Bool → List ℤ × X
  pub buffer_farend : X → List ℤ → Option X
  pub scaled : ℕ → ℤ → ℤ

pub record DownstreamProcessor (Q X : Type 0) : Type 0 where
  pub decoded_buffer : Q
  pub engines : X
  pub need_aec : Bool
  pub largest_received_media_data_timestamp : ℕ
  pub last_received_audio_sn : ℕ
  pub last_is_cn_packet : Bool
  pub m1 : Option Segment
  pub m2 : Option Segment

-- OpusDec::decode into `pcm_data`, which an error leaves as it is.
decode_into : List ℤ → Option (List ℤ) → List ℤ
decode_into pcm_data none = pcm_data
decode_into pcm_data (some out) = out

unfoldable pub fade_from : (ℕ → ℤ → ℤ) → ℕ → List ℤ → List ℤ
fade_from scaled n [] = []
fade_from scaled n (b ∷ bs) = scaled n b ∷ fade_from scaled (suc n) bs

-- FadeExponential::fade of FadeOut on two segments.
unfoldable pub fade_out : (ℕ → ℤ → ℤ) → Segment → Segment → Segment × Segment
unfolding fade_from
fade_out scaled a b = (
  record a { samples = fade_from scaled 0 a.samples },
  record b { samples = fade_from scaled block_size b.samples },
)

-- The memset of PacketLossConcealment_ZeroInsertion::predict clears `size()` bytes, half the samples.
unfoldable pub predict : (ℕ → ℤ → ℤ) → Segment → Segment → List ℤ → Segment × Segment × List ℤ
unfolding fade_out
predict scaled a b output =
    let (faded_a, faded_b) = fade_out scaled a b in
    (faded_a, faded_b, replicate 80 (pos 0) ++ drop 80 output)

abbrev pub samples_of : Option Segment → List ℤ
samples_of none = silence
samples_of (some segment) = segment.samples

module _ {Q X : Type 0} (queue : SpscQueue Segment Q) (dsp : Engines X) where
  -- The decoder and the filters have been set up to the state `x`.
  unfoldable pub init : X → Bool → DownstreamProcessor Q X
  init x need_aec = record {
    decoded_buffer = queue.new 100;
    engines = x;
    need_aec = need_aec;
    largest_received_media_data_timestamp = 0;
    last_received_audio_sn = 0;
    last_is_cn_packet = false;
    m1 = none;
    m2 = none;
  }

  unfoldable pub decode :
      PayloadType → DownstreamProcessor Q X → NetPacket → List ℤ → List ℤ × DownstreamProcessor Q X
  unfolding decode_into
  decode audio_message s p pcm =
      let (out, x) = dsp.opus_decode s.engines (payload p) in
      (decode_into pcm out, record s { engines = x; last_is_cn_packet = false })
  decode audio_message_cn s p pcm =
      let told = dsp.update_sid s.engines (payload p) in
      let (out, x) = dsp.generate told pcm s.last_is_cn_packet in
      (out, record s { engines = x; last_is_cn_packet = true })
  decode _ s p pcm = (pcm, s)

  -- `none` where `throw` without an exception ends the process.
  buffer_farend : DownstreamProcessor Q X → List ℤ → Option (DownstreamProcessor Q X)
  buffer_farend s pcm =
      if s.need_aec
      then elim (dsp.buffer_farend s.engines pcm) [
        | none ↦ none
        | some x ↦ some (record s { engines = x })
      ]
      else some s

  verify_order : DownstreamProcessor Q X → NetPacket → DownstreamProcessor Q X
  verify_order s p = record s {
    largest_received_media_data_timestamp =
        if ltb (timestamp p) s.largest_received_media_data_timestamp
        then s.largest_received_media_data_timestamp
        else timestamp p;
    last_received_audio_sn = serial_number p;
  }

  -- JitterBuffer::append of the first 160 samples; a decoder's shorter result would be read beyond its
  -- end, which is `none` too.
  enqueue : List ℤ → NetPacket → Option (DownstreamProcessor Q X) → Option (DownstreamProcessor Q X)
  unfolding verify_order
  enqueue pcm p none = none
  enqueue pcm p (some s) =
      if ltb (length pcm) block_size
      then none
      else some (record (verify_order s p) {
        decoded_buffer =
            queue.push (record { time = timestamp p; samples = take block_size pcm })
              s.decoded_buffer;
      })

  unfoldable pub append : DownstreamProcessor Q X → NetPacket → Option (DownstreamProcessor Q X)
  unfolding decode buffer_farend enqueue
  append s p =
      let (pcm, decoded) = decode (payload_type p) s p silence in
      enqueue pcm p (buffer_farend decoded pcm)

  -- The segment for an empty jitter buffer, which fades out the two before it.
  unfoldable pub conceal :
      Option Segment → Option Segment → DownstreamProcessor Q X → Segment × DownstreamProcessor Q X
  unfolding predict
  conceal (some a) (some b) s =
      let (faded_a, faded_b, zeroed) = predict dsp.scaled a b silence in
      let (tmp_cn, x) = dsp.generate s.engines silence s.last_is_cn_packet in
      (
        record { time = 0; samples = take block_size tmp_cn ++ drop block_size zeroed },
        record s { engines = x; last_is_cn_packet = true; m1 = some faded_a; m2 = some faded_b },
      )
  conceal _ _ s = (record { time = 0; samples = silence }, s)

  unfoldable pub next_segment :
      Option Segment → DownstreamProcessor Q X → Segment × DownstreamProcessor Q X
  unfolding conceal
  next_segment (some segment) s = (segment, s)
  next_segment none s = conceal s.m1 s.m2 s

  unfoldable pub fetch : DownstreamProcessor Q X → List ℤ × DownstreamProcessor Q X
  unfolding next_segment
  fetch s =
      let (fetched, rest) = queue.pop s.decoded_buffer in
      let (segment, t) = next_segment fetched (record s { decoded_buffer = rest }) in
      (samples_of t.m1, record t { m2 = t.m1; m1 = some segment })

-- ===== src/Worker/Sound.antt =====
-- The callback that init of client_essential/Worker.cpp hands to the sound card: one segment from the
-- microphone, or from the recording in its place, and one to the speaker.
pub mod Mute
use easy_voice_call.Base.{ℕ, Bool, List, [], ◌∷◌, ◌++◌, Option, none, some, if◌then◌else◌, memcpy}
use easy_voice_call.Base.Int.{ℤ}
use easy_voice_call.Audio.InStub.{AudioInStub, get}
use easy_voice_call.Audio.VolumeMeter.{AudioVolumeMeter, calculate}
use easy_voice_call.Audio.Downstream.{Segment, Engines, DownstreamProcessor, fetch}
use easy_voice_call.Audio.Downstream.Queue.{SpscQueue}
use easy_voice_call.Worker.Voice.{
  Filters, VoiceState, Clock, Event, volume_reported, ns_aec_volume_vad_send,
}

-- The members that the callback uses.
pub record SoundState (F Q X : Type 0) : Type 0 where
  pub voice : VoiceState F
  pub audio_in_stub : Option AudioInStub
  pub downstream_processor : Option (DownstreamProcessor Q X)
  pub volume_meter_out : AudioVolumeMeter

-- What the sound card and the clock give to a call: the input, the output buffer as it is handed over,
-- the local segment, which is not initialised, and the times of the two volume meters.
pub record Callback : Type 0 where
  pub input_buffer : List ℤ
  pub output_buffer : List ℤ
  pub out_data : List ℤ
  pub clock : Clock
  pub out_now : ℕ
  pub out_reset : ℕ
  pub out_raise : ℕ

pub record Played (F Q X : Type 0) : Type 0 where
  pub next : SoundState F Q X
  pub events : List Event
  pub output : List ℤ

unfoldable pub set_mute : {F Q X : Type 0} → Bool → SoundState F Q X → SoundState F Q X
set_mute b s = record s { voice = record (s.voice) { mute = b } }

unfoldable pub microphone : Option AudioInStub → List ℤ → List ℤ × Option AudioInStub
microphone none input = (input, none)
microphone (some stub) input = let (block, next) = get stub in (block, some next)

module _ {F Q X : Type 0} (filters : Filters F) (queue : SpscQueue Segment Q) (engines : Engines X)
    (git_tag : List ℕ) where
  -- The local segment, the output buffer and the processor after fetch.
  unfoldable pub speaker :
      Option (DownstreamProcessor Q X)
      → Callback
      → List ℤ × List ℤ × Option (DownstreamProcessor Q X)
  speaker none c = (c.out_data, c.output_buffer, none)
  speaker (some d) c =
      let (out_data, next) = fetch queue engines d in
      (out_data, memcpy c.output_buffer 0 out_data, some next)

  unfoldable pub play :
      SoundState F Q X → Callback → Bool → VoiceState F × List Event → Played F Q X
  unfolding speaker
  play s c has_volume (voice, events) =
      let (out_data, output, downstream) = speaker s.downstream_processor c in
      let (meter, volume) =
        calculate s.volume_meter_out out_data c.out_now c.out_reset c.out_raise in
      record {
        next = record s {
          voice = voice;
          downstream_processor = downstream;
          volume_meter_out = if has_volume then meter else s.volume_meter_out;
        };
        events = events ++ (if has_volume then volume_reported volume ∷ [] else []);
        output = output;
      }

  unfoldable pub after_voice :
      SoundState F Q X
      → Callback
      → Bool
      → Option (VoiceState F × List Event)
      → Option (Played F Q X)
  unfolding play
  after_voice s c has_volume none = none
  after_voice s c has_volume (some r) = some (play s c has_volume r)

  -- `none` is the end of the process, as in the voice path.
  unfoldable pub callback : SoundState F Q X → Callback → Bool → Bool → Option (Played F Q X)
  unfolding microphone after_voice
  callback s c has_volume has_vad =
      let (final_input_buffer, stub) = microphone s.audio_in_stub c.input_buffer in
      after_voice (record s { audio_in_stub = stub }) c has_volume
        (ns_aec_volume_vad_send filters git_tag s.voice final_input_buffer c.clock has_volume
          has_vad)

-- ===== src/Worker/Voice.antt =====
-- nsAecVolumeVadSend of client_essential/Worker.cpp: from the microphone's segment to the packet. The
-- noise suppression, echo canceller, voice detector and encoders are parameters with a joint state
-- `F`; the conversions to float around the echo canceller belong to its parameter. `none` stands for
-- `throw` without an exception, which ends the process, and for the exception of the constructor.
pub mod Gate
pub mod Numbered
pub mod Numbering
pub mod Speaking
use easy_voice_call.Base.{
  ℕ, zero, suc, ◌+◌, ◌-◌, ◌%◌, ◌^◌, Bool, true, false, List, [], ◌∷◌, ◌++◌, Option, none, some,
  length, ltb, ◌==◌, if◌then◌else◌,
}
use easy_voice_call.Base.Int.{ℤ}
use easy_voice_call.NetPacket.{
  NetPacket, PayloadType, audio_message, audio_message_cn, new_with_payload,
}
use easy_voice_call.Audio.VolumeMeter.{AudioVolumeMeter, AudioIoVolume, calculate, one_second}

-- `cancel_echo` and `encode` give `none` for an error; `detect_voice` is 1 for a voice.
pub record Filters (F : Type 0) : Type 0 where
  pub denoise : F → List ℤ → List ℤ × F
  pub cancel_echo : F → List ℤ → Option (List ℤ × F)
  pub detect_voice : F → List ℤ → ℕ × F
  pub encode : F → List ℤ → Option (List ℕ × F)
  pub encode_cn : F → List ℤ → List ℕ × F

-- The members that the voice path uses, and its static time stamp.
pub record VoiceState (F : Type 0) : Type 0 where
  pub filters : F
  pub need_aec : Bool
  pub mute : Bool
  pub volume_meter_in : AudioVolumeMeter
  pub vad_counter : ℕ
  pub send_opus : Bool
  pub last_time_stamp : ℕ
  pub sn_sending_audio : ℕ

-- What the clock says while one segment is handled.
pub record Clock : Type 0 where
  pub meter_now : ℕ
  pub meter_reset : ℕ
  pub meter_raise : ℕ
  pub now : ℕ
  pub later : ℕ
  pub up_time : ℕ

-- The calls of the reporters and of `send`.
pub data Event : Type 0 where
  volume_reported : AudioIoVolume → Event
  voice_reported : Bool → Event
  packet_sent : NetPacket → Event

module _ {F : Type 0} where
  -- `haveVoice`, and the end of the second in which voices are counted.
  unfoldable pub count_voice : VoiceState F → Bool → VoiceState F
  count_voice s have_voice =
      if have_voice
      then record s { vad_counter = (s.vad_counter + 1) % 2 ^ 8; send_opus = true }
      else s

  unfoldable pub close_window : VoiceState F → ℕ → ℕ → VoiceState F
  close_window s now later =
      if ltb one_second (now - s.last_time_stamp)
      then record s {
        send_opus = if s.vad_counter == 0 then false else s.send_opus;
        last_time_stamp = later;
        vad_counter = 0;
      }
      else s

  unfoldable pub gate : VoiceState F → Bool → ℕ → ℕ → VoiceState F
  unfolding count_voice close_window
  gate s have_voice now later = close_window (count_voice s have_voice) now later

module _ {F : Type 0} (dsp : Filters F) (git_tag : List ℕ) where
  -- The packet with the next serial number, if the constructor makes it.
  unfoldable pub send_if_made :
      VoiceState F → ℕ → Option NetPacket → Option (VoiceState F × List Event)
  send_if_made s sn none = none
  send_if_made s sn (some p) = some (record s { sn_sending_audio = sn }, packet_sent p ∷ [])

  unfoldable pub send_audio :
      VoiceState F → PayloadType → List ℕ → ℕ → Option (VoiceState F × List Event)
  unfolding send_if_made
  send_audio s t bytes up_time =
      let sn = (s.sn_sending_audio + 1) % 2 ^ 32 in
      send_if_made s sn (new_with_payload git_tag t sn up_time bytes)

  unfoldable pub send_encoded :
      VoiceState F → ℕ → Option (List ℕ × F) → Option (VoiceState F × List Event)
  unfolding send_audio
  send_encoded s up_time none = none
  send_encoded s up_time (some (bytes, f)) =
      send_audio (record s { filters = f }) audio_message bytes up_time

  unfoldable pub send_segment : VoiceState F → List ℤ → ℕ → Option (VoiceState F × List Event)
  unfolding send_encoded send_audio
  send_segment s segment up_time =
      if s.send_opus
      then send_encoded s up_time (dsp.encode s.filters segment)
      else let (output, f) = dsp.encode_cn s.filters segment in
        if ltb 0 (length output)
        then send_audio (record s { filters = f }) audio_message_cn output up_time
        else some (record s { filters = f }, [])

  unfoldable pub prepend :
      List Event → Option (VoiceState F × List Event) → Option (VoiceState F × List Event)
  prepend es none = none
  prepend es (some (s, more)) = some (s, es ++ more)

  -- What follows the echo canceller, with the samples that are measured and those that are sent.
  unfoldable pub measure_and_send :
      VoiceState F → List ℤ → List ℤ → Clock → Bool → Bool → Option (VoiceState F × List Event)
  unfolding prepend send_segment gate
  measure_and_send s denoised to_be_send clock has_volume has_vad =
      let (meter, volume) =
        calculate s.volume_meter_in denoised clock.meter_now clock.meter_reset clock.meter_raise in
      let (verdict, f) = dsp.detect_voice s.filters denoised in
      let have_voice = verdict == 1 in
      let measured : VoiceState F = record s {
        volume_meter_in = if has_volume then meter else s.volume_meter_in;
        filters = f;
      } in
      prepend
        ((if has_volume then volume_reported volume ∷ [] else [])
          ++ (if has_vad then voice_reported have_voice ∷ [] else []))
        (send_segment (gate measured have_voice clock.now clock.later) to_be_send clock.up_time)

  unfoldable pub send_cancelled :
      VoiceState F
      → List ℤ
      → Clock
      → Bool
      → Bool
      → Option (List ℤ × F)
      → Option (VoiceState F × List Event)
  unfolding measure_and_send
  send_cancelled s denoised clock has_volume has_vad none = none
  send_cancelled s denoised clock has_volume has_vad (some (cancelled, f)) =
      measure_and_send (record s { filters = f }) denoised cancelled clock has_volume has_vad

  -- `has_volume` and `has_vad` say which reporters are set.
  unfoldable pub ns_aec_volume_vad_send :
      VoiceState F → List ℤ → Clock → Bool → Bool → Option (VoiceState F × List Event)
  unfolding send_cancelled measure_and_send
  ns_aec_volume_vad_send s buffer clock has_volume has_vad =
      if s.mute
      then some (s, [])
      else let (denoised, f) = dsp.denoise s.filters buffer in
        let quiet : VoiceState F = record s { filters = f } in
        if s.need_aec
        then send_cancelled quiet denoised clock has_volume has_vad (dsp.cancel_echo f denoised)
        else measure_and_send quiet denoised denoised clock has_volume has_vad

-- ===== src/Worker/Voice/Numbering.antt =====
-- The serial numbers of the audio packets that Worker.cpp sends.
use easy_voice_call.Base.{
  ℕ, ◌+◌, ◌%◌, ◌^◌, ◌≤◌, ◌<◌, ◌≡◌, ◌⊎◌, refl, sym, subst, ap, ◌∙◌, Bool, List, [], ◌∷◌, ◌++◌,
  Option, none, some, length, ltb, ◌==◌, if◌then◌else◌, arith, All, inl, inr,
}
use easy_voice_call.Base.Int.{ℤ}
use easy_voice_call.NetPacket.{PayloadType, audio_message, audio_message_cn}
use easy_voice_call.NetPacket.Fields.{new_with_payload-Carries}
use easy_voice_call.NetPacket.Layout.{IsType}
use easy_voice_call.Audio.VolumeMeter.{calculate}
use easy_voice_call.Worker.Voice.{
  Filters, VoiceState, Clock, Event, packet_sent, count_voice, close_window, gate, send_if_made,
  send_audio, send_encoded, send_segment, prepend, measure_and_send, send_cancelled,
  ns_aec_volume_vad_send,
}
use easy_voice_call.Worker.Voice.Numbered.{
  Numbered-append, Sends, if-Sends, prepend-Sends, reports-Numbered, ends, sends,
}

-- Filters and encoders that report no error, and encodings that fit a packet.
pub record Works {F : Type 0} (dsp : Filters F) : Type 0 where
  pub encodes :
      (f : F) (segment : List ℤ)
      → (bytes : List ℕ) × (g : F) × (dsp.encode f segment ≡ some (bytes, g))
        × (length bytes < 2 ^ 16)
  pub encodes_cn : (f : F) (segment : List ℤ) → length (dsp.encode_cn f segment).0 < 2 ^ 16
  pub cancels :
      (f : F) (segment : List ℤ)
      → (samples : List ℤ) × (g : F) × (dsp.cancel_echo f segment ≡ some (samples, g))

module _ {F : Type 0} (dsp : Filters F) (works : Works dsp) (git_tag : List ℕ)
    (tagged : 4 ≤ length git_tag) where
  send_audio-Sends :
      (s : VoiceState F) (t : PayloadType) (bytes : List ℕ) (up : ℕ)
      → IsType t
      → (t ≡ audio_message) ⊎ (t ≡ audio_message_cn)
      → up < 2 ^ 32
      → length bytes < 2 ^ 16
      → Sends s.sn_sending_audio (send_audio dsp git_tag s t bytes up)
  unfolding send_audio send_if_made
  send_audio-Sends s t bytes up typed audio up_fits fits =
      let sn = (s.sn_sending_audio + 1) % 2 ^ 32 in
      let (p, built, carries) =
        new_with_payload-Carries git_tag t sn up bytes tagged typed (omega arith) up_fits fits in
      record {
        next = record s { sn_sending_audio = sn };
        events = packet_sent p ∷ [];
        made = ap (send_if_made dsp git_tag s sn) built;
        numbered =
            sends p carries.serial_read
              (subst (λ (k : PayloadType). (k ≡ audio_message) ⊎ (k ≡ audio_message_cn))
                (sym carries.type_read) audio)
              ends;
      }

  send_segment-Sends :
      (s : VoiceState F) (segment : List ℤ) (up : ℕ)
      → up < 2 ^ 32
      → Sends s.sn_sending_audio (send_segment dsp git_tag s segment up)
  unfolding send_segment send_encoded
  send_segment-Sends s segment up up_fits =
      let (bytes, g, encoded, fits) = works.encodes s.filters segment in
      let output = (dsp.encode_cn s.filters segment).0 in
      if-Sends s.send_opus
        (rw encoded (
          send_audio-Sends (record s { filters = g }) audio_message bytes up tt (inl refl) up_fits
            fits))
        (if-Sends (ltb 0 (length output))
          (send_audio-Sends (record s { filters = (dsp.encode_cn s.filters segment).1 })
            audio_message_cn output up tt (inr refl) up_fits (works.encodes_cn s.filters segment))
          (record {
            next = record s { filters = (dsp.encode_cn s.filters segment).1 };
            events = [];
            made = refl;
            numbered = ends;
          }))

  gate-sn :
      (s : VoiceState F) (voice : Bool) (now later : ℕ)
      → (gate s voice now later).sn_sending_audio ≡ s.sn_sending_audio
  unfolding gate count_voice close_window
  gate-sn s voice now later = ground arith

  gated-Sends :
      (s : VoiceState F) (segment : List ℤ) (clock : Clock) (voice : Bool)
      → clock.up_time < 2 ^ 32
      → Sends s.sn_sending_audio
          (send_segment dsp git_tag (gate s voice clock.now clock.later) segment clock.up_time)
  gated-Sends s segment clock voice up_fits =
      let t = gate s voice clock.now clock.later in
      subst (λ (n : ℕ). Sends n (send_segment dsp git_tag t segment clock.up_time))
        (gate-sn s voice clock.now clock.later) (send_segment-Sends t segment clock.up_time up_fits)

  measure_and_send-Sends :
      (s : VoiceState F) (denoised to_be_send : List ℤ) (clock : Clock) (has_volume has_vad : Bool)
      → clock.up_time < 2 ^ 32
      → Sends s.sn_sending_audio
          (measure_and_send dsp git_tag s denoised to_be_send clock has_volume has_vad)
  unfolding measure_and_send
  measure_and_send-Sends s denoised to_be_send clock has_volume has_vad up_fits =
      let (meter, volume) =
        calculate s.volume_meter_in denoised clock.meter_now clock.meter_reset clock.meter_raise in
      let (verdict, f) = dsp.detect_voice s.filters denoised in
      let measured : VoiceState F = record s {
        volume_meter_in = if has_volume then meter else s.volume_meter_in;
        filters = f;
      } in
      prepend-Sends dsp git_tag _ _ (reports-Numbered has_volume has_vad volume (verdict == 1))
        (gated-Sends measured to_be_send clock (verdict == 1) up_fits)

  segment-Sends :
      (s : VoiceState F) (buffer : List ℤ) (clock : Clock) (has_volume has_vad : Bool)
      → clock.up_time < 2 ^ 32
      → Sends s.sn_sending_audio
          (ns_aec_volume_vad_send dsp git_tag s buffer clock has_volume has_vad)
  unfolding ns_aec_volume_vad_send send_cancelled
  segment-Sends s buffer clock has_volume has_vad up_fits =
      let (denoised, f) = dsp.denoise s.filters buffer in
      let (cancelled, g, done) = works.cancels f denoised in
      if-Sends s.mute (record { next = s; events = []; made = refl; numbered = ends })
        (if-Sends s.need_aec
          (rw done (
            measure_and_send-Sends (record s { filters = g }) denoised cancelled clock has_volume
              has_vad up_fits))
          (measure_and_send-Sends (record s { filters = f }) denoised denoised clock has_volume
            has_vad up_fits))

-- A segment of the microphone and what the clock says.
pub record Captured : Type 0 where
  pub buffer : List ℤ
  pub clock : Clock

module _ {F : Type 0} (dsp : Filters F) (git_tag : List ℕ) (has_volume has_vad : Bool) where
  -- The calls of the sound card, one after the other.
  continue_with :
      (VoiceState F → Option (VoiceState F × List Event))
      → Option (VoiceState F × List Event)
      → Option (VoiceState F × List Event)
  continue_with more none = none
  continue_with more (some (s, es)) = prepend dsp git_tag es (more s)

  pub run : List Captured → VoiceState F → Option (VoiceState F × List Event)
  unfolding continue_with
  run [] s = some (s, [])
  run (c ∷ cs) s =
      continue_with (run cs)
        (ns_aec_volume_vad_send dsp git_tag s c.buffer c.clock has_volume has_vad)

  continue_with-Sends :
      {n : ℕ} (more : VoiceState F → Option (VoiceState F × List Event))
      (o : Option (VoiceState F × List Event))
      → ((s : VoiceState F) → Sends s.sn_sending_audio (more s))
      → Sends n o
      → Sends n (continue_with more o)
  unfolding continue_with prepend
  continue_with-Sends more o follows sent =
      let rest = follows sent.next in
      record {
        next = rest.next;
        events = sent.events ++ rest.events;
        made = ap (continue_with more) sent.made ∙ ap (prepend dsp git_tag sent.events) rest.made;
        numbered = Numbered-append sent.numbered rest.numbered;
      }

  -- While filters and encoders report no error, every segment of the microphone is handled, and the
  -- packets sent are audio packets numbered one after the other, modulo 2^32, from the number after
  -- the last one sent, through speech, comfort noise and silence. The version string has four bytes at
  -- least, and the times fit 32 bits.
  pub run-Sends :
      Works dsp
      → 4 ≤ length git_tag
      → (cs : List Captured) (s : VoiceState F) → All (λ c. c.clock.up_time < 2 ^ 32) cs
      → Sends s.sn_sending_audio (run cs s)
  unfolding run
  run-Sends works tagged [] s up_fits = record {
    next = s;
    events = [];
    made = refl;
    numbered = ends;
  }
  run-Sends works tagged (c ∷ cs) s up_fits =
      continue_with-Sends (run cs) _ (λ t. run-Sends works tagged cs t up_fits.1)
        (segment-Sends dsp works git_tag tagged s c.buffer c.clock has_volume has_vad up_fits.0)

-- ===== src/Worker/Voice/Speaking.antt =====
-- A segment of speech on its way into a packet.
use easy_voice_call.Base.{ℕ, ◌+◌, ◌%◌, ◌^◌, ◌≡◌, refl, true, List, [], ◌∷◌, some}
use easy_voice_call.Base.Int.{ℤ}
use easy_voice_call.NetPacket.{NetPacket, audio_message, new_with_payload}
use easy_voice_call.Worker.Voice.{
  Filters, VoiceState, packet_sent, send_if_made, send_audio, send_encoded, send_segment,
}

-- Speech is encoded, and what the encoder makes of it is sent with the next serial number.
pub send_segment-speech :
    {F : Type 0} (dsp : Filters F) (git_tag : List ℕ) (s : VoiceState F) (segment : List ℤ) (up : ℕ)
    (bytes : List ℕ) (f : F) (p : NetPacket)
    → s.send_opus ≡ true
    → dsp.encode s.filters segment ≡ some (bytes, f)
    → new_with_payload git_tag audio_message ((s.sn_sending_audio + 1) % 2 ^ 32) up bytes ≡ some p
    → send_segment dsp git_tag s segment up
      ≡ some (
        record s { filters = f; sn_sending_audio = (s.sn_sending_audio + 1) % 2 ^ 32 },
        packet_sent p ∷ [],
      )
unfolding send_segment send_encoded send_audio send_if_made
send_segment-speech dsp git_tag s segment up bytes f p speaks encoded made =
    rw (speaks, encoded, made) refl

-- ===== src/Worker/Voice/Numbered.antt =====
-- Events of Worker.cpp whose audio packets are numbered one after the other.
use easy_voice_call.Base.{
  ℕ, ◌+◌, ◌%◌, ◌^◌, ◌≡◌, ◌⊎◌, ap, Bool, true, false, List, [], ◌∷◌, ◌++◌, Option, some,
  if◌then◌else◌,
}
use easy_voice_call.NetPacket.{
  NetPacket, audio_message, audio_message_cn, serial_number, payload_type,
}
use easy_voice_call.Audio.VolumeMeter.{AudioIoVolume}
use easy_voice_call.Worker.Voice.{
  Filters, VoiceState, Event, volume_reported, voice_reported, packet_sent, prepend,
}

-- Events whose packets are audio and have the serial numbers from `n + 1` to `m`, modulo 2^32.
pub data Numbered : (n : ℕ) → (es : List Event) → (m : ℕ) → Type 0 where
  ends : {n : ℕ} → Numbered n [] n
  reports_volume :
      {n m : ℕ} {es : List Event}
      → (v : AudioIoVolume) → Numbered n es m
      → Numbered n (volume_reported v ∷ es) m
  reports_voice :
      {n m : ℕ} {es : List Event}
      → (b : Bool) → Numbered n es m
      → Numbered n (voice_reported b ∷ es) m
  sends :
      {n m : ℕ} {es : List Event}
      → (p : NetPacket) → serial_number p ≡ (n + 1) % 2 ^ 32
      → (payload_type p ≡ audio_message) ⊎ (payload_type p ≡ audio_message_cn)
      → Numbered ((n + 1) % 2 ^ 32) es m
      → Numbered n (packet_sent p ∷ es) m

pub Numbered-append :
    {n m k : ℕ} {es fs : List Event} → Numbered n es m → Numbered m fs k → Numbered n (es ++ fs) k
Numbered-append ends b = b
Numbered-append (reports_volume v a) b = reports_volume v (Numbered-append a b)
Numbered-append (reports_voice v a) b = reports_voice v (Numbered-append a b)
Numbered-append (sends p e t a) b = sends p e t (Numbered-append a b)

module _ {F : Type 0} where
  -- A step that succeeds and whose packets are numbered from `n + 1` on.
  pub record Sends (n : ℕ) (o : Option (VoiceState F × List Event)) : Type 0 where
    pub next : VoiceState F
    pub events : List Event
    pub made : o ≡ some (next, events)
    pub numbered : Numbered n events next.sn_sending_audio

module _ {F : Type 0} {n : ℕ} where
  pub if-Sends :
      (b : Bool) {x y : Option (VoiceState F × List Event)}
      → Sends n x
      → Sends n y
      → Sends n (if b then x else y)
  if-Sends true hx hy = hx
  if-Sends false hx hy = hy

  pub prepend-Sends :
      (dsp : Filters F) (git_tag : List ℕ) (es : List Event)
      (o : Option (VoiceState F × List Event))
      → Numbered n es n
      → Sends n o
      → Sends n (prepend dsp git_tag es o)
  unfolding prepend
  prepend-Sends dsp git_tag es o reports sent = record {
    next = sent.next;
    events = es ++ sent.events;
    made = ap (prepend dsp git_tag es) sent.made;
    numbered = Numbered-append reports sent.numbered;
  }

pub reports-Numbered :
    {n : ℕ} (has_volume has_vad : Bool) (v : AudioIoVolume) (voice : Bool)
    → Numbered n
        ((if has_volume then volume_reported v ∷ [] else [])
          ++ (if has_vad then voice_reported voice ∷ [] else []))
        n
reports-Numbered true true v voice = reports_volume v (reports_voice voice ends)
reports-Numbered true false v voice = reports_volume v ends
reports-Numbered false true v voice = reports_voice voice ends
reports-Numbered false false v voice = ends

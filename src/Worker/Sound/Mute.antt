-- ===== src/Worker/Sound/Mute.antt =====
-- What mute changes, and what it does not.
use easy_voice_call.Base.{
  ℕ, ◌≡◌, refl, ap, Bool, true, false, List, [], ◌∷◌, Option, none, some, if◌then◌else◌, All,
}
use easy_voice_call.Audio.Downstream.{Segment, Engines}
use easy_voice_call.Audio.Downstream.Queue.{SpscQueue}
use easy_voice_call.Worker.Voice.{
  Filters, VoiceState, Event, volume_reported, voice_reported, packet_sent, ns_aec_volume_vad_send,
}
use easy_voice_call.Worker.Sound.{
  SoundState, Callback, Played, microphone, set_mute, play, after_voice, callback,
}

abbrev pub is_packet : Event → Bool
is_packet (packet_sent p) = true
is_packet (volume_reported v) = false
is_packet (voice_reported b) = false

module _ {F Q X : Type 0} (filters : Filters F) (queue : SpscQueue Segment Q) (engines : Engines X)
    (git_tag : List ℕ) (has_volume has_vad : Bool) where
  -- What a call does with the microphone muted, beside what it does now.
  pub record Muted (s : SoundState F Q X) (c : Callback) (now : Played F Q X) : Type 0 where
    pub muted : Played F Q X
    pub returns :
        callback filters queue engines git_tag (set_mute true s) c has_volume has_vad ≡ some muted
    pub silent : All (λ e. is_packet e ≡ false) muted.events
    pub voice_kept : muted.next.voice ≡ (set_mute true s).voice
    pub output_same : muted.output ≡ now.output
    pub downstream_same : muted.next.downstream_processor ≡ now.next.downstream_processor
    pub stub_same : muted.next.audio_in_stub ≡ now.next.audio_in_stub
    pub meter_same : muted.next.volume_meter_out ≡ now.next.volume_meter_out

  after_voice-some :
      (s : SoundState F Q X) (c : Callback) (o : Option (VoiceState F × List Event))
      (q : Played F Q X)
      → after_voice filters queue engines git_tag s c has_volume o ≡ some q
      → (r : VoiceState F × List Event) × (play filters queue engines git_tag s c has_volume r ≡ q)
  unfolding after_voice
  after_voice-some s c none q e = absurd cc
  after_voice-some s c (some r) q e = (r, cc)

  volume-All :
      (b : Bool) (e : Event)
      → is_packet e ≡ false
      → All (λ x. is_packet x ≡ false) (if b then e ∷ [] else [])
  volume-All true e h = (h, tt)
  volume-All false e h = tt

  -- Whatever a call of the callback does, with the microphone muted it returns too, sends no packet
  -- and leaves the voice path as it is, but plays the same samples, and the recording, the downstream
  -- processor and the meter of the speaker go on in the same way.
  pub callback-Muted :
      (s : SoundState F Q X) (c : Callback) (q : Played F Q X)
      → callback filters queue engines git_tag s c has_volume has_vad ≡ some q
      → Muted s c q
  unfolding callback set_mute play after_voice ns_aec_volume_vad_send
  callback-Muted s c q e =
      let stub = (microphone s.audio_in_stub c.input_buffer).1 in
      let t : SoundState F Q X = record s { audio_in_stub = stub } in
      let voice : VoiceState F = record (s.voice) { mute = true } in
      let (r, same) = after_voice-some t c _ q e in
      let quiet : Played F Q X =
        play filters queue engines git_tag (record (set_mute true s) { audio_in_stub = stub }) c
          has_volume (voice, []) in
      record {
        muted = quiet;
        returns = refl;
        silent = volume-All has_volume _ refl;
        voice_kept = refl;
        output_same = ap (λ (p : Played F Q X). p.output) same;
        downstream_same = ap (λ (p : Played F Q X). p.next.downstream_processor) same;
        stub_same = ap (λ (p : Played F Q X). p.next.audio_in_stub) same;
        meter_same = ap (λ (p : Played F Q X). p.next.volume_meter_out) same;
      }

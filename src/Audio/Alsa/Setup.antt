-- ===== src/Audio/Alsa/Setup.antt =====
-- When the sound card can be set up.
use Prim.Native.String.{String}
use easy_voice_call.Base.{
  ◌≡◌, refl, ◌∙◌, Bool, true, not, ◌&&◌, List, [], ◌∷◌, if◌then◌else◌, arith,
}
use easy_voice_call.Base.Int.{ℤ, pos, is_negative}
use easy_voice_call.ReturnType.{ReturnType, of_int, of_text}
use easy_voice_call.Audio.Alsa.{Configuring, Opening, unless_negative, configure_device, init}

abbrev pub none_negative : List ℤ → Bool
none_negative [] = true
none_negative (e ∷ es) = not (is_negative e) && none_negative es

-- The results of the nine calls, in their order.
abbrev pub results : Configuring → List ℤ
results c =
    c.params_malloc ∷ c.params_any ∷ c.set_access ∷ c.set_format ∷ c.set_rate_near ∷ c.set_channels
    ∷ c.set_periods_near ∷ c.set_buffer_size_near ∷ c.params ∷ []

unless_negative-ok :
    (err : ℤ) (message : String) (rest : ReturnType)
    → (unless_negative err message rest).ok ≡ (not (is_negative err) && rest.ok)
unfolding unless_negative of_text
unless_negative-ok err message rest = ground arith

two_devices :
    (e f : ℤ) (message : String) (r s : ReturnType)
    → (unless_negative e message (
        if not r.ok
        then r
        else unless_negative f message (if not s.ok then s else of_int (pos 0)))).ok
      ≡ (not (is_negative e) && (r.ok && (not (is_negative f) && s.ok)))
unfolding unless_negative of_text of_int
two_devices e f message r s = ground arith

configure_device-ok : (c : Configuring) → (configure_device c).ok ≡ none_negative (results c)
unfolding configure_device of_int
configure_device-ok c = simp unless_negative-ok refl

-- init reports success exactly if both devices are opened and each of their eighteen settings is made.
pub init-ok :
    (o : Opening)
    → (init o).ok ≡ (
        not (is_negative o.open_capture)
        && (none_negative (results o.capture)
            && (not (is_negative o.open_play) && none_negative (results o.play))))
unfolding init
init-ok o =
    two_devices o.open_capture o.open_play "snd_pcm_open != 0" (configure_device o.capture)
      (configure_device o.play)
    ∙ rw (configure_device-ok o.capture, configure_device-ok o.play) refl

-- ===== src/Audio/Endpoint/Starting.antt =====
-- What an endpoint over PortAudio is ready for.
use easy_voice_call.Base.{◌≡◌, refl, ◌&&◌, if◌then◌else◌, Bool-cases, inl, inr}
use easy_voice_call.Base.Int.{ℤ, pos, eq}
use easy_voice_call.ReturnType.{ReturnType, of_int, of_text}
use easy_voice_call.Audio.Endpoint.{
  Callback, PortAudio, PortaudioEndpoint, init, initialized, opened, failed, stream_callback,
}

module _ {P W : Type 0} (pa : PortAudio P) where
  -- What init leaves: the result is success exactly if both calls return paNoError, and the stream
  -- calls the worker's function then, and what it has called before otherwise.
  pub record Starts (s : PortaudioEndpoint P W) (f : Callback W)
      (r : PortaudioEndpoint P W × ReturnType) : Type 0 where
    pub succeeds : r.1.ok ≡ (
        eq (pa.initialize s.port_audio).0 (pos 0)
        && eq (pa.open_default_stream (pa.initialize s.port_audio).1).0 (pos 0))
    pub plays :
        stream_callback r.0.callback_func ≡ (if r.1.ok then f else stream_callback s.callback_func)

  opened-Starts :
      (s : PortaudioEndpoint P W) (f : Callback W) (r : ℤ × P)
      → ((opened pa s f r).1.ok ≡ eq r.0 (pos 0))
        × (stream_callback (opened pa s f r).0.callback_func
            ≡ (if (opened pa s f r).1.ok then f else stream_callback s.callback_func))
  unfolding opened failed stream_callback of_int of_text
  opened-Starts s f (err, p) = elim (Bool-cases (eq err (pos 0))) [
    | inl good ↦ rw good (refl, refl)
    | inr bad ↦ rw bad (refl, refl)
  ]

  -- init of the endpoint over PortAudio succeeds exactly if PortAudio has been initialised and the
  -- stream opened, and the stream calls the worker's function from then on; otherwise it calls what it
  -- has called before, and nothing if there was nothing.
  pub init-Starts : (s : PortaudioEndpoint P W) (f : Callback W) → Starts s f (init pa s f)
  unfolding init initialized failed of_text
  init-Starts s f = elim (Bool-cases (eq (pa.initialize s.port_audio).0 (pos 0))) [
    | inl good ↦
        let (done, sound) =
          opened-Starts s f (pa.open_default_stream (pa.initialize s.port_audio).1) in
        record { succeeds = rw good done; plays = rw good sound }
    | inr bad ↦ record { succeeds = rw bad refl; plays = rw bad refl }
  ]

-- ===== src/Audio/Endpoint/Stub.antt =====
-- client_essential/CallbackStyleAudioEndpointStub.hpp, whose buffers stand for microphone and speaker.
use easy_voice_call.Base.{ℕ, zero, suc, ◌≡◌, refl, Bool, true, false, List, Option, none, some}
use easy_voice_call.Base.Int.{ℤ, pos}
use easy_voice_call.ReturnType.{ReturnType, of_int}
use easy_voice_call.Audio.{silence}
use easy_voice_call.Audio.Endpoint.{Callback}

pub record AudioEndpointStub (W : Type 0) : Type 0 where
  pub callback_func : Option (Callback W)
  pub is_started : Bool
  pub audio_in_stub : List ℤ
  pub audio_out_stub : List ℤ

module _ {W : Type 0} where
  -- A static object: its buffers are zero.
  pub create : AudioEndpointStub W
  create = record {
    callback_func = none;
    is_started = false;
    audio_in_stub = silence;
    audio_out_stub = silence;
  }

  pub init : AudioEndpointStub W → Callback W → AudioEndpointStub W × ReturnType
  unfolding of_int
  init s f = (record s { callback_func = some f }, of_int (pos 0))

  pub sync_stop : AudioEndpointStub W → AudioEndpointStub W × ReturnType
  unfolding of_int
  sync_stop s = (record s { is_started = false }, of_int (pos 0))

  -- The loop of asyncStart, which finds `started_` set `n` times, until another thread calls syncStop.
  -- The call of an empty function raises: `none`.
  play_rounds : ℕ → Option (Callback W) → AudioEndpointStub W → W → Option (AudioEndpointStub W × W)
  unfolding sync_stop
  play_rounds zero f s w = some ((sync_stop s).0, w)
  play_rounds (suc n) none s w = none
  play_rounds (suc n) (some f) s w =
      let (next, out) = f w s.audio_in_stub s.audio_out_stub in
      play_rounds n (some f) (record s { audio_out_stub = out }) next

  pub async_start : ℕ → AudioEndpointStub W → W → Option (AudioEndpointStub W × W)
  unfolding play_rounds
  async_start n s w = play_rounds n s.callback_func (record s { is_started = true }) w

  -- The worker's function, called `n` times, each time with the same microphone.
  abbrev pub calls : ℕ → Callback W → List ℤ → W → List ℤ → W × List ℤ
  calls zero f mic w speaker = (w, speaker)
  calls (suc n) f mic w speaker = let (next, out) = f w mic speaker in calls n f mic next out

  rounds-calls :
      (n : ℕ) (f : Callback W) (s : AudioEndpointStub W) (w : W)
      → play_rounds n (some f) s w
        ≡ some (
          record s {
            is_started = false;
            audio_out_stub = (calls n f s.audio_in_stub w s.audio_out_stub).1;
          },
          (calls n f s.audio_in_stub w s.audio_out_stub).0,
        )
  unfolding play_rounds sync_stop
  rounds-calls zero f s w = refl
  rounds-calls (suc n) f s w =
      let (next, out) = f w s.audio_in_stub s.audio_out_stub in
      rounds-calls n f (record s { audio_out_stub = out }) next

  -- A stub that has been initialised calls the worker's function in every round with silence as the
  -- microphone, leaves what the function leaves as the speaker's buffer, and is stopped then.
  pub async_start-calls :
      (n : ℕ) (f : Callback W) (w : W)
      → async_start n (init create f).0 w
        ≡ some (
          record {
            callback_func = some f;
            is_started = false;
            audio_in_stub = silence;
            audio_out_stub = (calls n f silence w silence).1;
          },
          (calls n f silence w silence).0,
        )
  unfolding async_start init create
  async_start-calls n f w =
      rounds-calls n f
        (record {
          callback_func = some f;
          is_started = true;
          audio_in_stub = silence;
          audio_out_stub = silence;
        })
        w

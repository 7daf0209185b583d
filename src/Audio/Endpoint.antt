-- ===== src/Audio/Endpoint.antt =====
-- client_essential/CallbackStyleAudioEndpoint.cpp and the endpoint over PortAudio,
-- CallbackStylePortaudioEndpoint.hpp. What PortAudio does is a parameter, whose state `P` the stream
-- belongs to. `W` is the state of the worker whose function an endpoint calls.
pub mod Starting
pub mod Aaudio
pub mod Stub
use Prim.Native.String.{String}
use easy_voice_call.Base.{Bool, true, false, not, List, ◌∷◌, Option, none, some, if◌then◌else◌}
use easy_voice_call.Base.Int.{ℤ, pos, eq}
use easy_voice_call.ReturnType.{ReturnType, of_int, of_text}

-- The worker's function: from the microphone's samples and the speaker's buffer to that buffer.
abbrev pub Callback : Type 0 → Type 0
Callback W = W → List ℤ → List ℤ → W × List ℤ

-- The calls of PortAudio, with the PaError that they return; paNoError is 0.
pub record PortAudio (P : Type 0) : Type 0 where
  pub initialize : P → ℤ × P
  pub open_default_stream : P → ℤ × P
  pub start_stream : P → ℤ × P
  pub stop_stream : P → ℤ × P
  pub error_text : ℤ → String

pub data Kind : Type 0 where
  portaudio : Kind
  aaudio : Kind
  stub : Kind

-- CallbackStyleAudioEndpoint::create, built for Android or not.
pub create : Bool → Bool → Kind
create for_android true = if for_android then aaudio else portaudio
create for_android false = stub

pub record PortaudioEndpoint (P W : Type 0) : Type 0 where
  pub port_audio : P
  pub callback_func : Option (Callback W)

-- sFuncPaStreamCallback, which always asks to go on.
pub stream_callback : {W : Type 0} → Option (Callback W) → Callback W
stream_callback none w input output = (w, output)
stream_callback (some f) w input output = f w input output

failed : ℤ → Bool
failed err = not (eq err (pos 0))

module _ {P W : Type 0} (pa : PortAudio P) where
  opened : PortaudioEndpoint P W → Callback W → ℤ × P → PortaudioEndpoint P W × ReturnType
  unfolding failed of_int of_text
  opened s f (err, p) =
      if failed err
      then (record s { port_audio = p }, of_text (pa.error_text err))
      else (record { port_audio = p; callback_func = some f }, of_int (pos 0))

  initialized : PortaudioEndpoint P W → Callback W → ℤ × P → PortaudioEndpoint P W × ReturnType
  unfolding failed opened of_text
  initialized s f (err, p) =
      if failed err
      then (record s { port_audio = p }, of_text (pa.error_text err))
      else opened s f (pa.open_default_stream p)

  pub init : PortaudioEndpoint P W → Callback W → PortaudioEndpoint P W × ReturnType
  unfolding initialized
  init s f = initialized s f (pa.initialize s.port_audio)

  started : PortaudioEndpoint P W → ℤ × P → PortaudioEndpoint P W × ReturnType
  unfolding failed of_int
  started s (err, p) =
      (record s { port_audio = p }, if failed err then of_int err else of_int (pos 0))

  pub async_start : PortaudioEndpoint P W → PortaudioEndpoint P W × ReturnType
  unfolding started
  async_start s = started s (pa.start_stream s.port_audio)

  -- An error of Pa_StopStream is dropped.
  pub sync_stop : PortaudioEndpoint P W → PortaudioEndpoint P W × ReturnType
  unfolding of_int
  sync_stop s = (record s { port_audio = (pa.stop_stream s.port_audio).1 }, of_int (pos 0))

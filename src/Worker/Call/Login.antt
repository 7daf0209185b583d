-- ===== src/Worker/Call/Login.antt =====
-- How a call comes about, or does not: the phases of syncStart in client_essential/Worker.cpp.
use Prim.Native.String.{String}
use easy_voice_call.Base.{ℕ, ◌≤◌, ◌≡◌, Bool, false, List, [], ◌∷◌, if◌then◌else◌}
use easy_voice_call.ReturnType.{ReturnType}
use easy_voice_call.Worker.Call.{Action, connected, disconnected}
use easy_voice_call.Worker.Call.Trace.{states, endpoint_starts, slept_ms}

-- What a call reports if the server accepts it (`accepted`), and if not.
pub record Outcome (accepted : Bool) (patience : ℕ) (actions : List Action) (result : ReturnType)
    : Type 0 where
  pub one_state : states actions ≡ (if accepted then connected else disconnected) ∷ []
  pub sound : endpoint_starts actions ≡ (if accepted then 1 else 0)
  pub returned : result.ok ≡ accepted
  pub gives_up : accepted ≡ false → slept_ms actions ≤ patience

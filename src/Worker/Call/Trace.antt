-- ===== src/Worker/Call/Trace.antt =====
-- What the trace of a call in client_essential/Worker.cpp tells, and how long its waits take.
use easy_voice_call.Base.{
  ℕ, zero, suc, ◌+◌, ◌*◌, ◌≤◌, ◌≡◌, refl, ap, ◌∙◌, Bool, true, false, ◌||◌, List, [], ◌∷◌, ◌++◌,
  if◌then◌else◌, arith, Bool-cases, inl, inr,
}
use easy_voice_call.NetPacket.{new, logout_request}
use easy_voice_call.Worker.Call.{
  Action, toggles_state, sends, starts_endpoint, starts_timer, sleeps_ms, NetworkState, HeartBeat,
  Round, Surroundings, wait_for, send_heartbeat, sending_work,
}

-- Whether a poll from `i` to `i + n - 1` finds what it looks for.
abbrev pub any_poll : (ℕ → Bool) → ℕ → ℕ → Bool
any_poll is_done i zero = false
any_poll is_done i (suc n) = any_poll is_done i n || is_done (i + n)

any_poll-suc : (p : ℕ → Bool) (i n : ℕ) → any_poll p i (suc n) ≡ (p i || any_poll p (i + 1) n)
any_poll-suc p i zero = ground arith
any_poll-suc p i (suc n) =
    let same : i + suc n ≡ i + 1 + n = omega arith in rw (any_poll-suc p i n, same) (ground arith)

pub wait_for-any_poll : (p : ℕ → Bool) (ms n i : ℕ) → (wait_for p ms n i).1 ≡ any_poll p i n
unfolding wait_for
wait_for-any_poll p ms zero i = refl
wait_for-any_poll p ms (suc n) i =
    rw (any_poll-suc p i n, ← wait_for-any_poll p ms n (i + 1)) (ground arith)

-- What a trace tells of each kind of action.
abbrev pub states : List Action → List NetworkState
states [] = []
states (toggles_state s text ∷ as') = s ∷ states as'
states (_ ∷ as') = states as'

abbrev pub endpoint_starts : List Action → ℕ
endpoint_starts [] = 0
endpoint_starts (starts_endpoint ∷ as') = 1 + endpoint_starts as'
endpoint_starts (_ ∷ as') = endpoint_starts as'

abbrev pub slept_ms : List Action → ℕ
slept_ms [] = 0
slept_ms (sleeps_ms n ∷ as') = n + slept_ms as'
slept_ms (_ ∷ as') = slept_ms as'

pub states-append : (xs ys : List Action) → states (xs ++ ys) ≡ states xs ++ states ys
states-append [] ys = refl
states-append (toggles_state s text ∷ xs) ys = ap (◌∷◌ s) (states-append xs ys)
states-append (_ ∷ xs) ys = states-append xs ys

pub endpoint_starts-append :
    (xs ys : List Action) → endpoint_starts (xs ++ ys) ≡ endpoint_starts xs + endpoint_starts ys
endpoint_starts-append [] ys = omega arith
endpoint_starts-append (starts_endpoint ∷ xs) ys = rw (endpoint_starts-append xs ys) (omega arith)
endpoint_starts-append (_ ∷ xs) ys = endpoint_starts-append xs ys

pub slept_ms-append : (xs ys : List Action) → slept_ms (xs ++ ys) ≡ slept_ms xs + slept_ms ys
slept_ms-append [] ys = omega arith
slept_ms-append (sleeps_ms n ∷ xs) ys = rw (slept_ms-append xs ys) (omega arith)
slept_ms-append (_ ∷ xs) ys = slept_ms-append xs ys

-- A part of a trace that neither tells the user a state nor starts the sound.
pub record IsQuiet (as' : List Action) : Type 0 where
  pub no_state : states as' ≡ []
  pub no_start : endpoint_starts as' ≡ 0

IsQuiet-append : {xs ys : List Action} → IsQuiet xs → IsQuiet ys → IsQuiet (xs ++ ys)
IsQuiet-append {xs} {ys} a b = record {
  no_state = states-append xs ys ∙ rw (a.no_state, b.no_state) refl;
  no_start = endpoint_starts-append xs ys ∙ rw (a.no_start, b.no_start) refl;
}

pub wait_for-IsQuiet : (p : ℕ → Bool) (ms n i : ℕ) → IsQuiet (wait_for p ms n i).0
unfolding wait_for
wait_for-IsQuiet p ms zero i = record { no_state = refl; no_start = refl }
wait_for-IsQuiet p ms (suc n) i =
    let rest = wait_for-IsQuiet p ms n (i + 1) in
    let quiet = rest.no_state in
    let silent = rest.no_start in record { no_state = ground arith; no_start = ground arith }

pub wait_for-slept : (p : ℕ → Bool) (ms n i : ℕ) → slept_ms (wait_for p ms n i).0 ≤ n * ms
unfolding wait_for
wait_for-slept p ms zero i = omega arith
wait_for-slept p ms (suc n) i =
    let rest = wait_for-slept p ms n (i + 1) in
    elim (Bool-cases (p i)) [ inl now ↦ rw now (omega arith) | inr later ↦ rw later (omega arith) ]

send_heartbeat-IsQuiet :
    (git_tag : List ℕ) (h : HeartBeat) (r : Round) → IsQuiet (send_heartbeat git_tag h r).1
unfolding send_heartbeat
send_heartbeat-IsQuiet git_tag h r = record { no_state = ground arith; no_start = ground arith }

sending_work-IsQuiet :
    (git_tag : List ℕ) (h : HeartBeat) (rs : List Round) → IsQuiet (sending_work git_tag h rs).1
unfolding sending_work
sending_work-IsQuiet git_tag h [] = record { no_state = refl; no_start = refl }
sending_work-IsQuiet git_tag h (r ∷ rs) =
    let rest = sending_work-IsQuiet git_tag (send_heartbeat git_tag h r).0 rs in
    IsQuiet-append (send_heartbeat-IsQuiet git_tag h r)
      (record { no_state = rest.no_state; no_start = rest.no_start })

abbrev timer : Bool → List Action
timer b = if b then starts_timer ∷ [] else []

timer-IsQuiet : (b : Bool) → IsQuiet (timer b)
timer-IsQuiet true = record { no_state = refl; no_start = refl }
timer-IsQuiet false = record { no_state = refl; no_start = refl }

pub working-IsQuiet :
    (git_tag : List ℕ) (e : Surroundings) (h : HeartBeat)
    → IsQuiet (
        timer e.has_duration_reporter
        ++ ((sending_work git_tag h e.rounds).1
            ++ (sends (new git_tag logout_request 0 e.logout_up_time) ∷ [])))
working-IsQuiet git_tag e h = IsQuiet-append (timer-IsQuiet e.has_duration_reporter) (
    IsQuiet-append (sending_work-IsQuiet git_tag h e.rounds)
      (record { no_state = refl; no_start = refl }))

-- ===== src/System/Duration.antt =====
-- The duration of a call: the timer thread of client_essential/Worker.cpp, whose reporter, which
-- client_qt5/mainwindow.cpp sets, posts each report to the window.
use easy_voice_call.Base.{
  ℕ, zero, suc, ◌+◌, ◌*◌, ◌%◌, ◌^◌, ◌<◌, ◌≤◌, ◌≡◌, ◌∙◌, ap, refl, List, [], ◌∷◌, Option, some,
  arith, inl, inr, ◌⊎◌, Bool-cases, ltb, if◌then◌else◌,
}
use easy_voice_call.Worker.Call.{Action, sleeps_ms, reports_duration, duration_timer}
use easy_voice_call.Desktop.{MainWindow, set_duration, event, duration_of, and_then}

-- The window at time `t` of a thread that does `actions`; it has handled the first reports, in their
-- order, whose time in `handled` has come.
pub window_at : ℕ → List ℕ → List Action → MainWindow → Option MainWindow
window_at t (h ∷ handled) (reports_duration s ∷ actions) w =
    let later = and_then (window_at t handled actions) (event w (set_duration s)) in
    if ltb t h then some w else later
window_at t [] (reports_duration s ∷ actions) w = some w
window_at t handled [] w = some w
window_at t handled (_ ∷ actions) w = window_at t handled actions w

-- `now` is the least that the thread has slept: no report is handled before the sleeps in front of it
-- are over, each of which lasts as long as it says or longer.
abbrev pub IsLate : ℕ → List ℕ → List Action → Type 0
IsLate now (h ∷ handled) (reports_duration s ∷ actions) = (now ≤ h) × IsLate now handled actions
IsLate now [] (reports_duration s ∷ actions) = Unit {0}
IsLate now handled [] = Unit {0}
IsLate now handled (sleeps_ms ms ∷ actions) = IsLate (now + ms) handled actions
IsLate now handled (_ ∷ actions) = IsLate now handled actions

-- How many reports have been handled at `t`, of at most `rounds`.
abbrev pub done_by : ℕ → ℕ → List ℕ → ℕ
done_by t zero handled = 0
done_by t (suc rounds) [] = 0
done_by t (suc rounds) (h ∷ handled) =
    let rest = done_by t rounds handled in if ltb t h then 0 else suc rest

abbrev pub showing : MainWindow → ℕ → MainWindow
showing w d = record w { label_duration = duration_of d }

-- The window after the reports of `n` seconds, of which the first one reports `s`.
abbrev pub shown : MainWindow → ℕ → ℕ → MainWindow
shown w s zero = w
shown w s (suc n) = showing w (s + n)

shown-again : (w : MainWindow) (s n : ℕ) → shown (showing w s) (s + 1) n ≡ shown w s (suc n)
shown-again w s zero = ap (showing w) (omega arith)
shown-again w s (suc n) = ap (showing w) (omega arith)

window_at-shown :
    (t s rounds : ℕ) (handled : List ℕ) (w : MainWindow)
    → s + rounds < 2 ^ 32
    → window_at t handled (duration_timer s rounds) w ≡ some (shown w s (done_by t rounds handled))
unfolding window_at duration_timer event and_then
window_at-shown t s zero handled w fits = refl
window_at-shown t s (suc rounds) [] w fits = refl
window_at-shown t s (suc rounds) (h ∷ handled) w fits =
    let next : (s + 1) % 2 ^ 32 ≡ s + 1 = omega arith in
    let follow =
      ap (λ (u : ℕ). window_at t handled (duration_timer u rounds) (showing w s)) next
      ∙ window_at-shown t (s + 1) rounds handled (showing w s) (omega arith)
      ∙ ap (λ (v : MainWindow). some v) (shown-again w s (done_by t rounds handled)) in
    elim (Bool-cases (ltb t h)) [ inl early ↦ rw early refl | inr come ↦ rw come follow ]

done_by-late :
    (t now s rounds : ℕ) (handled : List ℕ)
    → IsLate now handled (duration_timer s rounds)
    → (done_by t rounds handled ≡ 0) ⊎ (now + 1000 * done_by t rounds handled ≤ t)
unfolding duration_timer
done_by-late t now s zero handled late = inl refl
done_by-late t now s (suc rounds) [] late = inl refl
done_by-late t now s (suc rounds) (h ∷ handled) (slept, late) = elim (Bool-cases (ltb t h)) [
  | inl early ↦ rw early (inl refl)
  | inr come ↦
      let reached : h ≤ t = ground arith in
      elim (done_by-late t (now + 1000) ((s + 1) % 2 ^ 32) rounds handled late) [
        | inl nothing ↦ rw (come, nothing) (inr (omega arith))
        | inr more ↦ rw come (inr (omega arith))
      ]
]

-- The window shows the second of the last report that it has handled, and nothing else in it has
-- changed; and that second lies a second behind the call's duration at least: with n reports handled at
-- time t, at least n seconds have passed, and n - 1 is shown. The timer goes on for less than 2^32 rounds,
-- its sleeps last a second or longer, and the window handles the reports in their order, each of them
-- at any time after it was made.
pub shown_duration :
    (t rounds : ℕ) (handled : List ℕ) (w : MainWindow)
    → rounds < 2 ^ 32
    → IsLate 0 handled (duration_timer 0 rounds)
    → (window_at t handled (duration_timer 0 rounds) w
        ≡ some (shown w 0 (done_by t rounds handled)))
      × (1000 * done_by t rounds handled ≤ t)
shown_duration t rounds handled w fits late = (
  window_at-shown t 0 rounds handled w (omega arith),
  elim (done_by-late t 0 0 rounds handled late) [
    | inl nothing ↦ omega arith
    | inr some_time ↦ omega arith
  ],
)

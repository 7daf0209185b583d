-- ===== src/Desktop/States.antt =====
-- The states of the window of client_qt5/mainwindow.cpp, and the widgets that show them.
use easy_voice_call.Base.{
  ap, ◌∙◌, ◌≡◌, refl, sym, subst, All, Bool, true, false, not, ◌&&◌, List, [], ◌∷◌, Option, some,
  arith, if◌then◌else◌,
}
use easy_voice_call.Audio.VolumeMeter.{AudioInOut, input, output, AudioIoVolume}
use easy_voice_call.Audio.VolumeMeter.Peak.{IsInRange}
use easy_voice_call.Desktop.Display.{bars_of-bar}
use easy_voice_call.Worker.Call.{NetworkState, disconnected, connecting, connected}
use easy_voice_call.Desktop.{
  MainWindow, Pixmap, Event, audio_volume, vad, network_state, set_duration, post, show_network,
  show_bars, show_volume, on_network_changed, on_volume_changed, on_vad, event, is_input, goto_work,
  click_in, on_push_button_connecting_clicked, set_mute, on_toggle_button_mic_mute_clicked,
  key_press, show_text_message, f1, f2, any_other, on_key, show_message, toggle_advanced_mode,
  and_then, init_state, silent, begun, after_input,
}

-- What the window's thread does: a click on the button, the outcome of init with it, a click on the
-- mute button, or an event that was posted.
pub data Turn : Type 0 where
  clicked : Bool → Turn
  mute_clicked : Bool → Turn
  handles : Event → Turn

first : MainWindow × Bool → Option MainWindow
first (w, thrown) = some w

pub step : MainWindow → Turn → Option MainWindow
unfolding first on_push_button_connecting_clicked on_toggle_button_mic_mute_clicked event
step w (clicked init_ok) = first (on_push_button_connecting_clicked w init_ok)
step w (mute_clicked checked) = on_toggle_button_mic_mute_clicked w checked
step w (handles e) = event w e

abbrev is_disconnected : NetworkState → Bool
is_disconnected disconnected = true
is_disconnected _ = false

abbrev is_connecting : NetworkState → Bool
is_connecting connecting = true
is_connecting _ = false

-- The server's name can be edited when there is no call, and the button works except while connecting.
pub record IsConsistent (w : MainWindow) : Type 0 where
  pub edits : w.line_edits_enabled ≡ is_disconnected w.current_ui_state
  pub aec : w.check_box_need_aec_enabled ≡ is_disconnected w.current_ui_state
  pub button : w.connecting_enabled ≡ not (is_connecting w.current_ui_state)

show_network-IsConsistent : (w : MainWindow) (s : NetworkState) → IsConsistent (show_network w s)
unfolding show_network post
show_network-IsConsistent w disconnected = record { edits = refl; aec = refl; button = refl }
show_network-IsConsistent w connecting = record { edits = refl; aec = refl; button = refl }
show_network-IsConsistent w connected = record { edits = refl; aec = refl; button = refl }

-- A turn that reports a volume reports one in the meter's range.
abbrev pub Ranged : Turn → Type 0
Ranged (handles (audio_volume v)) = IsInRange v
Ranged _ = Unit {0}

-- A turn that leaves a window whose widgets agree with its state.
pub record Leaves (o : Option MainWindow) : Type 0 where
  pub next : MainWindow
  pub made : o ≡ some next
  pub consistent : IsConsistent next

some-Leaves : (w : MainWindow) → IsConsistent w → Leaves (some w)
some-Leaves w c = record { next = w; made = refl; consistent = c }

show_bars-Leaves :
    (w : MainWindow) (io : AudioInOut) (bars : List Pixmap)
    → IsConsistent w
    → Leaves (show_bars w io (some bars))
unfolding show_bars
show_bars-Leaves w input bars c =
    some-Leaves _ (record { edits = c.edits; aec = c.aec; button = c.button })
show_bars-Leaves w output bars c =
    some-Leaves _ (record { edits = c.edits; aec = c.aec; button = c.button })

show_volume-Leaves :
    (w : MainWindow) (v : AudioIoVolume) → IsInRange v → IsConsistent w → Leaves (show_volume w v)
unfolding show_volume
show_volume-Leaves w v ranged c =
    let (bars, drawn, each) = bars_of-bar v ranged in
    subst (λ (o : Option (List Pixmap)). Leaves (show_bars w v.io o)) (sym drawn)
      (show_bars-Leaves w v.io bars c)

if-Leaves : (b : Bool) {x y : Option MainWindow} → Leaves x → Leaves y → Leaves (if b then x else y)
if-Leaves true hx hy = hx
if-Leaves false hx hy = hy

click_in-Leaves :
    (s : NetworkState) (w : MainWindow) (init_ok : Bool)
    → IsConsistent w
    → Leaves (first (click_in s w init_ok))
unfolding first click_in goto_work on_network_changed show_network post
click_in-Leaves disconnected w init_ok c =
    some-Leaves _ (record { edits = refl; aec = refl; button = refl })
click_in-Leaves connected w init_ok c =
    some-Leaves _ (record { edits = refl; aec = refl; button = refl })
click_in-Leaves connecting w init_ok c = some-Leaves w c

step-Leaves : (w : MainWindow) (turn : Turn) → Ranged turn → IsConsistent w → Leaves (step w turn)
unfolding step on_push_button_connecting_clicked on_toggle_button_mic_mute_clicked event
    on_volume_changed on_vad on_network_changed on_key toggle_advanced_mode show_message
step-Leaves w (clicked init_ok) ranged c = click_in-Leaves w.current_ui_state w init_ok c
step-Leaves w (mute_clicked checked) ranged c =
    let told : MainWindow = record w {
      worker_mute = set_mute w.worker_mute checked;
      mute_checked = checked;
    } in
    let same : IsConsistent told = record { edits = c.edits; aec = c.aec; button = c.button } in
    if-Leaves checked
      (show_volume-Leaves told (record { io = input; level = 0; recent_max_level = 0 })
        (record { level-recent = omega arith; recent-max = omega arith }) same)
      (some-Leaves told same)
step-Leaves w (handles (key_press f1)) ranged c = some-Leaves w c
step-Leaves w (handles (key_press f2)) ranged c =
    some-Leaves _ (record { edits = c.edits; aec = c.aec; button = c.button })
step-Leaves w (handles (key_press any_other)) ranged c = some-Leaves w c
step-Leaves w (handles (show_text_message message)) ranged c =
    some-Leaves _ (record { edits = c.edits; aec = c.aec; button = c.button })
step-Leaves w (handles (audio_volume v)) ranged c =
    if-Leaves (is_input v.io && w.mute_checked) (some-Leaves w c) (show_volume-Leaves w v ranged c)
step-Leaves w (handles (vad is_active)) ranged c =
    some-Leaves _ (record { edits = c.edits; aec = c.aec; button = c.button })
step-Leaves w (handles (network_state s)) ranged c = some-Leaves _ (show_network-IsConsistent w s)
step-Leaves w (handles (set_duration d)) ranged c =
    some-Leaves _ (record { edits = c.edits; aec = c.aec; button = c.button })

and_then-Leaves :
    (f : MainWindow → Option MainWindow) (o : Option MainWindow) (u : MainWindow)
    → o ≡ some u
    → Leaves (f u)
    → Leaves (and_then f o)
unfolding and_then
and_then-Leaves f o u e l = subst (λ (x : Option MainWindow). Leaves (and_then f x)) (sym e) l

pub run : List Turn → MainWindow → Option MainWindow
unfolding and_then
run [] w = some w
run (turn ∷ turns) w = and_then (run turns) (step w turn)

-- Whatever is clicked, handled and answered, in any order, the window never leaves the array of its
-- bars, its fields can be edited exactly when it shows Disconnected, and its button works except while
-- it shows Connecting, if that holds at the start and the volumes come from the meter.
pub run-Leaves :
    (turns : List Turn) (w : MainWindow) → All Ranged turns → IsConsistent w → Leaves (run turns w)
unfolding run and_then
run-Leaves [] w ranged c = some-Leaves w c
run-Leaves (turn ∷ turns) w (now, later) c =
    let stepped = step-Leaves w turn now c in
    and_then-Leaves (run turns) (step w turn) stepped.next stepped.made
      (run-Leaves turns stepped.next later stepped.consistent)

show_bars-made :
    (w : MainWindow) (io : AudioInOut) (bars : List Pixmap)
    → (u : MainWindow) × (show_bars w io (some bars) ≡ some u)
unfolding show_bars
show_bars-made w input bars = (record w { bars_in = bars }, refl)
show_bars-made w output bars = (record w { bars_out = bars }, refl)

silent-made :
    (w : MainWindow) (io : AudioInOut)
    → (u : MainWindow) × (on_volume_changed true w (silent io) ≡ some u)
unfolding on_volume_changed show_volume
silent-made w io =
    let (bars, drawn, each) =
      bars_of-bar (silent io) (record { level-recent = omega arith; recent-max = omega arith }) in
    let (u, made) = show_bars-made w io bars in (u, ap (show_bars w io) drawn ∙ made)

begun-IsConsistent : (w : MainWindow) → IsConsistent (begun w)
unfolding begun on_network_changed show_message toggle_advanced_mode show_network post
begun-IsConsistent w = record { edits = refl; aec = refl; button = refl }

after_input-Leaves : (w : MainWindow) → Leaves (after_input w)
unfolding after_input
after_input-Leaves w =
    let (u, made) = silent-made w output in
    and_then-Leaves (λ v. some (begun v)) (on_volume_changed true w (silent output)) u made
      (some-Leaves (begun u) (begun-IsConsistent u))

init_state-Leaves : (w : MainWindow) → Leaves (init_state w)
unfolding init_state
init_state-Leaves w =
    let (u, made) = silent-made w input in
    and_then-Leaves after_input (on_volume_changed true w (silent input)) u made
      (after_input-Leaves u)

-- From the state that the constructor makes, and whatever is clicked, pressed, handled and answered
-- then, in any order, the window never leaves the array of its bars, its fields can be edited exactly
-- when it shows Disconnected, and its button works except while it shows Connecting, if the volumes
-- come from the meter.
pub init_state-run :
    (turns : List Turn) (w : MainWindow)
    → All Ranged turns
    → Leaves (and_then (run turns) (init_state w))
init_state-run turns w ranged =
    let started = init_state-Leaves w in
    and_then-Leaves (run turns) (init_state w) started.next started.made
      (run-Leaves turns started.next ranged started.consistent)

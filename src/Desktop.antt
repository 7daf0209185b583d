-- ===== src/Desktop.antt =====
-- client_qt5/mainwindow.cpp: the main window of the desktop client, as what its widgets show. A call
-- from another thread posts an event, which the window handles later. What the worker's init and the
-- rest of gotoWork do is an argument.
pub mod States
pub mod Display
pub mod Settings
use Prim.Native.String.{String}
use easy_voice_call.Base.{
  ℕ, zero, suc, ◌+◌, ◌*◌, ◌/◌, ◌%◌, Bool, true, false, not, ◌&&◌, List, [], ◌∷◌, ◌++◌, Option, none,
  some, ltb, if◌then◌else◌, ◌==◌,
}
use easy_voice_call.Audio.VolumeMeter.{AudioInOut, input, output, AudioIoVolume, max_volume_level}
use easy_voice_call.Worker.Call.{NetworkState, disconnected, connecting, connected}

pub data Pixmap : Type 0 where
  vertical_bar_empty : Pixmap
  vertical_bar_half_full : Pixmap
  vertical_bar_full : Pixmap

-- Hours, minutes and seconds, each printed with two digits at least.
pub record Duration : Type 0 where
  pub hours : ℕ
  pub minutes : ℕ
  pub seconds : ℕ

pub data Key : Type 0 where
  f1 : Key
  f2 : Key
  any_other : Key

-- A key press, the events that other threads post, and SetDurationEvent, which the window posts itself.
pub data Event : Type 0 where
  key_press : Key → Event
  show_text_message : String → Event
  audio_volume : AudioIoVolume → Event
  vad : Bool → Event
  network_state : NetworkState → Event
  set_duration : ℕ → Event

-- The widgets, the worker (its mute flag, if there is one), and the events that wait.
pub record MainWindow : Type 0 where
  pub current_ui_state : NetworkState
  pub line_edits_enabled : Bool
  pub check_box_need_aec_enabled : Bool
  pub connecting_enabled : Bool
  pub connecting_text : String
  pub worker_mute : Option Bool
  pub mute_checked : Bool
  pub bars_in : List Pixmap
  pub bars_out : List Pixmap
  pub label_vad : String
  pub label_duration : Option Duration
  pub status_text : String
  pub advanced_mode : Bool
  pub details_visible : Bool
  pub fixed_width : ℕ
  pub posted : List Event

pub post : MainWindow → Event → MainWindow
post w e = record w { posted = w.posted ++ (e ∷ []) }

-- onNetworkChanged in the window's own thread.
pub show_network : MainWindow → NetworkState → MainWindow
unfolding post
show_network w disconnected =
    post
      (record w {
        line_edits_enabled = true;
        check_box_need_aec_enabled = true;
        connecting_enabled = true;
        connecting_text = "Connect!";
        current_ui_state = disconnected;
      })
      (set_duration 0)
show_network w connecting = record w {
  line_edits_enabled = false;
  check_box_need_aec_enabled = false;
  connecting_enabled = false;
  connecting_text = "Connecting...";
  current_ui_state = connecting;
}
show_network w connected = record w {
  line_edits_enabled = false;
  check_box_need_aec_enabled = false;
  connecting_enabled = true;
  connecting_text = "Disconnect!";
  current_ui_state = connected;
}

-- The loop over the bars from bar `i` on.
pub level_bars : ℕ → ℕ → ℕ → List Pixmap
level_bars level i zero = []
level_bars level i (suc n) =
    (if ltb i level then vertical_bar_half_full else vertical_bar_empty)
    ∷ level_bars level (i + 1) n

pub set_bar : List Pixmap → ℕ → Pixmap → List Pixmap
set_bar [] i x = []
set_bar (b ∷ bs) zero x = x ∷ bs
set_bar (b ∷ bs) (suc i) x = b ∷ set_bar bs i x

-- The bars of one direction; `none` where the index leaves the array.
pub bars_of : AudioIoVolume → Option (List Pixmap)
unfolding level_bars set_bar
bars_of v =
    let drawn = level_bars v.level 0 max_volume_level in
    if ltb v.level v.recent_max_level
    then if ltb v.recent_max_level max_volume_level
      then some (set_bar drawn v.recent_max_level vertical_bar_full)
      else none
    else some drawn

show_bars : MainWindow → AudioInOut → Option (List Pixmap) → Option MainWindow
show_bars w io none = none
show_bars w input (some bars) = some (record w { bars_in = bars })
show_bars w output (some bars) = some (record w { bars_out = bars })

-- onVolumeChanged in the window's own thread.
pub show_volume : MainWindow → AudioIoVolume → Option MainWindow
unfolding show_bars bars_of
show_volume w v = show_bars w v.io (bars_of v)

-- The three reporters that the worker calls: they post an event unless the thread is the window's.
pub on_network_changed : Bool → MainWindow → NetworkState → MainWindow
unfolding show_network post
on_network_changed main_thread w s =
    if main_thread then show_network w s else post w (network_state s)

pub on_volume_changed : Bool → MainWindow → AudioIoVolume → Option MainWindow
unfolding show_volume post
on_volume_changed main_thread w v =
    if main_thread then show_volume w v else some (post w (audio_volume v))

pub on_vad : Bool → MainWindow → Bool → MainWindow
unfolding post
on_vad main_thread w is_active =
    if main_thread
    then record w { label_vad = if is_active then "active" else "inactive" }
    else post w (vad is_active)

-- An empty message clears the status bar.
pub show_message : Bool → MainWindow → String → MainWindow
unfolding post
show_message main_thread w message =
    if main_thread then record w { status_text = message } else post w (show_text_message message)

-- The function that gotoWork hands to asyncStart.
pub on_state_changed : Bool → MainWindow → NetworkState → String → MainWindow
unfolding show_message on_network_changed
on_state_changed main_thread w new_state extra_message =
    on_network_changed main_thread (show_message main_thread w extra_message) new_state

pub toggle_advanced_mode : Bool → MainWindow → MainWindow
toggle_advanced_mode new_mode w = record w {
  advanced_mode = new_mode;
  details_visible = new_mode;
  fixed_width = if new_mode then 600 else 300;
}

-- F1 opens a page in the browser, which leaves the window as it is.
on_key : MainWindow → Key → MainWindow
unfolding toggle_advanced_mode
on_key w f2 = toggle_advanced_mode (not w.advanced_mode) w
on_key w _ = w

pub duration_of : ℕ → Option Duration
duration_of d =
    if d == 0
    then none
    else some (record { hours = d / 3600; minutes = d / 60 % 60; seconds = d % 60 })

is_input : AudioInOut → Bool
is_input input = true
is_input output = false

-- `event`, for the window's own events.
unfoldable pub event : MainWindow → Event → Option MainWindow
unfolding is_input on_volume_changed on_vad on_network_changed duration_of show_message on_key
event w (key_press k) = some (on_key w k)
event w (show_text_message message) = some (show_message true w message)
event w (audio_volume v) =
    if is_input v.io && w.mute_checked then some w else on_volume_changed true w v
event w (vad is_active) = some (on_vad true w is_active)
event w (network_state s) = some (on_network_changed true w s)
event w (set_duration d) = some (record w { label_duration = duration_of d })

-- gotoWork: whether the worker's init returns success. If not, a std::string is thrown, which leaves
-- the slot; the worker has been replaced by then. The flag says whether an exception leaves.
pub goto_work : MainWindow → Bool → MainWindow × Bool
unfolding on_network_changed
goto_work w init_ok =
    let shown = on_network_changed true w connecting in
    (record shown { worker_mute = some false }, not init_ok)

click_in : NetworkState → MainWindow → Bool → MainWindow × Bool
unfolding goto_work on_network_changed
click_in disconnected w init_ok = goto_work w init_ok
click_in connected w init_ok =
    (on_network_changed true (record w { worker_mute = none }) disconnected, false)
click_in connecting w init_ok = (w, false)

pub on_push_button_connecting_clicked : MainWindow → Bool → MainWindow × Bool
unfolding click_in
on_push_button_connecting_clicked w init_ok = click_in w.current_ui_state w init_ok

set_mute : Option Bool → Bool → Option Bool
set_mute none mute = none
set_mute (some old) mute = some mute

-- The button itself shows `checked` when the slot is called.
pub on_toggle_button_mic_mute_clicked : MainWindow → Bool → Option MainWindow
unfolding set_mute on_volume_changed
on_toggle_button_mic_mute_clicked w checked =
    let told : MainWindow = record w {
      worker_mute = set_mute w.worker_mute checked;
      mute_checked = checked;
    } in
    if checked
    then on_volume_changed true told (record { io = input; level = 0; recent_max_level = 0 })
    else some told

abbrev pub silent : AudioInOut → AudioIoVolume
silent io = record { io = io; level = 0; recent_max_level = 0 }

unfoldable pub and_then : (MainWindow → Option MainWindow) → Option MainWindow → Option MainWindow
and_then f none = none
and_then f (some w) = f w

begun : MainWindow → MainWindow
unfolding on_network_changed toggle_advanced_mode show_message
begun w =
    show_message true (toggle_advanced_mode false (on_network_changed true w disconnected))
      "F1: help    F2: toggle mode (advanced/easy mode)"

after_input : MainWindow → Option MainWindow
unfolding and_then on_volume_changed begun
after_input w = and_then (λ v. some (begun v)) (on_volume_changed true w (silent output))

-- What the constructor does with the widgets once they stand.
pub init_state : MainWindow → Option MainWindow
unfolding and_then on_volume_changed after_input
init_state w = and_then after_input (on_volume_changed true w (silent input))

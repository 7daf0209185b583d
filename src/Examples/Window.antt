-- ===== src/Examples/Window.antt =====
-- The desktop client's window, client_qt5/mainwindow.cpp, at concrete inputs.
use easy_voice_call.Base.{List, [], ◌∷◌, none, arith, true, false, replicate}
use easy_voice_call.Audio.VolumeMeter.{AudioIoVolume, input}
use easy_voice_call.Worker.Call.{disconnected, connected}
use easy_voice_call.Desktop.{
  MainWindow, audio_volume, network_state, set_duration, vertical_bar_empty, key_press, f2,
  show_text_message, and_then, init_state,
}
use easy_voice_call.Desktop.States.{
  Turn, clicked, mute_clicked, handles, Leaves, run, init_state-run,
}

abbrev volume : AudioIoVolume
volume = record { io = input; level = 3; recent_max_level = 7 }

abbrev window : MainWindow
window = record {
  current_ui_state = disconnected;
  line_edits_enabled = true;
  check_box_need_aec_enabled = true;
  connecting_enabled = true;
  connecting_text = "Connect!";
  worker_mute = none;
  mute_checked = false;
  bars_in = replicate 10 vertical_bar_empty;
  bars_out = replicate 10 vertical_bar_empty;
  label_vad = "";
  label_duration = none;
  status_text = "";
  advanced_mode = true;
  details_visible = true;
  fixed_width = 600;
  posted = [];
}

abbrev turns : List Turn
turns =
    clicked true
    ∷ handles (network_state connected)
    ∷ handles (audio_volume volume)
    ∷ handles (set_duration 61)
    ∷ handles (key_press f2)
    ∷ handles (show_text_message "server not found")
    ∷ mute_clicked true
    ∷ clicked true
    ∷ []

init_state-run_example : Leaves (and_then (run turns) (init_state window))
init_state-run_example = init_state-run turns window (
  tt,
  (
    tt,
    (
      record { level-recent = omega arith; recent-max = omega arith },
      (tt, (tt, (tt, (tt, (tt, tt))))),
    ),
  ),
)

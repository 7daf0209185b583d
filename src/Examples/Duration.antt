-- ===== src/Examples/Duration.antt =====
-- The duration of a call in the desktop client's window, at a concrete input.
use easy_voice_call.Base.{ℕ, ◌≡◌, ◌≤◌, ◌*◌, List, [], ◌∷◌, some, arith, true, false, replicate}
use easy_voice_call.Worker.Call.{duration_timer, connected}
use easy_voice_call.Desktop.{MainWindow, duration_of, vertical_bar_empty}
use easy_voice_call.System.Duration.{window_at, shown_duration}

abbrev window : MainWindow
window = record {
  current_ui_state = connected;
  line_edits_enabled = false;
  check_box_need_aec_enabled = false;
  connecting_enabled = true;
  connecting_text = "Disconnect!";
  worker_mute = some false;
  mute_checked = false;
  bars_in = replicate 10 vertical_bar_empty;
  bars_out = replicate 10 vertical_bar_empty;
  label_vad = "inactive";
  label_duration = duration_of 0;
  status_text = "";
  advanced_mode = false;
  details_visible = false;
  fixed_width = 300;
  posted = [];
}

-- The window handles the second report late, together with the third one.
abbrev handled : List ℕ
handled = 1001 ∷ 3100 ∷ 3100 ∷ 4005 ∷ []

shown_duration_example :
    (window_at 3500 handled (duration_timer 0 100) window
      ≡ some (record window { label_duration = duration_of 2 }))
    × (1000 * 3 ≤ 3500)
unfolding duration_timer
shown_duration_example = shown_duration 3500 100 handled window (omega arith) (omega arith)

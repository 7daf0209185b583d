-- ===== src/Examples/Calls.antt =====
-- The engine of a call, client_essential/Worker.cpp, at concrete inputs.
use easy_voice_call.Base.{
  ℕ, ◌≡◌, ◌≤◌, ◌+◌, ◌*◌, refl, List, [], ◌∷◌, ◌++◌, some, none, arith, true, false, ltb, length,
}
use easy_voice_call.Base.Int.{pos}
use easy_voice_call.Audio.VolumeMeter.{input}
use easy_voice_call.Worker.Voice.{Filters, VoiceState}
use easy_voice_call.Worker.Voice.Gate.{Verdict, voices, run-verdict}
use easy_voice_call.Worker.Voice.Gate
use easy_voice_call.Worker.Voice.Numbering
use easy_voice_call.Worker.Voice.Numbered.{Sends}
use easy_voice_call.Worker.Voice.Numbering.{Works, Captured, run-Sends}
use easy_voice_call.Worker.Call.{HeartBeat, Round, Surroundings, sending_work}
use easy_voice_call.Worker.Call.Heartbeat.{heartbeats, keeps_alive}

-- Filters that change nothing, a detector that hears a voice in all, and encoders of one byte.
abbrev pub filters : Filters Unit
filters = record {
  denoise = λ f segment. (segment, f);
  cancel_echo = λ f segment. some (segment, f);
  detect_voice = λ f segment. (1, f);
  encode = λ f segment. some (7 ∷ [], f);
  encode_cn = λ f segment. (9 ∷ [], f);
}

abbrev filters-Works : Works filters
filters-Works = record {
  encodes = λ f segment. (7 ∷ [], f, refl, omega arith);
  encodes_cn = λ f segment. omega arith;
  cancels = λ f segment. (segment, f, refl);
}

abbrev pub talking : VoiceState Unit
talking = record {
  filters = tt;
  need_aec = true;
  mute = false;
  volume_meter_in = record { in_out = input; recent_max_level = 0; last_time_stamp = 0 };
  vad_counter = 0;
  send_opus = true;
  last_time_stamp = 1000;
  sn_sending_audio = 41;
}

-- "v1.0"
abbrev version : List ℕ
version = 0x76 ∷ 0x31 ∷ 0x2e ∷ 0x30 ∷ []

abbrev captured : Captured
captured = record {
  buffer = pos 3 ∷ [];
  clock = record {
    meter_now = 5;
    meter_reset = 5;
    meter_raise = 5;
    now = 6;
    later = 7;
    up_time = 8;
  };
}

run-Sends_example :
    Sends 41 (Numbering.run filters version true false (captured ∷ captured ∷ []) talking)
run-Sends_example =
    run-Sends filters version true false filters-Works (omega arith) (captured ∷ captured ∷ [])
      talking (omega arith)

abbrev heard : List Verdict
heard =
    record { have_voice = false; now = 2000; later = 0 }
    ∷ record { have_voice = false; now = 3000; later = 0 }
    ∷ []

abbrev closing : Verdict
closing = record { have_voice = false; now = 1000001001; later = 1000001002 }

run-verdict_example :
    let t = Gate.run talking (heard ++ (closing ∷ [])) in
    (t.send_opus ≡ ltb 0 (voices (heard ++ (closing ∷ []))))
    × (t.vad_counter ≡ 0)
    × (t.last_time_stamp ≡ 1000001002)
run-verdict_example =
    run-verdict talking heard closing refl (omega arith) (omega arith) (omega arith)

abbrev rounds : List Round
rounds =
    record { now = 3000000000; later = 3000000001; up_time = 3000 }
    ∷ record { now = 6000000002; later = 6000000003; up_time = 6000 }
    ∷ record { now = 9000000004; later = 9000000005; up_time = 9000 }
    ∷ record { now = 12000000006; later = 12000000007; up_time = 12000 }
    ∷ record { now = 15000000008; later = 15000000009; up_time = 15000 }
    ∷ []

abbrev started : HeartBeat
started = record { last_time_stamp = 0; sn_sending_heart_beat = 0 }

keeps_alive_example : length rounds ≤ 4 * heartbeats (sending_work version started rounds).1 + 3
keeps_alive_example = keeps_alive version 0 started rounds (omega arith) (omega arith) (omega arith)

abbrev around : Surroundings
around = record {
  raised = none;
  is_connected = λ i. ltb 2 i;
  is_login = λ i. ltb 4 i;
  has_duration_reporter = true;
  rounds = rounds;
  login_up_time = 40;
  logout_up_time = 7000;
}

-- ===== src/Examples/Sound.antt =====
-- The sound card's callback at a concrete input: one second of speech's first segment is sent.
use easy_voice_call.Base.{refl, [], ◌∷◌, some, none, true}
use easy_voice_call.Base.Int.{pos}
use easy_voice_call.NetPacket.{new_with_payload, init}
use easy_voice_call.Audio.VolumeMeter.{output}
use easy_voice_call.Audio.Downstream.{Segment}
use easy_voice_call.Audio.Downstream.Queue.{Bounded, bounded}
use easy_voice_call.Worker.Voice.{
  ns_aec_volume_vad_send, send_cancelled, measure_and_send, prepend, send_segment, send_encoded,
  send_audio, send_if_made, gate, count_voice, close_window,
}
use easy_voice_call.Worker.Sound.{SoundState, Callback, Played, callback, after_voice, microphone}
use easy_voice_call.Worker.Sound.Mute.{Muted, callback-Muted}
use easy_voice_call.Examples.Audio.{engines, started}
use easy_voice_call.Examples.Calls.{filters, talking}
use easy_voice_call.Examples.Speech.{version}

abbrev sound : SoundState Unit (Bounded Segment) Unit
sound = record {
  voice = talking;
  audio_in_stub = none;
  downstream_processor = some started;
  volume_meter_out = record { in_out = output; recent_max_level = 0; last_time_stamp = 0 };
}

abbrev called : Callback
called = record {
  input_buffer = pos 3 ∷ pos 4 ∷ [];
  output_buffer = pos 9 ∷ pos 9 ∷ [];
  out_data = [];
  clock = record {
    meter_now = 5;
    meter_reset = 5;
    meter_raise = 5;
    now = 6;
    later = 7;
    up_time = 8;
  };
  out_now = 9;
  out_reset = 9;
  out_raise = 9;
}

abbrev done : Played Unit (Bounded Segment) Unit
done = elim (callback filters bounded engines version sound called true true) [
  | none ↦ record { next = sound; events = []; output = [] }
  | some q ↦ q
]

callback-Muted_example : Muted filters bounded engines version true true sound called done
unfolding callback after_voice microphone ns_aec_volume_vad_send send_cancelled measure_and_send
    prepend send_segment send_encoded send_audio send_if_made gate count_voice close_window
    new_with_payload init
callback-Muted_example =
    callback-Muted filters bounded engines version true true sound called done refl

-- ===== src/Examples/Conversation.antt =====
-- Speech from one client's microphone to another's jitter buffer, at a concrete input.
use easy_voice_call.Base.{refl, List, [], ◌∷◌, ◌++◌, arith, map}
use easy_voice_call.Base.Int.{ℤ, pos}
use easy_voice_call.Audio.{silence}
use easy_voice_call.Audio.Downstream.{init}
use easy_voice_call.Audio.Downstream.Queue.{bounded}
use easy_voice_call.Audio.Downstream.Speech.{Decodes}
use easy_voice_call.System.Conversation.{Way, Heard, speech-Heard}
use easy_voice_call.Examples.Audio.{engines, started}
use easy_voice_call.Examples.Calls.{filters, talking}
use easy_voice_call.Examples.Speech.{version, room, arrival, room-Distinct}

abbrev way : Way
way = record {
  server_tag = version;
  client_tag = version;
  listener_tag = version;
  up_time = 20;
  listener_up = 9;
  room = room;
  arrival = arrival;
}

abbrev sound : List ℤ
sound = map pos (7 ∷ []) ++ silence

decodes : Decodes bounded engines started (7 ∷ []) sound
unfolding silence init
decodes = record { decoder = tt; canceller = tt; opus = refl; cancels = refl; long = omega arith }

speech-Heard_example : Heard filters bounded engines way talking [] started sound
unfolding init
speech-Heard_example =
    speech-Heard filters bounded engines way talking [] (7 ∷ []) tt started sound refl refl
      (omega arith) (omega arith) (omega arith) refl room-Distinct (omega arith) (omega arith)
      decodes

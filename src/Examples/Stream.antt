-- ===== src/Examples/Stream.antt =====
-- A client that speaks and one that listens over UDP, at concrete inputs.
use easy_voice_call.Base.{◌≡◌, refl, true, List, [], ◌∷◌, ◌++◌, some, take, arith, map}
use easy_voice_call.Base.Int.{pos}
use easy_voice_call.Audio.{silence}
use easy_voice_call.Audio.Downstream.{Segment, init}
use easy_voice_call.Audio.Downstream.Queue.{Bounded, bounded}
use easy_voice_call.Server.RawUdp.{find_peer}
use easy_voice_call.Server.RawUdp.Peers.{is_registered}
use easy_voice_call.System.Stream.{Ends, Said, Move, says, plays, Line, run, direct}
use easy_voice_call.System.Stream.Carried.{Delivers}
use easy_voice_call.System.Stream.Spoken.{Codec}
use easy_voice_call.System.Stream.Heard.{segments, stream-played}
use easy_voice_call.Examples.Audio.{engines}
use easy_voice_call.Examples.Calls.{filters, talking}
use easy_voice_call.Examples.Speech.{version, room, room-Distinct}

abbrev ends : Ends
ends = record {
  server_tag = version;
  client_tag = version;
  listener_tag = version;
  talker_endpoint = record { address = 10; port = 4000 };
  listener_endpoint = record { address = 11; port = 4000 };
}

codec : Codec filters bounded engines true
unfolding silence find_peer is_registered
codec = record {
  encodes = λ f segment whole. (7 ∷ [], f, refl, omega arith);
  decodes = λ f g segment bytes e x. (
    map pos bytes ++ silence,
    x,
    record { decoder = tt; opus = refl; cancels = refl; long = ground (arith) },
  );
}

abbrev said : Said
said = record {
  segment = silence;
  up_time = 20;
  server_up = 50;
  listener_up = 9;
  new_address = 300;
  to_server = λ bytes. bytes ∷ [];
  to_listener = λ datagrams. datagrams;
}

delivers : Delivers said
delivers = record { server_gets = λ bytes. refl; listener_gets = λ datagrams. refl }

abbrev moves : List Move
moves = says said ∷ says said ∷ plays ∷ plays ∷ []

stream-played_example :
    (last : Line Unit (Bounded Segment) Unit) × (run filters bounded engines ends moves (record {
      talker = talking;
      room = room;
      listener = init bounded engines tt true;
      played = [];
    })
      ≡ some last)
    × (last.played
        ≡ take 2 (silence ∷ direct filters bounded engines ends true tt tt (segments moves)))
unfolding silence find_peer is_registered
stream-played_example =
    stream-played filters bounded engines ends (omega arith) refl true codec tt talking room
      (record { pointer = 100; remote_endpoint = record { address = 10; port = 4000 } }) moves refl
      refl refl room-Distinct (omega arith) (omega arith) (delivers, (delivers, tt))

-- ===== src/Examples/Speech.antt =====
-- Speech from one client to another over UDP, at a concrete input.
use easy_voice_call.Base.{ℕ, ◌≡◌, refl, List, [], ◌∷◌, some, arith, false}
use easy_voice_call.NetPacket.{NetPacket, audio_message, is_media, new_with_payload}
use easy_voice_call.NetPacket.Fields.{Carries}
use easy_voice_call.Server.RawUdp.{Endpoint, RawUdpRoom, Arrival, on_datagram}
use easy_voice_call.Server.RawUdp.Peers.{Distinct}
use easy_voice_call.System.Speech.{Reaches, new_with_payload-Reaches}

-- "v1.0"
abbrev pub version : List ℕ
version = 0x76 ∷ 0x31 ∷ 0x2e ∷ 0x30 ∷ []

abbrev alice : Endpoint
alice = record { address = 10; port = 4000 }

abbrev pub room : RawUdpRoom
room = record {
  peers =
      record { pointer = 100; remote_endpoint = alice }
      ∷ record { pointer = 200; remote_endpoint = record { address = 11; port = 4000 } }
      ∷ [];
  counter = 0;
}

abbrev pub arrival : Arrival
arrival = record {
  failed = false;
  sender_endpoint = alice;
  datagram = [];
  new_address = 300;
  up_time = 50;
}

pub room-Distinct : Distinct room.peers
room-Distinct = ground arith

new_with_payload-Reaches_example :
    (p : NetPacket) × (new_with_payload version audio_message 7 20 (1 ∷ 2 ∷ []) ≡ some p)
    × Carries audio_message 7 20 (1 ∷ 2 ∷ []) p
    × Reaches room
        (record arrival { datagram = p.whole_packet })
        version
        9
        p
        (on_datagram version false room (record arrival { datagram = p.whole_packet }))
unfolding is_media
new_with_payload-Reaches_example =
    new_with_payload-Reaches version version version audio_message 7 20 9 (1 ∷ 2 ∷ []) room arrival
      refl (omega arith) (omega arith) (omega arith) (omega arith) refl room-Distinct (omega arith)

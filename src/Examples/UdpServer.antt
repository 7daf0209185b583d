-- ===== src/Examples/UdpServer.antt =====
-- The UDP server at concrete inputs: two clients in the room, and a third that talks.
use easy_voice_call.Base.{ℕ, ◌≡◌, refl, List, [], ◌∷◌, some, arith, replicate, false}
use easy_voice_call.NetPacket.{NetPacket, heart_beat_response, of_code, payload_type, is_media}
use easy_voice_call.NetPacket.Parse.{parse}
use easy_voice_call.Server.RawUdp.{Endpoint, RawUdpRoom, Arrival, on_datagram, run}
use easy_voice_call.Server.RawUdp.Peers.{Distinct}
use easy_voice_call.Server.RawUdp.Membership.{run-Distinct}
use easy_voice_call.Server.RawUdp.Delivery.{Forwards, media_broadcast}
use easy_voice_call.Server.RawUdp.Requests.{Answers, request_answered, oversize_dropped}

abbrev alice : Endpoint
alice = record { address = 10; port = 4000 }

abbrev bob : Endpoint
bob = record { address = 11; port = 4000 }

abbrev room : RawUdpRoom
room = record {
  peers =
      record { pointer = 100; remote_endpoint = alice }
      ∷ record { pointer = 200; remote_endpoint = bob }
      ∷ [];
  counter = 0;
}

-- Header fields, a type, and a payload size, all below 256.
abbrev bytes_of : ℕ → ℕ → List ℕ → List ℕ
bytes_of type size payload =
    0x65 ∷ 0x76 ∷ 0x63 ∷ 0x20 ∷ 0x76 ∷ 0x31 ∷ 0x2e ∷ 0x30 ∷ 1 ∷ 0 ∷ 0 ∷ 0 ∷ type ∷ 0 ∷ 1 ∷ 0 ∷ 0 ∷ 0
    ∷ size ∷ 0 ∷ payload

abbrev from : Endpoint → List ℕ → Arrival
from e bytes = record {
  failed = false;
  sender_endpoint = e;
  datagram = bytes;
  new_address = 300;
  up_time = 50;
}

abbrev speech : List ℕ
speech = bytes_of 7 2 (5 ∷ 6 ∷ [])

abbrev spoken : NetPacket
spoken = record { whole_packet = speech }

room-Distinct : Distinct room.peers
room-Distinct = ground arith

media_broadcast_example :
    Forwards room (from alice speech) spoken (on_datagram [] false room (from alice speech))
unfolding parse payload_type of_code is_media
media_broadcast_example =
    media_broadcast [] false room (from alice speech) spoken refl refl refl refl room-Distinct
      (omega arith)

abbrev ping : List ℕ
ping = bytes_of 1 0 []

request_answered_example :
    Answers []
      (some heart_beat_response)
      (from alice ping)
      (on_datagram [] false room (from alice ping)).1
unfolding parse payload_type of_code is_media
request_answered_example =
    request_answered [] false room (from alice ping) (record { whole_packet = ping }) refl refl refl
      (λ e. absurd cc)

-- A header that announces 1005 bytes, and as many behind it.
abbrev oversize : List ℕ
oversize =
    0x65
    ∷ 0x76
    ∷ 0x63
    ∷ 0x20
    ∷ 0x76
    ∷ 0x31
    ∷ 0x2e
    ∷ 0x30
    ∷ 1
    ∷ 0
    ∷ 0
    ∷ 0
    ∷ 7
    ∷ 0
    ∷ 1
    ∷ 0
    ∷ 0
    ∷ 0
    ∷ 0xed
    ∷ 3
    ∷ replicate 1005 0

oversize_dropped_example : (on_datagram [] false room (from alice oversize)).1 ≡ []
oversize_dropped_example = oversize_dropped [] false room (from alice oversize) (omega arith)

abbrev carol : Endpoint
carol = record { address = 12; port = 4000 }

run-Distinct_example : Distinct (run [] false room (from carol speech ∷ [])).0.peers
run-Distinct_example =
    run-Distinct [] false room (from carol speech ∷ []) room-Distinct ((omega arith), tt)

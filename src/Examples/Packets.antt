-- ===== src/Examples/Packets.antt =====
-- Packets of include/NetPacket.hpp at concrete inputs.
use easy_voice_call.Base.{take, ℕ, ◌≡◌, refl, List, [], ◌∷◌, ◌++◌, some, arith}
use easy_voice_call.NetPacket.{
  NetPacket, audio_message, login_request, code, init, new, new_with_payload,
}
use easy_voice_call.NetPacket.Fields.{Carries}
use easy_voice_call.Server.RawUdp.{make_packet}
use easy_voice_call.Server.RawUdp.Datagram.{make_packet-parse, make_packet-new_with_payload}
use easy_voice_call.NetPacket.Parse.{parse}

-- "v1.0"
abbrev version : List ℕ
version = 0x76 ∷ 0x31 ∷ 0x2e ∷ 0x30 ∷ []

-- The bytes of a LoginRequest with serial number 258, built 1000 ms after the start.
login_bytes :
    (new version login_request 258 1000).whole_packet
    ≡ 0x65 ∷ 0x76 ∷ 0x63 ∷ 0x20 ∷ 0x76 ∷ 0x31 ∷ 0x2e ∷ 0x30 ∷ 0xe8 ∷ 3 ∷ 0 ∷ 0 ∷ 3 ∷ 0 ∷ 2 ∷ 1 ∷ 0
      ∷ 0 ∷ 0 ∷ 0 ∷ []
unfolding new init code
login_bytes = refl

make_packet-new_with_payload_example :
    (p : NetPacket) × (new_with_payload version audio_message 7 20 (1 ∷ 2 ∷ 3 ∷ []) ≡ some p)
    × (make_packet [] (take 1024 (p.whole_packet ++ (9 ∷ []))) 5 ≡ some p)
    × Carries audio_message 7 20 (1 ∷ 2 ∷ 3 ∷ []) p
make_packet-new_with_payload_example =
    make_packet-new_with_payload [] version (9 ∷ []) audio_message 7 20 5 (1 ∷ 2 ∷ 3 ∷ [])
      (omega arith) tt (omega arith) (omega arith) (omega arith)

make_packet-parse_example : make_packet version (1 ∷ 2 ∷ []) 3 ≡ parse (1 ∷ 2 ∷ [])
make_packet-parse_example = make_packet-parse version (1 ∷ 2 ∷ []) 3

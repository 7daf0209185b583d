-- ===== src/Examples/TcpServer.antt =====
-- The TCP server's room and sessions at concrete inputs.
use easy_voice_call.Base.{◌≡◌, refl, List, [], ◌∷◌, ◌++◌, some, arith}
use easy_voice_call.NetPacket.{NetPacket}
use easy_voice_call.NetPacket.Parse.{parse}
use easy_voice_call.Server.Room.{Room}
use easy_voice_call.Server.TcpSession.{read_loop, deliver, fresh}
use easy_voice_call.Server.TcpSession.Framing.{
  frames, read_loop-frames, read_loop-wire_bytes, read_loop_total,
}
use easy_voice_call.Server.TcpSession.WriteQueue.{
  start, delivers, InOrder, Reach-InOrder, wire_bytes,
}

-- A packet of two bytes of speech.
abbrev pub spoken : NetPacket
spoken = record {
  whole_packet =
      0x65 ∷ 0x76 ∷ 0x63 ∷ 0x20 ∷ 0x76 ∷ 0x31 ∷ 0x2e ∷ 0x30 ∷ 1 ∷ 0 ∷ 0 ∷ 0 ∷ 7 ∷ 0 ∷ 1 ∷ 0 ∷ 0 ∷ 0
      ∷ 2 ∷ 0 ∷ 5 ∷ 6 ∷ [];
}

-- A buffer that held a longer packet.
abbrev old : NetPacket
old = record { whole_packet = spoken.whole_packet ++ (1 ∷ 2 ∷ 3 ∷ []) }

abbrev pair : Room
pair = record { participants = 100 ∷ 200 ∷ []; counter = 0 }

read_loop-frames_example :
    read_loop 3 old (spoken.whole_packet ++ (1 ∷ 2 ∷ [])) ≡ some (spoken ∷ [])
unfolding frames parse
read_loop-frames_example =
    read_loop-frames 3 old (spoken.whole_packet ++ (1 ∷ 2 ∷ [])) (omega arith)

read_loop-wire_bytes_example :
    read_loop 3 old (wire_bytes (spoken ∷ spoken ∷ []) ++ (1 ∷ 2 ∷ []))
    ≡ some (spoken ∷ spoken ∷ [])
unfolding parse
read_loop-wire_bytes_example =
    read_loop-wire_bytes 3 old (spoken ∷ spoken ∷ []) (1 ∷ 2 ∷ []) (omega arith) (omega arith) refl
      (omega arith)

read_loop_total_example : (ps : List NetPacket) × (read_loop 4 old (1 ∷ 2 ∷ 3 ∷ []) ≡ some ps)
read_loop_total_example = read_loop_total 4 old (1 ∷ 2 ∷ 3 ∷ []) (omega arith) (omega arith)

Reach-InOrder_example : InOrder (spoken ∷ old ∷ []) (deliver (deliver fresh spoken) old)
Reach-InOrder_example = Reach-InOrder (delivers (delivers start spoken) old)

-- ===== src/Client/TcpClient/Framing.antt =====
-- The packets that the TCP client reads off its connection.
use easy_voice_call.Base.{
  ℕ, zero, suc, ◌≤◌, ◌<◌, ◌≡◌, refl, ◌∙◌, List, [], ◌∷◌, ◌++◌, none, some, length, All,
}
use easy_voice_call.NetPacket.{NetPacket}
use easy_voice_call.NetPacket.Parse.{parse, IsWellFormed}
use easy_voice_call.Server.TcpSession
use easy_voice_call.Server.TcpSession.WriteQueue.{wire_bytes}
use easy_voice_call.Server.TcpSession.Framing.{read_loop-wire_bytes}
use easy_voice_call.Client.TcpClient.{read_header, read_loop}

read_header-session :
    (msg : NetPacket) (input : List ℕ) → read_header msg input ≡ TcpSession.read_header msg input
unfolding read_header TcpSession.read_header
read_header-session msg input = refl

pub read_loop-session :
    (fuel : ℕ) (msg : NetPacket) (input : List ℕ)
    → read_loop fuel msg input ≡ TcpSession.read_loop fuel msg input
unfolding read_loop TcpSession.read_loop
read_loop-session zero msg input = refl
read_loop-session (suc fuel) msg input = λ i. elim (read_header-session msg input i) [
  | none ↦ some []
  | some (next, rest) ↦
      let more = read_loop-session fuel next rest i in
      elim more [ none ↦ none | some msgs ↦ some (next ∷ msgs) ]
]

-- Well-formed packets that the server writes one after the other reach the client's callback, all of
-- them and in their order, whatever the read buffer held, in one round more than packets.
pub client-reads-wire_bytes :
    (fuel : ℕ) (old : NetPacket) (ps : List NetPacket) (rest : List ℕ)
    → 20 ≤ length old.whole_packet
    → All IsWellFormed ps
    → parse rest ≡ none
    → length ps < fuel
    → read_loop fuel old (wire_bytes ps ++ rest) ≡ some ps
client-reads-wire_bytes fuel old ps rest h w e enough =
    read_loop-session fuel old (wire_bytes ps ++ rest)
    ∙ read_loop-wire_bytes fuel old ps rest h w e enough

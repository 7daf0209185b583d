-- ===== src/Client/RawUdpClient/Datagrams.antt =====
-- What the UDP client hands on, and what its calls report.
use Prim.Native.String.{String}
use easy_voice_call.Base.{
  ℕ, ◌≤◌, ◌≡◌, refl, ap, ◌∙◌, true, false, List, [], ◌∷◌, Option, none, some, length, take,
  take_all, append-nil, subst,
}
use easy_voice_call.NetPacket.{NetPacket}
use easy_voice_call.NetPacket.Parse.{parse, IsWellFormed, parse-IsWellFormed}
use easy_voice_call.Server.RawUdp
use easy_voice_call.Server.RawUdp.Datagram.{make_packet-parse}
use easy_voice_call.Client.RawUdpClient.{
  make_packet, receive_loop, hand_on, Received, datagram, raises, max_length, send_udp, send,
}

-- The client's copy of makePacket accepts and reads what the server's does.
pub make_packet-server :
    (git_tag bytes : List ℕ) (up : ℕ)
    → make_packet git_tag up bytes ≡ RawUdp.make_packet git_tag bytes up
unfolding make_packet RawUdp.make_packet
make_packet-server git_tag bytes up = refl

pub client-parse : (git_tag bytes : List ℕ) (up : ℕ) → make_packet git_tag up bytes ≡ parse bytes
client-parse git_tag bytes up =
    make_packet-server git_tag bytes up ∙ make_packet-parse git_tag bytes up

abbrev prepend : Option NetPacket → List NetPacket → List NetPacket
prepend none ps = ps
prepend (some p) ps = p ∷ ps

-- What a stream of datagrams holds, up to the first failure of the socket.
abbrev pub packets_in : List Received → List NetPacket
packets_in [] = []
packets_in (raises ∷ more) = []
packets_in (datagram bytes ∷ more) = prepend (parse (take max_length bytes)) (packets_in more)

hand_on-prepend :
    (o : Option NetPacket) (ps qs : List NetPacket) → ps ≡ qs → hand_on o ps ≡ prepend o qs
unfolding hand_on
hand_on-prepend none ps qs e = e
hand_on-prepend (some p) ps qs e = ap (◌∷◌ p) e

-- The receiver thread hands on exactly the packets that stand whole at the start of a datagram's
-- first 1024 bytes, in their order, until the socket fails.
pub receive_loop-packets_in :
    (git_tag : List ℕ) (up : ℕ) (rs : List Received) → receive_loop git_tag up rs ≡ packets_in rs
unfolding receive_loop hand_on
receive_loop-packets_in git_tag up [] = refl
receive_loop-packets_in git_tag up (raises ∷ more) = refl
receive_loop-packets_in git_tag up (datagram bytes ∷ more) =
    rw (client-parse git_tag (take max_length bytes) up) (
      hand_on-prepend (parse (take max_length bytes)) _ _ (receive_loop-packets_in git_tag up more))

-- A well-formed packet of at most 1024 bytes arrives as itself.
pub receive_one :
    (git_tag : List ℕ) (up : ℕ) (p : NetPacket)
    → IsWellFormed p
    → length p.whole_packet ≤ max_length
    → receive_loop git_tag up (datagram p.whole_packet ∷ []) ≡ p ∷ []
receive_one git_tag up p formed fits =
    let whole = p.whole_packet in
    let read : parse whole ≡ some p =
      subst (λ (w : List ℕ). parse w ≡ some p) (append-nil whole)
        (parse-IsWellFormed p [] formed) in
    receive_loop-packets_in git_tag up (datagram whole ∷ [])
    ∙ rw (take_all max_length whole fits, read)

-- A failed send_to is an error for sendUdp and a success for `send`.
pub send_hides_failure :
    (what : String) → ((send_udp (some what)).ok ≡ false) × ((send (some what)).ok ≡ true)
unfolding send_udp send
send_hides_failure what = (refl, refl)

-- ===== src/Client/RawUdpClient.antt =====
-- client_essential/net_engine/RawUdpClient.cpp and NetClient.hpp: the UDP client. What the socket does
-- is the argument: the datagrams that receive_from returns, each cut to its 1024-byte buffer, until it
-- raises or the loop's flag is cleared, and whether send_to raises.
pub mod Datagrams
use Prim.Native.String.{String}
use easy_voice_call.Base.{
  ℕ, ◌+◌, Bool, true, not, List, [], ◌∷◌, Option, none, some, length, take, ltb, if◌then◌else◌,
  memcpy, slice,
}
use easy_voice_call.Base.Int.{pos}
use easy_voice_call.ReturnType.{ReturnType, of_int, of_text}
use easy_voice_call.NetPacket.{
  NetPacket, undefined, fix_header_length, new, check_header, payload_length,
}

abbrev pub max_length : ℕ
max_length = 1024

-- One call of receive_from.
pub data Received : Type 0 where
  datagram : List ℕ → Received
  raises : Received

hand_on : Option NetPacket → List NetPacket → List NetPacket
hand_on none rest = rest
hand_on (some p) rest = p ∷ rest

module _ (git_tag : List ℕ) (up_time : ℕ) where
  unfoldable pub make_packet : List ℕ → Option NetPacket
  make_packet bytes =
      if ltb (length bytes) fix_header_length
      then none
      else (let fresh = new git_tag undefined 0 up_time in
          let headed : NetPacket = record {
            whole_packet = memcpy fresh.whole_packet 0 (slice 0 fix_header_length bytes);
          } in
          let (ret, checked) = check_header headed in
          if not checked
          then none
          else if ltb (length bytes) (fix_header_length + payload_length ret)
          then none
          else some (record {
            whole_packet =
                memcpy ret.whole_packet fix_header_length
                  (slice fix_header_length (payload_length ret) bytes);
          }))

  -- The receiver thread: the packets that `onDataReceived_` is called with. An exception ends it.
  pub receive_loop : List Received → List NetPacket
  unfolding hand_on make_packet
  receive_loop [] = []
  receive_loop (raises ∷ more) = []
  receive_loop (datagram bytes ∷ more) =
      hand_on (make_packet (take max_length bytes)) (receive_loop more)

-- `raised` is the text of the exception that send_to raises, if it does.
pub send_udp : Option String → ReturnType
unfolding of_int of_text
send_udp none = of_int (pos 0)
send_udp (some what) = of_text what

-- `send` drops what sendUdp returns.
pub send : Option String → ReturnType
unfolding send_udp of_int
send raised = let dropped = send_udp raised in of_int (pos 0)

-- `init` ends in `return true`, which ReturnType takes for the error number 1.
pub init : ReturnType
unfolding of_int
init = of_int (pos 1)

pub is_connected : Bool
is_connected = true

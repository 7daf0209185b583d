-- ===== src/Client/TcpClient.antt =====
-- client_essential/TcpClient.hpp: the TCP client. Its socket is modelled as in Server/TcpSession.antt,
-- whose writer state it shares: `failed` says here that the client has closed its socket.
pub mod Queue
pub mod Framing
pub mod Service
use easy_voice_call.Base.{
  ℕ, zero, suc, ◌+◌, Bool, true, false, not, List, [], ◌∷◌, ◌++◌, Option, none, some, length, take,
  drop, ltb, if◌then◌else◌, memcpy,
}
use easy_voice_call.Base.Int.{pos}
use easy_voice_call.ReturnType.{ReturnType, of_int}
use easy_voice_call.NetPacket.{
  NetPacket, fix_header_length, check_header, payload_length, whole_pack_length,
}
use easy_voice_call.Server.TcpSession.{Writer, fresh}

-- What the client object holds beside its writer.
pub record TcpClient : Type 0 where
  pub is_connected : Bool
  pub writer : Writer

-- The handler of async_connect.
pub on_connect : TcpClient → Bool → TcpClient
on_connect c failed =
    if failed
    then record c { writer = record c.writer { failed = true } }
    else record c { is_connected = true }

unfoldable pub front : List NetPacket → Option (List ℕ)
front [] = none
front (msg ∷ msgs) = some (take (whole_pack_length msg) msg.whole_packet)

-- `write()`, which is called with a message in the queue.
unfoldable pub write_front : Writer → Writer
unfolding front
write_front s = elim (front s.write_msgs) [
  | none ↦ s
  | some bytes ↦ record s { in_flight = some bytes }
]

abbrev is_empty {ℓ} : {A : Type ℓ} → List A → Bool
is_empty [] = true
is_empty (x ∷ xs) = false

abbrev pop_front {ℓ} : {A : Type ℓ} → List A → List A
pop_front [] = []
pop_front (x ∷ xs) = xs

abbrev flight : Option (List ℕ) → List ℕ
flight none = []
flight (some bytes) = bytes

-- What `write(msg)` posts to the service's thread.
unfoldable pub write : Writer → NetPacket → Writer
unfolding write_front
write s msg =
    let write_in_progress = not (is_empty s.write_msgs) in
    let pushed : Writer = record s { write_msgs = s.write_msgs ++ (msg ∷ []) } in
    if write_in_progress then pushed else write_front pushed

-- The completion handler of async_write, without and with an error.
unfoldable pub on_written : Writer → Writer
unfolding write_front
on_written s =
    let popped : Writer = record s {
      wire = s.wire ++ flight s.in_flight;
      in_flight = none;
      write_msgs = pop_front s.write_msgs;
    } in
    if is_empty popped.write_msgs then popped else write_front popped

unfoldable pub on_write_error : Writer → ℕ → Writer
on_write_error s n = record s {
  wire = s.wire ++ take n (flight s.in_flight);
  in_flight = none;
  failed = true;
}

-- `send` posts the message and reports success.
pub send : TcpClient → NetPacket → TcpClient × ReturnType
unfolding write of_int
send c msg = (record c { writer = write c.writer msg }, of_int (pos 0))

pub read_payload : NetPacket → List ℕ → Option (NetPacket × List ℕ)
read_payload read_msg input =
    let n = payload_length read_msg in
    if ltb (length input) n
    then none
    else some (
      record { whole_packet = memcpy read_msg.whole_packet fix_header_length (take n input) },
      drop n input,
    )

pub read_header : NetPacket → List ℕ → Option (NetPacket × List ℕ)
unfolding read_payload
read_header read_msg input =
    if ltb (length input) fix_header_length
    then none
    else let (checked_msg, checked) =
        check_header (record {
          whole_packet = memcpy read_msg.whole_packet 0 (take fix_header_length input);
        }) in
      if checked then read_payload checked_msg (drop fix_header_length input) else none

-- The packets that `onDataReceived_` is called with until the socket is closed; `none` means that the
-- fuel ran out.
pub read_loop : ℕ → NetPacket → List ℕ → Option (List NetPacket)
read_loop zero read_msg input = none
read_loop (suc fuel) read_msg input = elim (read_header read_msg input) [
  | none ↦ some []
  | some (msg, rest) ↦
      let more = read_loop fuel msg rest in
      elim more [ none ↦ none | some msgs ↦ some (msg ∷ msgs) ]
]

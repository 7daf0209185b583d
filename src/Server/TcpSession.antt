-- ===== src/Server/TcpSession.antt =====
-- server/TcpServer.hpp: one client-server connection. The socket's input is the list of the bytes that
-- arrive until it ends or fails; async_read answers with exactly the bytes asked for, or an error.
-- async_write is modelled by what is handed to it and by its completion.
pub mod Framing
pub mod WriteQueue
use easy_voice_call.Base.{
  ℕ, zero, suc, ◌+◌, ◌-◌, ◌≤◌, Bool, true, false, not, List, [], ◌∷◌, ◌++◌, Option, none, some,
  length, take, drop, ltb, if◌then◌else◌, memcpy,
}
use easy_voice_call.NetPacket.{
  NetPacket, fix_header_length, check_header, payload_length, whole_pack_length,
}

-- readPayload into `read_msg`: the bytes asked for, or the error that makes the session leave.
unfoldable pub read_payload : NetPacket → List ℕ → Option (NetPacket × List ℕ)
read_payload read_msg input =
    let n = payload_length read_msg in
    if ltb (length input) n
    then none
    else some (
      record { whole_packet = memcpy read_msg.whole_packet fix_header_length (take n input) },
      drop n input,
    )

-- readHeader, `checkHeader`, and then readPayload.
unfoldable pub read_header : NetPacket → List ℕ → Option (NetPacket × List ℕ)
unfolding read_payload
read_header read_msg input =
    if ltb (length input) fix_header_length
    then none
    else let (checked_msg, checked) =
        check_header (record {
          whole_packet = memcpy read_msg.whole_packet 0 (take fix_header_length input);
        }) in
      if checked then read_payload checked_msg (drop fix_header_length input) else none

-- The chain of readHeader and readPayload: the packets that processClientMessagePayload is called with
-- until the session leaves the room. Each round takes 20 bytes at least, so fuel above the number of
-- bytes is enough; `none` means that it ran out.
unfoldable pub read_loop : ℕ → NetPacket → List ℕ → Option (List NetPacket)
read_loop zero read_msg input = none
read_loop (suc fuel) read_msg input = elim (read_header read_msg input) [
  | none ↦ some []
  | some (msg, rest) ↦
      let more = read_loop fuel msg rest in
      elim more [ none ↦ none | some msgs ↦ some (msg ∷ msgs) ]
]

-- `write_msgs` is the queue, `in_flight` the buffer of an async_write that has not completed, and
-- `wire` what completed and failed writes have put on the connection.
pub record Writer : Type 0 where
  pub write_msgs : List NetPacket
  pub in_flight : Option (List ℕ)
  pub wire : List ℕ
  pub failed : Bool

-- `write` hands the front of the queue to async_write; on an empty queue `front` is undefined, and the
-- model leaves the state alone.
write_front : Writer → List NetPacket → Writer
write_front s [] = s
write_front s (msg ∷ msgs) = record s {
  in_flight = some (take (whole_pack_length msg) msg.whole_packet);
}

unfoldable pub write : Writer → Writer
unfolding write_front
write s = write_front s s.write_msgs

abbrev is_empty {ℓ} : {A : Type ℓ} → List A → Bool
is_empty [] = true
is_empty (x ∷ xs) = false

abbrev pop_front {ℓ} : {A : Type ℓ} → List A → List A
pop_front [] = []
pop_front (x ∷ xs) = xs

unfoldable pub deliver : Writer → NetPacket → Writer
unfolding write
deliver s msg =
    let write_in_progress = not (is_empty s.write_msgs) in
    let pushed : Writer = record s { write_msgs = s.write_msgs ++ (msg ∷ []) } in
    if write_in_progress then pushed else write pushed

abbrev flight : Option (List ℕ) → List ℕ
flight none = []
flight (some bytes) = bytes

-- The completion handler of async_write without an error: all of the buffer is on the wire.
unfoldable pub on_written : Writer → Writer
unfolding write
on_written s =
    let popped : Writer = record s {
      wire = s.wire ++ flight s.in_flight;
      in_flight = none;
      write_msgs = pop_front s.write_msgs;
    } in
    if is_empty popped.write_msgs then popped else write popped

-- With an error: the first `n` bytes of the buffer are on the wire, and the session leaves the room.
unfoldable pub on_write_error : Writer → ℕ → Writer
on_write_error s n = record s {
  wire = s.wire ++ take n (flight s.in_flight);
  in_flight = none;
  failed = true;
}

unfoldable pub fresh : Writer
fresh = record { write_msgs = []; in_flight = none; wire = []; failed = false }

-- ===== src/Server/TcpServer.antt =====
-- server/TcpServer.hpp: the server of all TCP connections, with its room and its sessions. A session
-- is found by its pointer; what stands at a pointer that was never accepted does not matter.
pub mod Log
pub mod Invariant
pub mod Sessions
pub mod Conversation
pub mod Relay
use easy_voice_call.Base.{ℕ, Bool, List, [], ◌∷◌, Option, none, some, update, if◌then◌else◌}
use easy_voice_call.ReturnType.{ReturnType}
use easy_voice_call.NetPacket.{NetPacket, undefined, new}
use easy_voice_call.Server.Room.{Room, Delivery, join, leave, process_client_message_payload}
use easy_voice_call.Server.TcpSession.{
  Writer, fresh, read_header, deliver, on_written, on_write_error,
}

pub record TcpSession : Type 0 where
  pub read_msg : NetPacket
  pub writer : Writer

pub record TcpServer : Type 0 where
  pub room : Room
  pub sessions : ℕ → TcpSession

-- The calls of `deliver`, in their order.
unfoldable pub deliver_to : (ℕ → TcpSession) → Delivery → ℕ → TcpSession
deliver_to sessions d =
    let session = sessions d.participant in
    update sessions d.participant (record session { writer = deliver session.writer d.packet })

unfoldable pub deliver_all : (ℕ → TcpSession) → List Delivery → ℕ → TcpSession
unfolding deliver_to
deliver_all sessions [] = sessions
deliver_all sessions (d ∷ ds) = deliver_all (deliver_to sessions d) ds

pub set_writer : TcpServer → ℕ → Writer → TcpServer
set_writer s p w = record s {
  sessions = update s.sessions p (record (s.sessions p) { writer = w });
}

module _ (git_tag : List ℕ) (is_echo_mode : Bool) where
  -- `start` of the new session at the address `p`, which is dropped again if the room refuses it.
  unfoldable pub start : TcpServer → ℕ → ℕ → TcpServer
  start s p up_time =
      let (room, result) = join s.room p in
      let session : TcpSession = record {
        read_msg = new git_tag undefined 0 up_time;
        writer = fresh;
      } in
      if result.ok then record { room = room; sessions = update s.sessions p session } else s

  -- The handler of async_accept, with the address of the session that is made; none for an error.
  unfoldable pub accept : TcpServer → Option ℕ → ℕ → TcpServer
  unfolding start
  accept s none up_time = s
  accept s (some p) up_time = start s p up_time

  -- What the handlers of readHeader and readPayload do with what they have read.
  unfoldable pub on_message : TcpServer → ℕ → ℕ → Option (NetPacket × List ℕ) → TcpServer
  on_message s p up_time none = record s { room = leave s.room p }
  on_message s p up_time (some (msg, rest)) =
      let (room, sent) = process_client_message_payload git_tag is_echo_mode s.room msg p up_time in
      record {
        room = room;
        sessions =
            deliver_all (update s.sessions p (record (s.sessions p) { read_msg = msg })) sent;
      }

  -- One round of reading from `input`, the bytes that the session's connection has to give.
  unfoldable pub on_read : TcpServer → ℕ → List ℕ → ℕ → TcpServer
  unfolding on_message
  on_read s p input up_time = on_message s p up_time (read_header (s.sessions p).read_msg input)

  -- The calls of `deliver` in that round.
  unfoldable pub answers_to : TcpServer → ℕ → ℕ → Option (NetPacket × List ℕ) → List Delivery
  answers_to s p up_time none = []
  answers_to s p up_time (some (msg, rest)) =
      (process_client_message_payload git_tag is_echo_mode s.room msg p up_time).1

  unfoldable pub answers : TcpServer → ℕ → List ℕ → ℕ → List Delivery
  unfolding answers_to
  answers s p input up_time = answers_to s p up_time (read_header (s.sessions p).read_msg input)

-- The completion of a write, without and with an error, which makes the session leave.
unfoldable pub on_session_written : TcpServer → ℕ → TcpServer
unfolding set_writer
on_session_written s p = set_writer s p (on_written (s.sessions p).writer)

pub on_session_write_error : TcpServer → ℕ → ℕ → TcpServer
unfolding set_writer
on_session_write_error s p n =
    let left : TcpServer = record s { room = leave s.room p } in
    set_writer left p (on_write_error (s.sessions p).writer n)

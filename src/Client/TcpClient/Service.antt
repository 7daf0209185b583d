-- ===== src/Client/TcpClient/Service.antt =====
-- client_essential/TcpClient.hpp: the client object and the handlers that its io_service runs, from init
-- to the destructor. A turn is one handler that the service's thread runs. An operation that begins
-- on a closed socket completes with an error, and one in hand completes after the socket is closed.
pub mod Work
pub mod Ending
pub mod Chain
pub mod Following
pub mod Receiving
pub mod Tests
use Prim.Native.String.{String}
use easy_voice_call.Base.{
  ℕ, ◌+◌, Bool, true, false, not, ◌&&◌, List, [], ◌∷◌, ◌++◌, Option, none, some, length, ◌==◌,
  if◌then◌else◌, memcpy,
}
use easy_voice_call.Base.Int.{pos}
use easy_voice_call.ReturnType.{ReturnType, of_int, of_text}
use easy_voice_call.NetPacket.{NetPacket, fix_header_length, check_header, payload_length}
use easy_voice_call.Server.TcpSession.{fresh}
use easy_voice_call.Client.TcpClient.{TcpClient, on_connect, write, on_written, on_write_error}

-- What the socket reads for the client. The flag says whether it was open when the operation began.
pub data Reading : Type 0 where
  idle : Reading
  connects : Bool → Reading
  reads_header : Bool → Reading
  reads_payload : Bool → Reading

-- What other threads post to the service.
pub data Task : Type 0 where
  writes : NetPacket → Task
  closes : Task

pub record BoostAsioTcpClient : Type 0 where
  pub client : TcpClient
  pub socket_open : Bool
  pub read_msg : NetPacket
  pub reading : Reading
  pub write_began_open : Bool
  pub posted : List Task
  pub received : List NetPacket

-- The constructor, which begins to connect; `read_msg` is a default packet.
pub create : NetPacket → BoostAsioTcpClient
unfolding fresh
create read_msg = record {
  client = record { is_connected = false; writer = fresh };
  socket_open = true;
  read_msg = read_msg;
  reading = connects true;
  write_began_open = false;
  posted = [];
  received = [];
}

-- `TcpClient::init`: the resolver may raise, and then there is no client and no thread, and the caller
-- reports the text of the exception.
pub init : Option String → NetPacket → Option BoostAsioTcpClient × ReturnType
unfolding create of_int of_text
init none read_msg = (some (create read_msg), of_int (pos 0))
init (some what) read_msg = (none, of_text what)

pub post : BoostAsioTcpClient → Task → BoostAsioTcpClient
post s task = record s { posted = s.posted ++ (task ∷ []) }

pub close_socket : BoostAsioTcpClient → BoostAsioTcpClient
close_socket s = record s { socket_open = false; reading = idle }

-- The destructor's calls before it waits for the service's thread: `none` is the use of a null
-- pointer, where init has not been called or has raised.
pub destroy : Option BoostAsioTcpClient → Option BoostAsioTcpClient
unfolding post
destroy none = none
destroy (some s) = some (post s closes)

abbrev is_empty {ℓ} : {A : Type ℓ} → List A → Bool
is_empty [] = true
is_empty (x ∷ xs) = false

-- `send`, and `write(msg)`, which posts.
pub send : BoostAsioTcpClient → NetPacket → BoostAsioTcpClient × ReturnType
unfolding post of_int
send s msg = (post s (writes msg), of_int (pos 0))

-- The handler that `write(msg)` posts.
pub run_write : BoostAsioTcpClient → NetPacket → BoostAsioTcpClient
unfolding write
run_write s msg = record s {
  client = record (s.client) { writer = write s.client.writer msg };
  write_began_open =
      if is_empty s.client.writer.write_msgs then s.socket_open else s.write_began_open;
}

pub run_posted : BoostAsioTcpClient → List Task → Option BoostAsioTcpClient
unfolding run_write
run_posted s [] = none
run_posted s (closes ∷ tasks) = some (record s { socket_open = false; posted = tasks })
run_posted s (writes msg ∷ tasks) = some (run_write (record s { posted = tasks }) msg)

-- The handler of async_connect.
pub connected : BoostAsioTcpClient → Bool → BoostAsioTcpClient
unfolding on_connect close_socket
connected s failed =
    let told : BoostAsioTcpClient = record s { client = on_connect s.client failed } in
    if failed then close_socket told else record told { reading = reads_header s.socket_open }

-- The handler in readHeader, after an error and after the bytes.
pub header_read : BoostAsioTcpClient → Option (List ℕ) → BoostAsioTcpClient
unfolding close_socket
header_read s none = close_socket s
header_read s (some bytes) =
    let (msg, checked) =
      check_header (record { whole_packet = memcpy s.read_msg.whole_packet 0 bytes }) in
    if checked
    then record s { read_msg = msg; reading = reads_payload s.socket_open }
    else close_socket (record s { read_msg = msg })

-- The handler in readPayload.
pub payload_read : BoostAsioTcpClient → Option (List ℕ) → BoostAsioTcpClient
unfolding close_socket
payload_read s none = close_socket s
payload_read s (some bytes) =
    let msg : NetPacket = record {
      whole_packet = memcpy s.read_msg.whole_packet fix_header_length bytes;
    } in
    record s {
      read_msg = msg;
      received = s.received ++ (msg ∷ []);
      reading = reads_header s.socket_open;
    }

-- The handler of async_write, without an error and with one after `n` bytes.
pub written : BoostAsioTcpClient → Option ℕ → BoostAsioTcpClient
unfolding on_written on_write_error
written s none = record s {
  client = record (s.client) { writer = on_written s.client.writer };
  write_began_open = s.socket_open;
}
written s (some n) = record s {
  client = record (s.client) { writer = on_write_error s.client.writer n };
  socket_open = false;
}

-- One turn of the service's thread: the first posted task, or an operation that completes.
pub data Turn : Type 0 where
  runs_task : Turn
  completes_connect : Bool → Turn
  completes_read : Option (List ℕ) → Turn
  completes_write : Option ℕ → Turn

-- Whether an operation can complete so: with success, only if the socket was open when it began, and
-- then with as many bytes as it has asked for.
can_read : Bool → ℕ → Option (List ℕ) → Bool
can_read was_open wanted none = true
can_read was_open wanted (some bytes) = was_open && length bytes == wanted

can_write : Bool → Option ℕ → Bool
can_write was_open none = was_open
can_write was_open (some n) = true

on_read : Reading → BoostAsioTcpClient → Option (List ℕ) → Option BoostAsioTcpClient
unfolding can_read header_read payload_read
on_read (reads_header was_open) s result =
    if can_read was_open fix_header_length result then some (header_read s result) else none
on_read (reads_payload was_open) s result =
    if can_read was_open (payload_length s.read_msg) result
    then some (payload_read s result)
    else none
on_read idle s result = none
on_read (connects was_open) s result = none

on_connecting : Reading → BoostAsioTcpClient → Bool → Option BoostAsioTcpClient
unfolding connected
on_connecting (connects was_open) s failed =
    if not was_open && not failed then none else some (connected s failed)
on_connecting _ s failed = none

on_writing : Option (List ℕ) → BoostAsioTcpClient → Option ℕ → Option BoostAsioTcpClient
unfolding can_write written
on_writing none s result = none
on_writing (some bytes) s result =
    if can_write s.write_began_open result then some (written s result) else none

-- `none` where the service has no such handler to run.
pub step : BoostAsioTcpClient → Turn → Option BoostAsioTcpClient
unfolding run_posted on_connecting on_read on_writing
step s runs_task = run_posted s s.posted
step s (completes_connect failed) = on_connecting s.reading s failed
step s (completes_read result) = on_read s.reading s result
step s (completes_write result) = on_writing s.client.writer.in_flight s result

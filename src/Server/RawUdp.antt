-- ===== src/Server/RawUdp.antt =====
-- server/RawUdpServer.hpp and RawUdpServer.cpp. A connection is its pointer, by which the set of peers
-- is ordered and compared, and its endpoint. The address that `make_shared` returns is an argument.
-- What `async_send_to` is handed is the result; its completion handler does nothing.
pub mod Peers
pub mod Datagram
pub mod Membership
pub mod Delivery
pub mod Requests
pub mod Registered
use easy_voice_call.Base.{
  ℕ, suc, ◌+◌, ◌%◌, ◌^◌, Bool, true, false, not, ◌&&◌, List, [], ◌∷◌, ◌++◌, Option, none, some,
  length, take, ltb, ◌==◌, if◌then◌else◌, memcpy, slice,
}
use easy_voice_call.NetPacket.{
  NetPacket, PayloadType, heart_beat_request, heart_beat_response, login_request, login_response,
  text_message, audio_message, audio_message_cn, logout_request, fix_header_length, new,
  check_header, payload_length, payload_type,
}

-- boost::asio::ip::udp::endpoint, compared by address and port.
pub record Endpoint : Type 0 where
  pub address : ℕ
  pub port : ℕ

abbrev pub same : Endpoint → Endpoint → Bool
same a b = a.address == b.address && a.port == b.port

pub record RawUdpConnection : Type 0 where
  pub pointer : ℕ
  pub remote_endpoint : Endpoint

-- `counter` is the function's static `counterUserMessage_`.
pub record RawUdpRoom : Type 0 where
  pub peers : List RawUdpConnection
  pub counter : ℕ

-- A datagram handed to the socket.
pub record Sent : Type 0 where
  pub to : Endpoint
  pub bytes : List ℕ

-- std::set::insert and std::set::erase, ordered by the pointer.
pub insert_peer : RawUdpConnection → List RawUdpConnection → List RawUdpConnection
insert_peer c [] = c ∷ []
insert_peer c (p ∷ ps) =
    if ltb c.pointer p.pointer
    then c ∷ p ∷ ps
    else if c.pointer == p.pointer
    then p ∷ ps
    else p ∷ insert_peer c ps

pub erase_peer : RawUdpConnection → List RawUdpConnection → List RawUdpConnection
erase_peer c [] = []
erase_peer c (p ∷ ps) = if p.pointer == c.pointer then ps else p ∷ erase_peer c ps

unfoldable pub find_peer : Endpoint → List RawUdpConnection → Option RawUdpConnection
find_peer endpoint [] = none
find_peer endpoint (p ∷ ps) =
    if same p.remote_endpoint endpoint then some p else find_peer endpoint ps

pub kick_me_out : RawUdpRoom → RawUdpConnection → RawUdpRoom
unfolding erase_peer
kick_me_out room me = record room { peers = erase_peer me room.peers }

pub send : RawUdpConnection → NetPacket → Sent
send c msg = record { to = c.remote_endpoint; bytes = msg.whole_packet }

-- The broadcast loop.
pub broadcast : List RawUdpConnection → RawUdpConnection → NetPacket → List Sent
unfolding send
broadcast [] sender msg = []
broadcast (p ∷ ps) sender msg =
    let rest = broadcast ps sender msg in
    if p.pointer == sender.pointer then rest else send p msg ∷ rest

-- A datagram that the socket delivers: whether it failed, from whom, its bytes, and what the
-- allocator and the clock give while it is handled.
pub record Arrival : Type 0 where
  pub failed : Bool
  pub sender_endpoint : Endpoint
  pub datagram : List ℕ
  pub new_address : ℕ
  pub up_time : ℕ

abbrev pub max_length : ℕ
max_length = 1024

module _ (git_tag : List ℕ) where
  unfoldable pub make_packet : List ℕ → ℕ → Option NetPacket
  make_packet bytes up_time =
      if ltb (length bytes) fix_header_length
      then none
      else (let fresh = new git_tag PayloadType.undefined 0 up_time in
          let headed : NetPacket = record {
            whole_packet = memcpy fresh.whole_packet 0 (slice 0 fix_header_length bytes);
          } in
          let (ret, checked) = check_header headed in
          if not checked
          then none
          else if ltb (length bytes) (fix_header_length + payload_length ret)
          then none
          else some (record {
            whole_packet =
                memcpy ret.whole_packet fix_header_length
                  (slice fix_header_length (payload_length ret) bytes);
          }))

module _ (git_tag : List ℕ) (is_echo_mode : Bool) where
  user_message : RawUdpRoom → NetPacket → RawUdpConnection → RawUdpRoom × List Sent
  unfolding send broadcast
  user_message room msg sender = (
    record room { counter = (room.counter + 1) % 2 ^ 32 },
    if is_echo_mode then send sender msg ∷ [] else broadcast room.peers sender msg,
  )

  reply : PayloadType → RawUdpConnection → ℕ → List Sent
  unfolding send
  reply t sender up_time = send sender (new git_tag t 0 up_time) ∷ []

  -- The switch of `processClientMessagePayload`; the last clause is `default`.
  pub dispatch :
      PayloadType → RawUdpRoom → NetPacket → RawUdpConnection → ℕ → RawUdpRoom × List Sent
  unfolding user_message reply kick_me_out
  dispatch heart_beat_request room msg sender up = (room, reply heart_beat_response sender up)
  dispatch text_message room msg sender up = user_message room msg sender
  dispatch audio_message room msg sender up = user_message room msg sender
  dispatch audio_message_cn room msg sender up = user_message room msg sender
  dispatch login_request room msg sender up = (room, reply login_response sender up)
  dispatch logout_request room msg sender up = (kick_me_out room sender, [])
  dispatch _ room msg sender up = (room, [])

  pub process_client_message_payload :
      RawUdpRoom → NetPacket → RawUdpConnection → ℕ → RawUdpRoom × List Sent
  unfolding dispatch
  process_client_message_payload room msg sender up = dispatch (payload_type msg) room msg sender up

  -- `onReceived` behind `makePacket`.
  on_packet : RawUdpRoom → RawUdpConnection → ℕ → Option NetPacket → RawUdpRoom × List Sent
  unfolding process_client_message_payload
  on_packet room me up none = (room, [])
  on_packet room me up (some new_packet) = process_client_message_payload room new_packet me up

  pub on_received : RawUdpRoom → RawUdpConnection → List ℕ → ℕ → RawUdpRoom × List Sent
  unfolding on_packet
  on_received room me bytes up = on_packet room me up (make_packet git_tag bytes up)

  -- `insert` behind `findPeer`: an unknown endpoint gets a connection in the set first.
  insert_peer_if_new :
      RawUdpRoom → Arrival → List ℕ → Option RawUdpConnection → RawUdpRoom × List Sent
  unfolding on_received
  insert_peer_if_new room a bytes (some peer) = on_received room peer bytes a.up_time
  insert_peer_if_new room a bytes none =
      let peer : RawUdpConnection = record {
        pointer = a.new_address;
        remote_endpoint = a.sender_endpoint;
      } in
      on_received (record room { peers = insert_peer peer room.peers }) peer bytes a.up_time

  pub insert : RawUdpRoom → Arrival → List ℕ → RawUdpRoom × List Sent
  unfolding insert_peer_if_new
  insert room a bytes = insert_peer_if_new room a bytes (find_peer a.sender_endpoint room.peers)

  -- The handler of `doReceive`; the socket writes at most `max_length` bytes into `data_`.
  pub on_datagram : RawUdpRoom → Arrival → RawUdpRoom × List Sent
  unfolding insert
  on_datagram room a =
      let bytes = take max_length a.datagram in
      if not a.failed && ltb 0 (length bytes) then insert room a bytes else (room, [])

  -- The loop of `doReceive`.
  pub run : RawUdpRoom → List Arrival → RawUdpRoom × List Sent
  run room [] = (room, [])
  run room (a ∷ as') =
      let (room', sent) = on_datagram room a in
      let (room'', more) = run room' as' in (room'', sent ++ more)

-- ===== src/Server/RawUdp/Requests.antt =====
-- What the UDP server answers by itself, and what it drops.
use easy_voice_call.Base.{
  ℕ, ◌<◌, ◌≡◌, ◌≢◌, refl, sym, ap, Bool, true, false, not, ◌&&◌, List, [], ◌∷◌, arith, Option, some,
  none, inl, inr, Bool-cases, ltb, take, length, length-take, take-drop-take, subst, read_le,
}
use easy_voice_call.NetPacket.{
  NetPacket, PayloadType, heart_beat_request, heart_beat_response, login_request, login_response,
  text_message, audio_message, audio_message_cn, logout_request, logout_response, payload_type,
  is_media, new,
}
use easy_voice_call.NetPacket.Parse.{parse, size_field, parse_cut}
use easy_voice_call.Server.RawUdp.{
  Endpoint, same, RawUdpConnection, RawUdpRoom, Arrival, Sent, find_peer, max_length, send, reply,
  dispatch, process_client_message_payload, on_packet, on_received, insert_peer_if_new, insert,
  on_datagram,
}
use easy_voice_call.Server.RawUdp.Datagram.{make_packet-parse}
use easy_voice_call.Server.RawUdp.Delivery.{on_datagram-packet}

-- What documents/technical/TediousNetworkProtocol.md says that the server answers by itself.
abbrev pub answer : PayloadType → Option PayloadType
answer heart_beat_request = some heart_beat_response
answer login_request = some login_response
answer logout_request = some logout_response
answer _ = none

-- Nothing is sent where there is no answer; else a packet of that type, with serial number 0 and no
-- payload, goes to the sender alone.
pub data Answers (git_tag : List ℕ) (o : Option PayloadType) (a : Arrival) (sent : List Sent)
    : Type 0 where
  silent : o ≡ none → sent ≡ [] → Answers git_tag o a sent
  replied :
      (t : PayloadType) (to : Endpoint)
      → o ≡ some t
      → same to a.sender_endpoint ≡ true
      → sent ≡ record { to = to; bytes = (new git_tag t 0 a.up_time).whole_packet } ∷ []
      → Answers git_tag o a sent

module _ (git_tag : List ℕ) (is_echo_mode : Bool) where
  dispatch-Answers :
      (t : PayloadType) (room : RawUdpRoom) (p : NetPacket) (me : RawUdpConnection) (a : Arrival)
      → is_media t ≡ false
      → t ≢ logout_request
      → same me.remote_endpoint a.sender_endpoint ≡ true
      → Answers git_tag (answer t) a (dispatch git_tag is_echo_mode t room p me a.up_time).1
  unfolding dispatch reply send is_media
  dispatch-Answers heart_beat_request room p me a h stays mine =
      replied heart_beat_response me.remote_endpoint refl mine refl
  dispatch-Answers login_request room p me a h stays mine =
      replied login_response me.remote_endpoint refl mine refl
  dispatch-Answers text_message room p me a h stays mine = cc
  dispatch-Answers audio_message room p me a h stays mine = cc
  dispatch-Answers audio_message_cn room p me a h stays mine = cc
  dispatch-Answers logout_request room p me a h stays mine = absurd (stays refl)
  dispatch-Answers _ room p me a h stays mine = silent refl refl

  -- Any other packet but a LogoutRequest is answered as the protocol's document says, and to its sender
  -- alone: a HeartBeatRequest by a HeartBeatResponse, a LoginRequest by a LoginResponse, with serial
  -- number 0 and no payload, and the rest by nothing.
  pub request_answered :
      (room : RawUdpRoom) (a : Arrival) (p : NetPacket)
      → a.failed ≡ false
      → parse (take max_length a.datagram) ≡ some p
      → is_media (payload_type p) ≡ false
      → payload_type p ≢ logout_request
      → Answers git_tag (answer (payload_type p)) a (on_datagram git_tag is_echo_mode room a).1
  unfolding process_client_message_payload
  request_answered room a p ok e quiet stays =
      let (room', me, handled, mine, counts, facts) =
        on_datagram-packet git_tag is_echo_mode room a p ok e
          (find_peer a.sender_endpoint room.peers) refl in
      subst (λ (r : RawUdpRoom × List Sent). Answers git_tag (answer (payload_type p)) a r.1)
        (sym handled) (dispatch-Answers (payload_type p) room' p me a quiet stays mine)

  insert_peer_if_new-none :
      (room : RawUdpRoom) (a : Arrival) (bytes : List ℕ) (o : Option RawUdpConnection)
      → parse bytes ≡ none
      → (insert_peer_if_new git_tag is_echo_mode room a bytes o).1 ≡ []
  unfolding insert_peer_if_new on_received on_packet
  insert_peer_if_new-none room a bytes (some c) e =
      rw (make_packet-parse git_tag bytes a.up_time, e)
  insert_peer_if_new-none room a bytes none e = rw (make_packet-parse git_tag bytes a.up_time, e)

  -- The receive buffer bounds what is served: a datagram whose header announces a payload of more than
  -- 1004 bytes is answered and forwarded to nobody, however long it is.
  pub oversize_dropped :
      (room : RawUdpRoom) (a : Arrival)
      → 1004 < size_field a.datagram
      → (on_datagram git_tag is_echo_mode room a).1 ≡ []
  unfolding on_datagram insert
  oversize_dropped room a big =
      let bytes = take max_length a.datagram in
      let dropped : parse bytes ≡ none = parse_cut bytes (
        omega (
          arith,
          length-take max_length a.datagram,
          ap read_le (take-drop-take 18 2 max_length a.datagram (omega arith)),
        )) in
      elim (Bool-cases (not a.failed && ltb 0 (length bytes))) [
        | inl e ↦
            rw e (
              insert_peer_if_new-none room a bytes (find_peer a.sender_endpoint room.peers) dropped)
        | inr e ↦ rw e
      ]

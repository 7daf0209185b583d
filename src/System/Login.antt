-- ===== src/System/Login.antt =====
-- The login of a client at the UDP server: client_essential/Worker.cpp, server/RawUdpServer.cpp, and
-- client_essential/net_engine/RawUdpClient.cpp.
use easy_voice_call.Base.{
  ℕ, ◌≤◌, ◌<◌, ◌^◌, ◌≡◌, refl, ap, ◌∙◌, subst, Bool, true, false, List, [], ◌∷◌, some, length, take,
  take_all, append-nil, arith,
}
use easy_voice_call.NetPacket.{
  NetPacket, PayloadType, login_request, login_response, payload_type, is_media, new,
}
use easy_voice_call.NetPacket.Fields.{Carries, Carries-length, new-Carries}
use easy_voice_call.NetPacket.Parse.{parse, parse-IsWellFormed}
use easy_voice_call.Server.RawUdp.{
  Endpoint, same, RawUdpRoom, Arrival, Sent, on_datagram, max_length,
}
use easy_voice_call.Server.RawUdp.Peers.{Distinct, is_registered}
use easy_voice_call.Server.RawUdp.Membership.{
  IsFresh, registered-on_datagram, asks_logout, reads_logout, is_logout,
}
use easy_voice_call.Server.RawUdp.Requests.{Answers, answer, replied, silent, request_answered}
use easy_voice_call.Client.RawUdpClient.{receive_loop, datagram}
use easy_voice_call.Client.RawUdpClient.Datagrams.{receive_one}
use easy_voice_call.Worker.Call.{on_data_received, on_payload_type}

same_refl : (e : Endpoint) → same e e ≡ true
same_refl e = ground arith

module _ (server_tag client_tag : List ℕ) (listener_up : ℕ) (has_downstream : Bool) where
  -- One datagram goes to the sender; its client reads one packet from it, whose handler sets the flag
  -- that the login phase polls, and the sender is registered.
  pub record LoggedIn (a : Arrival) (r : RawUdpRoom × List Sent) : Type 0 where
    pub to : Endpoint
    pub response : NetPacket
    pub to_sender : same to a.sender_endpoint ≡ true
    pub sent_once : r.1 ≡ record { to = to; bytes = response.whole_packet } ∷ []
    pub received :
        receive_loop client_tag listener_up (datagram response.whole_packet ∷ []) ≡ response ∷ []
    pub handled : on_data_received client_tag response has_downstream listener_up ≡ ([], true)
    pub registered : is_registered a.sender_endpoint r.0.peers ≡ true

  response-handled :
      (p : NetPacket) (bytes : List ℕ) (sn up : ℕ)
      → Carries login_response sn up bytes p
      → on_data_received client_tag p has_downstream listener_up ≡ ([], true)
  unfolding on_data_received on_payload_type
  response-handled p bytes sn up carries = rw carries.type_read refl

  -- The bytes of a LoginRequest, as the server's receive buffer has them.
  request-parsed :
      (p : NetPacket) (up : ℕ)
      → Carries login_request 0 up [] p
      → parse (take max_length p.whole_packet) ≡ some p
  request-parsed p up carries =
      ap parse (take_all max_length p.whole_packet (omega (arith, Carries-length carries)))
      ∙ subst (λ (w : List ℕ). parse w ≡ some p) (append-nil p.whole_packet)
          (parse-IsWellFormed p [] carries.formed)

  answered-LoggedIn :
      (a : Arrival)
      → 4 ≤ length server_tag
      → a.up_time < 2 ^ 32
      → (r : RawUdpRoom × List Sent) → Answers server_tag (some login_response) a r.1
      → is_registered a.sender_endpoint r.0.peers ≡ true
      → LoggedIn a r
  answered-LoggedIn a tagged fits r (silent none_e sent) registered = absurd cc
  answered-LoggedIn a tagged fits r (replied t to t_e mine sent) registered =
      let p = new server_tag login_response 0 a.up_time in
      let carries =
        new-Carries server_tag login_response 0 a.up_time tagged tt (omega arith) fits in
      let same_type : t ≡ login_response = cc in
      record {
        to = to;
        response = p;
        to_sender = mine;
        sent_once =
            sent
            ∙ ap
                (λ (k : PayloadType).
                  record { to = to; bytes = (new server_tag k 0 a.up_time).whole_packet } ∷ [])
                same_type;
        received =
            receive_one client_tag listener_up p carries.formed
              (omega (arith, Carries-length carries));
        handled = response-handled p [] 0 a.up_time carries;
        registered = registered;
      }

  -- A LoginRequest that a client sends to the UDP server, in either mode, is answered by one datagram
  -- to that client alone, from which it reads one packet, whose handler sets the flag that the login
  -- phase of the call waits for; and the client is registered then. Both versions have four bytes, the
  -- times fit 32 bits, the socket does not fail, the room's connections are pairwise apart, and a new
  -- one gets the address of no live one.
  pub login-LoggedIn :
      (is_echo_mode : Bool) (up : ℕ) (room : RawUdpRoom) (a : Arrival)
      → 4 ≤ length server_tag
      → 4 ≤ length client_tag
      → up < 2 ^ 32
      → a.up_time < 2 ^ 32
      → a.failed ≡ false
      → a.datagram ≡ (new client_tag login_request 0 up).whole_packet
      → Distinct room.peers
      → IsFresh a.new_address room
      → LoggedIn a (on_datagram server_tag is_echo_mode room a)
  unfolding is_media
  login-LoggedIn is_echo_mode up room a server_tagged client_tagged up_fits fits ok sent distinct
        fresh =
      let p = new client_tag login_request 0 up in
      let carries =
        new-Carries client_tag login_request 0 up client_tagged tt (omega arith) up_fits in
      let read : parse (take max_length a.datagram) ≡ some p =
        ap (λ (w : List ℕ). parse (take max_length w)) sent ∙ request-parsed p up carries in
      let kind = carries.type_read in
      let quiet : is_media (payload_type p) ≡ false = ap is_media kind in
      let answers =
        subst
          (λ (k : PayloadType).
            Answers server_tag (answer k) a (on_datagram server_tag is_echo_mode room a).1)
          kind (request_answered server_tag is_echo_mode room a p ok read quiet (λ e. absurd cc)) in
      let some_bytes : 0 < length a.datagram =
        omega (arith, ap length sent, Carries-length carries) in
      let known =
        registered-on_datagram server_tag is_echo_mode a.sender_endpoint room a ok some_bytes
          distinct fresh in
      let self : same a.sender_endpoint a.sender_endpoint ≡ true = same_refl a.sender_endpoint in
      let stays : asks_logout (take max_length a.datagram) ≡ false =
        ap reads_logout read ∙ ap is_logout kind in
      answered-LoggedIn a server_tagged fits (on_datagram server_tag is_echo_mode room a) answers
        (known ∙ rw (self, stays) refl)

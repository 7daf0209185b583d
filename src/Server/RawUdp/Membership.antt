-- ===== src/Server/RawUdp/Membership.antt =====
-- Who is in the room after a datagram: the sender joins by any bytes at all, and leaves by a
-- LogoutRequest alone.
use easy_voice_call.Base.{
  ℕ, ◌≡◌, ◌≢◌, ◌<◌, refl, ap, ◌∙◌, Bool, true, false, not, ◌&&◌, List, [], ◌∷◌, arith, Option, some,
  none, All, inl, inr, Bool-cases, ltb, if◌then◌else◌, take, length, length-take, ltb-true,
}
use easy_voice_call.NetPacket.{NetPacket, PayloadType, logout_request, payload_type}
use easy_voice_call.NetPacket.Parse.{parse}
use easy_voice_call.Server.RawUdp.{
  Endpoint, same, RawUdpConnection, RawUdpRoom, Arrival, insert_peer, erase_peer, find_peer,
  max_length, make_packet, dispatch, process_client_message_payload, on_packet, on_received,
  insert_peer_if_new, insert, on_datagram, run,
}
use easy_voice_call.Server.RawUdp.Datagram.{make_packet-parse}
use easy_voice_call.Server.RawUdp.Peers.{
  Apart, Distinct, is_registered, insert-Distinct, erase-Distinct, find-none-Apart,
  insert-is_registered, find-same, Agrees, find-Agrees, insert-Agrees, erase-is_registered,
  same_trans, is_registered-same,
}

abbrev pub is_logout : PayloadType → Bool
is_logout logout_request = true
is_logout _ = false

-- The packet that was read is of that type.
abbrev pub reads_logout : Option NetPacket → Bool
reads_logout none = false
reads_logout (some p) = is_logout (payload_type p)

-- The bytes begin with a whole packet of that type.
abbrev pub asks_logout : List ℕ → Bool
asks_logout bytes = reads_logout (parse bytes)

-- The address of a new object is that of no live one.
abbrev pub IsFresh : ℕ → RawUdpRoom → Type 0
IsFresh address room = All (λ p. address ≢ p.pointer) room.peers

-- The connection that `insert` makes for an unknown endpoint.
abbrev pub newcomer : Arrival → RawUdpConnection
newcomer a = record { pointer = a.new_address; remote_endpoint = a.sender_endpoint }

module _ (git_tag : List ℕ) (is_echo_mode : Bool) where
  dispatch-peers :
      (t : PayloadType) (room : RawUdpRoom) (msg : NetPacket) (me : RawUdpConnection) (up : ℕ)
      → (dispatch git_tag is_echo_mode t room msg me up).0.peers
        ≡ (if is_logout t then erase_peer me room.peers else room.peers)
  unfolding dispatch
  dispatch-peers logout_request room msg me up = refl
  dispatch-peers _ room msg me up = refl

  on_packet-peers :
      (room : RawUdpRoom) (me : RawUdpConnection) (up : ℕ) (o : Option NetPacket)
      → (on_packet git_tag is_echo_mode room me up o).0.peers
        ≡ (if reads_logout o then erase_peer me room.peers else room.peers)
  unfolding on_packet process_client_message_payload
  on_packet-peers room me up none = refl
  on_packet-peers room me up (some p) = dispatch-peers (payload_type p) room p me up

  on_received-peers :
      (room : RawUdpRoom) (me : RawUdpConnection) (bytes : List ℕ) (up : ℕ)
      → (on_received git_tag is_echo_mode room me bytes up).0.peers
        ≡ (if asks_logout bytes then erase_peer me room.peers else room.peers)
  unfolding on_received
  on_received-peers room me bytes up =
      on_packet-peers room me up (make_packet git_tag bytes up)
      ∙ ap
          (λ (o : Option NetPacket).
            if reads_logout o then erase_peer me room.peers else room.peers)
          (make_packet-parse git_tag bytes up)

  on_received-Distinct :
      (room : RawUdpRoom) (me : RawUdpConnection) (bytes : List ℕ) (up : ℕ)
      → Distinct room.peers
      → Distinct (on_received git_tag is_echo_mode room me bytes up).0.peers
  on_received-Distinct room me bytes up d =
      rw (on_received-peers room me bytes up) (elim (Bool-cases (asks_logout bytes)) [
        | inl e ↦ rw e (erase-Distinct me room.peers d)
        | inr e ↦ rw e d
      ])

  on_received-registered :
      (x : Endpoint) (room : RawUdpRoom) (me : RawUdpConnection) (bytes : List ℕ) (up : ℕ)
      → Distinct room.peers
      → All (Agrees me) room.peers
      → is_registered x (on_received git_tag is_echo_mode room me bytes up).0.peers
        ≡ (not (asks_logout bytes && same me.remote_endpoint x) && is_registered x room.peers)
  on_received-registered x room me bytes up d g =
      rw (on_received-peers room me bytes up) (elim (Bool-cases (asks_logout bytes)) [
        | inl e ↦ rw e (erase-is_registered x me room.peers d g)
        | inr e ↦ rw e
      ])

  insert_peer_if_new-Distinct :
      (room : RawUdpRoom) (a : Arrival) (bytes : List ℕ) (o : Option RawUdpConnection)
      → find_peer a.sender_endpoint room.peers ≡ o
      → Distinct room.peers
      → IsFresh a.new_address room
      → Distinct (insert_peer_if_new git_tag is_echo_mode room a bytes o).0.peers
  unfolding insert_peer_if_new
  insert_peer_if_new-Distinct room a bytes (some c) e d fresh =
      on_received-Distinct room c bytes a.up_time d
  insert_peer_if_new-Distinct room a bytes none e d fresh =
      let c = newcomer a in
      on_received-Distinct (record room { peers = insert_peer c room.peers }) c bytes a.up_time
        (insert-Distinct c room.peers (find-none-Apart c room.peers e fresh) d)

  insert_peer_if_new-registered :
      (x : Endpoint) (room : RawUdpRoom) (a : Arrival) (bytes : List ℕ)
      (o : Option RawUdpConnection)
      → find_peer a.sender_endpoint room.peers ≡ o
      → Distinct room.peers
      → IsFresh a.new_address room
      → is_registered x (insert_peer_if_new git_tag is_echo_mode room a bytes o).0.peers
        ≡ (if same a.sender_endpoint x then not (asks_logout bytes) else is_registered x room.peers)
  unfolding insert_peer_if_new
  insert_peer_if_new-registered x room a bytes (some c) e d fresh = ground (
    arith,
    on_received-registered x room c bytes a.up_time d
        (find-Agrees a.sender_endpoint c room.peers e d),
    find-same a.sender_endpoint c room.peers e,
    is_registered-same a.sender_endpoint x room.peers,
    same_trans c.remote_endpoint a.sender_endpoint x,
  )
  insert_peer_if_new-registered x room a bytes none e d fresh =
      let c = newcomer a in
      let apart : All (Apart c) room.peers = find-none-Apart c room.peers e fresh in
      ground (
        arith,
        on_received-registered x (record room { peers = insert_peer c room.peers }) c bytes
            a.up_time (insert-Distinct c room.peers apart d) (insert-Agrees c room.peers apart),
        insert-is_registered x c room.peers apart,
      )

  pub registered-on_datagram :
      (x : Endpoint) (room : RawUdpRoom) (a : Arrival)
      → a.failed ≡ false
      → 0 < length a.datagram
      → Distinct room.peers
      → IsFresh a.new_address room
      → is_registered x (on_datagram git_tag is_echo_mode room a).0.peers ≡ (
          if same a.sender_endpoint x
          then not (asks_logout (take max_length a.datagram))
          else is_registered x room.peers)
  unfolding on_datagram insert
  registered-on_datagram x room a ok some_bytes d fresh =
      let bytes = take max_length a.datagram in
      rw (ok, ltb-true 0 (length bytes) (omega (arith, length-take max_length a.datagram)))
        (insert_peer_if_new-registered x room a bytes _ refl d fresh)

  -- Whatever arrives, the connections of the room stay pairwise apart in pointer and endpoint, if a
  -- new connection's address is that of no live one.
  pub on_datagram-Distinct :
      (room : RawUdpRoom) (a : Arrival)
      → Distinct room.peers
      → IsFresh a.new_address room
      → Distinct (on_datagram git_tag is_echo_mode room a).0.peers
  unfolding on_datagram insert
  on_datagram-Distinct room a d fresh =
      let bytes = take max_length a.datagram in
      elim (Bool-cases (not a.failed && ltb 0 (length bytes))) [
        | inl e ↦ rw e (insert_peer_if_new-Distinct room a bytes _ refl d fresh)
        | inr e ↦ rw e d
      ]

  -- Along a run each new connection gets an address of its own.
  abbrev pub AllocatesFresh : RawUdpRoom → List Arrival → Type 0
  AllocatesFresh room [] = Unit {0}
  AllocatesFresh room (a ∷ more) =
      IsFresh a.new_address room × AllocatesFresh (on_datagram git_tag is_echo_mode room a).0 more

  -- So it is after any sequence of datagrams.
  pub run-Distinct :
      (room : RawUdpRoom) (arrivals : List Arrival)
      → Distinct room.peers
      → AllocatesFresh room arrivals
      → Distinct (run git_tag is_echo_mode room arrivals).0.peers
  unfolding run
  run-Distinct room [] d f = d
  run-Distinct room (a ∷ more) d f =
      run-Distinct (on_datagram git_tag is_echo_mode room a).0 more
        (on_datagram-Distinct room a d f.0) f.1

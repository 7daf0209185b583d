-- ===== src/Server/RawUdp/Delivery.antt =====
-- What the server sends for a datagram.
use easy_voice_call.Base.{
  ℕ, suc, ◌+◌, ◌%◌, ◌^◌, ◌≡◌, refl, sym, ap, Bool, true, false, not, ◌&&◌, ◌||◌, List, [], ◌∷◌,
  arith, Option, some, none, All, ltb, ltb-true, if◌then◌else◌, take, length, subst,
}
use easy_voice_call.NetPacket.{
  NetPacket, PayloadType, text_message, audio_message, audio_message_cn, payload_type, is_media,
}
use easy_voice_call.NetPacket.Parse.{parse, parse-some}
use easy_voice_call.Server.RawUdp.{
  Endpoint, same, RawUdpConnection, RawUdpRoom, Arrival, Sent, insert_peer, find_peer, max_length,
  send, broadcast, user_message, dispatch, process_client_message_payload, on_packet, on_received,
  insert_peer_if_new, insert, on_datagram,
}
use easy_voice_call.Server.RawUdp.Datagram.{make_packet-parse}
use easy_voice_call.Server.RawUdp.Peers.{
  Apart, Distinct, is_registered, insert-Distinct, find-none-Apart, insert-is_registered, find-same,
  Agrees, find-Agrees, insert-Agrees, same_trans, same_sym, is_registered-same,
}
use easy_voice_call.Server.RawUdp.Membership.{IsFresh, newcomer}

-- How many of the datagrams go to an endpoint.
abbrev pub count_to : Endpoint → List Sent → ℕ
count_to x [] = 0
count_to x (s ∷ ss) = let rest = count_to x ss in if same s.to x then suc rest else rest

abbrev pub AllAre : List ℕ → List Sent → Type 0
AllAre bytes = All (λ s. s.bytes ≡ bytes)

pub broadcast-AllAre :
    (ps : List RawUdpConnection) (me : RawUdpConnection) (msg : NetPacket)
    → AllAre msg.whole_packet (broadcast ps me msg)
unfolding broadcast send
broadcast-AllAre [] me msg = tt
broadcast-AllAre (p ∷ ps) me msg = ground (arith, broadcast-AllAre ps me msg)

Apart-count :
    (x : Endpoint) (p me : RawUdpConnection) (ps : List RawUdpConnection) (msg : NetPacket)
    → All (Apart p) ps
    → same p.remote_endpoint x ≡ true
    → (count_to x (broadcast ps me msg) ≡ 0) × (is_registered x ps ≡ false)
unfolding broadcast send is_registered
Apart-count x p me [] msg a h = (refl, refl)
Apart-count x p me (q ∷ ps) msg a h = ground (
  arith,
  Apart-count x p me ps msg a.1 h,
  same_trans q.remote_endpoint x p.remote_endpoint,
  same_sym p.remote_endpoint x,
  same_sym p.remote_endpoint q.remote_endpoint,
)

pub broadcast-count :
    (x : Endpoint) (ps : List RawUdpConnection) (me : RawUdpConnection) (msg : NetPacket)
    → Distinct ps
    → All (Agrees me) ps
    → count_to x (broadcast ps me msg)
      ≡ (if is_registered x ps && not (same me.remote_endpoint x) then 1 else 0)
unfolding broadcast send is_registered
broadcast-count x [] me msg d g = refl
broadcast-count x (p ∷ ps) me msg d g = ground (
  arith,
  broadcast-count x ps me msg d.1 g.1,
  Apart-count x p me ps msg d.0,
  same_trans p.remote_endpoint me.remote_endpoint x,
  same_trans me.remote_endpoint x p.remote_endpoint,
  same_sym p.remote_endpoint x,
  same_sym p.remote_endpoint me.remote_endpoint,
)

same_self : (a : Endpoint) → same a a ≡ true
same_self a = ground arith

found-registered :
    (x e : Endpoint) (c : RawUdpConnection) (ps : List RawUdpConnection)
    → find_peer e ps ≡ some c
    → is_registered x ps ≡ (same e x || is_registered x ps)
found-registered x e c ps f = ground (arith, find-same e c ps f, is_registered-same e x ps)

-- What a broadcast of `p` for the arrival `a` leaves and sends: every datagram is `p` byte for byte,
-- an endpoint gets one if it is registered and not the sender, and none otherwise.
pub record Forwards (room : RawUdpRoom) (a : Arrival) (p : NetPacket) (r : RawUdpRoom × List Sent)
    : Type 0 where
  pub verbatim : AllAre p.whole_packet r.1
  pub once :
      (x : Endpoint)
      → count_to x r.1
        ≡ (if is_registered x room.peers && not (same a.sender_endpoint x) then 1 else 0)
  pub counted : r.0.counter ≡ (room.counter + 1) % 2 ^ 32

-- The handler on a datagram that holds a whole packet.
module _ (git_tag : List ℕ) (is_echo_mode : Bool) where
  pub parse-nonempty :
      (bytes : List ℕ) (p : NetPacket) → parse bytes ≡ some p → ltb 0 (length bytes) ≡ true
  parse-nonempty bytes p e = ltb-true 0 (length bytes) (omega (arith, parse-some bytes p e))

  pub on_datagram-packet :
      (room : RawUdpRoom) (a : Arrival) (p : NetPacket)
      → a.failed ≡ false
      → parse (take max_length a.datagram) ≡ some p
      → (o : Option RawUdpConnection) → find_peer a.sender_endpoint room.peers ≡ o
      → (room' : RawUdpRoom) × (me : RawUdpConnection) × (on_datagram git_tag is_echo_mode room a
          ≡ process_client_message_payload git_tag is_echo_mode room' p me a.up_time)
        × (same me.remote_endpoint a.sender_endpoint ≡ true)
        × (room'.counter ≡ room.counter)
        × (Distinct room.peers
            → IsFresh a.new_address room
            → Distinct room'.peers
              × All (Agrees me) room'.peers
              × ((x : Endpoint)
                  → is_registered x room'.peers
                    ≡ (same a.sender_endpoint x || is_registered x room.peers)))
  unfolding on_datagram insert insert_peer_if_new on_received on_packet
  on_datagram-packet room a p ok e (some c) f = (
    room,
    c,
    rw (
      ok,
      parse-nonempty _ p e,
      f,
      make_packet-parse git_tag (take max_length a.datagram) a.up_time,
      e,
    ),
    (find-same a.sender_endpoint c room.peers f).0,
    refl,
    λ d fresh. (
      d,
      find-Agrees a.sender_endpoint c room.peers f d,
      λ x. found-registered x a.sender_endpoint c room.peers f,
    ),
  )
  on_datagram-packet room a p ok e none f =
      let c = newcomer a in
      let apart : IsFresh a.new_address room → All (Apart c) room.peers =
        find-none-Apart c room.peers f in
      (
        record room { peers = insert_peer c room.peers },
        c,
        rw (
          ok,
          parse-nonempty _ p e,
          f,
          make_packet-parse git_tag (take max_length a.datagram) a.up_time,
          e,
        ),
        same_self a.sender_endpoint,
        refl,
        λ d fresh. (
          insert-Distinct c room.peers (apart fresh) d,
          insert-Agrees c room.peers (apart fresh),
          λ x. insert-is_registered x c room.peers (apart fresh),
        ),
      )

  pub process-media :
      (t : PayloadType) (room : RawUdpRoom) (p : NetPacket) (me : RawUdpConnection) (up : ℕ)
      → is_media t ≡ true
      → dispatch git_tag is_echo_mode t room p me up ≡ (
        record room { counter = (room.counter + 1) % 2 ^ 32 },
        if is_echo_mode then send me p ∷ [] else broadcast room.peers me p,
      )
  unfolding dispatch user_message is_media
  process-media text_message room p me up h = refl
  process-media audio_message room p me up h = refl
  process-media audio_message_cn room p me up h = refl
  process-media _ room p me up h = cc

  process-Forwards :
      (room room' : RawUdpRoom) (a : Arrival) (p : NetPacket) (me : RawUdpConnection)
      → is_echo_mode ≡ false
      → is_media (payload_type p) ≡ true
      → same me.remote_endpoint a.sender_endpoint ≡ true
      → room'.counter ≡ room.counter
      → Distinct room'.peers
      → All (Agrees me) room'.peers
      → ((x : Endpoint)
          → is_registered x room'.peers ≡ (same a.sender_endpoint x || is_registered x room.peers))
      → Forwards room a p (process_client_message_payload git_tag is_echo_mode room' p me a.up_time)
  unfolding process_client_message_payload
  process-Forwards room room' a p me quiet media mine counts d' g reg =
      rw (process-media (payload_type p) room' p me a.up_time media, quiet)
        (record {
          verbatim = broadcast-AllAre room'.peers me p;
          once = λ x. ground (
            arith,
            broadcast-count x room'.peers me p d' g,
            reg x,
            same_trans me.remote_endpoint a.sender_endpoint x mine,
          );
          counted = ap (λ (n : ℕ). (n + 1) % 2 ^ 32) counts;
        })

  -- An audio or text packet from a client is forwarded, byte for byte, exactly once to every other
  -- registered endpoint, and neither to the sender nor to a stranger, if the server broadcasts, the
  -- room's connections are pairwise apart and a new connection's address is that of no live one.
  -- The message counter goes up by one modulo 2^32.
  pub media_broadcast :
      (room : RawUdpRoom) (a : Arrival) (p : NetPacket)
      → is_echo_mode ≡ false
      → a.failed ≡ false
      → parse (take max_length a.datagram) ≡ some p
      → is_media (payload_type p) ≡ true
      → Distinct room.peers
      → IsFresh a.new_address room
      → Forwards room a p (on_datagram git_tag is_echo_mode room a)
  media_broadcast room a p quiet ok e media d fresh =
      let (room', me, handled, mine, counts, facts) =
        on_datagram-packet room a p ok e (find_peer a.sender_endpoint room.peers) refl in
      let (d', g, reg) = facts d fresh in
      subst (Forwards room a p) (sym handled)
        (process-Forwards room room' a p me quiet media mine counts d' g reg)

  -- In echo mode such a packet goes back to its sender alone, byte for byte.
  pub media_echo :
      (room : RawUdpRoom) (a : Arrival) (p : NetPacket)
      → is_echo_mode ≡ true
      → a.failed ≡ false
      → parse (take max_length a.datagram) ≡ some p
      → is_media (payload_type p) ≡ true
      → (to : Endpoint) × (same to a.sender_endpoint ≡ true)
        × ((on_datagram git_tag is_echo_mode room a).1
            ≡ record { to = to; bytes = p.whole_packet } ∷ [])
  unfolding process_client_message_payload send
  media_echo room a p echo ok e media =
      let (room', me, handled, mine, counts, facts) =
        on_datagram-packet room a p ok e (find_peer a.sender_endpoint room.peers) refl in
      let media_step = process-media (payload_type p) room' p me a.up_time media in
      (me.remote_endpoint, mine, rw (handled, media_step, echo))

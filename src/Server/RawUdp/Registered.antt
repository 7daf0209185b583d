-- ===== src/Server/RawUdp/Registered.antt =====
-- server/RawUdpServer.cpp: a client that is registered speaks.
use easy_voice_call.Base.{
  ℕ, ◌+◌, ◌%◌, ◌^◌, ◌≡◌, refl, ap, ◌∙◌, true, false, List, [], ◌∷◌, some, replicate, take, arith,
  if◌then◌else◌,
}
use easy_voice_call.NetPacket.{NetPacket, is_media, payload_type}
use easy_voice_call.NetPacket.Parse.{parse}
use easy_voice_call.Server.RawUdp.{
  Endpoint, same, RawUdpConnection, RawUdpRoom, Arrival, Sent, find_peer, max_length, broadcast,
  process_client_message_payload, on_packet, on_received, insert_peer_if_new, insert, on_datagram,
}
use easy_voice_call.Server.RawUdp.Datagram.{make_packet-parse}
use easy_voice_call.Server.RawUdp.Peers.{
  Distinct, is_registered, find-same, find-Agrees, same_trans,
}
use easy_voice_call.Server.RawUdp.Delivery.{
  AllAre, count_to, parse-nonempty, process-media, broadcast-AllAre, broadcast-count,
}

-- The datagrams of `ss` that go to `x`.
pub bytes_to : Endpoint → List Sent → List (List ℕ)
bytes_to x [] = []
bytes_to x (s ∷ ss) = if same s.to x then s.bytes ∷ bytes_to x ss else bytes_to x ss

bytes_to-count :
    (x : Endpoint) (bytes : List ℕ) (ss : List Sent)
    → AllAre bytes ss
    → bytes_to x ss ≡ replicate (count_to x ss) bytes
unfolding bytes_to
bytes_to-count x bytes [] all = refl
bytes_to-count x bytes (s ∷ ss) (e, all) = ground (arith, bytes_to-count x bytes ss all)

-- In broadcast mode, a media packet of a registered client leaves the room's peers as they are.
pub media_registered :
    (git_tag : List ℕ) (room : RawUdpRoom) (a : Arrival) (p : NetPacket) (c : RawUdpConnection)
    → a.failed ≡ false
    → parse (take max_length a.datagram) ≡ some p
    → is_media (payload_type p) ≡ true
    → find_peer a.sender_endpoint room.peers ≡ some c
    → on_datagram git_tag false room a
      ≡ (record room { counter = (room.counter + 1) % 2 ^ 32 }, broadcast room.peers c p)
unfolding on_datagram insert insert_peer_if_new on_received on_packet process_client_message_payload
media_registered git_tag room a p c ok e media found =
    rw
      (
        ok,
        parse-nonempty git_tag false _ p e,
        found,
        make_packet-parse git_tag (take max_length a.datagram) a.up_time,
        e,
      )
      (process-media git_tag false (payload_type p) room p c a.up_time media)

-- What another registered client gets then is that packet, once.
pub broadcast_to :
    (room : RawUdpRoom) (from x : Endpoint) (p : NetPacket) (c : RawUdpConnection)
    → Distinct room.peers
    → find_peer from room.peers ≡ some c
    → is_registered x room.peers ≡ true
    → same from x ≡ false
    → bytes_to x (broadcast room.peers c p) ≡ p.whole_packet ∷ []
broadcast_to room from x p c distinct found there apart =
    let (mine, registered) = find-same from c room.peers found in
    let agrees = find-Agrees from c room.peers found distinct in
    let counted : count_to x (broadcast room.peers c p) ≡ 1 = ground (
      arith,
      broadcast-count x room.peers c p distinct agrees,
      same_trans c.remote_endpoint from x mine,
    ) in
    bytes_to-count x p.whole_packet _ (broadcast-AllAre room.peers c p)
    ∙ ap (λ (n : ℕ). replicate n p.whole_packet) counted

-- ===== src/System/Speech.antt =====
-- Speech from one client to the others over UDP: the constructor of include/NetPacket.hpp, the server
-- of server/RawUdpServer.cpp and the receiver of client_essential/net_engine/RawUdpClient.cpp.
use easy_voice_call.Base.{
  ℕ, ◌≤◌, ◌<◌, ◌≡◌, ◌^◌, refl, subst, ap, ◌∙◌, true, false, List, [], ◌∷◌, some, length, take,
  arith, All, take_all, append-nil,
}
use easy_voice_call.NetPacket.{NetPacket, PayloadType, unlisted, is_media, new_with_payload}
use easy_voice_call.NetPacket.Fields.{Carries, Carries-length, new_with_payload-Carries}
use easy_voice_call.NetPacket.Layout.{IsType}
use easy_voice_call.NetPacket.Parse.{parse, IsWellFormed, parse-IsWellFormed}
use easy_voice_call.Server.RawUdp.{RawUdpRoom, Arrival, Sent, on_datagram, max_length}
use easy_voice_call.Server.RawUdp.Peers.{Distinct}
use easy_voice_call.Server.RawUdp.Membership.{IsFresh}
use easy_voice_call.Server.RawUdp.Delivery.{Forwards, AllAre, media_broadcast}
use easy_voice_call.Client.RawUdpClient.{receive_loop, datagram}
use easy_voice_call.Client.RawUdpClient.Datagrams.{receive_one}

-- A packet of audio or text that a client builds, and what the server sends for it: every datagram is
-- received as that packet.
pub record Reaches (room : RawUdpRoom) (a : Arrival) (listener_tag : List ℕ) (listener_up : ℕ)
    (p : NetPacket) (r : RawUdpRoom × List Sent) : Type 0 where
  pub forwards : Forwards room a p r
  pub received :
      All (λ d. receive_loop listener_tag listener_up (datagram d.bytes ∷ []) ≡ p ∷ []) r.1

media-IsType : (t : PayloadType) → is_media t ≡ true → IsType t
unfolding is_media
media-IsType (unlisted n) e = cc
media-IsType _ e = tt

all-received :
    (listener_tag : List ℕ) (up : ℕ) (p : NetPacket) (sent : List Sent)
    → IsWellFormed p
    → length p.whole_packet ≤ max_length
    → AllAre p.whole_packet sent
    → All (λ d. receive_loop listener_tag up (datagram d.bytes ∷ []) ≡ p ∷ []) sent
all-received tag up p [] formed fits verbatim = tt
all-received tag up p (d ∷ ds) formed fits (same, more) = (
  ap (λ (b : List ℕ). receive_loop tag up (datagram b ∷ [])) same
      ∙ receive_one tag up p formed fits,
  all-received tag up p ds formed fits more,
)

-- Speech or text of at most 1004 bytes that a client puts into a packet and sends to the server in
-- broadcast mode goes to every other registered endpoint once, and to nobody else; and each client
-- that gets the datagram reads that packet from it, with the type, serial number, time and payload
-- that the first client gave it. The room's connections are pairwise apart, a new connection's address
-- is that of no live one, the version string has four bytes at least, and the numbers fit 32 bits.
pub new_with_payload-Reaches :
    (server_tag client_tag listener_tag : List ℕ) (t : PayloadType) (sn up listener_up : ℕ)
    (bytes : List ℕ) (room : RawUdpRoom) (a : Arrival)
    → is_media t ≡ true
    → 4 ≤ length client_tag
    → sn < 2 ^ 32
    → up < 2 ^ 32
    → length bytes ≤ 1004
    → a.failed ≡ false
    → Distinct room.peers
    → IsFresh a.new_address room
    → (p : NetPacket) × (new_with_payload client_tag t sn up bytes ≡ some p)
      × Carries t sn up bytes p
      × Reaches room
          (record a { datagram = p.whole_packet })
          listener_tag
          listener_up
          p
          (on_datagram server_tag false room (record a { datagram = p.whole_packet }))
new_with_payload-Reaches server_tag client_tag listener_tag t sn up listener_up bytes room a media
      tagged sn_fits up_fits short ok distinct fresh =
    let (p, built, carries) =
      new_with_payload-Carries client_tag t sn up bytes tagged (media-IsType t media) sn_fits
        up_fits (omega arith) in
    let fits : length p.whole_packet ≤ max_length = omega (arith, Carries-length carries) in
    let whole = p.whole_packet in
    let read : parse (take max_length whole) ≡ some p =
      ap parse (take_all max_length whole fits)
      ∙ subst (λ (w : List ℕ). parse w ≡ some p) (append-nil whole)
          (parse-IsWellFormed p [] carries.formed) in
    let forwarded =
      media_broadcast server_tag false room (record a { datagram = whole }) p refl ok read
        (ap is_media carries.type_read ∙ media) distinct fresh in
    (
      p,
      built,
      carries,
      record {
        forwards = forwarded;
        received = all-received listener_tag listener_up p _ carries.formed fits forwarded.verbatim;
      },
    )

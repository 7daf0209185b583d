-- ===== src/Server/RawUdp/Datagram.antt =====
-- `makePacket` of RawUdpServer.cpp against the description of the wire format.
use easy_voice_call.Base.{
  ℕ, ◌+◌, ◌≤◌, ◌<◌, ◌≡◌, ◌^◌, ap, ◌∙◌, inl, inr, List, ◌++◌, arith, length, some, none, take,
  if◌then◌else◌, Bool, ltb, Bool-cases,
}
use easy_voice_call.NetPacket.{NetPacket, PayloadType, new, undefined, new_with_payload}
use easy_voice_call.NetPacket.Layout.{IsType}
use easy_voice_call.NetPacket.Fields.{Carries, Carries-length, new_with_payload-Carries}
use easy_voice_call.NetPacket.Parse.{size_field, parse, parse-take-IsWellFormed}
use easy_voice_call.NetPacket.Receive.{
  length-new, receive_header, payload_length-headed, receive_payload,
}
use easy_voice_call.Server.RawUdp.{make_packet, max_length}

-- Of the bytes that it is handed, which are the first 1024 of a datagram, makePacket of the UDP server
-- accepts exactly those that begin with a whole packet, and reads that packet.
pub make_packet-parse :
    (git_tag bytes : List ℕ) (up : ℕ) → make_packet git_tag bytes up ≡ parse bytes
unfolding make_packet parse
make_packet-parse git_tag bytes up = elim (Bool-cases (ltb (length bytes) 20)) [
  | inl short ↦ rw short
  | inr long ↦
      let h : 20 ≤ length bytes = ground arith in
      let fresh = new git_tag undefined 0 up in
      rw
        (
          long,
          receive_header bytes h fresh.whole_packet (length-new git_tag undefined 0 up),
          payload_length-headed bytes h,
        )
        (elim (Bool-cases (ltb (length bytes) (20 + size_field bytes))) [
          | inl cut ↦ rw cut
          | inr whole ↦ rw whole (
              ap (λ (w : List ℕ). some (record { whole_packet = w }))
                (receive_payload bytes h (ground arith)))
        ])
]

-- What a client's constructor builds is sent, with whatever bytes behind it, to the UDP server, which
-- receives the first 1024 bytes of the datagram: it reads the packet back, with the type, serial
-- number, time and payload that it was built from, if the payload has 1004 bytes at most, and no packet
-- otherwise. The version string has four bytes at least, the numbers fit 32 bits and the payload fits
-- 65535 bytes.
pub make_packet-new_with_payload :
    (server_tag git_tag rest : List ℕ) (t : PayloadType) (sn up server_up : ℕ) (bytes : List ℕ)
    → 4 ≤ length git_tag
    → IsType t
    → sn < 2 ^ 32
    → up < 2 ^ 32
    → length bytes < 2 ^ 16
    → (p : NetPacket) × (new_with_payload git_tag t sn up bytes ≡ some p)
      × (make_packet server_tag (take max_length (p.whole_packet ++ rest)) server_up
          ≡ (if ltb 1004 (length bytes) then none else some p))
      × Carries t sn up bytes p
make_packet-new_with_payload server_tag git_tag rest t sn up server_up bytes tagged typed hs hu hb =
    let (p, built, carries) =
      new_with_payload-Carries git_tag t sn up bytes tagged typed hs hu hb in
    let size = Carries-length carries in
    let over : ltb max_length (length p.whole_packet) ≡ ltb 1004 (length bytes) =
      ground (arith, size) in
    (
      p,
      built,
      make_packet-parse server_tag (take max_length (p.whole_packet ++ rest)) server_up
          ∙ parse-take-IsWellFormed max_length p rest (omega arith) carries.formed
          ∙ ap (λ (b : Bool). if b then none else some p) over,
      carries,
    )

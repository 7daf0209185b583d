-- ===== src/Android/Packets.antt =====
-- What the Java side of the Android client reads of packets that it or another client built.
use easy_voice_call.Base.{
  ℕ, ◌%◌, ◌^◌, ◌≤◌, ◌<◌, ◌≡◌, ap, ◌∙◌, sym, List, [], some, length, drop, length-take, arith,
  take_all, append-nil,
}
use easy_voice_call.NetPacket.{NetPacket, of_code, code, payload, payload_length, whole_pack_length}
use easy_voice_call.NetPacket.Layout.{of_code-IsType, code-of_code}
use easy_voice_call.NetPacket.Fields.{Carries, new-Carries, new_with_payload-Carries}
use easy_voice_call.NetPacket.Parse.{parse, parse-IsWellFormed}
use easy_voice_call.Client.RawUdpClient
use easy_voice_call.Client.RawUdpClient.Datagrams.{client-parse}
use easy_voice_call.Android.{
  make_packet, to_java, to_java_opt, create_net_packet, create_net_packet_with_sn,
  create_net_packet_with_payload, type_of, payload_of, get_net_packet_type, get_net_packet_payload,
}

-- The third copy of makePacket accepts and reads what the other two do.
make_packet-parse : (git_tag bytes : List ℕ) (up : ℕ) → make_packet git_tag up bytes ≡ parse bytes
unfolding make_packet RawUdpClient.make_packet
make_packet-parse git_tag bytes up = client-parse git_tag bytes up

-- What the Java side gets of a packet is the type and the payload of the packet that the bytes begin
-- with, by the description of the wire format; bytes that begin with no whole packet make both
-- functions use a null pointer.
pub reads_parsed :
    (git_tag bytes : List ℕ) (up : ℕ)
    → (get_net_packet_type git_tag up bytes ≡ type_of (parse bytes))
      × (get_net_packet_payload git_tag up bytes ≡ payload_of (parse bytes))
unfolding get_net_packet_type get_net_packet_payload
reads_parsed git_tag bytes up =
    let e = make_packet-parse git_tag bytes up in (ap type_of e, ap payload_of e)

-- Bytes that read as a packet with these fields.
pub record Reads (type : ℕ) (payload_bytes : List ℕ) (git_tag : List ℕ) (up : ℕ) (bytes : List ℕ)
    : Type 0 where
  pub type_got : get_net_packet_type git_tag up bytes ≡ some type
  pub payload_got : get_net_packet_payload git_tag up bytes ≡ some payload_bytes

to_java-whole : (p : NetPacket) → to_java p ≡ p.whole_packet
unfolding to_java whole_pack_length
to_java-whole p = take_all (length p.whole_packet) p.whole_packet (omega arith)

to_java-Reads :
    {n sn up : ℕ} {payload_bytes : List ℕ} {p : NetPacket} (git_tag : List ℕ) (up_time : ℕ)
    → Carries (of_code n) sn up payload_bytes p
    → Reads n payload_bytes git_tag up_time (to_java p)
unfolding type_of payload_of payload
to_java-Reads {n} {p = p} git_tag up_time carries =
    let whole = parse-IsWellFormed p [] carries.formed in
    let read : parse (to_java p) ≡ some p =
      ap parse (to_java-whole p ∙ sym (append-nil p.whole_packet)) ∙ whole in
    let (type, rest) = reads_parsed git_tag (to_java p) up_time in
    record {
      type_got =
          type
          ∙ ap type_of read
          ∙ ap (λ t. some (code t)) carries.type_read
          ∙ ap some (code-of_code n);
      payload_got =
          rest
          ∙ ap payload_of read
          ∙ ap some (
              take_all (payload_length p) (payload p)
                (omega (arith, length-take (payload_length p) (drop 20 p.whole_packet)))
              ∙ carries.payload_read);
    }

-- The packets that the Java side has built are read back by it with the type, modulo 2^16, and the
-- payload that they were built from. The version string has four bytes at least, the numbers fit 32
-- bits, and the payload fits 65535 bytes.
pub create-Reads :
    (git_tag reader_tag : List ℕ) (up reader_up type sn : ℕ) (bytes : List ℕ)
    → 4 ≤ length git_tag
    → sn < 2 ^ 32
    → up < 2 ^ 32
    → length bytes < 2 ^ 16
    → Reads (type % 2 ^ 16) [] reader_tag reader_up (create_net_packet git_tag up type)
      × Reads (type % 2 ^ 16) [] reader_tag reader_up (create_net_packet_with_sn git_tag up type sn)
      × ((raw : List ℕ) × (create_net_packet_with_payload git_tag up type sn bytes ≡ some raw)
          × Reads (type % 2 ^ 16) bytes reader_tag reader_up raw)
unfolding create_net_packet create_net_packet_with_sn create_net_packet_with_payload to_java_opt
create-Reads git_tag reader_tag up reader_up type sn bytes tagged sn_fits up_fits fits =
    let n = type % 2 ^ 16 in
    let typed = of_code-IsType n (omega arith) in
    let (p, built, carries) =
      new_with_payload-Carries git_tag (of_code n) sn up bytes tagged typed sn_fits up_fits fits in
    (
      (to_java-Reads reader_tag reader_up
          (new-Carries git_tag (of_code n) 0 up tagged typed (omega arith) up_fits)),
      (to_java-Reads reader_tag reader_up
          (new-Carries git_tag (of_code n) sn up tagged typed sn_fits up_fits)),
      (to_java p, ap to_java_opt built, to_java-Reads reader_tag reader_up carries),
    )

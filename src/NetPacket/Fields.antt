-- ===== src/NetPacket/Fields.antt =====
-- The accessors of NetPacket.hpp read back what its constructors wrote.
use easy_voice_call.Base.{
  ℕ, ◌+◌, ◌-◌, length-take, length-drop, drop, ◌≤◌, ◌<◌, ◌≡◌, ◌^◌, ap, ◌∙◌, List, [], ◌∷◌, ◌++◌,
  arith, length, some, read_le-le16, read_le-le32, take_all,
}
use easy_voice_call.NetPacket.{
  PayloadType, NetPacket, of_code, code, new, new_with_payload, timestamp, payload_type,
  serial_number, payload, payload_length,
}
use easy_voice_call.NetPacket.Layout.{
  header_bytes, new_with_payload_lem, new_lem, take_four, IsType, of_code-code, code-lt,
}
use easy_voice_call.NetPacket.Parse.{IsWellFormed}

-- What a packet carries, field by field.
pub record Carries (t : PayloadType) (sn up : ℕ) (bytes : List ℕ) (p : NetPacket) : Type 0 where
  pub formed : IsWellFormed p
  pub type_read : payload_type p ≡ t
  pub serial_read : serial_number p ≡ sn
  pub time_read : timestamp p ≡ up
  pub payload_read : payload p ≡ bytes

module _ (a b c d up sn : ℕ) (t : PayloadType) (bytes : List ℕ) (typed : IsType t)
    (up_fits : up < 2 ^ 32) (sn_fits : sn < 2 ^ 32) (fits : length bytes < 2 ^ 16) where
  abbrev laid_out : NetPacket
  laid_out = record {
    whole_packet = header_bytes (a ∷ b ∷ c ∷ d ∷ []) up (code t) sn (length bytes) ++ bytes;
  }

  laid_out-Carries : Carries t sn up bytes laid_out
  unfolding payload_type serial_number timestamp payload payload_length
  laid_out-Carries = record {
    formed = omega arith;
    type_read = ap of_code (read_le-le16 (code t) (code-lt t typed)) ∙ of_code-code t typed;
    serial_read = read_le-le32 sn sn_fits;
    time_read = read_le-le32 up up_fits;
    payload_read = take_all _ bytes (omega arith);
  }

module _ (git_tag : List ℕ) (t : PayloadType) (sn up : ℕ) (bytes : List ℕ)
    (tagged : 4 ≤ length git_tag) (typed : IsType t) (sn_fits : sn < 2 ^ 32)
    (up_fits : up < 2 ^ 32) where
  pub new_with_payload-Carries :
      length bytes < 2 ^ 16
      → (p : NetPacket) × (new_with_payload git_tag t sn up bytes ≡ some p)
        × Carries t sn up bytes p
  new_with_payload-Carries fits =
      let (a, b, c, d, e) = take_four git_tag tagged in
      (
        laid_out a b c d up sn t bytes typed up_fits sn_fits fits,
        new_with_payload_lem git_tag tagged t sn up bytes fits ∙ rw e,
        laid_out-Carries a b c d up sn t bytes typed up_fits sn_fits fits,
      )

module _ (git_tag : List ℕ) (t : PayloadType) (sn up : ℕ) (tagged : 4 ≤ length git_tag)
    (typed : IsType t) (sn_fits : sn < 2 ^ 32) (up_fits : up < 2 ^ 32) where
  pub new-Carries : Carries t sn up [] (new git_tag t sn up)
  new-Carries =
      let (a, b, c, d, e) = take_four git_tag tagged in
      rw (new_lem git_tag tagged t sn up, e)
        (laid_out-Carries a b c d up sn t [] typed up_fits sn_fits (omega arith))

-- A packet's buffer is its header and its payload.
pub Carries-length :
    {t : PayloadType} {sn up : ℕ} {bytes : List ℕ} {p : NetPacket}
    → Carries t sn up bytes p
    → length p.whole_packet ≡ 20 + length bytes
unfolding payload payload_length
Carries-length {p = p} carries =
    let read = ap length carries.payload_read in
    let cut = length-take (length p.whole_packet - 20) (drop 20 p.whole_packet) in
    let formed = carries.formed in let rest = length-drop 20 p.whole_packet in omega arith

-- ===== src/NetPacket.antt =====
-- include/NetPacket.hpp: the wire format that the server and every client share. A packet is its byte
-- buffer, as in the class. GIT_TAG (the generated git_info.hpp) is the parameter `git_tag`, and the
-- process uptime that `init` stamps is the argument `up_time`. The accessors that cast a pointer into
-- the buffer read a little-endian word there.
pub mod Layout
pub mod Parse
pub mod Fields
pub mod Receive
use Prim.Native.String.{String}
use easy_voice_call.Base.{
  ℕ, zero, suc, ◌+◌, ◌-◌, ◌*◌, Bool, true, false, List, [], ◌∷◌, Option, none, some, length, take,
  ltb, if◌then◌else◌, memcpy, slice, resize, le16, le32, read_le,
}

abbrev pub fix_header_length : ℕ
fix_header_length = 4 + 4 + 4 + 2 + 4 + 2

-- `enum class PayloadType : unsigned short` also holds the values that no enumerator names.
pub data PayloadType : Type 0 where
  undefined heart_beat_request heart_beat_response login_request login_response : PayloadType
  user_info text_message audio_message audio_message_cn : PayloadType
  logout_request logout_response : PayloadType
  unlisted : ℕ → PayloadType

unfoldable pub of_code : ℕ → PayloadType
of_code zero = undefined
of_code (suc zero) = heart_beat_request
of_code (suc (suc zero)) = heart_beat_response
of_code (suc (suc (suc zero))) = login_request
of_code (suc (suc (suc (suc zero)))) = login_response
of_code (suc (suc (suc (suc (suc zero))))) = user_info
of_code (suc (suc (suc (suc (suc (suc zero)))))) = text_message
of_code (suc (suc (suc (suc (suc (suc (suc zero))))))) = audio_message
of_code (suc (suc (suc (suc (suc (suc (suc (suc zero)))))))) = audio_message_cn
of_code (suc (suc (suc (suc (suc (suc (suc (suc (suc zero))))))))) = logout_request
of_code (suc (suc (suc (suc (suc (suc (suc (suc (suc (suc zero)))))))))) = logout_response
of_code (suc (suc (suc (suc (suc (suc (suc (suc (suc (suc (suc n))))))))))) = unlisted (n + 11)

unfoldable pub code : PayloadType → ℕ
code undefined = 0
code heart_beat_request = 1
code heart_beat_response = 2
code login_request = 3
code login_response = 4
code user_info = 5
code text_message = 6
code audio_message = 7
code audio_message_cn = 8
code logout_request = 9
code logout_response = 10
code (unlisted n) = n

unfoldable pub get_description : PayloadType → String
get_description heart_beat_request = "HeartBeatRequest"
get_description heart_beat_response = "HeartBeatResponse"
get_description login_request = "LoginRequest"
get_description login_response = "LoginResponse"
get_description user_info = "UserInfo"
get_description text_message = "TextMessage"
get_description audio_message = "AudioMessage"
get_description audio_message_cn = "AudioMessage_Comfortable_Noise"
get_description logout_request = "LogoutRequest"
get_description logout_response = "LogoutResponse"
get_description _ = "Undefined"

pub record NetPacket : Type 0 where
  pub whole_packet : List ℕ

-- 'e' 'v' 'c' ' '
abbrev pub head_marker : List ℕ
head_marker = 0x65 ∷ 0x76 ∷ 0x63 ∷ 0x20 ∷ []

module _ (git_tag : List ℕ) where
  -- `init` on a buffer `whole`: resize, then the six memcpy calls in their order.
  unfoldable pub init : List ℕ → PayloadType → ℕ → ℕ → ℕ → NetPacket
  unfolding code
  init whole payload_type payload_size up_time serial_number =
      let w0 = resize 0 (fix_header_length + payload_size) whole in
      let w1 = memcpy w0 0 (take 4 head_marker) in
      let w2 = memcpy w1 (4 * 1) (take 4 git_tag) in
      let w3 = memcpy w2 (4 * 2) (le32 up_time) in
      let w4 = memcpy w3 (4 * 3) (le16 (code payload_type)) in
      let w5 = memcpy w4 (4 * 3 + 2) (le32 serial_number) in
      record { whole_packet = memcpy w5 (4 * 3 + 2 + 4) (le16 payload_size) }

  -- NetPacket(payloadType, serialNumber)
  unfoldable pub new : PayloadType → ℕ → ℕ → NetPacket
  new payload_type serial_number up_time = init [] payload_type 0 up_time serial_number

  -- NetPacket(payloadType, serialNumber, payload); `none` is the `throw`.
  unfoldable pub new_with_payload : PayloadType → ℕ → ℕ → List ℕ → Option NetPacket
  new_with_payload payload_type serial_number up_time payload =
      if ltb 65535 (length payload)
      then none
      else let p = init [] payload_type (length payload) up_time serial_number in
        some (record { whole_packet = memcpy p.whole_packet fix_header_length payload })

-- `checkHeader` looks at the payload size only, and always answers `true`.
unfoldable pub check_header : NetPacket → NetPacket × Bool
check_header p =
    let payload_size = read_le (slice (4 * 3 + 2 + 4) 2 p.whole_packet) in
    (record { whole_packet = resize 0 (fix_header_length + payload_size) p.whole_packet }, true)

unfoldable pub payload_type : NetPacket → PayloadType
payload_type p = of_code (read_le (slice (4 * 3) 2 p.whole_packet))

unfoldable pub serial_number : NetPacket → ℕ
serial_number p = read_le (slice (4 * 3 + 2) 4 p.whole_packet)

unfoldable pub timestamp : NetPacket → ℕ
timestamp p = read_le (slice (4 * 2) 4 p.whole_packet)

unfoldable pub whole_pack_length : NetPacket → ℕ
whole_pack_length p = length p.whole_packet

unfoldable pub payload_length : NetPacket → ℕ
payload_length p = length p.whole_packet - fix_header_length

unfoldable pub payload : NetPacket → List ℕ
unfolding payload_length
payload p = slice fix_header_length (payload_length p) p.whole_packet

-- `isMediaType`, by the type that `payloadType()` reads.
unfoldable pub is_media : PayloadType → Bool
is_media audio_message_cn = true
is_media audio_message = true
is_media text_message = true
is_media _ = false

pub is_media_type : NetPacket → Bool
is_media_type p = is_media (payload_type p)

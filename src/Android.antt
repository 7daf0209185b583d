-- ===== src/Android.antt =====
-- client_android/app/src/main/cpp/Entry.cpp: what the Java side calls. A Java array of bytes is the
-- list of its bytes, a jint its 32-bit pattern; GIT_TAG and the uptime are as in NetPacket.
pub mod Packets
pub mod Volume
pub mod Worker
pub mod Call
use easy_voice_call.Base.{
  ℕ, zero, suc, ◌+◌, ◌-◌, ◌*◌, ◌%◌, ◌^◌, Bool, not, List, [], ◌∷◌, Option, none, some, length, take,
  replicate, ltb, if◌then◌else◌, memcpy, slice, read_le,
}
use easy_voice_call.Base.Int.{ℤ, pos, negsuc}
use easy_voice_call.NetPacket.{
  NetPacket, undefined, of_code, code, fix_header_length, new, new_with_payload, check_header,
  payload_type, payload_length, payload, whole_pack_length,
}
use easy_voice_call.Audio.{block_size}
use easy_voice_call.Audio.Pcm.{samples_of}
use easy_voice_call.Audio.VolumeMeter.{AudioInOut, AudioVolumeMeter, calculate}

-- NewByteArray and SetByteArrayRegion with the whole packet.
to_java : NetPacket → List ℕ
to_java p = take (whole_pack_length p) p.whole_packet

to_java_opt : Option NetPacket → Option (List ℕ)
unfolding to_java
to_java_opt none = none
to_java_opt (some p) = some (to_java p)

module _ (git_tag : List ℕ) (up_time : ℕ) where
  unfoldable pub make_packet : List ℕ → Option NetPacket
  make_packet bytes =
      if ltb (length bytes) fix_header_length
      then none
      else (let fresh = new git_tag undefined 0 up_time in
          let headed : NetPacket = record {
            whole_packet = memcpy fresh.whole_packet 0 (slice 0 fix_header_length bytes);
          } in
          let (ret, checked) = check_header headed in
          if not checked
          then none
          else if ltb (length bytes) (fix_header_length + payload_length ret)
          then none
          else some (record {
            whole_packet =
                memcpy ret.whole_packet fix_header_length
                  (slice fix_header_length (payload_length ret) bytes);
          }))

  pub create_net_packet : ℕ → List ℕ
  unfolding to_java
  create_net_packet type = to_java (new git_tag (of_code (type % 2 ^ 16)) 0 up_time)

  pub create_net_packet_with_sn : ℕ → ℕ → List ℕ
  unfolding to_java
  create_net_packet_with_sn type serial_number =
      to_java (new git_tag (of_code (type % 2 ^ 16)) serial_number up_time)

  -- `none` is the exception of the packet's constructor.
  pub create_net_packet_with_payload : ℕ → ℕ → List ℕ → Option (List ℕ)
  unfolding to_java_opt
  create_net_packet_with_payload type serial_number bytes =
      to_java_opt (new_with_payload git_tag (of_code (type % 2 ^ 16)) serial_number up_time bytes)

-- What the Java side gets of a packet; `none` is the use of the null pointer.
unfoldable pub type_of : Option NetPacket → Option ℕ
type_of none = none
type_of (some p) = some (code (payload_type p))

unfoldable pub payload_of : Option NetPacket → Option (List ℕ)
payload_of none = none
payload_of (some p) = some (take (payload_length p) (payload p))

module _ (git_tag : List ℕ) (up_time : ℕ) where
  pub get_net_packet_type : List ℕ → Option ℕ
  unfolding make_packet type_of
  get_net_packet_type bytes = type_of (make_packet git_tag up_time bytes)

  pub get_net_packet_payload : List ℕ → Option (List ℕ)
  unfolding make_packet payload_of
  get_net_packet_payload bytes = payload_of (make_packet git_tag up_time bytes)

-- `none` is a memcpy that reads beyond the end of the array. `now` and the other times are the meter's
-- calls of the clock, which begins at the constructor's.
pub calc_volume : List ℕ → AudioInOut → ℕ → ℕ → ℕ → ℕ → Option ℕ
calc_volume pcm in_out made now reset_time raise_time =
    let size = if ltb (length pcm) block_size then length pcm else block_size in
    let ap : AudioVolumeMeter = record {
      in_out = in_out;
      recent_max_level = 0;
      last_time_stamp = made;
    } in
    if ltb (length pcm) (size * 2)
    then none
    else some
        (calculate ap (samples_of block_size (take (size * 2) pcm)) now reset_time
          raise_time).1.level

-- ===== src/Server/Room/Members.antt =====
-- Who is in the room after an operation of it, and what it delivers.
use easy_voice_call.Base.{
  ℕ, ◌≤◌, ◌<◌, ◌^◌, ◌≡◌, ◌⊎◌, refl, Bool, true, false, List, [], ◌∷◌, length, All, arith,
}
use easy_voice_call.NetPacket.{
  NetPacket, PayloadType, heart_beat_request, heart_beat_response, login_request, login_response,
  text_message, audio_message, audio_message_cn, logout_request, payload_type,
}
use easy_voice_call.NetPacket.Fields.{new-Carries}
use easy_voice_call.NetPacket.Parse.{IsWellFormed}
use easy_voice_call.Server.Room.{
  Room, insert, erase, join, leave, broadcast, user_message, reply, dispatch,
  process_client_message_payload,
}
use easy_voice_call.Server.Room.Capacity.{IsValid, Above, Above-weaken, IsOrdered}
use easy_voice_call.Server.Room.Broadcast.{is_in}

is_in-insert :
    (x p : ℕ) (ps : List ℕ) → is_in x (insert p ps) ≡ true → (x ≡ p) ⊎ (is_in x ps ≡ true)
unfolding insert
is_in-insert x p [] h = ground arith
is_in-insert x p (q ∷ qs) h = ground (arith, is_in-insert x p qs)

is_in-erase : (x p : ℕ) (ps : List ℕ) → is_in x (erase p ps) ≡ true → is_in x ps ≡ true
unfolding erase
is_in-erase x p [] h = h
is_in-erase x p (q ∷ qs) h = ground (arith, is_in-erase x p qs)

Above-IsOrdered : (n : ℕ) (ps : List ℕ) → Above n ps → IsOrdered ps
Above-IsOrdered n [] a = tt
Above-IsOrdered n (p ∷ ps) a = a.1

Above-not-in : (n : ℕ) (ps : List ℕ) → Above n ps → is_in n ps ≡ false
Above-not-in n [] a = refl
Above-not-in n (p ∷ ps) a =
    ground (arith, Above-not-in n ps (Above-weaken n p ps (omega arith) a.1))

not-in-erase : (p : ℕ) (ps : List ℕ) → IsOrdered ps → is_in p (erase p ps) ≡ false
unfolding erase
not-in-erase p [] a = refl
not-in-erase p (q ∷ qs) a =
    ground (arith, Above-not-in q qs a, not-in-erase p qs (Above-IsOrdered q qs a))

pub join-members :
    (room : Room) (x p : ℕ)
    → is_in x (join room p).0.participants ≡ true
    → (x ≡ p) ⊎ (is_in x room.participants ≡ true)
unfolding join
join-members room x p h = ground (arith, is_in-insert x p room.participants)

pub leave-members :
    (room : Room) (x p : ℕ)
    → is_in x (leave room p).participants ≡ true
    → is_in x room.participants ≡ true
unfolding leave
leave-members room x p h = is_in-erase x p room.participants h

pub leave-gone : (room : Room) (p : ℕ) → IsValid room → is_in p (leave room p).participants ≡ false
unfolding leave
leave-gone room p v = not-in-erase p room.participants v.ordered

module _ (git_tag : List ℕ) (is_echo_mode : Bool) where
  dispatch-members :
      (t : PayloadType) (room : Room) (msg : NetPacket) (x p up : ℕ)
      → is_in x (dispatch git_tag is_echo_mode t room msg p up).0.participants ≡ true
      → is_in x room.participants ≡ true
  unfolding dispatch user_message
  dispatch-members logout_request room msg x p up h = leave-members room x p h
  dispatch-members _ room msg x p up h = h

  -- A message lets nobody in.
  pub process-members :
      (room : Room) (msg : NetPacket) (x p up : ℕ)
      → is_in x (process_client_message_payload git_tag is_echo_mode room msg p up).0.participants
        ≡ true
      → is_in x room.participants ≡ true
  unfolding process_client_message_payload
  process-members room msg x p up h = dispatch-members (payload_type msg) room msg x p up h

  broadcast-formed :
      (ps : List ℕ) (me : ℕ) (msg : NetPacket)
      → IsWellFormed msg
      → All (λ d. IsWellFormed d.packet) (broadcast ps me msg)
  unfolding broadcast
  broadcast-formed [] me msg formed = tt
  broadcast-formed (p ∷ ps) me msg formed = ground (arith, broadcast-formed ps me msg formed)

  media-formed :
      (room : Room) (msg : NetPacket) (p : ℕ)
      → IsWellFormed msg
      → All (λ d. IsWellFormed d.packet) (user_message git_tag is_echo_mode room msg p).1
  unfolding user_message
  media-formed room msg p formed = ground (arith, broadcast-formed room.participants p msg formed)

  dispatch-formed :
      (t : PayloadType) (room : Room) (msg : NetPacket) (p up : ℕ)
      → 4 ≤ length git_tag
      → up < 2 ^ 32
      → IsWellFormed msg
      → All (λ d. IsWellFormed d.packet) (dispatch git_tag is_echo_mode t room msg p up).1
  unfolding dispatch reply
  dispatch-formed heart_beat_request room msg p up tagged fits formed =
      ((new-Carries git_tag heart_beat_response 0 up tagged tt (omega arith) fits).formed, tt)
  dispatch-formed login_request room msg p up tagged fits formed =
      ((new-Carries git_tag login_response 0 up tagged tt (omega arith) fits).formed, tt)
  dispatch-formed text_message room msg p up tagged fits formed = media-formed room msg p formed
  dispatch-formed audio_message room msg p up tagged fits formed = media-formed room msg p formed
  dispatch-formed audio_message_cn room msg p up tagged fits formed = media-formed room msg p formed
  dispatch-formed _ room msg p up tagged fits formed = tt

  -- What is delivered for a well-formed packet is well formed.
  pub process-formed :
      (room : Room) (msg : NetPacket) (p up : ℕ)
      → 4 ≤ length git_tag
      → up < 2 ^ 32
      → IsWellFormed msg
      → All
          (λ d. IsWellFormed d.packet)
          (process_client_message_payload git_tag is_echo_mode room msg p up).1
  unfolding process_client_message_payload
  process-formed room msg p up tagged fits formed =
      dispatch-formed (payload_type msg) room msg p up tagged fits formed

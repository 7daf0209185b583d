-- ===== src/Server/Room/Capacity.antt =====
-- How many the room holds.
use easy_voice_call.Base.{ℕ, ◌+◌, ◌≡◌, ◌≤◌, ◌<◌, Bool, true, List, [], ◌∷◌, length, arith}
use easy_voice_call.ReturnType.{of_text, of_int}
use easy_voice_call.NetPacket.{NetPacket, PayloadType, payload_type, logout_request}
use easy_voice_call.Server.Room.{
  Room, insert, erase, join, leave, user_message, dispatch, process_client_message_payload,
}

-- The set holds a pointer once, lower pointers first.
abbrev pub Above : ℕ → List ℕ → Type 0
Above n [] = Unit {0}
Above n (p ∷ ps) = (n < p) × Above p ps

abbrev pub IsOrdered : List ℕ → Type 0
IsOrdered [] = Unit {0}
IsOrdered (p ∷ ps) = Above p ps

pub record IsValid (room : Room) : Type 0 where
  pub ordered : IsOrdered room.participants
  pub bounded : length room.participants ≤ 2

-- What the server does with its room.
pub data Operation : Type 0 where
  joins leaves : ℕ → Operation
  sends : ℕ → NetPacket → ℕ → Operation

module _ (git_tag : List ℕ) (is_echo_mode : Bool) where
  pub step : Room → Operation → Room
  unfolding join leave process_client_message_payload
  step room (joins p) = (join room p).0
  step room (leaves p) = leave room p
  step room (sends p msg up) = (process_client_message_payload git_tag is_echo_mode room msg p up).0

  pub run : Room → List Operation → Room
  unfolding step
  run room [] = room
  run room (o ∷ os) = run (step room o) os

insert-Above : (n p : ℕ) (ps : List ℕ) → n < p → Above n ps → Above n (insert p ps)
unfolding insert
insert-Above n p [] h a = omega arith
insert-Above n p (q ∷ qs) h a = ground (arith, insert-Above q p qs)

insert-IsSet : (p : ℕ) (ps : List ℕ) → IsOrdered ps → IsOrdered (insert p ps)
unfolding insert
insert-IsSet p [] a = tt
insert-IsSet p (q ∷ qs) a = ground (arith, insert-Above q p qs)

length-insert : (p : ℕ) (ps : List ℕ) → length (insert p ps) ≤ length ps + 1
unfolding insert
length-insert p [] = omega arith
length-insert p (q ∷ qs) = ground (arith, length-insert p qs)

pub Above-weaken : (m n : ℕ) (ps : List ℕ) → m ≤ n → Above n ps → Above m ps
Above-weaken m n [] h a = tt
Above-weaken m n (p ∷ ps) h a = (omega arith, a.1)

erase-Above : (n p : ℕ) (ps : List ℕ) → Above n ps → Above n (erase p ps)
unfolding erase
erase-Above n p [] a = tt
erase-Above n p (q ∷ qs) a = ground (arith, erase-Above q p qs a.1, Above-weaken n q qs)

erase-IsSet : (p : ℕ) (ps : List ℕ) → IsOrdered ps → IsOrdered (erase p ps)
unfolding erase
erase-IsSet p [] a = tt
erase-IsSet p (q ∷ []) a = ground arith
erase-IsSet p (q ∷ r ∷ qs) a = ground (arith, erase-Above q p (r ∷ qs) a)

length-erase : (p : ℕ) (ps : List ℕ) → length (erase p ps) ≤ length ps
unfolding erase
length-erase p [] = omega arith
length-erase p (q ∷ qs) = ground (arith, length-erase p qs)

pub join-IsValid : (room : Room) (p : ℕ) → IsValid room → IsValid (join room p).0
unfolding join
join-IsValid room p v =
    ground (arith, insert-IsSet p room.participants, length-insert p room.participants)

pub leave-IsValid : (room : Room) (p : ℕ) → IsValid room → IsValid (leave room p)
unfolding leave
leave-IsValid room p v = record {
  ordered = erase-IsSet p room.participants v.ordered;
  bounded = omega (arith, length-erase p room.participants);
}

module _ (git_tag : List ℕ) (is_echo_mode : Bool) where
  dispatch-IsValid :
      (t : PayloadType) (room : Room) (msg : NetPacket) (p up : ℕ)
      → IsValid room
      → IsValid (dispatch git_tag is_echo_mode t room msg p up).0
  unfolding dispatch user_message
  dispatch-IsValid logout_request room msg p up v = leave-IsValid room p v
  dispatch-IsValid _ room msg p up v = record { ordered = v.ordered; bounded = v.bounded }

  pub process-IsValid :
      (room : Room) (msg : NetPacket) (p up : ℕ)
      → IsValid room
      → IsValid (process_client_message_payload git_tag is_echo_mode room msg p up).0
  unfolding process_client_message_payload
  process-IsValid room msg p up v = dispatch-IsValid (payload_type msg) room msg p up v

  step-IsValid :
      (room : Room) (o : Operation) → IsValid room → IsValid (step git_tag is_echo_mode room o)
  unfolding step
  step-IsValid room (joins p) v = join-IsValid room p v
  step-IsValid room (leaves p) v = leave-IsValid room p v
  step-IsValid room (sends p msg up) v = process-IsValid room msg p up v

  -- Whatever joins, leaves and messages come, in any order, the room holds each participant once and
  -- at most two of them, if it did before.
  pub run-IsValid :
      (room : Room) (os : List Operation)
      → IsValid room
      → IsValid (run git_tag is_echo_mode room os)
  unfolding run
  run-IsValid room [] v = v
  run-IsValid room (o ∷ os) v =
      run-IsValid (step git_tag is_echo_mode room o) os (step-IsValid room o v)

-- A third participant is refused and nothing changes; with fewer than two, joining succeeds.
pub join_cases :
    (room : Room) (p : ℕ)
    → (2 ≤ length room.participants → join room p ≡ (room, of_text "participants_.count()>2"))
      × (length room.participants < 2 → (join room p).1.ok ≡ true)
unfolding join of_int
join_cases room p = ((λ h. ground arith), (λ h. ground arith))

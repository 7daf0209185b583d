-- ===== src/Server/Room/Broadcast.antt =====
-- Whom the room delivers a message to.
use easy_voice_call.Base.{
  ℕ, suc, ◌≡◌, ◌≤◌, refl, Bool, true, false, not, ◌&&◌, ◌||◌, List, [], ◌∷◌, arith, All, ◌==◌,
  if◌then◌else◌,
}
use easy_voice_call.NetPacket.{
  NetPacket, PayloadType, text_message, audio_message, audio_message_cn, payload_type, is_media,
}
use easy_voice_call.Server.Room.{
  Room, Delivery, broadcast, user_message, dispatch, process_client_message_payload,
}
use easy_voice_call.Server.Room.Capacity.{Above, IsOrdered, IsValid}

abbrev pub is_in : ℕ → List ℕ → Bool
is_in x [] = false
is_in x (p ∷ ps) = p == x || is_in x ps

-- How often a participant is delivered to.
abbrev pub count_to : ℕ → List Delivery → ℕ
count_to x [] = 0
count_to x (d ∷ ds) = let rest = count_to x ds in if d.participant == x then suc rest else rest

broadcast-packets :
    (ps : List ℕ) (me : ℕ) (msg : NetPacket) → All (λ d. d.packet ≡ msg) (broadcast ps me msg)
unfolding broadcast
broadcast-packets [] me msg = tt
broadcast-packets (p ∷ ps) me msg = ground (arith, broadcast-packets ps me msg)

Above-count :
    (x n me : ℕ) (ps : List ℕ) (msg : NetPacket)
    → Above n ps
    → x ≤ n
    → (count_to x (broadcast ps me msg) ≡ 0) × (is_in x ps ≡ false)
unfolding broadcast
Above-count x n me [] msg a h = (refl, refl)
Above-count x n me (p ∷ ps) msg a h = ground (arith, Above-count x p me ps msg a.1)

count-Above :
    (x n me : ℕ) (ps : List ℕ) (msg : NetPacket)
    → Above n ps
    → count_to x (broadcast ps me msg) ≡ (if is_in x ps && not (x == me) then 1 else 0)
unfolding broadcast
count-Above x n me [] msg a = refl
count-Above x n me (p ∷ ps) msg a =
    ground (arith, count-Above x p me ps msg a.1, Above-count x p me ps msg a.1)

count-broadcast :
    (x me : ℕ) (ps : List ℕ) (msg : NetPacket)
    → IsOrdered ps
    → count_to x (broadcast ps me msg) ≡ (if is_in x ps && not (x == me) then 1 else 0)
unfolding broadcast
count-broadcast x me [] msg a = refl
count-broadcast x me (p ∷ ps) msg a =
    ground (arith, count-Above x p me ps msg a, Above-count x p me ps msg a)

module _ (git_tag : List ℕ) where
  dispatch-media :
      (t : PayloadType) (room : Room) (msg : NetPacket) (sender up : ℕ)
      → is_media t ≡ true
      → (dispatch git_tag false t room msg sender up).1 ≡ broadcast room.participants sender msg
  unfolding dispatch user_message is_media
  dispatch-media text_message room msg sender up h = refl
  dispatch-media audio_message room msg sender up h = refl
  dispatch-media audio_message_cn room msg sender up h = refl
  dispatch-media _ room msg sender up h = cc

  -- In broadcast mode every participant but the sender is delivered the media packet itself, once,
  -- whether or not the sender is in the room, and nobody else is delivered anything.
  pub media_delivered :
      (room : Room) (msg : NetPacket) (sender up : ℕ)
      → is_media (payload_type msg) ≡ true
      → IsValid room
      → let sent = (process_client_message_payload git_tag false room msg sender up).1 in
        All (λ d. d.packet ≡ msg) sent
        × ((x : ℕ)
            → count_to x sent ≡ (if is_in x room.participants && not (x == sender) then 1 else 0))
  unfolding process_client_message_payload
  media_delivered room msg sender up media v =
      rw (dispatch-media (payload_type msg) room msg sender up media) (
        broadcast-packets room.participants sender msg,
        λ x. count-broadcast x sender room.participants msg v.ordered,
      )

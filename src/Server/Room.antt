-- ===== src/Server/Room.antt =====
-- server/Room.hpp and Participant.hpp: the room of the TCP server. A participant is its pointer, by
-- which the set is ordered; `deliver` is virtual, so the calls of it are the result.
pub mod Capacity
pub mod Broadcast
pub mod Members
use easy_voice_call.Base.{
  ℕ, suc, ◌+◌, ◌%◌, ◌^◌, Bool, true, false, List, [], ◌∷◌, length, ltb, leb, ◌==◌, if◌then◌else◌,
}
use easy_voice_call.Base.Int.{pos}
use easy_voice_call.ReturnType.{ReturnType, of_int, of_text}
use easy_voice_call.NetPacket.{
  NetPacket, PayloadType, heart_beat_request, heart_beat_response, login_request, login_response,
  text_message, audio_message, audio_message_cn, logout_request, new, payload_type,
}

-- `counter` is the function's static `counterUserMessage_`.
pub record Room : Type 0 where
  pub participants : List ℕ
  pub counter : ℕ

-- A call `participant->deliver(packet)`.
pub record Delivery : Type 0 where
  pub participant : ℕ
  pub packet : NetPacket

-- std::set::insert and std::set::erase.
unfoldable pub insert : ℕ → List ℕ → List ℕ
insert p [] = p ∷ []
insert p (q ∷ qs) = if ltb p q then p ∷ q ∷ qs else if p == q then q ∷ qs else q ∷ insert p qs

unfoldable pub erase : ℕ → List ℕ → List ℕ
erase p [] = []
erase p (q ∷ qs) = if q == p then qs else q ∷ erase p qs

unfoldable pub join : Room → ℕ → Room × ReturnType
unfolding insert
join room participant =
    if leb 2 (length room.participants)
    then (room, of_text "participants_.count()>2")
    else (record room { participants = insert participant room.participants }, of_int (pos 0))

unfoldable pub leave : Room → ℕ → Room
unfolding erase
leave room participant = record room { participants = erase participant room.participants }

-- The broadcast loop.
unfoldable pub broadcast : List ℕ → ℕ → NetPacket → List Delivery
broadcast [] sender msg = []
broadcast (p ∷ ps) sender msg =
    let rest = broadcast ps sender msg in
    if p == sender then rest else record { participant = p; packet = msg } ∷ rest

module _ (git_tag : List ℕ) (is_echo_mode : Bool) where
  unfoldable pub user_message : Room → NetPacket → ℕ → Room × List Delivery
  unfolding broadcast
  user_message room msg sender = (
    record room { counter = (room.counter + 1) % 2 ^ 32 },
    if is_echo_mode
        then record { participant = sender; packet = msg } ∷ []
        else broadcast room.participants sender msg,
  )

  unfoldable pub reply : PayloadType → ℕ → ℕ → List Delivery
  reply t sender up = record { participant = sender; packet = new git_tag t 0 up } ∷ []

  -- The switch of `processClientMessagePayload`; the last clause is `default`.
  unfoldable pub dispatch : PayloadType → Room → NetPacket → ℕ → ℕ → Room × List Delivery
  unfolding user_message reply leave
  dispatch heart_beat_request room msg sender up = (room, reply heart_beat_response sender up)
  dispatch text_message room msg sender up = user_message room msg sender
  dispatch audio_message room msg sender up = user_message room msg sender
  dispatch audio_message_cn room msg sender up = user_message room msg sender
  dispatch login_request room msg sender up = (room, reply login_response sender up)
  dispatch logout_request room msg sender up = (leave room sender, [])
  dispatch _ room msg sender up = (room, [])

  unfoldable pub process_client_message_payload : Room → NetPacket → ℕ → ℕ → Room × List Delivery
  unfolding dispatch
  process_client_message_payload room msg sender up = dispatch (payload_type msg) room msg sender up

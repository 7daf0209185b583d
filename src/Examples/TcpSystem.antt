-- ===== src/Examples/TcpSystem.antt =====
-- The TCP server with its sessions at concrete inputs: two clients join, and one of them speaks.
use easy_voice_call.Base.{update, ℕ, ◌≡◌, refl, List, [], ◌∷◌, some, arith, true, false}
use easy_voice_call.ReturnType.{of_int}
use easy_voice_call.NetPacket.{
  NetPacket, of_code, payload_type, is_media, payload_length, whole_pack_length, check_header, new,
  init,
}
use easy_voice_call.Server.Room.{
  join, insert, process_client_message_payload, dispatch, user_message, broadcast,
}
use easy_voice_call.Server.Room.Capacity.{IsValid}
use easy_voice_call.Server.Room.Broadcast.{is_in}
use easy_voice_call.Server.TcpSession.{
  read_header, read_payload, read_loop, fresh, deliver, write, on_written,
}
use easy_voice_call.Server.TcpServer.{
  TcpServer, answers, start, accept, on_read, on_message, answers_to, deliver_all, deliver_to,
  on_session_written,
}
use easy_voice_call.Server.TcpServer.Log.{logged}
use easy_voice_call.Server.TcpServer.Sessions.{
  Reach, begins, accepts, reads, completes, members_alive,
}
use easy_voice_call.Server.TcpServer.Conversation.{reads_log}
use easy_voice_call.Server.TcpServer.Relay.{read_rounds}
use easy_voice_call.Client.TcpClient
use easy_voice_call.Client.TcpClient.Queue.{WriteEvent, posted, completed, run, step}
use easy_voice_call.System.TcpConversation.{messages-heard}
use easy_voice_call.Examples.TcpServer.{spoken}

abbrev version : List ℕ
version = 0x31 ∷ 0x2e ∷ 0x30 ∷ 0x2d ∷ []

abbrev start_state : TcpServer
start_state = record {
  room = record { participants = []; counter = 0 };
  sessions = λ p. record { read_msg = spoken; writer = fresh };
}

abbrev one_member : TcpServer
one_member = accept version false start_state (some 1) 5

abbrev two_members : TcpServer
two_members = accept version false one_member (some 2) 6

abbrev after_speech : TcpServer
after_speech = on_read version false two_members 2 spoken.whole_packet 7

abbrev empty_log : ℕ → List NetPacket
empty_log = update (update (λ p. []) 1 []) 2 []

joined : Reach version false empty_log two_members
unfolding accept start join insert of_int
joined =
    accepts (accepts (begins spoken (omega arith)) 1 5 (omega arith) refl) 2 6 (omega arith) refl

members_alive_example :
    IsValid after_speech.room
    × ((p : ℕ)
        → is_in p after_speech.room.participants ≡ true
        → (after_speech.sessions p).writer.failed ≡ false)
unfolding accept start join insert of_int
members_alive_example =
    members_alive version false (omega arith) (reads joined 2 spoken.whole_packet 7 (omega arith))

abbrev heard : TcpServer
heard = on_session_written after_speech 1

abbrev heard_log : ℕ → List NetPacket
heard_log = logged empty_log (answers version false two_members 2 spoken.whole_packet 7)

relayed : Reach version false heard_log heard
unfolding accept start join insert of_int on_read on_message answers answers_to check_header new
    init read_header read_payload payload_length payload_type of_code is_media deliver_all
    deliver_to process_client_message_payload dispatch user_message broadcast on_session_written
    deliver fresh write whole_pack_length logged
relayed = completes (reads joined 2 spoken.whole_packet 7 (omega arith)) 1 spoken.whole_packet refl

reads_log_example : read_loop 2 spoken (heard.sessions 1).writer.wire ≡ some (spoken ∷ [])
unfolding accept start join insert of_int on_read on_message answers answers_to check_header new
    init read_header read_payload payload_length payload_type of_code is_media deliver_all
    deliver_to process_client_message_payload dispatch user_message broadcast on_session_written
    deliver fresh write whole_pack_length logged on_written
reads_log_example =
    reads_log version false heard_log heard 1 2 spoken (omega arith) relayed refl refl (omega arith)
      (omega arith)

abbrev events : List WriteEvent
events = posted spoken ∷ completed ∷ []

messages-heard_example :
    TcpClient.read_loop 2 spoken (heard.sessions 1).writer.wire ≡ some (spoken ∷ [])
unfolding accept start join insert of_int on_read on_message answers answers_to check_header new
    init read_header read_payload payload_length payload_type of_code is_media deliver_all
    deliver_to process_client_message_payload dispatch user_message broadcast on_session_written
    deliver fresh write whole_pack_length logged on_written read_rounds run step TcpClient.write
    TcpClient.front TcpClient.write_front TcpClient.on_written
messages-heard_example =
    messages-heard version 2 7 1 2 events empty_log two_members heard spoken (omega arith)
      (omega arith) joined refl refl ((omega arith, refl), tt) refl (λ e. absurd (omega arith))
      relayed refl refl (omega arith) (omega arith)

-- ===== src/System/TcpConversation.antt =====
-- From one client to the others over TCP: client_essential/TcpClient.hpp at both ends, and between them
-- server/TcpServer.hpp and server/Room.hpp.
use easy_voice_call.Base.{
  ℕ, ◌≤◌, ◌<◌, ◌^◌, ◌≡◌, ◌≢◌, ap, ◌∙◌, subst, sym, true, false, List, ◌++◌, none, some, length, All,
  ◌==◌, arith,
}
use easy_voice_call.NetPacket.{NetPacket, is_media, payload_type}
use easy_voice_call.NetPacket.Parse.{IsWellFormed}
use easy_voice_call.Server.Room.Broadcast.{is_in}
use easy_voice_call.Server.TcpSession.{fresh}
use easy_voice_call.Server.TcpServer.{TcpServer}
use easy_voice_call.Server.TcpServer.Sessions.{Reach}
use easy_voice_call.Server.TcpServer.Conversation.{idle-wire, reads_log}
use easy_voice_call.Server.TcpServer.Relay.{read_rounds, read_rounds-Relayed}
use easy_voice_call.Client.TcpClient.{read_loop}
use easy_voice_call.Client.TcpClient.Framing.{read_loop-session}
use easy_voice_call.Client.TcpClient.Queue.{WriteEvent, messages, run, run-InOrder}

-- What one TCP client posts, all of it audio or text and well formed, is read by the TCP client of
-- every other member of the room: all of it and in its order, behind what that member has got before.
-- The one client's connection has not failed and has nothing in flight when the server has read it, in
-- one round a message, from a state that can be reached; the state in which the other client reads has
-- had no further delivery, and there that member's connection has not failed and has nothing in
-- flight; its client reads in one round more than messages, into a buffer that holds a header. The
-- version has four bytes, the time fits 32 bits, and the server is in broadcast mode.
pub messages-heard :
    (git_tag : List ℕ) (p up x fuel : ℕ) (events : List WriteEvent) (log : ℕ → List NetPacket)
    (s t : TcpServer) (old : NetPacket)
    → 4 ≤ length git_tag
    → up < 2 ^ 32
    → Reach git_tag false log s
    → (run fresh events).failed ≡ false
    → (run fresh events).in_flight ≡ none
    → All (λ m. IsWellFormed m × (is_media (payload_type m) ≡ true)) (messages events)
    → is_in x s.room.participants ≡ true
    → x ≢ p
    → Reach git_tag false
        (read_rounds git_tag p up (length (messages events)) log s (run fresh events).wire).log
        t
    → (t.sessions x).writer.failed ≡ false
    → (t.sessions x).writer.in_flight ≡ none
    → 20 ≤ length old.whole_packet
    → length (log x ++ messages events) < fuel
    → read_loop fuel old (t.sessions x).writer.wire ≡ some (log x ++ messages events)
messages-heard git_tag p up x fuel events log s t old tagged fits r works quiet spoken member apart
      later t_works t_quiet long enough =
    let ms = messages events in
    let sent = idle-wire ms (run fresh events) (run-InOrder events) works quiet in
    let other : (x == p) ≡ false = ground arith in
    let relayed = read_rounds-Relayed git_tag p up log s x ms tagged fits r spoken member other in
    let got =
      ap (λ (input : List ℕ). (read_rounds git_tag p up (length ms) log s input).log x) sent
      ∙ relayed.got in
    let after = read_rounds git_tag p up (length ms) log s (run fresh events).wire in
    read_loop-session fuel old (t.sessions x).writer.wire
    ∙ reads_log git_tag false after.log t x fuel old tagged later t_works t_quiet long
        (subst (λ (l : List NetPacket). length l < fuel) (sym got) enough)
    ∙ ap some got

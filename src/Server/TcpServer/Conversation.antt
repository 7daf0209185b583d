-- ===== src/Server/TcpServer/Conversation.antt =====
-- What the clients of the TCP server read off their connections.
use easy_voice_call.Base.{
  ℕ, ◌≤◌, ◌<◌, ◌≡◌, refl, sym, ap, ◌∙◌, Bool, true, false, not, ◌&&◌, List, [], ◌∷◌, ◌++◌, none,
  some, length, replicate, if◌then◌else◌, ◌==◌, append-nil,
}
use easy_voice_call.NetPacket.{NetPacket, is_media, payload_type}
use easy_voice_call.NetPacket.Parse.{parse}
use easy_voice_call.Server.Room.{process_client_message_payload}
use easy_voice_call.Server.Room.Broadcast.{is_in, media_delivered}
use easy_voice_call.Server.TcpSession.{Writer, read_header, read_loop}
use easy_voice_call.Server.TcpSession.Framing.{read_loop-wire_bytes}
use easy_voice_call.Server.TcpSession.WriteQueue.{
  InOrder, idle, busy, broken, Reach-InOrder, wire_bytes,
}
use easy_voice_call.Server.TcpServer.{TcpServer, answers, answers_to}
use easy_voice_call.Server.TcpServer.Log.{logged, logged-count}
use easy_voice_call.Server.TcpServer.Sessions.{Reach, Reach-Inv}

parse-nil : parse [] ≡ none
unfolding parse
parse-nil = refl

pub idle-wire :
    (ms : List NetPacket) (w : Writer)
    → InOrder ms w
    → w.failed ≡ false
    → w.in_flight ≡ none
    → w.wire ≡ wire_bytes ms
idle-wire ms w (idle works empty quiet wire) f q = wire
idle-wire ms w (busy m queue works next flying wire) f q = cc
idle-wire ms w (broken m queue unsent failed next quiet wire) f q = cc

-- In every state that can be reached, if no write of a session has failed and none is in flight, then
-- whoever reads the session's connection by the loop that client and server share reads exactly the
-- messages delivered to it, in their order, in one round more than messages.
pub reads_log :
    (git_tag : List ℕ) (is_echo_mode : Bool) (log : ℕ → List NetPacket) (s : TcpServer) (p fuel : ℕ)
    (old : NetPacket)
    → 4 ≤ length git_tag
    → Reach git_tag is_echo_mode log s
    → (s.sessions p).writer.failed ≡ false
    → (s.sessions p).writer.in_flight ≡ none
    → 20 ≤ length old.whole_packet
    → length (log p) < fuel
    → read_loop fuel old (s.sessions p).writer.wire ≡ some (log p)
reads_log git_tag is_echo_mode log s p fuel old tagged r works quiet long enough =
    let inv = Reach-Inv git_tag is_echo_mode tagged r in
    let wire = idle-wire (log p) (s.sessions p).writer (Reach-InOrder (inv.queued p)) works quiet in
    ap (read_loop fuel old) (wire ∙ sym (append-nil (wire_bytes (log p))))
    ∙ read_loop-wire_bytes fuel old (log p) [] long (inv.formed p) parse-nil enough

append_once :
    (xs : List NetPacket) (msg : NetPacket) (b : Bool)
    → xs ++ replicate (if b then 1 else 0) msg ≡ (if b then xs ++ (msg ∷ []) else xs)
append_once xs msg true = refl
append_once xs msg false = append-nil xs

-- In broadcast mode, a media packet that a session reads is delivered once to every other member of
-- the room and to nobody else, in every state that can be reached.
pub media_logged :
    (git_tag : List ℕ) (log : ℕ → List NetPacket) (s : TcpServer) (p up x : ℕ) (input rest : List ℕ)
    (msg : NetPacket)
    → 4 ≤ length git_tag
    → Reach git_tag false log s
    → read_header (s.sessions p).read_msg input ≡ some (msg, rest)
    → is_media (payload_type msg) ≡ true
    → logged log (answers git_tag false s p input up) x
      ≡ (if is_in x s.room.participants && not (x == p) then log x ++ (msg ∷ []) else log x)
unfolding answers answers_to
media_logged git_tag log s p up x input rest msg tagged r e media =
    let valid = (Reach-Inv git_tag false tagged r).valid in
    let (same, counts) = media_delivered git_tag s.room msg p up media valid in
    let sent = (process_client_message_payload git_tag false s.room msg p up).1 in
    rw e (
      logged-count log sent msg x same
      ∙ ap (λ (n : ℕ). log x ++ replicate n msg) (counts x)
      ∙ append_once (log x) msg _)

-- ===== src/Server/TcpServer/Relay.antt =====
-- What one client of the TCP server says, as the others get it.
use easy_voice_call.Base.{
  ℕ, zero, suc, ◌≤◌, ◌<◌, ◌^◌, ◌≡◌, refl, sym, ap, ◌∙◌, subst, true, false, List, [], ◌∷◌, ◌++◌,
  Option, none, some, length, All, ◌==◌, append_assoc, append-nil,
}
use easy_voice_call.NetPacket.{
  NetPacket, PayloadType, is_media, payload_type, text_message, audio_message, audio_message_cn,
}
use easy_voice_call.NetPacket.Parse.{IsWellFormed}
use easy_voice_call.Server.Room.{Room, dispatch, user_message, process_client_message_payload}
use easy_voice_call.Server.Room.Broadcast.{is_in}
use easy_voice_call.Server.TcpSession.{read_header}
use easy_voice_call.Server.TcpSession.Framing.{read_header-next}
use easy_voice_call.Server.TcpSession.WriteQueue.{wire_bytes}
use easy_voice_call.Server.TcpServer.{TcpServer, on_read, on_message, answers}
use easy_voice_call.Server.TcpServer.Log.{logged}
use easy_voice_call.Server.TcpServer.Sessions.{Reach, reads, Reach-Inv}
use easy_voice_call.Server.TcpServer.Conversation.{media_logged}

abbrev remaining : Option (NetPacket × List ℕ) → List ℕ
remaining none = []
remaining (some (msg, rest)) = rest

-- A log of what has been delivered to each session, and the server.
pub record Logged : Type 0 where
  pub log : ℕ → List NetPacket
  pub server : TcpServer

module _ (git_tag : List ℕ) (p up : ℕ) where
  -- `n` rounds of readHeader and readPayload of the session at `p`, in broadcast mode.
  unfoldable pub read_rounds : ℕ → (ℕ → List NetPacket) → TcpServer → List ℕ → Logged
  read_rounds zero log s input = record { log = log; server = s }
  read_rounds (suc n) log s input =
      read_rounds n (logged log (answers git_tag false s p input up))
        (on_read git_tag false s p input up) (remaining (read_header (s.sessions p).read_msg input))

  dispatch-participants :
      (t : PayloadType) (room : Room) (msg : NetPacket)
      → is_media t ≡ true
      → (dispatch git_tag false t room msg p up).0.participants ≡ room.participants
  unfolding dispatch user_message is_media
  dispatch-participants text_message room msg h = refl
  dispatch-participants audio_message room msg h = refl
  dispatch-participants audio_message_cn room msg h = refl
  dispatch-participants _ room msg h = absurd cc

  media-participants :
      (s : TcpServer) (msg : NetPacket) (input rest : List ℕ)
      → read_header (s.sessions p).read_msg input ≡ some (msg, rest)
      → is_media (payload_type msg) ≡ true
      → (on_read git_tag false s p input up).room.participants ≡ s.room.participants
  unfolding on_read on_message process_client_message_payload
  media-participants s msg input rest e media =
      rw e (dispatch-participants (payload_type msg) s.room msg media)

  -- The session at `x` has got the messages `ms` in a state that can be reached.
  pub record Relayed (log : ℕ → List NetPacket) (x : ℕ) (ms : List NetPacket) (after : Logged)
      : Type 0 where
    pub reached : Reach git_tag false after.log after.server
    pub got : after.log x ≡ log x ++ ms

  -- In broadcast mode, the media packets that one client writes to its connection one after the other
  -- are delivered to every other member of the room, all of them and in their order, behind what it
  -- has got before, from every state that can be reached. The packets are well formed, the version has
  -- four bytes, and the time fits 32 bits.
  pub read_rounds-Relayed :
      (log : ℕ → List NetPacket) (s : TcpServer) (x : ℕ) (ms : List NetPacket)
      → 4 ≤ length git_tag
      → up < 2 ^ 32
      → Reach git_tag false log s
      → All (λ m. IsWellFormed m × (is_media (payload_type m) ≡ true)) ms
      → is_in x s.room.participants ≡ true
      → (x == p) ≡ false
      → Relayed log x ms (read_rounds (length ms) log s (wire_bytes ms))
  unfolding read_rounds
  read_rounds-Relayed log s x [] tagged fits r spoken member apart = record {
    reached = r;
    got = sym (append-nil (log x));
  }
  read_rounds-Relayed log s x (m ∷ ms) tagged fits r spoken member apart =
      let input = m.whole_packet ++ wire_bytes ms in
      let old = (s.sessions p).read_msg in
      let buffers = (Reach-Inv git_tag false tagged r).buffers in
      let e = read_header-next old m (wire_bytes ms) (buffers p) spoken.0.0 in
      let log2 = logged log (answers git_tag false s p input up) in
      let s2 = on_read git_tag false s p input up in
      let one = media_logged git_tag log s p up x input (wire_bytes ms) m tagged r e spoken.0.1 in
      let here = media-participants s m input (wire_bytes ms) e spoken.0.1 in
      let still : is_in x s2.room.participants ≡ true = ap (is_in x) here ∙ member in
      let ih =
        read_rounds-Relayed log2 s2 x ms tagged fits (reads r p input up fits) spoken.1 still
          apart in
      let step : log2 x ≡ log x ++ (m ∷ []) = one ∙ rw (member, apart) refl in
      subst
        (λ (o : Option (NetPacket × List ℕ)).
          Relayed log x (m ∷ ms) (read_rounds (length ms) log2 s2 (remaining o)))
        (sym e)
        (record {
          reached = ih.reached;
          got =
              ih.got ∙ ap (λ (l : List NetPacket). l ++ ms) step ∙ append_assoc (log x) (m ∷ []) ms;
        })

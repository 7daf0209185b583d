-- ===== src/Server/TcpServer/Sessions.antt =====
-- The states of the TCP server that its clients and the network can lead to.
use easy_voice_call.Base.{
  ℕ, ◌≤◌, ◌<◌, ◌^◌, ◌≡◌, refl, sym, ◌∙◌, subst, Bool, true, false, List, [], Option, none, some,
  length, update, update_cases, update_hit, All, if◌then◌else◌, ◌==◌, arith, inl, inr,
}
use easy_voice_call.NetPacket.{NetPacket, undefined, new}
use easy_voice_call.NetPacket.Receive.{length-new}
use easy_voice_call.NetPacket.Parse.{IsWellFormed}
use easy_voice_call.Server.Room.{join, process_client_message_payload}
use easy_voice_call.Server.Room.Capacity.{IsValid, join-IsValid, process-IsValid}
use easy_voice_call.Server.Room.Broadcast.{is_in}
use easy_voice_call.Server.Room.Members.{join-members, leave-gone, process-members, process-formed}
use easy_voice_call.Server.TcpSession.Framing.{read_header-formed}
use easy_voice_call.Server.TcpSession.{fresh, read_header, on_written, on_write_error}
use easy_voice_call.Server.TcpSession.WriteQueue
use easy_voice_call.Server.TcpSession.WriteQueue.{on_written-failed}
use easy_voice_call.Server.TcpServer.{
  TcpSession, TcpServer, start, accept, on_read, on_message, answers, answers_to,
  on_session_written, on_session_write_error,
}
use easy_voice_call.Server.TcpServer.Log.{
  logged, Queued, deliver_all-Queued, deliver_all-Same, logged-All, if-both,
}
use easy_voice_call.Server.TcpServer.Invariant.{Inv, begins-Inv, leave-Inv, set_writer-Inv}

module _ (git_tag : List ℕ) (is_echo_mode : Bool) where
  -- The reachable states, with the messages delivered to the session that stands at each pointer. The
  -- allocator gives a new session an address at which no member of the room stands; the socket
  -- completes or fails a write that is in flight, and gives a session whatever bytes it likes.
  pub data Reach : (ℕ → List NetPacket) → TcpServer → Type 0 where
    begins :
        (m : NetPacket)
        → 20 ≤ length m.whole_packet
        → Reach
            (λ p. [])
            (record {
              room = record { participants = []; counter = 0 };
              sessions = λ p. record { read_msg = m; writer = fresh };
            })
    accepts :
        {log : ℕ → List NetPacket} {s : TcpServer}
        → Reach log s
        → (p up : ℕ) → up < 2 ^ 32
        → is_in p s.room.participants ≡ false
        → Reach
            (if (join s.room p).1.ok then update log p [] else log)
            (accept git_tag is_echo_mode s (some p) up)
    reads :
        {log : ℕ → List NetPacket} {s : TcpServer}
        → Reach log s
        → (p : ℕ) (input : List ℕ) (up : ℕ) → up < 2 ^ 32
        → Reach
            (logged log (answers git_tag is_echo_mode s p input up))
            (on_read git_tag is_echo_mode s p input up)
    completes :
        {log : ℕ → List NetPacket} {s : TcpServer}
        → Reach log s
        → (p : ℕ) (bytes : List ℕ) → (s.sessions p).writer.in_flight ≡ some bytes
        → Reach log (on_session_written s p)
    fails :
        {log : ℕ → List NetPacket} {s : TcpServer}
        → Reach log s
        → (p : ℕ) (bytes : List ℕ) (n : ℕ) → (s.sessions p).writer.in_flight ≡ some bytes
        → Reach log (on_session_write_error s p n)

module _ (git_tag : List ℕ) (is_echo_mode : Bool) (tagged : 4 ≤ length git_tag) where
  accept-Inv :
      {log : ℕ → List NetPacket} {s : TcpServer} (p up : ℕ)
      → Inv log s
      → Inv
          (if (join s.room p).1.ok then update log p [] else log)
          (accept git_tag is_echo_mode s (some p) up)
  unfolding accept start fresh
  accept-Inv {log} {s} p up inv =
      let session : TcpSession = record { read_msg = new git_tag undefined 0 up; writer = fresh } in
      if-both Inv (join s.room p).1.ok
        (record {
          valid = join-IsValid s.room p inv.valid;
          queued = λ x. if-both Queued (x == p) WriteQueue.start (inv.queued x);
          formed = λ x. update_cases (All IsWellFormed) log p [] x (λ e. tt) (inv.formed x);
          buffers = λ x.
              update_cases (λ t. 20 ≤ length t.read_msg.whole_packet) s.sessions p session x
                (λ e. omega (arith, length-new git_tag undefined 0 up)) (inv.buffers x);
          alive = λ x h. elim (join-members s.room x p h) [
            | inl same ↦ update_hit (λ t. t.writer.failed ≡ false) s.sessions p session x same refl
            | inr old ↦
                update_cases (λ t. t.writer.failed ≡ false) s.sessions p session x (λ e. refl)
                  (inv.alive x old)
          ];
        })
        inv

  message-Inv :
      {log : ℕ → List NetPacket} {s : TcpServer} (p up : ℕ) (msg : NetPacket) (rest : List ℕ)
      → up < 2 ^ 32
      → IsWellFormed msg
      → Inv log s
      → Inv
          (logged log (answers_to git_tag is_echo_mode s p up (some (msg, rest))))
          (on_message git_tag is_echo_mode s p up (some (msg, rest)))
  unfolding on_message answers_to
  message-Inv {log} {s} p up msg rest fits whole inv =
      let sent = (process_client_message_payload git_tag is_echo_mode s.room msg p up).1 in
      let session : TcpSession = record (s.sessions p) { read_msg = msg } in
      let read = update s.sessions p session in
      record {
        valid = process-IsValid git_tag is_echo_mode s.room msg p up inv.valid;
        queued = deliver_all-Queued log read sent (λ x.
            update_cases (Queued (log x)) s.sessions p session x
              (λ e. subst (λ (q : ℕ). Queued (log q) session) (sym e) (inv.queued p))
              (inv.queued x));
        formed =
            logged-All IsWellFormed log sent
              (process-formed git_tag is_echo_mode s.room msg p up tagged fits whole) inv.formed;
        buffers = λ x.
            let same = deliver_all-Same read sent x in
            rw same.read_same (
              update_cases (λ t. 20 ≤ length t.read_msg.whole_packet) s.sessions p session x
                (λ e. whole.0) (inv.buffers x));
        alive = λ x h.
            let same = deliver_all-Same read sent x in
            same.failed_same
            ∙ update_cases (λ t. t.writer.failed ≡ false) s.sessions p session x
                (λ e. inv.alive p (
                  subst (λ (q : ℕ). is_in q s.room.participants ≡ true) e
                    (process-members git_tag is_echo_mode s.room msg x p up h)))
                (inv.alive x (process-members git_tag is_echo_mode s.room msg x p up h));
      }

  read-Inv :
      {log : ℕ → List NetPacket} {s : TcpServer} (p up : ℕ) (o : Option (NetPacket × List ℕ))
      → up < 2 ^ 32
      → ((msg : NetPacket) (rest : List ℕ) → o ≡ some (msg, rest) → IsWellFormed msg)
      → Inv log s
      → Inv
          (logged log (answers_to git_tag is_echo_mode s p up o))
          (on_message git_tag is_echo_mode s p up o)
  unfolding on_message answers_to logged
  read-Inv p up none fits whole inv = leave-Inv p inv
  read-Inv p up (some (msg, rest)) fits whole inv =
      message-Inv p up msg rest fits (whole msg rest refl) inv

  completed-Inv :
      {log : ℕ → List NetPacket} {s : TcpServer} (p : ℕ) (bytes : List ℕ)
      → (s.sessions p).writer.in_flight ≡ some bytes
      → Inv log s
      → Inv log (on_session_written s p)
  unfolding on_session_written
  completed-Inv {log} {s} p bytes flying inv =
      let w = (s.sessions p).writer in
      set_writer-Inv p (on_written w) inv (WriteQueue.completes (inv.queued p) bytes flying)
        (λ h. on_written-failed w ∙ inv.alive p h)

  failed-Inv :
      {log : ℕ → List NetPacket} {s : TcpServer} (p : ℕ) (bytes : List ℕ) (n : ℕ)
      → (s.sessions p).writer.in_flight ≡ some bytes
      → Inv log s
      → Inv log (on_session_write_error s p n)
  unfolding on_session_write_error
  failed-Inv {log} {s} p bytes n flying inv =
      let w = (s.sessions p).writer in
      let gone = leave-gone s.room p inv.valid in
      set_writer-Inv p (on_write_error w n) (leave-Inv p inv)
        (WriteQueue.fails (inv.queued p) bytes n flying) (λ h. cc)

  -- The invariant holds in every state that can be reached.
  pub Reach-Inv :
      {log : ℕ → List NetPacket} {s : TcpServer} → Reach git_tag is_echo_mode log s → Inv log s
  unfolding on_read answers
  Reach-Inv (begins m long) = begins-Inv m long
  Reach-Inv (accepts r p up fits new_address) = accept-Inv p up (Reach-Inv r)
  Reach-Inv (reads {s = s} r p input up fits) =
      let inv = Reach-Inv r in
      let old = (s.sessions p).read_msg in
      read-Inv p up (read_header old input) fits
        (λ msg rest e. read_header-formed old input msg rest (inv.buffers p) e) inv
  Reach-Inv (completes r p bytes flying) = completed-Inv p bytes flying (Reach-Inv r)
  Reach-Inv (fails r p bytes n flying) = failed-Inv p bytes n flying (Reach-Inv r)

  -- However connections are accepted, read, written and broken, the room has two members at most, each
  -- of them once, and no member of it is a session whose connection has failed a write.
  pub members_alive :
      {log : ℕ → List NetPacket} {s : TcpServer}
      → Reach git_tag is_echo_mode log s
      → IsValid s.room
        × ((p : ℕ) → is_in p s.room.participants ≡ true → (s.sessions p).writer.failed ≡ false)
  members_alive r = let inv = Reach-Inv r in (inv.valid, inv.alive)

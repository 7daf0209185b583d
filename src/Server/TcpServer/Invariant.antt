-- ===== src/Server/TcpServer/Invariant.antt =====
-- What holds of the room and the sessions of the TCP server in every state.
use easy_voice_call.Base.{
  ℕ, ◌≤◌, ◌≡◌, sym, subst, true, false, List, [], length, update_cases, All, arith,
}
use easy_voice_call.NetPacket.{NetPacket}
use easy_voice_call.NetPacket.Parse.{IsWellFormed}
use easy_voice_call.Server.Room.{leave}
use easy_voice_call.Server.Room.Capacity.{IsValid, leave-IsValid}
use easy_voice_call.Server.Room.Broadcast.{is_in}
use easy_voice_call.Server.Room.Members.{leave-members}
use easy_voice_call.Server.TcpSession.{Writer, fresh}
use easy_voice_call.Server.TcpSession.WriteQueue
use easy_voice_call.Server.TcpServer.{TcpSession, TcpServer, set_writer}
use easy_voice_call.Server.TcpServer.Log.{Queued}

-- The room is valid, each writer has its messages, all of them well formed, each buffer holds a header,
-- and the connection of a member of the room has not failed.
pub record Inv (log : ℕ → List NetPacket) (s : TcpServer) : Type 0 where
  pub valid : IsValid s.room
  pub queued : (p : ℕ) → Queued (log p) (s.sessions p)
  pub formed : (p : ℕ) → All IsWellFormed (log p)
  pub buffers : (p : ℕ) → 20 ≤ length (s.sessions p).read_msg.whole_packet
  pub alive : (p : ℕ) → is_in p s.room.participants ≡ true → (s.sessions p).writer.failed ≡ false

abbrev pub no_log : ℕ → List NetPacket
no_log p = []

pub begins-Inv :
    (m : NetPacket)
    → 20 ≤ length m.whole_packet
    → Inv no_log (record {
      room = record { participants = []; counter = 0 };
      sessions = λ p. record { read_msg = m; writer = fresh };
    })
begins-Inv m long = record {
  valid = record { ordered = tt; bounded = omega arith };
  queued = λ p. WriteQueue.start;
  formed = λ p. tt;
  buffers = λ p. long;
  alive = λ p h. cc;
}

pub leave-Inv :
    {log : ℕ → List NetPacket} {s : TcpServer} (p : ℕ)
    → Inv log s
    → Inv log (record s { room = leave s.room p })
leave-Inv {log} {s} p inv = record {
  valid = leave-IsValid s.room p inv.valid;
  queued = inv.queued;
  formed = inv.formed;
  buffers = inv.buffers;
  alive = λ x h. inv.alive x (leave-members s.room x p h);
}

-- A writer that goes on with the messages it has.
pub set_writer-Inv :
    {log : ℕ → List NetPacket} {s : TcpServer} (p : ℕ) (w : Writer)
    → Inv log s
    → WriteQueue.Reach (log p) w
    → (is_in p s.room.participants ≡ true → w.failed ≡ false)
    → Inv log (set_writer s p w)
unfolding set_writer
set_writer-Inv {log} {s} p w inv reached works =
    let session : TcpSession = record (s.sessions p) { writer = w } in
    record {
      valid = inv.valid;
      queued = λ x.
          update_cases (Queued (log x)) s.sessions p session x
            (λ e. subst (λ (q : ℕ). Queued (log q) session) (sym e) reached) (inv.queued x);
      formed = inv.formed;
      buffers = λ x.
          update_cases (λ t. 20 ≤ length t.read_msg.whole_packet) s.sessions p session x
            (λ e. inv.buffers p) (inv.buffers x);
      alive = λ x h.
          update_cases (λ t. t.writer.failed ≡ false) s.sessions p session x
            (λ e. works (subst (λ (q : ℕ). is_in q s.room.participants ≡ true) e h))
            (inv.alive x h);
    }

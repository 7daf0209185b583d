-- ===== src/Client/TcpClient/Queue.antt =====
-- The client's write queue keeps the order of its messages, as the server's does.
use easy_voice_call.Base.{
  ℕ, ◌≡◌, refl, List, [], ◌∷◌, ◌++◌, Option, none, some, arith, append_assoc, append-nil,
  Option-cases, inl, inr,
}
use easy_voice_call.NetPacket.{NetPacket}
use easy_voice_call.Server.TcpSession
use easy_voice_call.Server.TcpSession.{Writer, fresh}
use easy_voice_call.Server.TcpSession.WriteQueue.{
  Reach, start, delivers, completes, fails, InOrder, Reach-InOrder,
}
use easy_voice_call.Client.TcpClient.{write_front, front, write, on_written, on_write_error}

write_front-session : (s : Writer) → write_front s ≡ TcpSession.write s
unfolding write_front front TcpSession.write
write_front-session s = ground arith

write-session : (s : Writer) (msg : NetPacket) → write s msg ≡ TcpSession.deliver s msg
unfolding write TcpSession.deliver
write-session s msg = ground arith

on_written-session : (s : Writer) → on_written s ≡ TcpSession.on_written s
unfolding on_written TcpSession.on_written
on_written-session s = ground arith

on_write_error-session : (s : Writer) (n : ℕ) → on_write_error s n ≡ TcpSession.on_write_error s n
unfolding on_write_error TcpSession.on_write_error
on_write_error-session s n = refl

-- What happens to the writer: a message is posted, or the async_write in flight completes or fails
-- after `n` bytes. With nothing in flight nothing completes.
pub data WriteEvent : Type 0 where
  posted : NetPacket → WriteEvent
  completed : WriteEvent
  broke : ℕ → WriteEvent

abbrev pub on_flight : Option (List ℕ) → Writer → Writer → Writer
on_flight none s t = s
on_flight (some bytes) s t = t

unfoldable pub step : Writer → WriteEvent → Writer
unfolding write on_written on_write_error
step s (posted msg) = write s msg
step s completed = on_flight s.in_flight s (on_written s)
step s (broke n) = on_flight s.in_flight s (on_write_error s n)

unfoldable pub run : Writer → List WriteEvent → Writer
unfolding step
run s [] = s
run s (e ∷ es) = run (step s e) es

abbrev pub messages : List WriteEvent → List NetPacket
messages [] = []
messages (posted msg ∷ es) = msg ∷ messages es
messages (completed ∷ es) = messages es
messages (broke n ∷ es) = messages es

on_flight-none : (o : Option (List ℕ)) (s t : Writer) → o ≡ none → on_flight o s t ≡ s
on_flight-none none s t e = refl
on_flight-none (some bytes) s t e = cc

on_flight-some :
    (o : Option (List ℕ)) (s t : Writer) {bytes : List ℕ} → o ≡ some bytes → on_flight o s t ≡ t
on_flight-some none s t e = cc
on_flight-some (some bytes) s t e = refl

run-InOrder_from :
    (ms : List NetPacket) (s : Writer) (es : List WriteEvent)
    → Reach ms s
    → InOrder (ms ++ messages es) (run s es)
unfolding run step
run-InOrder_from ms s [] r = rw append-nil (Reach-InOrder r)
run-InOrder_from ms s (posted msg ∷ es) r =
    rw (write-session s msg, ← append_assoc ms (msg ∷ []) (messages es))
      (run-InOrder_from (ms ++ (msg ∷ [])) (TcpSession.deliver s msg) es (delivers r msg))
run-InOrder_from ms s (completed ∷ es) r = elim (Option-cases s.in_flight) [
  | inl e ↦ rw (on_flight-none s.in_flight s _ e) (run-InOrder_from ms s es r)
  | inr (bytes, e) ↦
      rw (on_flight-some s.in_flight s _ e, on_written-session s)
        (run-InOrder_from ms (TcpSession.on_written s) es (completes r bytes e))
]
run-InOrder_from ms s (broke n ∷ es) r = elim (Option-cases s.in_flight) [
  | inl e ↦ rw (on_flight-none s.in_flight s _ e) (run-InOrder_from ms s es r)
  | inr (bytes, e) ↦
      rw (on_flight-some s.in_flight s _ e, on_write_error-session s n)
        (run-InOrder_from ms (TcpSession.on_write_error s n) es (fails r bytes n e))
]

-- After any sequence of posted messages, completions and failures, the client is idle with every
-- message on the wire, or has the front of its queue in flight, and wire, flight and queue are the
-- messages posted, in their order; or a write has failed, nothing is in flight, and the wire holds the
-- beginning of the messages posted.
pub run-InOrder : (es : List WriteEvent) → InOrder (messages es) (run fresh es)
run-InOrder es = run-InOrder_from [] fresh es start

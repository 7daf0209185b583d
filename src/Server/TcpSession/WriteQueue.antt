-- ===== src/Server/TcpSession/WriteQueue.antt =====
-- The write queue of a session: one async_write at a time, in the order of the deliveries.
use easy_voice_call.Base.{
  ℕ, ◌≡◌, refl, sym, ap, ◌∙◌, true, false, List, [], ◌∷◌, ◌++◌, none, some, length, take, drop,
  arith, append_assoc, append-nil, take_all, take-append-drop,
}
use easy_voice_call.NetPacket.{NetPacket, whole_pack_length}
use easy_voice_call.Server.TcpSession.{
  Writer, write_front, write, deliver, on_written, on_write_error, fresh,
}

-- The bytes of packets one after the other.
abbrev pub wire_bytes : List NetPacket → List ℕ
wire_bytes [] = []
wire_bytes (p ∷ ps) = p.whole_packet ++ wire_bytes ps

-- The writers that deliveries and completions lead to, with all the messages delivered so far. The
-- socket completes or fails only a write that is in flight.
pub data Reach : List NetPacket → Writer → Type 0 where
  start : Reach [] fresh
  delivers :
      {ms : List NetPacket} {s : Writer}
      → Reach ms s
      → (msg : NetPacket) → Reach (ms ++ (msg ∷ [])) (deliver s msg)
  completes :
      {ms : List NetPacket} {s : Writer}
      → Reach ms s
      → (bytes : List ℕ) → s.in_flight ≡ some bytes
      → Reach ms (on_written s)
  fails :
      {ms : List NetPacket} {s : Writer}
      → Reach ms s
      → (bytes : List ℕ) (n : ℕ) → s.in_flight ≡ some bytes
      → Reach ms (on_write_error s n)

pub data InOrder (ms : List NetPacket) (s : Writer) : Type 0 where
  idle :
      s.failed ≡ false
      → s.write_msgs ≡ []
      → s.in_flight ≡ none
      → s.wire ≡ wire_bytes ms
      → InOrder ms s
  busy :
      (m : NetPacket) (queue : List NetPacket)
      → s.failed ≡ false
      → s.write_msgs ≡ m ∷ queue
      → s.in_flight ≡ some m.whole_packet
      → s.wire ++ (m.whole_packet ++ wire_bytes queue) ≡ wire_bytes ms
      → InOrder ms s
  broken :
      (m : NetPacket) (queue : List NetPacket) (unsent : List ℕ)
      → s.failed ≡ true
      → s.write_msgs ≡ m ∷ queue
      → s.in_flight ≡ none
      → s.wire ++ unsent ≡ wire_bytes ms
      → InOrder ms s

wire_bytes-append :
    (xs ys : List NetPacket) → wire_bytes (xs ++ ys) ≡ wire_bytes xs ++ wire_bytes ys
wire_bytes-append [] ys = refl
wire_bytes-append (x ∷ xs) ys = rw (wire_bytes-append xs ys, append_assoc)

whole_take : (m : NetPacket) → take (whole_pack_length m) m.whole_packet ≡ m.whole_packet
unfolding whole_pack_length
whole_take m = take_all (length m.whole_packet) m.whole_packet (omega arith)

extended :
    (done todo : List ℕ) (ms : List NetPacket) (msg : NetPacket)
    → done ++ todo ≡ wire_bytes ms
    → done ++ (todo ++ wire_bytes (msg ∷ [])) ≡ wire_bytes (ms ++ (msg ∷ []))
extended done todo ms msg w = rw (wire_bytes-append ms (msg ∷ []), ← w, append_assoc)

deliver-InOrder :
    (ms : List NetPacket) (s : Writer) (msg : NetPacket)
    → InOrder ms s
    → InOrder (ms ++ (msg ∷ [])) (deliver s msg)
unfolding deliver write write_front
deliver-InOrder ms s msg (idle l q f w) =
    busy msg [] (ground arith) (ground arith) (ground (arith, whole_take msg))
      (ground (arith, wire_bytes-append ms (msg ∷ [])))
deliver-InOrder ms s msg (busy m queue l q f w) =
    let ends = extended s.wire (m.whole_packet ++ wire_bytes queue) ms msg w in
    busy m (queue ++ (msg ∷ [])) (ground arith) (ground arith) (ground arith) (
      rw (q, deliver) (rw (wire_bytes-append queue (msg ∷ []), ← append_assoc m.whole_packet) ends))
deliver-InOrder ms s msg (broken m queue unsent l q f w) =
    broken m (queue ++ (msg ∷ [])) (unsent ++ wire_bytes (msg ∷ [])) (ground arith) (ground arith)
      (ground arith) (rw (q, deliver) (extended s.wire unsent ms msg w))

on_written-InOrder :
    (ms : List NetPacket) (s : Writer) (bytes : List ℕ)
    → s.in_flight ≡ some bytes
    → InOrder ms s
    → InOrder ms (on_written s)
unfolding on_written write write_front
on_written-InOrder ms s bytes g (idle l q f w) = cc
on_written-InOrder ms s bytes g (broken m queue unsent l q f w) = cc
on_written-InOrder ms s bytes g (busy m [] l q f w) =
    idle (ground arith) (ground arith) (ground arith)
      (rw (q, f, on_written) (ap (◌++◌ s.wire) (sym (append-nil m.whole_packet)) ∙ w))
on_written-InOrder ms s bytes g (busy m (n ∷ queue) l q f w) =
    busy n queue (ground arith) (ground arith) (ground (arith, whole_take n))
      (rw (q, f, on_written) (append_assoc s.wire m.whole_packet (wire_bytes (n ∷ queue)) ∙ w))

on_write_error-InOrder :
    (ms : List NetPacket) (s : Writer) (bytes : List ℕ) (k : ℕ)
    → s.in_flight ≡ some bytes
    → InOrder ms s
    → InOrder ms (on_write_error s k)
unfolding on_write_error
on_write_error-InOrder ms s bytes k g (idle l q f w) = cc
on_write_error-InOrder ms s bytes k g (broken m queue unsent l q f w) = cc
on_write_error-InOrder ms s bytes k g (busy m queue l q f w) =
    broken m queue (drop k m.whole_packet ++ wire_bytes queue) refl q refl (
      rw (f, on_write_error)
        (append_assoc s.wire (take k m.whole_packet) _
          ∙ ap (◌++◌ s.wire) (
              sym (append_assoc (take k m.whole_packet) (drop k m.whole_packet) (wire_bytes queue))
              ∙ ap (λ (b : List ℕ). b ++ wire_bytes queue) (take-append-drop k m.whole_packet))
          ∙ w))

-- Whatever the order of deliveries and completions, the session is idle and every message is on the
-- wire, or exactly the front of the queue is in flight and the wire, that message and the rest of the
-- queue are the messages delivered, in their order; or a write has failed, nothing is in flight, and the
-- wire holds the beginning of the messages delivered.
pub Reach-InOrder : {ms : List NetPacket} {s : Writer} → Reach ms s → InOrder ms s
unfolding fresh
Reach-InOrder start = idle refl refl refl refl
Reach-InOrder (delivers {ms} {s} r msg) = deliver-InOrder ms s msg (Reach-InOrder r)
Reach-InOrder (completes {ms} {s} r bytes e) = on_written-InOrder ms s bytes e (Reach-InOrder r)
Reach-InOrder (fails {ms} {s} r bytes n e) = on_write_error-InOrder ms s bytes n e (Reach-InOrder r)

pub deliver-failed : (s : Writer) (msg : NetPacket) → (deliver s msg).failed ≡ s.failed
unfolding deliver write write_front
deliver-failed s msg = ground arith

pub on_written-failed : (s : Writer) → (on_written s).failed ≡ s.failed
unfolding on_written write write_front
on_written-failed s = ground arith

-- ===== src/Client/TcpClient/Service/Receiving.antt =====
-- What the handlers of client_essential/TcpClient.hpp receive is what the chain of readHeader and
-- readPayload reads off the connection.
use easy_voice_call.Base.{
  ℕ, suc, ◌≤◌, ◌≡◌, ◌⊎◌, refl, ap, sym, ◌∙◌, subst, Bool, List, [], ◌∷◌, ◌++◌, Option, none, some,
  length, append-nil, bind, Option-cases, inl, inr,
}
use easy_voice_call.NetPacket.{NetPacket}
use easy_voice_call.Client.TcpClient.{read_loop, read_header}
use easy_voice_call.Client.TcpClient.Framing.{read_loop-session}
use easy_voice_call.Server.TcpSession.Framing.{frames, read_loop-frames}
use easy_voice_call.Client.TcpClient.Service.{
  BoostAsioTcpClient, Reading, idle, reads_header, Turn, runs_task, completes_connect,
  completes_read, completes_write, step, create,
}
use easy_voice_call.Client.TcpClient.Service.Chain.{loop}
use easy_voice_call.Client.TcpClient.Service.Following.{
  bytes_of, Continues, Follows, Idle, step-Follows, step-Idle,
}

unfoldable pub run : List Turn → BoostAsioTcpClient → Option BoostAsioTcpClient
run [] s = some s
run (turn ∷ turns) s = bind (run turns) (step s turn)

-- The bytes that the reads of a run have delivered.
abbrev pub input : List Turn → List ℕ
input [] = []
input (completes_read (some bytes) ∷ turns) = bytes ++ input turns
input (_ ∷ turns) = input turns

Idle-some :
    (o : Option BoostAsioTcpClient) (u : BoostAsioTcpClient)
    → Idle o
    → o ≡ some u
    → u.reading ≡ idle
Idle-some o u h e = subst Idle e h

run-Idle :
    (turns : List Turn) (s t : BoostAsioTcpClient)
    → s.reading ≡ idle
    → run turns s ≡ some t
    → t.reading ≡ idle
unfolding run
run-Idle [] s t h e = Idle-some (some s) t h e
run-Idle (turn ∷ turns) s t h e = elim (Option-cases (step s turn)) [
  | inl f ↦ let stuck : none ≡ some t = ap (bind (run turns)) (sym f) ∙ e in cc
  | inr (u, f) ↦
      run-Idle turns u t (Idle-some (step s turn) u (step-Idle s turn h) f)
        (ap (bind (run turns)) (sym f) ∙ e)
]

input-turn : (turn : Turn) (turns : List Turn) → input (turn ∷ turns) ≡ bytes_of turn ++ input turns
input-turn runs_task turns = refl
input-turn (completes_connect failed) turns = refl
input-turn (completes_read none) turns = refl
input-turn (completes_read (some bytes)) turns = refl
input-turn (completes_write result) turns = refl

-- What a run has received when the client waits for a header again.
record Received (turns : List Turn) (s t : BoostAsioTcpClient) : Type 0 where
  packets : List NetPacket
  read : loop s.reading (suc (length turns)) s.read_msg (input turns) ≡ some packets
  grown : t.received ≡ s.received ++ packets

received-turn :
    (turn : Turn) (turns : List Turn) (s u t : BoostAsioTcpClient)
    → Continues s (bytes_of turn) u
    → Received turns u t
    → Received (turn ∷ turns) s t
received-turn turn turns s u t follows later =
    let (qs, read, grown) = follows (suc (length turns)) (input turns) later.packets later.read in
    record {
      packets = qs;
      read =
          ap (loop s.reading (suc (suc (length turns))) s.read_msg) (input-turn turn turns) ∙ read;
      grown = later.grown ∙ grown;
    }

waits-Received : (s : BoostAsioTcpClient) (o : Bool) → s.reading ≡ reads_header o → Received [] s s
unfolding loop read_loop read_header
waits-Received s o e = record {
  packets = [];
  read = ap (λ (r : Reading). loop r 1 s.read_msg []) e;
  grown = sym (append-nil s.received);
}

abbrev After : BoostAsioTcpClient → Option BoostAsioTcpClient → Type 0
After s none = Unit {0}
After s (some t) = Received [] s t

abbrev Waits : Bool → Option BoostAsioTcpClient → Type 0
Waits o none = Unit {0}
Waits o (some t) = t.reading ≡ reads_header o

Follows-some :
    (s u : BoostAsioTcpClient) (bytes : List ℕ) (q : Option BoostAsioTcpClient)
    → Follows s bytes q
    → q ≡ some u
    → (u.reading ≡ idle) ⊎ Continues s bytes u
Follows-some s u bytes q h e = subst (Follows s bytes) e h

run-Received :
    (turns : List Turn) (s t : BoostAsioTcpClient) (o : Bool)
    → t.reading ≡ reads_header o
    → run turns s ≡ some t
    → Received turns s t
unfolding run
run-Received [] s t o waits e =
    subst (λ (q : Option BoostAsioTcpClient). After s q) e
      (waits-Received s o (subst (λ (q : Option BoostAsioTcpClient). Waits o q) (sym e) waits))
run-Received (turn ∷ turns) s t o waits e = elim (Option-cases (step s turn)) [
  | inl f ↦ let stuck : none ≡ some t = ap (bind (run turns)) (sym f) ∙ e in absurd (cc)
  | inr (u, f) ↦
      let later : run turns u ≡ some t = ap (bind (run turns)) (sym f) ∙ e in
      elim (Follows-some s u (bytes_of turn) (step s turn) (step-Follows s turn) f) [
        | inl stopped ↦ let stays = run-Idle turns u t stopped later in absurd (cc)
        | inr follows ↦
            received-turn turn turns s u t follows (run-Received turns u t o waits later)
      ]
]

-- Whatever the service's thread runs, and in whichever order, when the client waits for the next
-- header, it has received exactly the packets that the description of the wire format finds in the
-- bytes that its reads have delivered, in their order, if the read buffer held a header at first.
pub received-frames :
    (turns : List Turn) (read_msg : NetPacket) (t : BoostAsioTcpClient) (o : Bool)
    → 20 ≤ length read_msg.whole_packet
    → run turns (create read_msg) ≡ some t
    → t.reading ≡ reads_header o
    → frames (suc (length turns)) (input turns) ≡ some t.received
unfolding create loop
received-frames turns read_msg t o long e waits =
    let r = run-Received turns (create read_msg) t o waits e in
    sym (read_loop-frames (suc (length turns)) read_msg (input turns) long)
    ∙ sym (read_loop-session (suc (length turns)) read_msg (input turns))
    ∙ r.read
    ∙ ap (λ (ps : List NetPacket). some ps) (sym r.grown)

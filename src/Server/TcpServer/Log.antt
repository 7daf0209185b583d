-- ===== src/Server/TcpServer/Log.antt =====
-- What has been delivered to each session.
use easy_voice_call.Base.{
  ℕ, suc, ◌≡◌, refl, sym, ◌∙◌, Bool, true, false, List, [], ◌∷◌, ◌++◌, replicate, update, All,
  if◌then◌else◌, ◌==◌, append_assoc, append-nil, subst, update_cases, All-append, Bool-cases, inl,
  inr, arith,
}
use easy_voice_call.NetPacket.{NetPacket}
use easy_voice_call.Server.Room.{Delivery}
use easy_voice_call.Server.Room.Broadcast.{count_to}
use easy_voice_call.Server.TcpSession.{deliver}
use easy_voice_call.Server.TcpSession.WriteQueue.{Reach, delivers, deliver-failed}
use easy_voice_call.Server.TcpServer.{TcpSession, deliver_to, deliver_all}

log_one : (ℕ → List NetPacket) → Delivery → ℕ → List NetPacket
log_one log d = update log d.participant (log d.participant ++ (d.packet ∷ []))

-- The messages delivered to each session, after some more calls of `deliver`.
unfoldable pub logged : (ℕ → List NetPacket) → List Delivery → ℕ → List NetPacket
unfolding log_one
logged log [] = log
logged log (d ∷ ds) = logged (log_one log d) ds

-- A relation of two families that holds at the changed point and everywhere before holds after.
pub if-both :
    {A B : Type 0} (P : A → B → Type 0) (b : Bool) {x x' : A} {y y' : B}
    → P x y
    → P x' y'
    → P (if b then x else x') (if b then y else y')
if-both P true hit miss = hit
if-both P false hit miss = miss

abbrev pub Queued : List NetPacket → TcpSession → Type 0
Queued ms session = Reach ms session.writer

pub deliver_all-Queued :
    (log : ℕ → List NetPacket) (sessions : ℕ → TcpSession) (ds : List Delivery)
    → ((p : ℕ) → Queued (log p) (sessions p))
    → (p : ℕ) → Queued (logged log ds p) (deliver_all sessions ds p)
unfolding logged deliver_all deliver_to
deliver_all-Queued log sessions [] queued p = queued p
deliver_all-Queued log sessions (d ∷ ds) queued p =
    deliver_all-Queued (log_one log d) (deliver_to sessions d) ds
      (λ q.
        if-both Queued (q == d.participant) (delivers (queued d.participant) d.packet) (queued q))
      p

-- What `deliver` leaves alone.
pub record Same (s t : TcpSession) : Type 0 where
  pub read_same : t.read_msg ≡ s.read_msg
  pub failed_same : t.writer.failed ≡ s.writer.failed

deliver-Same :
    (s : TcpSession) (msg : NetPacket) → Same s (record s { writer = deliver s.writer msg })
deliver-Same s msg = record { read_same = refl; failed_same = deliver-failed s.writer msg }

Same-trans : {s t u : TcpSession} → Same s t → Same t u → Same s u
Same-trans a b = record {
  read_same = b.read_same ∙ a.read_same;
  failed_same = b.failed_same ∙ a.failed_same;
}

pub deliver_all-Same :
    (sessions : ℕ → TcpSession) (ds : List Delivery) (p : ℕ)
    → Same (sessions p) (deliver_all sessions ds p)
unfolding deliver_all deliver_to
deliver_all-Same sessions [] p = record { read_same = refl; failed_same = refl }
deliver_all-Same sessions (d ∷ ds) p =
    let changed : TcpSession = record (sessions d.participant) {
      writer = deliver (sessions d.participant).writer d.packet;
    } in
    Same-trans
      (update_cases (Same (sessions p)) sessions d.participant changed p
        (λ e.
          subst (λ (q : ℕ). Same (sessions q) changed) (sym e)
            (deliver-Same (sessions d.participant) d.packet))
        (record { read_same = refl; failed_same = refl }))
      (deliver_all-Same (deliver_to sessions d) ds p)

-- Well-formed messages stay well formed.
pub logged-All :
    (P : NetPacket → Type 0) (log : ℕ → List NetPacket) (ds : List Delivery)
    → All (λ d. P d.packet) ds
    → ((p : ℕ) → All P (log p))
    → (p : ℕ) → All P (logged log ds p)
unfolding logged
logged-All P log [] new old p = old p
logged-All P log (d ∷ ds) new old p =
    logged-All P (log_one log d) ds new.1
      (λ q.
        update_cases (All P) log d.participant _ q
          (λ e. All-append P (log d.participant) (d.packet ∷ []) (old d.participant) (new.0, tt))
          (old q))
      p

log_one-append :
    (log : ℕ → List NetPacket) (d : Delivery) (msg : NetPacket) (x : ℕ) (n : ℕ)
    → d.packet ≡ msg
    → log_one log d x ++ replicate n msg
      ≡ log x ++ replicate (if d.participant == x then suc n else n) msg
unfolding log_one
log_one-append log d msg x n same = elim (Bool-cases (x == d.participant)) [
  | inl hit ↦
      let named : d.participant ≡ x = ground arith in
      let test : (d.participant == x) ≡ true = ground arith in
      rw (hit, test, named, same) (append_assoc (log x) (msg ∷ []) (replicate n msg))
  | inr miss ↦ let test : (d.participant == x) ≡ false = ground arith in rw (miss, test) refl
]

-- Deliveries of one message add it as often as they name the session.
pub logged-count :
    (log : ℕ → List NetPacket) (ds : List Delivery) (msg : NetPacket) (x : ℕ)
    → All (λ d. d.packet ≡ msg) ds
    → logged log ds x ≡ log x ++ replicate (count_to x ds) msg
unfolding logged
logged-count log [] msg x same = sym (append-nil (log x))
logged-count log (d ∷ ds) msg x same =
    logged-count (log_one log d) ds msg x same.1 ∙ log_one-append log d msg x (count_to x ds) same.0

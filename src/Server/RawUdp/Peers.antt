-- ===== src/Server/RawUdp/Peers.antt =====
-- The set of peers of RawUdpRoom: pointers and endpoints in it are pairwise different.
use easy_voice_call.Base.{
  ◌≡◌, ◌≢◌, refl, sym, ◌∙◌, subst, Bool, true, false, not, ◌&&◌, ◌||◌, List, [], ◌∷◌, arith, some,
  none, All, inl, inr, Bool-cases, ◌==◌,
}
use easy_voice_call.Server.RawUdp.{
  Endpoint, same, RawUdpConnection, insert_peer, erase_peer, find_peer,
}

abbrev pub Apart : RawUdpConnection → RawUdpConnection → Type 0
Apart c d = (c.pointer ≢ d.pointer) × (same c.remote_endpoint d.remote_endpoint ≡ false)

abbrev pub Distinct : List RawUdpConnection → Type 0
Distinct [] = Unit {0}
Distinct (p ∷ ps) = All (Apart p) ps × Distinct ps

unfoldable pub is_registered : Endpoint → List RawUdpConnection → Bool
is_registered x [] = false
is_registered x (p ∷ ps) = same p.remote_endpoint x || is_registered x ps

pub same_sym : (a b : Endpoint) → same a b ≡ same b a
same_sym a b = ground arith

pub same_trans : (a b x : Endpoint) → same a b ≡ true → same a x ≡ same b x
same_trans a b x h = ground arith

pub is_registered-same :
    (a b : Endpoint) (ps : List RawUdpConnection)
    → same a b ≡ true
    → is_registered a ps ≡ is_registered b ps
unfolding is_registered
is_registered-same a b [] h = refl
is_registered-same a b (p ∷ ps) h = ground (
  arith,
  is_registered-same a b ps h,
  same_trans a b p.remote_endpoint h,
  same_sym a p.remote_endpoint,
  same_sym b p.remote_endpoint,
)

Apart-sym : (c d : RawUdpConnection) → Apart c d → Apart d c
Apart-sym c d h = ((λ e. h.0 (sym e)), same_sym d.remote_endpoint c.remote_endpoint ∙ h.1)

insert-All :
    (P : RawUdpConnection → Type 0) (c : RawUdpConnection) (ps : List RawUdpConnection)
    → P c
    → All P ps
    → All P (insert_peer c ps)
unfolding insert_peer
insert-All P c [] hc h = (hc, tt)
insert-All P c (p ∷ ps) hc h = ground (arith, insert-All P c ps hc h.1)

pub insert-Distinct :
    (c : RawUdpConnection) (ps : List RawUdpConnection)
    → All (Apart c) ps
    → Distinct ps
    → Distinct (insert_peer c ps)
unfolding insert_peer
insert-Distinct c [] a d = (tt, tt)
insert-Distinct c (p ∷ ps) a d =
    ground (arith, insert-All (Apart p) c ps (Apart-sym c p a.0) d.0, insert-Distinct c ps a.1 d.1)

erase-All :
    (P : RawUdpConnection → Type 0) (c : RawUdpConnection) (ps : List RawUdpConnection)
    → All P ps
    → All P (erase_peer c ps)
unfolding erase_peer
erase-All P c [] h = tt
erase-All P c (p ∷ ps) h = ground (arith, erase-All P c ps h.1)

pub erase-Distinct :
    (c : RawUdpConnection) (ps : List RawUdpConnection) → Distinct ps → Distinct (erase_peer c ps)
unfolding erase_peer
erase-Distinct c [] d = tt
erase-Distinct c (p ∷ ps) d = ground (arith, erase-All (Apart p) c ps d.0, erase-Distinct c ps d.1)

-- A new object of the allocator, for an endpoint that is not there.
pub find-none-Apart :
    (c : RawUdpConnection) (ps : List RawUdpConnection)
    → find_peer c.remote_endpoint ps ≡ none
    → All (λ p. c.pointer ≢ p.pointer) ps
    → All (Apart c) ps
unfolding find_peer
find-none-Apart c [] e h = tt
find-none-Apart c (p ∷ ps) e h =
    ground (arith, find-none-Apart c ps, same_sym c.remote_endpoint p.remote_endpoint)

pub insert-is_registered :
    (x : Endpoint) (c : RawUdpConnection) (ps : List RawUdpConnection)
    → All (Apart c) ps
    → is_registered x (insert_peer c ps) ≡ (same c.remote_endpoint x || is_registered x ps)
unfolding insert_peer is_registered
insert-is_registered x c [] a = refl
insert-is_registered x c (p ∷ ps) a = ground (arith, insert-is_registered x c ps a.1)

pub find-is_registered :
    (x : Endpoint) (ps : List RawUdpConnection) → find_peer x ps ≡ none → is_registered x ps ≡ false
unfolding find_peer is_registered
find-is_registered x [] e = refl
find-is_registered x (p ∷ ps) e = ground (arith, find-is_registered x ps)

pub find-same :
    (x : Endpoint) (c : RawUdpConnection) (ps : List RawUdpConnection)
    → find_peer x ps ≡ some c
    → (same c.remote_endpoint x ≡ true) × (is_registered x ps ≡ true)
unfolding find_peer is_registered
find-same x c [] e = cc
find-same x c (p ∷ ps) e = ground (arith, find-same x c ps)

-- Pointer and endpoint tell the same peers from `c`.
abbrev pub Agrees : RawUdpConnection → RawUdpConnection → Type 0
Agrees c p = (p.pointer == c.pointer) ≡ same p.remote_endpoint c.remote_endpoint

find-Apart :
    (x : Endpoint) (c p : RawUdpConnection) (ps : List RawUdpConnection)
    → find_peer x ps ≡ some c
    → All (Apart p) ps
    → Apart p c
unfolding find_peer
find-Apart x c p [] e a = cc
find-Apart x c p (q ∷ ps) e a = ground (arith, find-Apart x c p ps)

Apart-Agrees : (c p : RawUdpConnection) → Apart p c → Agrees c p
Apart-Agrees c p a = ground arith

self-Agrees : (c : RawUdpConnection) → Agrees c c
self-Agrees c = ground arith

Apart-All-Agrees :
    (c : RawUdpConnection) (ps : List RawUdpConnection) → All (Apart c) ps → All (Agrees c) ps
Apart-All-Agrees c [] a = tt
Apart-All-Agrees c (p ∷ ps) a = (Apart-Agrees c p (Apart-sym c p a.0), Apart-All-Agrees c ps a.1)

pub find-Agrees :
    (x : Endpoint) (c : RawUdpConnection) (ps : List RawUdpConnection)
    → find_peer x ps ≡ some c
    → Distinct ps
    → All (Agrees c) ps
unfolding find_peer
find-Agrees x c [] e d = tt
find-Agrees x c (p ∷ ps) e d = elim (Bool-cases (same p.remote_endpoint x)) [
  | inl hit ↦
      let here : p ≡ c = ground arith in
      subst (λ (q : RawUdpConnection). All (Agrees q) (p ∷ ps)) here
        (self-Agrees p, Apart-All-Agrees p ps d.0)
  | inr miss ↦
      let there : find_peer x ps ≡ some c = ground arith in
      (Apart-Agrees c p (find-Apart x c p ps there d.0), find-Agrees x c ps there d.1)
]

pub insert-Agrees :
    (c : RawUdpConnection) (ps : List RawUdpConnection)
    → All (Apart c) ps
    → All (Agrees c) (insert_peer c ps)
insert-Agrees c ps a = insert-All (Agrees c) c ps (self-Agrees c) (Apart-All-Agrees c ps a)

Apart-not-registered :
    (x : Endpoint) (p : RawUdpConnection) (ps : List RawUdpConnection)
    → same p.remote_endpoint x ≡ true
    → All (Apart p) ps
    → is_registered x ps ≡ false
unfolding is_registered
Apart-not-registered x p [] h a = refl
Apart-not-registered x p (q ∷ ps) h a = ground (
  arith,
  Apart-not-registered x p ps h a.1,
  same_trans q.remote_endpoint x p.remote_endpoint,
  same_sym p.remote_endpoint x,
  same_sym p.remote_endpoint q.remote_endpoint,
)

pub erase-is_registered :
    (x : Endpoint) (c : RawUdpConnection) (ps : List RawUdpConnection)
    → Distinct ps
    → All (Agrees c) ps
    → is_registered x (erase_peer c ps) ≡ (not (same c.remote_endpoint x) && is_registered x ps)
unfolding erase_peer is_registered
erase-is_registered x c [] d g = ground arith
erase-is_registered x c (p ∷ ps) d g = ground (
  arith,
  erase-is_registered x c ps d.1 g.1,
  Apart-not-registered x p ps,
  same_trans p.remote_endpoint c.remote_endpoint x,
  same_trans c.remote_endpoint x p.remote_endpoint,
  same_sym p.remote_endpoint x,
  same_sym p.remote_endpoint c.remote_endpoint,
)

-- ===== src/Audio/Downstream/Queue.antt =====
-- boost::lockfree::spsc_queue, as client_essential/audio_engine/JitterBuffer.hpp uses it: a bounded
-- first-in, first-out queue, whose push leaves a full queue as it is.
use easy_voice_call.Base.{
  ℕ, ◌≡◌, refl, List, [], ◌∷◌, ◌++◌, Option, none, some, length, ltb, if◌then◌else◌,
}

-- The queue's operations, and what its documentation says of them in terms of its contents.
pub record SpscQueue (A Q : Type 0) : Type 0 where
  pub new : ℕ → Q
  pub push : A → Q → Q
  pub pop : Q → Option A × Q
  pub read_available : Q → ℕ
  pub contents : Q → List A
  pub capacity : Q → ℕ
  pub contents-new : (n : ℕ) → contents (new n) ≡ []
  pub capacity-new : (n : ℕ) → capacity (new n) ≡ n
  pub contents-push :
      (x : A) (q : Q)
      → contents (push x q)
        ≡ (if ltb (length (contents q)) (capacity q) then contents q ++ (x ∷ []) else contents q)
  pub capacity-push : (x : A) (q : Q) → capacity (push x q) ≡ capacity q
  pub pop-empty : (q : Q) → contents q ≡ [] → (pop q).0 ≡ none
  pub contents-pop_empty : (q : Q) → contents q ≡ [] → contents (pop q).1 ≡ []
  pub pop-front :
      (q : Q) (x : A) (xs : List A)
      → contents q ≡ x ∷ xs
      → ((pop q).0 ≡ some x) × (contents (pop q).1 ≡ xs)
  pub capacity-pop : (q : Q) → capacity (pop q).1 ≡ capacity q

-- The list as a queue: it meets the laws.
pub record Bounded (A : Type 0) : Type 0 where
  pub size : ℕ
  pub items : List A

abbrev pub pop_list : {A : Type 0} → ℕ → List A → Option A × Bounded A
pop_list n [] = (none, record { size = n; items = [] })
pop_list n (x ∷ xs) = (some x, record { size = n; items = xs })

abbrev pub push_list : {A : Type 0} → A → Bounded A → Bounded A
push_list x q = record {
  size = q.size;
  items = if ltb (length q.items) q.size then q.items ++ (x ∷ []) else q.items;
}

pub pop_list-empty : {A : Type 0} (n : ℕ) (xs : List A) → xs ≡ [] → (pop_list n xs).0 ≡ none
pop_list-empty n [] e = refl
pop_list-empty n (x ∷ xs) e = cc

pub items-pop_list_empty :
    {A : Type 0} (n : ℕ) (xs : List A) → xs ≡ [] → (pop_list n xs).1.items ≡ []
items-pop_list_empty n [] e = refl
items-pop_list_empty n (x ∷ xs) e = cc

pub pop_list-front :
    {A : Type 0} (n : ℕ) (ys : List A) (x : A) (xs : List A)
    → ys ≡ x ∷ xs
    → ((pop_list n ys).0 ≡ some x) × ((pop_list n ys).1.items ≡ xs)
pop_list-front n [] x xs e = cc
pop_list-front n (y ∷ ys) x xs e = (cc, cc)

pub pop_list-size : {A : Type 0} (n : ℕ) (xs : List A) → (pop_list n xs).1.size ≡ n
pop_list-size n [] = refl
pop_list-size n (x ∷ xs) = refl

abbrev pub bounded : {A : Type 0} → SpscQueue A (Bounded A)
bounded = record {
  new = λ n. record { size = n; items = [] };
  push = push_list;
  pop = λ q. pop_list q.size q.items;
  read_available = λ q. length q.items;
  contents = λ q. q.items;
  capacity = λ q. q.size;
  contents-new = λ n. refl;
  capacity-new = λ n. refl;
  contents-push = λ x q. refl;
  capacity-push = λ x q. refl;
  pop-empty = λ q. pop_list-empty q.size q.items;
  contents-pop_empty = λ q e. items-pop_list_empty q.size q.items e;
  pop-front = λ q. pop_list-front q.size q.items;
  capacity-pop = λ q. pop_list-size q.size q.items;
}

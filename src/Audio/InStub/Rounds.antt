-- ===== src/Audio/InStub/Rounds.antt =====
-- The order in which client_essential/audio_engine/AudioInStub.hpp plays the blocks of a recording.
use easy_voice_call.Base.{
  ℕ, zero, suc, ◌+◌, ◌*◌, ◌≤◌, ◌<◌, ◌≡◌, refl, sym, ap, ◌∙◌, List, [], ◌∷◌, ◌++◌, length, take, ltb,
  ltb-true, ltb-false, true, arith, All, append_assoc, take-append, drop-append, length-append,
}
use mathlib.Core.List.{flatten}
use native.Mathlib.Nat.{zero-mul}
use easy_voice_call.Base.Int.{ℤ}
use easy_voice_call.Audio.{block_size}
use easy_voice_call.Audio.InStub.{AudioInStub, get, blocks}

abbrev pub AreBlocks : List (List ℤ) → Type 0
AreBlocks bs = All (λ (b : List ℤ). length b ≡ block_size) bs

-- The list `n` times over.
abbrev pub rounds {ℓ} : {A : Type ℓ} → ℕ → List A → List A
rounds zero xs = []
rounds (suc n) xs = xs ++ rounds n xs

-- The stub that stands at a place in a recording.
abbrev at : List ℤ → ℕ → AudioInStub
at pcm n = record { whole_pcm = pcm; pos = n }

-- A block that is not the end of the recording is played, and the next one follows.
get-at :
    (done b tail : List ℤ)
    → length b ≡ block_size
    → 0 < length tail
    → get (at (done ++ (b ++ tail)) (length done))
      ≡ (b, at (done ++ (b ++ tail)) (length done + block_size))
unfolding get
get-at done b tail whole more =
    let inside : ltb (length done + block_size) (length (done ++ (b ++ tail))) ≡ true =
      ltb-true _ _ (omega (arith, length-append done (b ++ tail), length-append b tail)) in
    let first : take block_size (b ++ tail) ≡ b =
      ap (λ (n : ℕ). take n (b ++ tail)) (sym whole) ∙ take-append b tail in
    rw (inside, drop-append done (b ++ tail), first) refl

blocks-at :
    (bs : List (List ℤ)) (done tail pcm : List ℤ) (n k m : ℕ)
    → AreBlocks bs
    → 0 < length tail
    → pcm ≡ done ++ (flatten bs ++ tail)
    → n ≡ length done
    → m ≡ length bs + k
    → blocks m (at pcm n) ≡ bs ++ blocks k (at pcm (n + length (flatten bs)))
unfolding blocks flatten
blocks-at [] done tail pcm n k m whole more pcm_e n_e m_e =
    let all : m ≡ k = omega arith in let still : n + 0 ≡ n = omega arith in rw (all, still) refl
blocks-at (b ∷ bs) done tail pcm n k m whole more pcm_e n_e m_e =
    let count : m ≡ suc (length bs + k) = omega arith in
    let parts : pcm ≡ done ++ (b ++ (flatten bs ++ tail)) =
      pcm_e ∙ ap (◌++◌ done) (append_assoc b (flatten bs) tail) in
    let first : get (at pcm n) ≡ (b, at pcm (n + block_size)) =
      rw (parts, n_e)
        (get-at done b (flatten bs ++ tail) whole.0
          (omega (arith, length-append (flatten bs) tail))) in
    let later =
      blocks-at bs (done ++ b) tail pcm (n + block_size) k (length bs + k) whole.1 more
        (parts ∙ sym (append_assoc done b (flatten bs ++ tail)))
        (omega (arith, length-append done b)) refl in
    let there : n + block_size + length (flatten bs) ≡ n + length (b ++ flatten bs) =
      omega (arith, length-append b (flatten bs)) in
    ap (λ (i : ℕ). blocks i (at pcm n)) count
    ∙ ap (λ (r : List ℤ × AudioInStub). r.0 ∷ blocks (length bs + k) r.1) first
    ∙ ap (◌∷◌ b) (later ∙ ap (λ (i : ℕ). bs ++ blocks k (at pcm i)) there)

-- Where less than two blocks are left, the stub starts again.
get-rewinds : (pcm : List ℤ) (n : ℕ) → length pcm ≤ n + block_size → get (at pcm n) ≡ get (at pcm 0)
unfolding get
get-rewinds pcm n h = rw (ltb-false (n + block_size) (length pcm) h) (ground arith)

blocks-rewinds :
    (k : ℕ) (pcm : List ℤ) (n : ℕ)
    → length pcm ≤ n + block_size
    → blocks k (at pcm n) ≡ blocks k (at pcm 0)
unfolding blocks
blocks-rewinds zero pcm n h = refl
blocks-rewinds (suc k) pcm n h =
    ap (λ (r : List ℤ × AudioInStub). r.0 ∷ blocks k r.1) (get-rewinds pcm n h)

-- A recording of whole blocks is played block by block, all but the last one, and over again.
pub blocks-rounds :
    (n : ℕ) (bs : List (List ℤ)) (last : List ℤ)
    → AreBlocks bs
    → length last ≡ block_size
    → blocks (n * length bs) (record { whole_pcm = flatten bs ++ last; pos = 0 }) ≡ rounds n bs
unfolding blocks
blocks-rounds zero bs last whole end =
    ap (λ (i : ℕ). blocks i (at (flatten bs ++ last) 0)) (zero-mul (length bs))
blocks-rounds (suc n) bs last whole end =
    let pcm = flatten bs ++ last in
    let count : suc n * length bs ≡ length bs + n * length bs = omega arith in
    blocks-at bs [] last pcm 0 (n * length bs) (suc n * length bs) whole (omega arith) refl refl
      count
    ∙ ap (◌++◌ bs) (
        blocks-rewinds (n * length bs) pcm (0 + length (flatten bs))
          (omega (arith, length-append (flatten bs) last))
        ∙ blocks-rounds n bs last whole end)

-- ===== src/Audio/ZeroCrossingRate.antt =====
-- include/ZeroCrossingRate.hpp. The rate is the fraction of the two numbers, a double there.
use easy_voice_call.Base.{
  ℕ, zero, suc, ◌+◌, ◌≤◌, ◌<◌, ◌≡◌, refl, Bool, true, false, List, [], ◌∷◌, length, if◌then◌else◌,
  arith, All,
}
use easy_voice_call.Base.Int.{ℤ, pos, negsuc}
use easy_voice_call.Audio.{block_size}

abbrev pub is_positive : ℤ → Bool
is_positive (pos zero) = false
is_positive (pos (suc n)) = true
is_positive (negsuc n) = false

abbrev differ : Bool → Bool → Bool
differ true true = false
differ false false = false
differ _ _ = true

-- The loop over the samples behind one whose sign is `before`.
pub crossings : Bool → List ℤ → ℕ
crossings before [] = 0
crossings before (x ∷ xs) =
    (if differ before (is_positive x) then 1 else 0) + crossings (is_positive x) xs

pub zero_crossing_rate : List ℤ → ℕ × ℕ
unfolding crossings
zero_crossing_rate [] = (0, block_size)
zero_crossing_rate (x ∷ xs) = (crossings (is_positive x) xs, block_size)

crossings-le : (before : Bool) (xs : List ℤ) → crossings before xs ≤ length xs
unfolding crossings
crossings-le before [] = omega arith
crossings-le before (x ∷ xs) = ground (arith, crossings-le (is_positive x) xs)

crossings-same :
    (before : Bool) (xs : List ℤ) → crossings before xs ≡ 0 → All (λ x. is_positive x ≡ before) xs
unfolding crossings
crossings-same before [] e = tt
crossings-same true (pos zero ∷ xs) e = absurd (omega arith)
crossings-same true (pos (suc n) ∷ xs) e = (refl, crossings-same true xs (omega arith))
crossings-same true (negsuc n ∷ xs) e = absurd (omega arith)
crossings-same false (pos zero ∷ xs) e = (refl, crossings-same false xs (omega arith))
crossings-same false (pos (suc n) ∷ xs) e = absurd (omega arith)
crossings-same false (negsuc n ∷ xs) e = (refl, crossings-same false xs (omega arith))

-- The rate of a segment is below one.
pub rate-lt-one :
    (xs : List ℤ) → length xs ≡ block_size → (zero_crossing_rate xs).0 < (zero_crossing_rate xs).1
unfolding zero_crossing_rate
rate-lt-one [] e = absurd (omega arith)
rate-lt-one (x ∷ xs) e = omega (arith, crossings-le (is_positive x) xs)

-- It is zero only if all samples have the sign of the first one.
pub rate-zero :
    (x : ℤ) (xs : List ℤ)
    → (zero_crossing_rate (x ∷ xs)).0 ≡ 0
    → All (λ y. is_positive y ≡ is_positive x) xs
unfolding zero_crossing_rate
rate-zero x xs e = crossings-same (is_positive x) xs e

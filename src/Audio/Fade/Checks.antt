-- ===== src/Audio/Fade/Checks.antt =====
-- Which calls of fade go through.
use easy_voice_call.Base.{
  ℕ, zero, suc, ◌+◌, ◌-◌, ◌*◌, ◌≤◌, ◌<◌, ◌≡◌, ◌≢◌, refl, ap, ◌∙◌, true, false, List, [], ◌∷◌, none,
  some, length, ltb, get_elem?, arith, All, ltb-false, Option-cases, inl, inr,
}
use easy_voice_call.Base.Int.{ℤ}
use easy_voice_call.Audio.{block_size}
use easy_voice_call.Audio.Downstream.{fade_from}
use easy_voice_call.Audio.Fade.{
  FadeInOut, fade_in, fade_out, Factors, nb_segment, fade, fade_segments, fade_samples, refuses,
  factor_at, prepend_sample, set_at,
}

module _ {D : Type 0} (double : Factors D) where
  -- What is asked of the factors: they are at most one, below the largest double, and do not grow.
  pub record Decays : Type 0 where
    pub bounded : (n : ℕ) → double.exceeds_one (double.factor n) ≡ false
    pub finite : (n : ℕ) → double.less (double.factor n) double.largest ≡ true
    pub below : (n : ℕ) → double.less double.largest (double.factor n) ≡ false
    pub falls : (n : ℕ) → double.less (double.factor n) (double.factor (suc n)) ≡ false

  abbrev pub scaled : ℕ → ℤ → ℤ
  scaled n v = double.times v (double.factor n)

  module _ (decays : Decays) where
    -- The samples of a segment fade, and the next factor is none above the last.
    record Fades (samples i : ℕ) (last : D) (bs : List ℤ) : Type 0 where
      next : D
      made : fade_samples double fade_out samples i last bs ≡ some (fade_from scaled i bs, next)
      orderly : (n : ℕ) → i + length bs ≡ n → double.less next (double.factor n) ≡ false

    samples-Fades :
        (samples i : ℕ) (last : D) (bs : List ℤ)
        → double.less last (double.factor i) ≡ false
        → Fades samples i last bs
    unfolding fade_samples refuses factor_at prepend_sample fade_from
    samples-Fades samples i last [] e = record {
      next = last;
      made = refl;
      orderly = λ n h. let same : i ≡ n = omega (arith, h) in rw (← same) e;
    }
    samples-Fades samples i last (b ∷ bs) e =
        let rest = samples-Fades samples (suc i) (double.factor i) bs (decays.falls i) in
        record {
          next = rest.next;
          made = rw (decays.bounded i, e, rest.made) refl;
          orderly = λ n h. rest.orderly n (omega arith);
        }

    -- Two whole segments fade out as the packet loss concealment fades them.
    pub fade-out :
        (a b : List ℤ)
        → length a ≡ block_size
        → length b ≡ block_size
        → fade double fade_out (a ∷ b ∷ [])
          ≡ some (fade_from scaled 0 a ∷ fade_from scaled block_size b ∷ [])
    unfolding fade fade_segments set_at
    fade-out a b whole_a whole_b =
        let first = samples-Fades 320 0 double.largest a (decays.below 0) in
        let second =
          samples-Fades 320 block_size first.next b
            (first.orderly block_size (omega (arith, whole_a))) in
        rw (first.made, second.made, fade_segments) refl

    fade_in-refused :
        (n : ℕ) (segments : List (List ℤ)) (b : ℤ) (bs : List ℤ)
        → get_elem? segments (length segments - nb_segment + 0) ≡ some (b ∷ bs)
        → fade_segments double fade_in (suc n) 0 double.largest segments ≡ none
    unfolding fade_segments fade_samples refuses factor_at
    fade_in-refused n segments b bs e =
        rw
          (
            e,
            decays.bounded (length segments * block_size - 0),
            decays.finite (length segments * block_size - 0),
            fade_segments,
          )
          refl

get-beyond : {A : Type 0} (xs : List A) (i : ℕ) → length xs ≤ i → get_elem? xs i ≡ none
get-beyond [] i h = refl
get-beyond (x ∷ xs) zero h = absurd (omega arith)
get-beyond (x ∷ xs) (suc i) h = get-beyond xs i (omega arith)

get-within :
    {A : Type 0} (P : A → Type 0) (xs : List A) (i : ℕ)
    → All P xs
    → i < length xs
    → (x : A) × (get_elem? xs i ≡ some x) × P x
get-within P [] i all h = absurd (omega arith)
get-within P (x ∷ xs) zero all h = (x, refl, all.0)
get-within P (x ∷ xs) (suc i) all h = get-within P xs i all.1 (omega arith)

length-set_at : {A : Type 0} (xs : List A) (i : ℕ) (x : A) → length (set_at xs i x) ≡ length xs
unfolding set_at
length-set_at [] i x = refl
length-set_at (y ∷ ys) zero x = refl
length-set_at (y ∷ ys) (suc i) x = omega (arith, length-set_at ys i x)

nonempty : (bs : List ℤ) → length bs ≡ block_size → (c : ℤ) × (cs : List ℤ) × (bs ≡ c ∷ cs)
nonempty [] h = absurd (omega arith)
nonempty (c ∷ cs) h = (c, cs, refl)

abbrev pub Whole : List (List ℤ) → Type 0
Whole = All (λ s. length s ≡ block_size)

module _ {D : Type 0} (double : Factors D) where
  round-none :
      (dir : FadeInOut) (n k : ℕ) (last : D) (segments : List (List ℤ))
      → ((next : D) (others : List (List ℤ))
          → length others ≡ length segments
          → fade_segments double dir n (suc k) next others ≡ none)
      → fade_segments double dir (suc n) k last segments ≡ none
  unfolding fade_segments
  round-none dir n k last segments h =
      let current = length segments - nb_segment + k in
      elim (Option-cases (get_elem? segments current)) [
        | inl e ↦ rw (e, fade_segments) refl
        | inr (segment, e) ↦
            elim (Option-cases (
              fade_samples double dir (length segments * block_size) (k * block_size) last
                segment)) [
                  | inl f ↦ rw (e, f, fade_segments) refl
                  | inr ((faded, next), f) ↦
                      rw (e, f, fade_segments)
                        (h next (set_at segments current faded)
                          (length-set_at segments current faded))
                ]
      ]

  third-none :
      (dir : FadeInOut) (n : ℕ) (last : D) (segments : List (List ℤ))
      → fade_segments double dir (suc n) 2 last segments ≡ none
  unfolding fade_segments
  third-none dir n last segments =
      let beyond = get-beyond segments (length segments - nb_segment + 2) (omega arith) in
      rw (beyond, fade_segments) refl

  -- Fading out more than two segments leaves the vector, and fading in is refused by the check of its
  -- first factor, which is compared with the largest double; fewer than two segments are refused too.
  pub fade-none :
      Decays double
      → (segments : List (List ℤ)) → Whole segments
      → (fade double fade_in segments ≡ none)
        × (length segments ≢ 2 → fade double fade_out segments ≡ none)
  unfolding fade
  fade-none decays [] whole = (refl, λ h. refl)
  fade-none decays (a ∷ []) whole = (refl, λ h. refl)
  fade-none decays (a ∷ b ∷ []) whole =
      let (c, cs, e) = nonempty a whole.0 in
      (
        fade_in-refused double decays 1 (a ∷ b ∷ []) c cs (ap (λ (s : List ℤ). some s) e),
        λ h. absurd (h refl),
      )
  fade-none decays (a ∷ b ∷ d ∷ more) whole =
      let segments = a ∷ b ∷ d ∷ more in
      let (s, found, sized) =
        get-within (λ t. length t ≡ block_size) segments (length segments - nb_segment + 0) whole
          (omega arith) in
      let (c, cs, e) = nonempty s sized in
      let enough : ltb (length segments) nb_segment ≡ false = ltb-false _ _ (omega arith) in
      rw enough (
        fade_in-refused double decays (suc (suc (length more))) segments c cs
            (found ∙ ap (λ (t : List ℤ). some t) e),
        λ h.
            round-none fade_out (suc (suc (length more))) 0 double.largest segments
              (λ next others same.
                round-none fade_out (suc (length more)) 1 next others
                  (λ next' others' same'. third-none fade_out (length more) next' others')),
      )

-- ===== src/Audio/Fade.antt =====
-- client_essential/audio_engine/Fade.hpp. The factors, doubles, are a parameter: exp of a multiple of the
-- step, their order, and their product with a sample as an int16_t. `none` is a `throw` without an
-- exception, the assertion on the number of segments, or a segment beyond the end of the vector.
pub mod Checks
use easy_voice_call.Base.{
  ℕ, zero, suc, ◌+◌, ◌-◌, ◌*◌, Bool, true, false, ◌||◌, List, [], ◌∷◌, Option, none, some, length,
  ltb, get_elem?, if◌then◌else◌,
}
use easy_voice_call.Base.Int.{ℤ}
use easy_voice_call.Audio.{block_size}

pub data FadeInOut : Type 0 where
  fade_in : FadeInOut
  fade_out : FadeInOut

-- `factor n` is exp(-step * n), and `largest` the largest double.
pub record Factors (D : Type 0) : Type 0 where
  pub largest : D
  pub factor : ℕ → D
  pub exceeds_one : D → Bool
  pub less : D → D → Bool
  pub times : ℤ → D → ℤ

abbrev pub nb_segment : ℕ
nb_segment = 2

pub set_at : {A : Type 0} → List A → ℕ → A → List A
set_at [] i x = []
set_at (y ∷ ys) zero x = x ∷ ys
set_at (y ∷ ys) (suc i) x = y ∷ set_at ys i x

module _ {D : Type 0} (double : Factors D) where
  -- The three checks of a factor against the last one.
  refuses : FadeInOut → D → D → Bool
  refuses fade_in last f = double.exceeds_one f || double.less f last
  refuses fade_out last f = double.exceeds_one f || double.less last f

  -- `samples` is the number of samples of all segments.
  factor_at : FadeInOut → ℕ → ℕ → D
  factor_at fade_in samples i = double.factor (samples - i)
  factor_at fade_out samples i = double.factor i

  prepend_sample : ℤ → Option (List ℤ × D) → Option (List ℤ × D)
  prepend_sample b none = none
  prepend_sample b (some (bs, last)) = some (b ∷ bs, last)

  -- The loop over the samples of a segment, whose first one has the index `i`.
  fade_samples : FadeInOut → ℕ → ℕ → D → List ℤ → Option (List ℤ × D)
  unfolding refuses factor_at prepend_sample
  fade_samples dir samples i last [] = some ([], last)
  fade_samples dir samples i last (b ∷ bs) =
      let f = factor_at dir samples i in
      let rest = fade_samples dir samples (suc i) f bs in
      if refuses dir last f then none else prepend_sample (double.times b f) rest

  -- The loop over the segments, from the `k`-th on, for `n` of them.
  fade_segments : FadeInOut → ℕ → ℕ → D → List (List ℤ) → Option (List (List ℤ))
  unfolding fade_samples set_at
  fade_segments dir zero k last segments = some segments
  fade_segments dir (suc n) k last segments =
      let current = length segments - nb_segment + k in
      elim (get_elem? segments current) [
        | none ↦ none
        | some segment ↦
            elim (fade_samples dir (length segments * block_size) (k * block_size) last segment) [
              | none ↦ none
              | some (faded, next) ↦
                  fade_segments dir n (suc k) next (set_at segments current faded)
            ]
      ]

  pub fade : FadeInOut → List (List ℤ) → Option (List (List ℤ))
  unfolding fade_segments
  fade dir segments =
      if ltb (length segments) nb_segment
      then none
      else fade_segments dir (length segments) 0 double.largest segments

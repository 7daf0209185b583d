-- ===== src/Audio/Alsa/Transfer.antt =====
-- The turns of a blocking write or read of the sound card, and what a write moves.
use easy_voice_call.Base.{
  ℕ, zero, suc, ◌+◌, ◌-◌, ◌*◌, ◌/◌, ◌≡◌, refl, sym, ap, ◌∙◌, true, List, [], ◌∷◌, ◌++◌, some,
  length, take, drop, length-drop, take-append-take, take_all, append_assoc, append-nil, All, arith,
  leb, if◌then◌else◌, inl, inr, Bool-cases,
}
use easy_voice_call.Base.Int.{ℤ, pos, negsuc}
use easy_voice_call.ReturnType.{of_int}
use easy_voice_call.Audio.Alsa.{Turn, goes_on, gives_up, react, moved, write_loop, write}

drop-nil : (n : ℕ) → drop {A = ℤ} n [] ≡ []
drop-nil zero = refl
drop-nil (suc n) = refl

take-nil : (n : ℕ) → take {A = ℤ} n [] ≡ []
take-nil zero = refl
take-nil (suc n) = refl

drop-drop : (m n : ℕ) (xs : List ℤ) → drop n (drop m xs) ≡ drop (m + n) xs
drop-drop zero n xs = ap (λ (k : ℕ). drop k xs) (omega arith)
drop-drop (suc m) n [] = drop-nil n ∙ sym (drop-nil (suc m + n))
drop-drop (suc m) n (x ∷ xs) = drop-drop m n xs ∙ ap (λ (k : ℕ). drop k (x ∷ xs)) sum
  where
    sum : suc (m + n) ≡ suc m + n
    sum = omega arith

module _ (eagain epipe estrpipe : ℕ) where
  -- Whatever is still to be moved, the loop goes on after this turn, or returns an error.
  pub record GoesOn (t : Turn) : Type 0 where
    pub recovers : (n : ℕ) → react eagain epipe estrpipe n t ≡ goes_on

  pub record GivesUp (t : Turn) : Type 0 where
    pub fails : (n : ℕ) → react eagain epipe estrpipe n t ≡ gives_up

  -- How many samples some turns move.
  abbrev pub total : List Turn → ℕ
  total [] = 0
  total (t ∷ ts) = moved eagain epipe estrpipe t + total ts

  write_loop-step :
      (t : Turn) (more : List Turn) (n : ℕ) (p played : List ℤ)
      → GoesOn t
      → let k = moved eagain epipe estrpipe t in
        write_loop eagain epipe estrpipe (t ∷ more) (suc n) p played
        ≡ write_loop eagain epipe estrpipe more (suc n - k) (drop k p) (played ++ take k p)
  unfolding write_loop
  write_loop-step t more n p played g = rw (write_loop, g.recovers (suc n)) refl

  write_loop-append :
      (ts more : List Turn) (n : ℕ) (p played : List ℤ)
      → All GoesOn ts
      → n ≡ length p
      → write_loop eagain epipe estrpipe (ts ++ more) n p played
        ≡ write_loop eagain epipe estrpipe more
            (n - total ts)
            (drop (total ts) p)
            (played ++ take (total ts) p)
  unfolding write_loop
  write_loop-append [] more n p played good e =
      let same : n - 0 ≡ n = omega arith in let nothing = append-nil played in cc
  write_loop-append (t ∷ ts) more zero [] played good e =
      let none_left : 0 - total (t ∷ ts) ≡ 0 = omega arith in
      rw (none_left, take-nil (total (t ∷ ts)), append-nil played) refl
  write_loop-append (t ∷ ts) more zero (x ∷ p) played good e = absurd (omega arith)
  write_loop-append (t ∷ ts) more (suc n) p played good e =
      let k = moved eagain epipe estrpipe t in
      let rest =
        write_loop-append ts more (suc n - k) (drop k p) (played ++ take k p) good.1
          (omega (arith, length-drop k p)) in
      let left : suc n - k - total ts ≡ suc n - (k + total ts) = omega arith in
      let dropped = drop-drop k (total ts) p in
      let joined = append_assoc played (take k p) (take (total ts) (drop k p)) in
      let taken = take-append-take k (total ts) p in
      write_loop-step t (ts ++ more) n p played good.0 ∙ rest ∙ cc

  write_loop-fails :
      (bad : Turn) (more : List Turn) (n : ℕ) (p played : List ℤ)
      → GivesUp bad
      → write_loop eagain epipe estrpipe (bad ∷ more) (suc n) p played
        ≡ record { result = some (of_int (negsuc 0)); played = played }
  unfolding write_loop
  write_loop-fails bad more n p played g = rw (write_loop, g.fails (suc n)) refl

  after_write :
      (bad : Turn) (more : List Turn) (n m : ℕ) (p buffer : List ℤ)
      → GivesUp bad
      → n ≡ length buffer
      → write_loop eagain epipe estrpipe (bad ∷ more) (n - m) p (take m buffer) ≡ (
          if leb n m
          then record { result = some (of_int (pos 0)); played = buffer }
          else record { result = some (of_int (negsuc 0)); played = take m buffer })
  unfolding write_loop
  after_write bad more n m p buffer g e = elim (Bool-cases (leb n m)) [
    | inl enough ↦
        let none_left : n - m ≡ 0 = ground arith in
        let whole = take_all m buffer (ground arith) in rw (enough, none_left, whole) refl
    | inr short ↦
        let some_left : n - m ≡ suc (n - m - 1) = ground arith in
        rw (short, some_left) (write_loop-fails bad more (n - m - 1) p (take m buffer) g)
  ]

  -- If the turns before the first failing one move the whole buffer, write returns success and has
  -- handed every sample to the device once, in their order, through short writes, waits and underruns;
  -- if not, it returns an error, and the device has had the samples that those turns moved.
  pub write-total :
      (good more : List Turn) (bad : Turn) (buffer : List ℤ)
      → All GoesOn good
      → GivesUp bad
      → write eagain epipe estrpipe true (good ++ (bad ∷ more)) buffer ≡ (
          if leb (length buffer) (total good)
          then record { result = some (of_int (pos 0)); played = buffer }
          else record { result = some (of_int (negsuc 0)); played = take (total good) buffer })
  unfolding write
  write-total good more bad buffer recovered failed =
      let frames : length buffer * 2 / 2 ≡ length buffer = omega arith in
      rw frames (
        write_loop-append good (bad ∷ more) (length buffer) buffer [] recovered refl
        ∙ after_write bad more (length buffer) (total good) (drop (total good) buffer) buffer failed
            refl)

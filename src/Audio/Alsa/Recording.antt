-- ===== src/Audio/Alsa/Recording.antt =====
-- What a blocking read of the sound card puts into the buffer.
use easy_voice_call.Base.{
  ℕ, zero, suc, ◌+◌, ◌-◌, ◌*◌, ◌/◌, ◌≤◌, ◌≡◌, refl, sym, ap, ◌∙◌, true, List, [], ◌∷◌, ◌++◌, some,
  length, take, drop, length-take, length-drop, length-append, append_assoc, All, arith, leb, ltb,
  if◌then◌else◌, inl, inr, Bool-cases, memcpy, overlay, memcpy-append, overlay-drop,
}
use easy_voice_call.Base.Int.{ℤ, pos, negsuc}
use easy_voice_call.ReturnType.{of_int}
use easy_voice_call.Audio.Alsa.{Turn, goes_on, react, moved, read_loop, read}
use easy_voice_call.Audio.Alsa.Transfer.{GoesOn, GivesUp, total}

overlay-nil : (xs : List ℤ) → overlay [] xs ≡ []
overlay-nil [] = refl
overlay-nil (x ∷ xs) = refl

memcpy-nil : (dst : List ℤ) (off : ℕ) → memcpy dst off [] ≡ dst
memcpy-nil dst zero = refl
memcpy-nil [] (suc off) = refl
memcpy-nil (d ∷ dst) (suc off) = ap (◌∷◌ d) (memcpy-nil dst off)

overlay-append :
    (dst xs ys : List ℤ)
    → length xs ≤ length dst
    → overlay dst (xs ++ ys) ≡ xs ++ overlay (drop (length xs) dst) ys
overlay-append dst [] ys h = refl
overlay-append [] (x ∷ xs) ys h = absurd (omega arith)
overlay-append (d ∷ dst) (x ∷ xs) ys h = ap (◌∷◌ x) (overlay-append dst xs ys (omega arith))

overlay_full :
    (dst xs ys : List ℤ) → length dst ≤ length xs → overlay dst (xs ++ ys) ≡ overlay dst xs
overlay_full [] [] [] h = refl
overlay_full [] [] (y ∷ ys) h = refl
overlay_full [] (x ∷ xs) ys h = refl
overlay_full (d ∷ dst) [] ys h = absurd (omega arith)
overlay_full (d ∷ dst) (x ∷ xs) ys h = ap (◌∷◌ x) (overlay_full dst xs ys (omega arith))

overlay-take : (dst xs : List ℤ) → length dst ≤ length xs → overlay dst xs ≡ take (length dst) xs
overlay-take [] [] h = refl
overlay-take [] (x ∷ xs) h = refl
overlay-take (d ∷ dst) [] h = absurd (omega arith)
overlay-take (d ∷ dst) (x ∷ xs) h = ap (◌∷◌ x) (overlay-take dst xs (omega arith))

module _ (eagain epipe estrpipe : ℕ) where
  -- A turn that is recovered from, and has as many samples as the device says.
  pub record Delivers (t : Turn) : Type 0 where
    pub recovered : GoesOn eagain epipe estrpipe t
    pub enough : moved eagain epipe estrpipe t ≤ length t.samples

  -- The samples that some turns deliver.
  abbrev pub arrived : List Turn → List ℤ
  arrived [] = []
  arrived (t ∷ ts) = take (moved eagain epipe estrpipe t) t.samples ++ arrived ts

  length-arrived :
      (ts : List Turn) → All Delivers ts → length (arrived ts) ≡ total eagain epipe estrpipe ts
  length-arrived [] h = refl
  length-arrived (t ∷ ts) h =
      let k = moved eagain epipe estrpipe t in
      omega (
        arith,
        length-append (take k t.samples) (arrived ts),
        length-take k t.samples,
        h.0.enough,
        length-arrived ts h.1,
      )

  read_loop-step :
      (t : Turn) (more : List Turn) (n off : ℕ) (buffer : List ℤ)
      → GoesOn eagain epipe estrpipe t
      → let k = moved eagain epipe estrpipe t in
        read_loop eagain epipe estrpipe (t ∷ more) (suc n) off buffer
        ≡ read_loop eagain epipe estrpipe more
            (suc n - k)
            (off + k)
            (memcpy buffer off (take k t.samples))
  unfolding read_loop
  read_loop-step t more n off buffer g = rw (read_loop, g.recovers (suc n)) refl

  read_loop-append :
      (ts more : List Turn) (n off : ℕ) (pre dst : List ℤ)
      → All Delivers ts
      → off ≡ length pre
      → n ≡ length dst
      → read_loop eagain epipe estrpipe (ts ++ more) n off (pre ++ dst)
        ≡ read_loop eagain epipe estrpipe more
            (n - total eagain epipe estrpipe ts)
            (off + total eagain epipe estrpipe ts)
            (pre ++ overlay dst (arrived ts))
  unfolding read_loop
  read_loop-append [] more n off pre dst good at e =
      let same : n - 0 ≡ n = omega arith in let there : off + 0 ≡ off = omega arith in cc
  read_loop-append (t ∷ ts) more zero off pre [] good at e =
      let none_left : 0 - total eagain epipe estrpipe (t ∷ ts) ≡ 0 = omega arith in
      let nothing = overlay-nil (arrived (t ∷ ts)) in rw (none_left, nothing) refl
  read_loop-append (t ∷ ts) more zero off pre (d ∷ dst) good at e = absurd (omega arith)
  read_loop-append (t ∷ ts) more (suc n) off pre dst good at e =
      let k = moved eagain epipe estrpipe t in
      let src = take k t.samples in
      let written = memcpy-append pre dst off src at in
      let length_src : length src ≡ k = omega (arith, length-take k t.samples, good.0.enough) in
      read_loop-step t (ts ++ more) n off (pre ++ dst) good.0.recovered
      ∙ elim (Bool-cases (leb k (suc n))) [
        | inl fits ↦
            let room : length src ≤ length dst = ground arith in
            let kept = overlay-drop dst src room in
            let joined = append_assoc pre src (drop (length src) dst) in
            let rest =
              read_loop-append ts more (suc n - k) (off + k) (pre ++ src) (drop (length src) dst)
                good.1 (omega (arith, length-append pre src))
                (omega (arith, length-drop (length src) dst)) in
            let all = overlay-append dst src (arrived ts) room in
            let joined_then = append_assoc pre src (overlay (drop (length src) dst) (arrived ts)) in
            let left : suc n - k - total eagain epipe estrpipe ts
                ≡ suc n - (k + total eagain epipe estrpipe ts) =
              omega arith in
            let there : off + k + total eagain epipe estrpipe ts
                ≡ off + (k + total eagain epipe estrpipe ts) =
              omega arith in
            cc
        | inr over ↦
            let none_left : suc n - k ≡ 0 = ground arith in
            let none_left_then : suc n - (k + total eagain epipe estrpipe ts) ≡ 0 = ground arith in
            let full = overlay_full dst src (arrived ts) (ground arith) in
            rw (none_left, none_left_then, written, full) refl
      ]

  react-pos : (t : Turn) (c : ℕ) → t.count ≡ pos c → react eagain epipe estrpipe (suc c) t ≡ goes_on
  unfolding react
  react-pos t c e =
      let less : ltb c (suc c) ≡ true = ground arith in rw (react, e, less) (ground arith)

  no_count :
      (t : Turn) (c : ℤ)
      → t.count ≡ c
      → GivesUp eagain epipe estrpipe t
      → moved eagain epipe estrpipe t ≡ 0
  unfolding moved
  no_count t (negsuc c) e g = rw e refl
  no_count t (pos c) e g = let goes = react-pos t c e in let fails = g.fails (suc c) in absurd cc

  GivesUp-moved : (t : Turn) → GivesUp eagain epipe estrpipe t → moved eagain epipe estrpipe t ≡ 0
  GivesUp-moved t g = no_count t t.count refl g

  read_loop-fails :
      (bad : Turn) (more : List Turn) (n off : ℕ) (buffer : List ℤ)
      → GivesUp eagain epipe estrpipe bad
      → read_loop eagain epipe estrpipe (bad ∷ more) (suc n) off buffer
        ≡ record { result = some (of_int (negsuc 0)); buffer = memcpy buffer off [] }
  unfolding read_loop
  read_loop-fails bad more n off buffer g =
      let still = GivesUp-moved bad g in rw (read_loop, g.fails (suc n), still) refl

  after_read :
      (bad : Turn) (more : List Turn) (n m off : ℕ) (xs buffer : List ℤ)
      → GivesUp eagain epipe estrpipe bad
      → n ≡ length buffer
      → m ≡ length xs
      → read_loop eagain epipe estrpipe (bad ∷ more) (n - m) off (overlay buffer xs) ≡ (
          if leb n m
          then record { result = some (of_int (pos 0)); buffer = take (length buffer) xs }
          else record { result = some (of_int (negsuc 0)); buffer = xs ++ drop m buffer })
  unfolding read_loop
  after_read bad more n m off xs buffer g e f = elim (Bool-cases (leb n m)) [
    | inl enough ↦
        let none_left : n - m ≡ 0 = ground arith in
        let whole = overlay-take buffer xs (ground arith) in rw (enough, none_left, whole) refl
    | inr short ↦
        let some_left : n - m ≡ suc (n - m - 1) = ground arith in
        let kept = overlay-drop buffer xs (ground arith) in
        rw (short, some_left)
          (read_loop-fails bad more (n - m - 1) off (overlay buffer xs) g
            ∙ ap (λ (b : List ℤ). record { result = some (of_int (negsuc 0)); buffer = b })
                (memcpy-nil (overlay buffer xs) off
                  ∙ kept
                  ∙ ap (λ (k : ℕ). xs ++ drop k buffer) (sym f)))
  ]

  -- If the turns before the first failing one deliver enough samples for the buffer, read returns
  -- success and the buffer holds the first of them, in their order; if not, it returns an error, and
  -- the samples that those turns delivered stand at the start of the buffer, whose rest is untouched.
  -- A turn delivers as many samples as the device says.
  pub read-arrived :
      (good more : List Turn) (bad : Turn) (buffer : List ℤ)
      → All Delivers good
      → GivesUp eagain epipe estrpipe bad
      → read eagain epipe estrpipe (good ++ (bad ∷ more)) buffer ≡ (
          if leb (length buffer) (total eagain epipe estrpipe good)
          then record {
            result = some (of_int (pos 0));
            buffer = take (length buffer) (arrived good);
          }
          else record {
            result = some (of_int (negsuc 0));
            buffer = arrived good ++ drop (total eagain epipe estrpipe good) buffer;
          })
  unfolding read
  read-arrived good more bad buffer delivered failed =
      let frames : length buffer * 2 / 2 ≡ length buffer = omega arith in
      rw frames (
        read_loop-append good (bad ∷ more) (length buffer) 0 [] buffer delivered refl refl
        ∙ after_read bad more (length buffer) (total eagain epipe estrpipe good)
            (0 + total eagain epipe estrpipe good) (arrived good) buffer failed refl
            (sym (length-arrived good delivered)))

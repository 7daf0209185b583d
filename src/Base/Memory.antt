-- ===== src/Base/Memory.antt =====
-- Byte buffers: memcpy, vector::resize, and the little-endian words that the packets hold.
use Prim.Native.Nat.{ℕ, zero, suc, ◌+◌, ◌-◌, ◌*◌, ◌/◌, ◌%◌, ◌^◌, ◌≤◌, ◌<◌}
use mathlib.Core.Path.{◌≡◌, refl, ap}
use mathlib.Core.List.{List, [], ◌∷◌, ◌++◌}
use native.Mathlib.Nat.{sub-zero}
use native.Mathlib.Omega.{arith}
use easy_voice_call.Base.Lists.{
  length, take, drop, replicate, length-append, length-take, length-replicate, take_all,
}

module _ {ℓ} {A : Type ℓ} where
  -- The bytes of `src` over the first bytes of `dst`; what does not fit is dropped.
  abbrev pub overlay : List A → List A → List A
  overlay dst [] = dst
  overlay [] (s ∷ src) = []
  overlay (d ∷ dst) (s ∷ src) = s ∷ overlay dst src

  -- memcpy (dst + off, src, length src)
  abbrev pub memcpy : List A → ℕ → List A → List A
  memcpy dst zero src = overlay dst src
  memcpy [] (suc off) src = []
  memcpy (d ∷ dst) (suc off) src = d ∷ memcpy dst off src

  -- The `len` elements from `off` on, as memcpy reads them.
  abbrev pub slice : ℕ → ℕ → List A → List A
  slice off len xs = take len (drop off xs)

  -- vector::resize: cut, or pad with `a`.
  abbrev pub resize : A → ℕ → List A → List A
  resize a n xs = take n xs ++ replicate (n - length xs) a

  pub length-overlay : (dst src : List A) → length (overlay dst src) ≡ length dst
  length-overlay [] [] = refl
  length-overlay [] (s ∷ src) = refl
  length-overlay (d ∷ dst) [] = refl
  length-overlay (d ∷ dst) (s ∷ src) = ap suc (length-overlay dst src)

  pub length-memcpy :
      (dst : List A) (off : ℕ) (src : List A) → length (memcpy dst off src) ≡ length dst
  length-memcpy dst zero src = length-overlay dst src
  length-memcpy [] (suc off) src = refl
  length-memcpy (d ∷ dst) (suc off) src = ap suc (length-memcpy dst off src)

  -- A write over the whole buffer leaves nothing of it.
  pub overlay_all : (dst src : List A) → length dst ≡ length src → overlay dst src ≡ src
  overlay_all [] [] h = refl
  overlay_all [] (s ∷ src) h = absurd (omega arith)
  overlay_all (d ∷ dst) [] h = absurd (omega arith)
  overlay_all (d ∷ dst) (s ∷ src) h = ap (◌∷◌ s) (overlay_all dst src (omega arith))

  -- A write of less keeps the rest.
  pub overlay-drop :
      (dst src : List A) → length src ≤ length dst → overlay dst src ≡ src ++ drop (length src) dst
  overlay-drop dst [] h = refl
  overlay-drop [] (s ∷ src) h = absurd (omega arith)
  overlay-drop (d ∷ dst) (s ∷ src) h = ap (◌∷◌ s) (overlay-drop dst src (omega arith))

  pub memcpy-append :
      (pre dst : List A) (off : ℕ) (src : List A)
      → off ≡ length pre
      → memcpy (pre ++ dst) off src ≡ pre ++ overlay dst src
  memcpy-append [] dst zero src h = refl
  memcpy-append [] dst (suc off) src h = absurd (omega arith)
  memcpy-append (p ∷ pre) dst zero src h = absurd (omega arith)
  memcpy-append (p ∷ pre) dst (suc off) src h =
      ap (◌∷◌ p) (memcpy-append pre dst off src (omega arith))

  pub length-resize : (a : A) (n : ℕ) (xs : List A) → length (resize a n xs) ≡ n
  length-resize a n xs = omega (
    arith,
    length-append (take n xs) (replicate (n - length xs) a),
    length-take n xs,
    length-replicate (n - length xs) a,
  )

  -- Growing keeps what is there.
  pub resize_grow :
      (a : A) (n : ℕ) (xs : List A)
      → length xs ≤ n
      → resize a n xs ≡ xs ++ replicate (n - length xs) a
  resize_grow a n xs h = ap (λ (ys : List A). ys ++ replicate (n - length xs) a) (take_all n xs h)

  pub resize-nil : (a : A) (n : ℕ) → resize a n [] ≡ replicate n a
  resize-nil a zero = refl
  resize-nil a (suc n) = rw sub-zero

-- The bytes of a 16-bit and of a 32-bit word, low byte first.
abbrev pub le16 : ℕ → List ℕ
le16 n = (n % 256) ∷ (n / 256 % 256) ∷ []

abbrev pub le32 : ℕ → List ℕ
le32 n = (n % 256) ∷ (n / 256 % 256) ∷ (n / 65536 % 256) ∷ (n / 16777216 % 256) ∷ []

-- The number that such bytes stand for.
abbrev pub read_le : List ℕ → ℕ
read_le [] = 0
read_le (b ∷ bs) = b + 256 * read_le bs

pub read_le-le16 : (n : ℕ) → n < 2 ^ 16 → read_le (le16 n) ≡ n
read_le-le16 n h = omega arith

pub read_le-le32 : (n : ℕ) → n < 2 ^ 32 → read_le (le32 n) ≡ n
read_le-le32 n h = omega arith

abbrev pub IsByte : ℕ → Type 0
IsByte b = b < 256

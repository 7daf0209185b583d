-- ===== src/Audio/Pcm.antt =====
-- include/FileUtils.hpp: recordings as files of 16-bit samples, little-endian.
use easy_voice_call.Base.{
  ℕ, zero, suc, ◌+◌, ◌-◌, ◌*◌, ◌/◌, ◌%◌, ◌^◌, ◌<◌, ◌≡◌, refl, ap, sym, ◌∙◌, append_assoc, true,
  false, List, [], ◌∷◌, ◌++◌, Option, none, some, length, replicate, ltb, if◌then◌else◌, ◌==◌, All,
  arith,
}
use easy_voice_call.Base.Int.{ℤ, pos, negsuc}

-- The int16_t of two bytes.
unfoldable pub int16 : ℕ → ℕ → ℤ
int16 low high =
    let n = low + 256 * high in if ltb n (2 ^ 15) then pos n else negsuc (2 ^ 16 - n - 1)

-- An array of `n` samples, zero where no bytes were copied to it.
unfoldable pub samples_of : ℕ → List ℕ → List ℤ
unfolding int16
samples_of zero bytes = []
samples_of (suc n) (low ∷ high ∷ bytes) = int16 low high ∷ samples_of n bytes
samples_of (suc n) _ = replicate (suc n) (pos 0)

-- `none` is a file that cannot be opened, for which tellg gives -1. The result `none` is a read of an
-- odd number of bytes, which goes one byte beyond the end of the vector.
unfoldable pub load_pcm_file : Option (List ℕ) → Option (List ℤ)
unfolding samples_of
load_pcm_file none = some []
load_pcm_file (some bytes) =
    if length bytes == 0
    then some []
    else if length bytes % 2 == 0
    then some (samples_of (length bytes / 2) bytes)
    else none

-- The two bytes of an int16_t.
abbrev pub bytes_of : ℤ → List ℕ
bytes_of (pos n) = (n % 256) ∷ (n / 256) ∷ []
bytes_of (negsuc n) = ((2 ^ 16 - 1 - n) % 256) ∷ ((2 ^ 16 - 1 - n) / 256) ∷ []

abbrev pub IsInt16 : ℤ → Type 0
IsInt16 (pos n) = n < 2 ^ 15
IsInt16 (negsuc n) = n < 2 ^ 15

abbrev pub file_of : List ℤ → List ℕ
file_of [] = []
file_of (z ∷ zs) = bytes_of z ++ file_of zs

int16-bytes_of_pos : (n : ℕ) → n < 2 ^ 15 → int16 (n % 256) (n / 256) ≡ pos n
unfolding int16
int16-bytes_of_pos n h =
    let same : n % 256 + 256 * (n / 256) ≡ n = omega arith in
    let low : ltb n (2 ^ 15) ≡ true = ground arith in rw (same, low) refl

int16-bytes_of_negsuc :
    (n : ℕ) → n < 2 ^ 15 → int16 ((2 ^ 16 - 1 - n) % 256) ((2 ^ 16 - 1 - n) / 256) ≡ negsuc n
unfolding int16
int16-bytes_of_negsuc n h =
    let m = 2 ^ 16 - 1 - n in
    let same : m % 256 + 256 * (m / 256) ≡ m = omega arith in
    let high : ltb m (2 ^ 15) ≡ false = ground arith in
    let back : 2 ^ 16 - m - 1 ≡ n = omega arith in rw (same, high, back) refl

pub length-file_of : (zs : List ℤ) → length (file_of zs) ≡ 2 * length zs
length-file_of [] = refl
length-file_of (pos n ∷ zs) = omega (arith, length-file_of zs)
length-file_of (negsuc n ∷ zs) = omega (arith, length-file_of zs)

pub file_of-append : (ys zs : List ℤ) → file_of (ys ++ zs) ≡ file_of ys ++ file_of zs
file_of-append [] zs = refl
file_of-append (y ∷ ys) zs =
    ap (◌++◌ (bytes_of y)) (file_of-append ys zs)
    ∙ sym (append_assoc (bytes_of y) (file_of ys) (file_of zs))

samples_of-file_of : (zs : List ℤ) → All IsInt16 zs → samples_of (length zs) (file_of zs) ≡ zs
unfolding samples_of
samples_of-file_of [] h = refl
samples_of-file_of (pos n ∷ zs) h =
    rw (int16-bytes_of_pos n h.0) (ap (◌∷◌ (pos n)) (samples_of-file_of zs h.1))
samples_of-file_of (negsuc n ∷ zs) h =
    rw (int16-bytes_of_negsuc n h.0) (ap (◌∷◌ (negsuc n)) (samples_of-file_of zs h.1))

-- A file of 16-bit samples is loaded as those samples.
pub load_pcm_file-file_of :
    (zs : List ℤ) → All IsInt16 zs → load_pcm_file (some (file_of zs)) ≡ some zs
unfolding load_pcm_file
load_pcm_file-file_of [] h = refl
load_pcm_file-file_of (z ∷ zs) h =
    let size = length-file_of (z ∷ zs) in
    let many : (length (file_of (z ∷ zs)) == 0) ≡ false = ground arith in
    let even : (length (file_of (z ∷ zs)) % 2 == 0) ≡ true = ground arith in
    let half : length (file_of (z ∷ zs)) / 2 ≡ length (z ∷ zs) = omega arith in
    rw (many, even, half) (ap some (samples_of-file_of (z ∷ zs) h))

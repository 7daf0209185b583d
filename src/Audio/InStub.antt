-- ===== src/Audio/InStub.antt =====
-- client_essential/audio_engine/AudioInStub.hpp: recorded speech in place of a microphone, block by
-- block and over again. What `get` returns is a pointer, of which the caller reads 160 samples.
pub mod Rounds
use easy_voice_call.Base.{
  ℕ, zero, suc, ◌+◌, ◌≤◌, ◌≡◌, refl, ◌∙◌, List, [], ◌∷◌, length, take, drop, ltb, if◌then◌else◌,
  arith, All, Bool, false, Option, none, some, ◌==◌, length-take, length-drop,
}
use easy_voice_call.Base.Int.{ℤ}
use easy_voice_call.Audio.{block_size}
use easy_voice_call.Audio.Pcm.{
  load_pcm_file, file_of, IsInt16, load_pcm_file-file_of, length-file_of,
}

pub record AudioInStub : Type 0 where
  pub whole_pcm : List ℤ
  pub pos : ℕ

pub get : AudioInStub → List ℤ × AudioInStub
get s =
    let pos = if ltb (s.pos + block_size) (length s.whole_pcm) then s.pos else 0 in
    (take block_size (drop pos s.whole_pcm), record s { pos = pos + block_size })

-- What loadFile returns: a null pointer, or the recording; a file of an odd number of bytes is read one
-- byte beyond the end of the vector.
pub data Loaded : Type 0 where
  absent : Loaded
  overflows : Loaded
  loaded : AudioInStub → Loaded

of_samples : Option (List ℤ) → Loaded
of_samples none = overflows
of_samples (some pcm) = loaded (record { whole_pcm = pcm; pos = 0 })

pub load_file : Option (List ℕ) → Loaded
unfolding of_samples
load_file none = absent
load_file (some bytes) =
    if length bytes == 0 then absent else of_samples (load_pcm_file (some bytes))

or_sine : Loaded → Bool → List ℤ → Loaded
or_sine absent is_sine sine_wave =
    if is_sine then loaded (record { whole_pcm = sine_wave; pos = 0 }) else absent
or_sine found is_sine sine_wave = found

-- `sine_wave` is what the constructor of SineWave makes.
pub create : Option (List ℕ) → Bool → List ℤ → Loaded
unfolding load_file or_sine
create file is_sine sine_wave = or_sine (load_file file) is_sine sine_wave

-- The blocks of `n` calls.
pub blocks : ℕ → AudioInStub → List (List ℤ)
unfolding get
blocks zero s = []
blocks (suc n) s = let (block, next) = get s in block ∷ blocks n next

get-length :
    (s : AudioInStub)
    → block_size ≤ length s.whole_pcm
    → (length (get s).0 ≡ block_size) × ((get s).1.whole_pcm ≡ s.whole_pcm)
unfolding get
get-length s enough =
    let pos = if ltb (s.pos + block_size) (length s.whole_pcm) then s.pos else 0 in
    let inside : pos + block_size ≤ length s.whole_pcm = ground arith in
    (
      length-take block_size (drop pos s.whole_pcm)
          ∙ omega (arith, length-drop pos s.whole_pcm, inside),
      refl,
    )

-- A recording of one block at least never runs out: however often it is read, every block has its 160
-- samples inside the recording.
pub blocks-length :
    (n : ℕ) (s : AudioInStub)
    → block_size ≤ length s.whole_pcm
    → (length (blocks n s) ≡ n) × All (λ block. length block ≡ block_size) (blocks n s)
unfolding blocks
blocks-length zero s enough = (refl, tt)
blocks-length (suc n) s enough =
    let (whole, same) = get-length s enough in
    let (count, more) = blocks-length n (get s).1 (rw same enough) in (omega arith, (whole, more))

-- A file of one block of 16-bit samples at least is loaded as those samples, whatever the sine wave
-- is, and however often the recording is read, every block has its 160 samples inside it.
pub create-file_of :
    (n : ℕ) (zs : List ℤ) (is_sine : Bool) (sine_wave : List ℤ)
    → All IsInt16 zs
    → block_size ≤ length zs
    → (create (some (file_of zs)) is_sine sine_wave ≡ loaded (record { whole_pcm = zs; pos = 0 }))
      × (length (blocks n (record { whole_pcm = zs; pos = 0 })) ≡ n)
      × All (λ block. length block ≡ block_size) (blocks n (record { whole_pcm = zs; pos = 0 }))
unfolding create load_file or_sine of_samples
create-file_of n zs is_sine sine_wave fits enough =
    let size = length-file_of zs in
    let many : (length (file_of zs) == 0) ≡ false = ground arith in
    let (count, whole) = blocks-length n (record { whole_pcm = zs; pos = 0 }) enough in
    (rw (many, load_pcm_file-file_of zs fits) refl, count, whole)

-- ===== src/Android/Volume.antt =====
-- The level that the Java side gets of a recording.
use easy_voice_call.Base.{
  ℕ, zero, suc, ◌*◌, ◌/◌, ◌^◌, ◌≤◌, ◌≡◌, refl, ap, List, [], ◌∷◌, some, none, length, take,
  replicate, All, IsByte, arith, ltb, leb, true, false, if◌then◌else◌, ◌==◌, inl, inr, Bool-cases,
}
use easy_voice_call.Base.Int.{pos, abs}
use easy_voice_call.Audio.VolumeMeter.{AudioInOut, AudioVolumeMeter}
use easy_voice_call.Audio.VolumeMeter.Peak.{peak, calculate-peak}
use easy_voice_call.Audio.Pcm.{int16, samples_of}
use easy_voice_call.Android.{calc_volume}

int16-bound : (low high : ℕ) → IsByte low → IsByte high → abs (int16 low high) ≤ 2 ^ 15
unfolding int16
int16-bound low high l h = ground arith

zeros-bound : (n : ℕ) → peak (replicate n (pos 0)) ≤ 2 ^ 15
zeros-bound zero = omega arith
zeros-bound (suc n) = ground (arith, zeros-bound n)

samples_of-bound : (n : ℕ) (bytes : List ℕ) → All IsByte bytes → peak (samples_of n bytes) ≤ 2 ^ 15
unfolding samples_of
samples_of-bound zero bytes h = omega arith
samples_of-bound (suc n) [] h = zeros-bound (suc n)
samples_of-bound (suc n) (low ∷ []) h = zeros-bound (suc n)
samples_of-bound (suc n) (low ∷ high ∷ bytes) (l, (g, rest)) =
    ground (arith, int16-bound low high l g, samples_of-bound n bytes rest)

All-take : (P : ℕ → Type 0) (n : ℕ) (xs : List ℕ) → All P xs → All P (take n xs)
All-take P zero xs h = tt
All-take P (suc n) [] h = tt
All-take P (suc n) (x ∷ xs) h = (h.0, All-take P n xs h.1)

-- The level of the loudest of the first 160 samples.
abbrev pub level_in : List ℕ → ℕ
level_in pcm =
    let loud = peak (samples_of 160 (take 320 pcm)) in
    if ltb loud 29492 then loud * 10 / 2 ^ 15 else 9

long_enough : (n : ℕ) → leb 320 n ≡ true → (ltb n 160 ≡ false) × (ltb n 320 ≡ false)
long_enough n h = (ground arith, ground arith)

beyond :
    (n : ℕ)
    → leb 320 (suc n) ≡ false
    → ltb (suc n) ((if ltb (suc n) 160 then suc n else 160) * 2) ≡ true
beyond n h = ground arith

-- A recording of 320 bytes at least is answered by the level of the loudest of its first 160 samples,
-- and an empty one by 0; every other one is read beyond its end.
pub calc_volume-level_in :
    (pcm : List ℕ) (io : AudioInOut) (made now reset_time raise_time : ℕ)
    → All IsByte pcm
    → calc_volume pcm io made now reset_time raise_time ≡ (
        if leb 320 (length pcm)
        then some (level_in pcm)
        else if length pcm == 0
        then some 0
        else none)
unfolding calc_volume samples_of
calc_volume-level_in [] io made now reset_time raise_time bytes =
    let meter : AudioVolumeMeter = record {
      in_out = io;
      recent_max_level = 0;
      last_time_stamp = made;
    } in
    ap some (calculate-peak meter (samples_of 160 []) now reset_time raise_time (zeros-bound 160)).0
calc_volume-level_in (b ∷ bs) io made now reset_time raise_time bytes =
    let pcm = b ∷ bs in
    let meter : AudioVolumeMeter = record {
      in_out = io;
      recent_max_level = 0;
      last_time_stamp = made;
    } in
    let bound = samples_of-bound 160 (take 320 pcm) (All-take IsByte 320 pcm bytes) in
    let level =
      (calculate-peak meter (samples_of 160 (take 320 pcm)) now reset_time raise_time bound).0 in
    elim (Bool-cases (leb 320 (length pcm))) [
      | inl long ↦
          let (many, enough) = long_enough (length pcm) long in
          rw (many, enough, long) (ap some level)
      | inr short ↦
          let some_bytes : (suc (length bs) == 0) ≡ false = ground arith in
          rw (beyond (length bs) short, short, some_bytes) refl
    ]

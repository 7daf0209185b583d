-- ===== src/Audio/VolumeMeter/Peak.antt =====
-- What the peak meter reports.
use easy_voice_call.Base.{
  ℕ, ◌-◌, ◌*◌, ◌/◌, ◌^◌, ◌≤◌, ◌<◌, ◌≡◌, ◌∙◌, List, [], ◌∷◌, ltb, if◌then◌else◌, arith, All,
}
use easy_voice_call.Base.Int.{ℤ, abs}
use easy_voice_call.Audio.VolumeMeter.{
  AudioVolumeMeter, AudioIoVolume, loudest, level_of, calculate, max_volume_level, one_second,
}

abbrev pub largest : ℕ → ℕ → ℕ
largest a b = if ltb a b then b else a

-- The largest absolute value of a list, from its back.
abbrev pub peak : List ℤ → ℕ
peak [] = 0
peak (b ∷ bs) = largest (abs b) (peak bs)

loudest-peak : (m : ℕ) (bs : List ℤ) → loudest m bs ≡ largest m (peak bs)
unfolding loudest
loudest-peak m [] = ground arith
loudest-peak m (b ∷ bs) = loudest-peak (if ltb m (abs b) then abs b else m) bs ∙ ground arith

pub level_of-peak :
    (bs : List ℤ)
    → peak bs ≤ 2 ^ 15
    → level_of bs ≡ (if ltb (peak bs) 29492 then peak bs * 10 / 2 ^ 15 else 9)
unfolding level_of
level_of-peak bs h = rw (loudest-peak 0 bs) (ground arith)

-- A call of calculate: the samples and the three times.
pub record Call : Type 0 where
  pub buffer : List ℤ
  pub now : ℕ
  pub reset_time : ℕ
  pub raise_time : ℕ

pub calculate_call : AudioVolumeMeter → Call → AudioVolumeMeter × AudioIoVolume
unfolding calculate
calculate_call m c = calculate m c.buffer c.now c.reset_time c.raise_time

pub run : AudioVolumeMeter → List Call → List AudioIoVolume
unfolding calculate_call
run m [] = []
run m (c ∷ cs) = let (next, volume) = calculate_call m c in volume ∷ run next cs

-- A report that fits the meter's display of ten levels.
pub record IsInRange (v : AudioIoVolume) : Type 0 where
  pub level-recent : v.level ≤ v.recent_max_level
  pub recent-max : v.recent_max_level < max_volume_level

calculate-IsInRange :
    (m : AudioVolumeMeter) (c : Call)
    → m.recent_max_level < max_volume_level
    → IsInRange (calculate_call m c).1
unfolding calculate_call calculate level_of
calculate-IsInRange m c h = record { level-recent = ground arith; recent-max = ground arith }

calculate-recent :
    (m : AudioVolumeMeter) (c : Call)
    → m.recent_max_level < max_volume_level
    → (calculate_call m c).0.recent_max_level < max_volume_level
unfolding calculate_call calculate level_of
calculate-recent m c h = ground arith

-- Whatever is measured and whatever the clock says, each report has its level at most its recent
-- level, and that below ten, if the meter starts below ten.
pub run-IsInRange :
    (m : AudioVolumeMeter) (cs : List Call)
    → m.recent_max_level < max_volume_level
    → All IsInRange (run m cs)
unfolding run
run-IsInRange m [] h = tt
run-IsInRange m (c ∷ cs) h =
    (calculate-IsInRange m c h, run-IsInRange (calculate_call m c).0 cs (calculate-recent m c h))

-- The reported level is ten times the largest absolute value of the samples over 2^15, rounded down,
-- and 9 from a value of 29492 on; the recent level is the larger one of the last recent level and the
-- new level for a second after it was last set, and the new level later, if no sample exceeds 2^15.
pub calculate-peak :
    (m : AudioVolumeMeter) (bs : List ℤ) (now reset_time raise_time : ℕ)
    → peak bs ≤ 2 ^ 15
    → let volume = (calculate m bs now reset_time raise_time).1 in
      (volume.level ≡ (if ltb (peak bs) 29492 then peak bs * 10 / 2 ^ 15 else 9))
      × (volume.recent_max_level ≡ (
          if ltb one_second (now - m.last_time_stamp)
          then volume.level
          else largest m.recent_max_level volume.level))
unfolding calculate
calculate-peak m bs now reset_time raise_time h = (level_of-peak bs h, ground arith)

-- ===== src/Audio/VolumeMeter/Rms.antt =====
-- client_essential/audio_engine/AudioVolumeMeter_RMS.hpp, which no client uses. What the roots of its
-- floating-point computation come to for a buffer, as an integer, is a parameter.
use easy_voice_call.Base.{
  ℕ, ◌-◌, ◌%◌, ◌^◌, ◌<◌, ◌≡◌, refl, List, [], ◌∷◌, Option, none, some, ltb, if◌then◌else◌, arith,
  All,
}
use easy_voice_call.Base.Int.{ℤ}
use easy_voice_call.Audio.VolumeMeter.{AudioInOut, AudioIoVolume, max_volume_level, one_second}
use easy_voice_call.Audio.VolumeMeter.Peak.{IsInRange, Call}

-- The two static variables of calculate. All meters share them, and the first call of any sets them.
pub record Hold : Type 0 where
  pub recent_max_level : ℕ
  pub last_time_stamp : ℕ

pub start_hold : Option Hold → ℕ → ℕ → Hold
start_hold none current_level first_time = record {
  recent_max_level = current_level;
  last_time_stamp = first_time;
}
start_hold (some h) current_level first_time = h

module _ (rms : List ℤ → ℕ) where
  -- The level is an uint8_t.
  pub level_of : List ℤ → ℕ
  level_of buffer =
      let current_level = rms buffer % 2 ^ 8 in
      if ltb (max_volume_level - 1) current_level then max_volume_level - 1 else current_level

  -- The times are those of the calls of the clock: the first one is made once only.
  pub calculate : AudioInOut → Option Hold → List ℤ → ℕ → ℕ → ℕ → ℕ → Hold × AudioIoVolume
  unfolding level_of start_hold
  calculate direction statics buffer first_time now reset_time raise_time =
      let current_level = level_of buffer in
      let started = start_hold statics current_level first_time in
      let held : Hold =
        if ltb one_second (now - started.last_time_stamp)
        then record { recent_max_level = 0; last_time_stamp = reset_time }
        else started in
      let raised : Hold =
        if ltb held.recent_max_level current_level
        then record { recent_max_level = current_level; last_time_stamp = raise_time }
        else held in
      (
        raised,
        record {
          io = direction;
          level = current_level;
          recent_max_level = raised.recent_max_level;
        },
      )

  -- The calls of all meters of the process, each with its direction.
  pub run : Option Hold → List (AudioInOut × ℕ × Call) → List AudioIoVolume
  unfolding calculate
  run statics [] = []
  run statics ((direction, first_time, c) ∷ cs) =
      let (next, volume) =
        calculate direction statics c.buffer first_time c.now c.reset_time c.raise_time in
      volume ∷ run (some next) cs

  abbrev pub InBounds : Option Hold → Type 0
  InBounds none = Unit {0}
  InBounds (some h) = h.recent_max_level < max_volume_level

  level_of-bound : (buffer : List ℤ) → level_of buffer < max_volume_level
  unfolding level_of
  level_of-bound buffer = ground arith

  calculate-IsInRange :
      (direction : AudioInOut) (statics : Option Hold) (buffer : List ℤ)
      (first_time now reset_time raise_time : ℕ)
      → InBounds statics
      → IsInRange (calculate direction statics buffer first_time now reset_time raise_time).1
  unfolding calculate start_hold
  calculate-IsInRange direction none buffer first_time now reset_time raise_time h =
      let bound = level_of-bound buffer in
      record { level-recent = ground arith; recent-max = ground arith }
  calculate-IsInRange direction (some s) buffer first_time now reset_time raise_time h =
      let bound = level_of-bound buffer in
      record { level-recent = ground arith; recent-max = ground arith }

  calculate-recent :
      (direction : AudioInOut) (statics : Option Hold) (buffer : List ℤ)
      (first_time now reset_time raise_time : ℕ)
      → let (next, volume) =
          calculate direction statics buffer first_time now reset_time raise_time in
        volume.recent_max_level ≡ next.recent_max_level
  unfolding calculate
  calculate-recent direction statics buffer first_time now reset_time raise_time = refl

  -- Whichever meters are called and whatever they measure, from the start of the process, each report
  -- has its level at most its recent level, and that below ten.
  pub run-IsInRange :
      (statics : Option Hold) (cs : List (AudioInOut × ℕ × Call))
      → InBounds statics
      → All IsInRange (run statics cs)
  unfolding run
  run-IsInRange statics [] h = tt
  run-IsInRange statics ((direction, first_time, c) ∷ cs) h =
      let ranged =
        calculate-IsInRange direction statics c.buffer first_time c.now c.reset_time c.raise_time
          h in
      (
        ranged,
        run-IsInRange
            (some
              (calculate direction statics c.buffer first_time c.now c.reset_time c.raise_time).0)
            cs ranged.recent-max,
      )

  -- Within a second, a meter reports the recent level that another one's louder block has left.
  pub shared_hold :
      (direction other : AudioInOut) (loud quiet : List ℤ) (t first_time now r1 r2 r3 r4 : ℕ)
      → level_of quiet < level_of loud
      → t < now
      → now - t < one_second
      → let (left, volume) = calculate direction none loud t t r1 r2 in
        (calculate other (some left) quiet first_time now r3 r4).1.recent_max_level ≡ level_of loud
  unfolding calculate start_hold
  shared_hold direction other loud quiet t first_time now r1 r2 r3 r4 softer later soon =
      ground arith

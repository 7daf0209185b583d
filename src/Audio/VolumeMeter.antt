-- ===== src/Audio/VolumeMeter.antt =====
-- client_essential/audio_engine/AudioVolumeMeter_Peak.hpp and AudioIoVolume of include/AudioCommon.hpp.
-- Times are in nanoseconds. Where the clock steps back, the elapsed time is no more than a second, as
-- here, where a difference stops at 0.
pub mod Peak
pub mod Rms
use easy_voice_call.Base.{ℕ, ◌-◌, ◌*◌, ◌/◌, ◌%◌, ◌^◌, Bool, List, [], ◌∷◌, ltb, if◌then◌else◌}
use easy_voice_call.Base.Int.{ℤ, abs}

abbrev pub max_volume_level : ℕ
max_volume_level = 10

abbrev pub one_second : ℕ
one_second = 1000000000

pub data AudioInOut : Type 0 where
  input : AudioInOut
  output : AudioInOut

pub record AudioIoVolume : Type 0 where
  pub io : AudioInOut
  pub level : ℕ
  pub recent_max_level : ℕ

pub record AudioVolumeMeter : Type 0 where
  pub in_out : AudioInOut
  pub recent_max_level : ℕ
  pub last_time_stamp : ℕ

-- The loop over the samples, from the loudest one so far.
pub loudest : ℕ → List ℤ → ℕ
loudest current_l [] = current_l
loudest current_l (b ∷ bs) = loudest (if ltb current_l (abs b) then abs b else current_l) bs

-- The level is an uint8_t.
pub level_of : List ℤ → ℕ
unfolding loudest
level_of buffer =
    let current_level = loudest 0 buffer * max_volume_level / 2 ^ 15 % 2 ^ 8 in
    if ltb (max_volume_level - 1) current_level then max_volume_level - 1 else current_level

-- `now` is the time that is compared, the other two those of the later calls of the clock.
pub calculate : AudioVolumeMeter → List ℤ → ℕ → ℕ → ℕ → AudioVolumeMeter × AudioIoVolume
unfolding level_of
calculate m buffer now reset_time raise_time =
    let current_level = level_of buffer in
    let held : AudioVolumeMeter =
      if ltb one_second (now - m.last_time_stamp)
      then record m { recent_max_level = 0; last_time_stamp = reset_time }
      else m in
    let raised : AudioVolumeMeter =
      if ltb held.recent_max_level current_level
      then record held { recent_max_level = current_level; last_time_stamp = raise_time }
      else held in
    (
      raised,
      record {
        io = raised.in_out;
        level = current_level;
        recent_max_level = raised.recent_max_level;
      },
    )

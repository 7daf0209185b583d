-- ===== src/Audio/Alsa.antt =====
-- client_essential/Alsa.hpp: blocking reads and writes of the sound card over ALSA. The calls of ALSA
-- are arguments: a turn holds what they return in one round of a loop. The error numbers of errno.h
-- are parameters. With one channel of 16 bits a frame is a sample, and the buffers are lists of those,
-- whose sizes fit an int.
pub mod Transfer
pub mod Recording
pub mod Setup
use Prim.Native.String.{String}
use easy_voice_call.Base.{
  ℕ, zero, suc, ◌+◌, ◌-◌, ◌*◌, ◌/◌, Bool, true, false, not, ◌&&◌, ◌||◌, List, [], ◌∷◌, ◌++◌, Option,
  none, some, length, take, drop, ltb, if◌then◌else◌, memcpy,
}
use easy_voice_call.Base.Int.{ℤ, pos, negsuc, neg, eq, is_negative, magnitude}
use easy_voice_call.ReturnType.{ReturnType, of_int, of_text}

abbrev pub bytes_per_frame : ℕ
bytes_per_frame = 1 * 16 / 8

-- One round: what snd_pcm_readi or snd_pcm_writei returns, the samples that a read has put into the
-- buffer, what snd_pcm_prepare returns, and what the calls of snd_pcm_resume return.
pub record Turn : Type 0 where
  pub count : ℤ
  pub samples : List ℤ
  pub prepared : ℤ
  pub resumes : List ℤ

-- What the chain of tests does with a round: the loop goes on, returns -1, or still calls
-- snd_pcm_resume when the calls of the turn are over.
pub data Reaction : Type 0 where
  goes_on gives_up sleeps : Reaction

-- `result` is `none` while the loop still runs.
pub record Written : Type 0 where
  pub result : Option ReturnType
  pub played : List ℤ

pub record Filled : Type 0 where
  pub result : Option ReturnType
  pub buffer : List ℤ

module _ (eagain epipe estrpipe : ℕ) where
  unfoldable pub prepare : ℤ → Reaction
  prepare err = if is_negative err then gives_up else goes_on

  unfoldable pub resume : List ℤ → ℤ → Reaction
  unfolding prepare
  resume [] prepared = sleeps
  resume (err ∷ more) prepared =
      let later = resume more prepared in
      if eq err (neg eagain) then later else if is_negative err then prepare prepared else goes_on

  unfoldable pub react : ℕ → Turn → Reaction
  unfolding resume prepare
  react n_frames t =
      if eq t.count (neg eagain) || (not (is_negative t.count) && ltb (magnitude t.count) n_frames)
      then goes_on
      else if eq t.count (neg epipe)
      then prepare t.prepared
      else if eq t.count (neg estrpipe)
      then resume t.resumes t.prepared
      else if is_negative t.count
      then gives_up
      else goes_on

  -- nRead or nWritten where it is positive, and 0 elsewhere.
  unfoldable pub moved : Turn → ℕ
  moved t = if is_negative t.count then 0 else magnitude t.count

  pub write_loop : List Turn → ℕ → List ℤ → List ℤ → Written
  unfolding react moved
  write_loop ts zero p_buffer played = record { result = some (of_int (pos 0)); played = played }
  write_loop [] (suc n) p_buffer played = record { result = none; played = played }
  write_loop (t ∷ ts) (suc n) p_buffer played =
      let k = moved t in
      let rest = write_loop ts (suc n - k) (drop k p_buffer) (played ++ take k p_buffer) in
      elim (react (suc n) t) [
        | goes_on ↦ rest
        | gives_up ↦ record { result = some (of_int (negsuc 0)); played = played }
        | sleeps ↦ record { result = none; played = played }
      ]

  pub write : Bool → List Turn → List ℤ → Written
  unfolding write_loop
  write handler_play ts buffer =
      if not handler_play
      then record { result = some (of_int (negsuc 0)); played = [] }
      else write_loop ts (length buffer * 2 / bytes_per_frame) buffer []

  -- `off` is the number of samples by which pBuffer has been moved on.
  pub read_loop : List Turn → ℕ → ℕ → List ℤ → Filled
  unfolding react moved
  read_loop ts zero off buffer = record { result = some (of_int (pos 0)); buffer = buffer }
  read_loop [] (suc n) off buffer = record { result = none; buffer = buffer }
  read_loop (t ∷ ts) (suc n) off buffer =
      let k = moved t in
      let filled = memcpy buffer off (take k t.samples) in
      let rest = read_loop ts (suc n - k) (off + k) filled in
      elim (react (suc n) t) [
        | goes_on ↦ rest
        | gives_up ↦ record { result = some (of_int (negsuc 0)); buffer = filled }
        | sleeps ↦ record { result = none; buffer = filled }
      ]

  pub read : List Turn → List ℤ → Filled
  unfolding read_loop
  read ts buffer = read_loop ts (length buffer * 2 / bytes_per_frame) 0 buffer

-- What the nine calls that set up a device return, in their order.
pub record Configuring : Type 0 where
  pub params_malloc : ℤ
  pub params_any : ℤ
  pub set_access : ℤ
  pub set_format : ℤ
  pub set_rate_near : ℤ
  pub set_channels : ℤ
  pub set_periods_near : ℤ
  pub set_buffer_size_near : ℤ
  pub params : ℤ

-- A call whose negative result ends the function with a message.
unless_negative : ℤ → String → ReturnType → ReturnType
unless_negative err message rest = if is_negative err then of_text message else rest

pub configure_device : Configuring → ReturnType
unfolding unless_negative
configure_device c = unless_negative c.params_malloc "snd_pcm_hw_params_malloc != 0" (
    unless_negative c.params_any "snd_pcm_hw_params_any != 0" (
      unless_negative c.set_access "snd_pcm_hw_params_set_access != 0" (
        unless_negative c.set_format "snd_pcm_hw_params_set_format != 0" (
          unless_negative c.set_rate_near "snd_pcm_hw_params_set_rate_near != 0" (
            unless_negative c.set_channels "snd_pcm_hw_params_set_channels != 0" (
              unless_negative c.set_periods_near "snd_pcm_hw_params_set_periods_near != 0" (
                unless_negative c.set_buffer_size_near "snd_pcm_hw_params_set_buffer_size_near != 0"
                  (unless_negative c.params "snd_pcm_hw_params != 0" (of_int (pos 0))))))))))

-- What the two calls of snd_pcm_open return, and the calls for the two devices.
pub record Opening : Type 0 where
  pub open_capture : ℤ
  pub capture : Configuring
  pub open_play : ℤ
  pub play : Configuring

pub init : Opening → ReturnType
unfolding configure_device unless_negative
init o =
    let ret_input = configure_device o.capture in
    let ret_output = configure_device o.play in
    unless_negative o.open_capture "snd_pcm_open != 0" (
      if not ret_input.ok
      then ret_input
      else unless_negative o.open_play "snd_pcm_open != 0"
          (if not ret_output.ok then ret_output else of_int (pos 0)))

-- ===== src/Audio.antt =====
-- client_essential/audio_engine/ and include/AudioCommon.hpp: the audio engine.
pub mod VolumeMeter
pub mod Downstream
pub mod Pcm
pub mod InStub
pub mod Alsa
pub mod Endpoint
pub mod Fade
pub mod ZeroCrossingRate
pub mod Codec
use easy_voice_call.Base.{ℕ, List, replicate}
use easy_voice_call.Base.Int.{ℤ, pos}

-- One segment is 10 ms of speech at 16 kHz.
abbrev pub block_size : ℕ
block_size = 160

-- A block of samples at zero.
unfoldable pub silence : List ℤ
silence = replicate 160 (pos 0)

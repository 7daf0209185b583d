-- ===== src/Examples/Audio.antt =====
-- The audio engine of client_essential/audio_engine/ at concrete inputs.
use easy_voice_call.Base.{◌≡◌, refl, [], ◌∷◌, ◌++◌, some, arith, true, map}
use easy_voice_call.Base.Int.{pos}
use easy_voice_call.Audio.{silence}
use easy_voice_call.Audio.Downstream.{
  Segment, Engines, DownstreamProcessor, init, append, decode, fetch, samples_of,
}
use easy_voice_call.Audio.Downstream.Fetching.{Generates}
use easy_voice_call.Audio.Downstream.Queue.{Bounded, bounded}
use easy_voice_call.Audio.Downstream.Playback.{
  Run, begins, appends, fetches, Run-played, decoded, buffered, all_samples,
}
use easy_voice_call.NetPacket.{NetPacket, of_code, payload_type, timestamp, serial_number, payload}

-- A decoder that knows one sound, and filters that do nothing.
abbrev pub engines : Engines Unit
engines = record {
  opus_decode = λ x bytes. (some (map pos bytes ++ silence), tt);
  update_sid = λ x bytes. x;
  generate = λ x pcm was_cn. (pcm, x);
  buffer_farend = λ x pcm. some x;
  scaled = λ n v. v;
}

-- A packet of two bytes of speech.
abbrev pub spoken : NetPacket
spoken = record {
  whole_packet =
      0x65 ∷ 0x76 ∷ 0x63 ∷ 0x20 ∷ 0x76 ∷ 0x31 ∷ 0x2e ∷ 0x30 ∷ 1 ∷ 0 ∷ 0 ∷ 0 ∷ 7 ∷ 0 ∷ 1 ∷ 0 ∷ 0 ∷ 0
      ∷ 2 ∷ 0 ∷ 5 ∷ 6 ∷ [];
}

abbrev pub started : DownstreamProcessor (Bounded Segment) Unit
started = init bounded engines tt true

abbrev pub queued : DownstreamProcessor (Bounded Segment) Unit
queued = record started {
  decoded_buffer = record {
    size = 100;
    items = record { time = 1; samples = decoded bounded engines started spoken } ∷ [];
  };
  largest_received_media_data_timestamp = 1;
  last_received_audio_sn = 1;
}

-- One packet of speech, fetched once: silence is played first, the speech stands ready.
fetched_once :
    Run bounded engines
      (decoded bounded engines started spoken ∷ [])
      ((fetch bounded engines queued).0 ∷ [])
      (fetch bounded engines queued).1
unfolding append init decode payload_type of_code timestamp serial_number payload silence
fetched_once =
    fetches (appends (begins tt true) spoken (omega arith) refl)
      (record { time = 1; samples = decoded bounded engines started spoken }) [] refl

Run-played_example :
    let s = (fetch bounded engines queued).1 in
    (fetch bounded engines queued).0
      ∷ samples_of s.m1
      ∷ all_samples bounded engines (buffered bounded engines s)
    ≡ silence ∷ decoded bounded engines started spoken ∷ []
Run-played_example = Run-played bounded engines fetched_once

pub generates : Generates bounded engines
generates = record { enough = λ x pcm was_cn. refl }

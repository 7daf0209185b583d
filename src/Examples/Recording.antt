-- ===== src/Examples/Recording.antt =====
-- A call that is recorded and played in place of a microphone, at concrete inputs.
use easy_voice_call.Base.{refl, true, some, List, [], ◌∷◌, All, All-replicate, arith}
use easy_voice_call.Base.Int.{ℤ, pos}
use easy_voice_call.NetPacket.{of_code, payload_type, timestamp, serial_number, payload}
use easy_voice_call.Audio.{silence}
use easy_voice_call.Audio.Pcm.{IsInt16}
use easy_voice_call.Audio.Downstream.{
  Segment, init, append, decode, next_segment, conceal, predict, fade_out, fade_from,
}
use easy_voice_call.Audio.Downstream
use easy_voice_call.Audio.Downstream.Queue.{Bounded, bounded}
use easy_voice_call.Audio.Downstream.Playback.{decoded}
use easy_voice_call.Audio.Downstream.Dump.{Recorder, create, fetch, appended, dump_file}
use easy_voice_call.Audio.Downstream.Dump
use easy_voice_call.System.Recording.{Recorded, begins, appends, fetches, Replays, recorded-Replays}
use easy_voice_call.Examples.Audio.{engines, spoken, started, queued, generates}

abbrev opened : Recorder (Bounded Segment) Unit
opened = create bounded engines "call.pcm" true tt true

abbrev buffered : Recorder (Bounded Segment) Unit
buffered = record { processor = queued; dump = some [] }

abbrev speech : List ℤ
speech = decoded bounded engines started spoken

-- One packet of speech, and three fetches.
abbrev played_once : Recorder (Bounded Segment) Unit
played_once = (fetch bounded engines buffered).1

recorded : Recorded bounded engines (silence ∷ []) played_once
unfolding create dump_file Dump.append appended append init decode payload_type of_code timestamp
    serial_number payload silence fetch Downstream.fetch next_segment conceal
recorded = fetches (appends {t = buffered} (begins "call.pcm" tt true refl) spoken refl)

abbrev played_twice : Recorder (Bounded Segment) Unit
played_twice = (fetch bounded engines played_once).1

recorded_all :
    Recorded bounded engines
      (silence ∷ speech ∷ silence ∷ [])
      (fetch bounded engines played_twice).1
unfolding silence fetch Downstream.fetch next_segment conceal predict fade_out fade_from append init
    decode payload_type of_code payload
recorded_all = fetches (fetches recorded)

fit : All (All IsInt16) (silence ∷ speech ∷ silence ∷ [])
unfolding silence decode payload_type of_code payload
fit = (
  All-replicate IsInt16 160 (pos 0) (omega arith),
  (
    (omega arith, (omega arith, All-replicate IsInt16 158 (pos 0) (omega arith))),
    (All-replicate IsInt16 160 (pos 0) (omega arith), tt),
  ),
)

recorded-Replays_example :
    Replays bounded engines (fetch bounded engines played_twice).1 (silence ∷ speech ∷ [])
recorded-Replays_example =
    recorded-Replays bounded engines (silence ∷ speech ∷ []) silence generates recorded_all fit

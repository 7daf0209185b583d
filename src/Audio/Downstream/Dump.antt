-- ===== src/Audio/Downstream/Dump.antt =====
-- The dump file of client_essential/audio_engine/DownstreamProcessor.cpp: what is played, as 16-bit
-- samples, little-endian. A file that could be opened takes every write, and is read after the
-- destructor has closed it.
use Prim.Native.String.{String, len}
use easy_voice_call.Base.{
  ℕ, ◌++◌, ◌==◌, ◌≡◌, sym, ap, ◌∙◌, Option-cases, inl, inr, Bool, List, [], Option, none, some,
  if◌then◌else◌,
}
use easy_voice_call.Base.Int.{ℤ}
use easy_voice_call.NetPacket.{NetPacket}
use easy_voice_call.Audio.Pcm.{file_of}
use easy_voice_call.Audio.Downstream.{Segment, Engines, DownstreamProcessor}
use easy_voice_call.Audio.Downstream
use easy_voice_call.Audio.Downstream.Queue.{SpscQueue}

-- The processor and its `dumpMono16le16kHzPcmFile_`: a null pointer, or what the file holds.
pub record Recorder (Q X : Type 0) : Type 0 where
  pub processor : DownstreamProcessor Q X
  pub dump : Option (List ℕ)

-- What the constructor makes of the path, where the file can be opened or not.
unfoldable pub dump_file : String → Bool → Option (List ℕ)
dump_file audio_out_dump_path is_open =
    if len audio_out_dump_path == 0 then none else if is_open then some [] else none

-- The write at the end of `fetch`.
unfoldable pub write_dump : Option (List ℕ) → List ℤ → Option (List ℕ)
write_dump none out_data = none
write_dump (some bytes) out_data = some (bytes ++ file_of out_data)

module _ {Q X : Type 0} (queue : SpscQueue Segment Q) (dsp : Engines X) where
  unfoldable pub create : String → Bool → X → Bool → Recorder Q X
  unfolding dump_file
  create audio_out_dump_path is_open x need_aec = record {
    processor = Downstream.init queue dsp x need_aec;
    dump = dump_file audio_out_dump_path is_open;
  }

  unfoldable pub appended : Recorder Q X → Option (DownstreamProcessor Q X) → Option (Recorder Q X)
  appended s none = none
  appended s (some t) = some (record s { processor = t })

  unfoldable pub append : Recorder Q X → NetPacket → Option (Recorder Q X)
  unfolding appended
  append s p = appended s (Downstream.append queue dsp s.processor p)

  unfoldable pub fetch : Recorder Q X → List ℤ × Recorder Q X
  unfolding write_dump
  fetch s =
      let (out_data, t) = Downstream.fetch queue dsp s.processor in
      (out_data, record { processor = t; dump = write_dump s.dump out_data })

  -- A packet goes into the jitter buffer, and nothing into the file.
  pub processor-append :
      (s t : Recorder Q X) (p : NetPacket)
      → append s p ≡ some t
      → (t.dump ≡ s.dump) × (Downstream.append queue dsp s.processor p ≡ some t.processor)
  unfolding append appended
  processor-append s t p e = elim (Option-cases (Downstream.append queue dsp s.processor p)) [
    | inl none_e ↦ let stuck : none ≡ some t = ap (appended s) (sym none_e) ∙ e in absurd cc
    | inr (u, some_e) ↦
        let made : some (record s { processor = u }) ≡ some t = ap (appended s) (sym some_e) ∙ e in
        (cc, some_e ∙ cc)
  ]

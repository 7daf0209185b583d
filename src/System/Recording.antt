-- ===== src/System/Recording.antt =====
-- A call that is recorded by client_essential/audio_engine/DownstreamProcessor.cpp, and played in place
-- of a microphone by AudioInStub.hpp.
use Prim.Native.String.{String, len}
use mathlib.Core.List.{flatten}
use easy_voice_call.Base.{
  ℕ, ◌*◌, ◌≤◌, ◌==◌, ◌≡◌, refl, sym, ap, ◌∙◌, Bool, true, false, List, [], ◌∷◌, ◌++◌, Option, some,
  length, All, All-append, append-All, All-flatten, append_assoc, append-nil, arith, length-append,
}
use easy_voice_call.Base.Int.{ℤ}
use easy_voice_call.NetPacket.{NetPacket}
use easy_voice_call.Audio.{block_size}
use easy_voice_call.Audio.Pcm.{file_of, IsInt16, file_of-append}
use easy_voice_call.Audio.InStub.{AudioInStub, loaded, blocks, create-file_of}
use easy_voice_call.Audio.InStub
use easy_voice_call.Audio.InStub.Rounds.{AreBlocks, rounds, blocks-rounds}
use easy_voice_call.Audio.Downstream.{Segment, Engines}
use easy_voice_call.Audio.Downstream.Queue.{SpscQueue}
use easy_voice_call.Audio.Downstream.Fetching.{Generates, Reach, fetch-length}
use easy_voice_call.Audio.Downstream.Fetching
use easy_voice_call.Audio.Downstream.Dump.{
  Recorder, create, append, fetch, dump_file, write_dump, processor-append,
}

module _ {Q X : Type 0} (queue : SpscQueue Segment Q) (dsp : Engines X) where
  -- A run of a processor whose dump file could be opened: the segments played.
  pub data Recorded : (played : List (List ℤ)) (s : Recorder Q X) → Type 0 where
    begins :
        (path : String) (x : X) (need_aec : Bool)
        → (len path == 0) ≡ false
        → Recorded [] (create queue dsp path true x need_aec)
    appends :
        {played : List (List ℤ)} {s t : Recorder Q X}
        → Recorded played s
        → (p : NetPacket) → append queue dsp s p ≡ some t
        → Recorded played t
    fetches :
        {played : List (List ℤ)} {s : Recorder Q X}
        → Recorded played s
        → Recorded (played ++ ((fetch queue dsp s).0 ∷ [])) (fetch queue dsp s).1

  -- What a run leaves behind: its file holds what has been played, in whole blocks.
  record Holds (played : List (List ℤ)) (s : Recorder Q X) : Type 0 where
    reached : Reach queue dsp s.processor
    written : s.dump ≡ some (file_of (flatten played))
    whole : AreBlocks played

  flatten-append : (bs : List (List ℤ)) (b : List ℤ) → flatten (bs ++ (b ∷ [])) ≡ flatten bs ++ b
  unfolding flatten
  flatten-append [] b = append-nil b
  flatten-append (c ∷ bs) b =
      ap (◌++◌ c) (flatten-append bs b) ∙ sym (append_assoc c (flatten bs) b)

  Recorded-Holds :
      {played : List (List ℤ)} {s : Recorder Q X}
      → Generates queue dsp
      → Recorded played s
      → Holds played s
  unfolding create dump_file fetch write_dump flatten
  Recorded-Holds g (begins path x need_aec named) = record {
    reached = Fetching.begins x need_aec;
    written = rw named refl;
    whole = tt;
  }
  Recorded-Holds g (appends {s = s} {t = t} r p e) =
      let h = Recorded-Holds g r in
      let (same, made) = processor-append queue dsp s t p e in
      record {
        reached = Fetching.appends h.reached p made;
        written = same ∙ h.written;
        whole = h.whole;
      }
  Recorded-Holds g (fetches {played = played} {s = s} r) =
      let h = Recorded-Holds g r in
      let out = (fetch queue dsp s).0 in
      record {
        reached = Fetching.fetches h.reached;
        written =
            ap (λ (d : Option (List ℕ)). write_dump d out) h.written
            ∙ ap (λ (bytes : List ℕ). some bytes)
                (sym (file_of-append (flatten played) out)
                  ∙ ap file_of (sym (flatten-append played out)));
        whole = All-append _ played (out ∷ []) h.whole (fetch-length queue dsp g h.reached, tt);
      }

  -- What a dump file gives back in place of a microphone.
  pub record Replays (s : Recorder Q X) (bs : List (List ℤ)) : Type 0 where
    pub bytes : List ℕ
    pub stub : AudioInStub
    pub dumped : s.dump ≡ some bytes
    pub opened :
        (is_sine : Bool) (sine_wave : List ℤ)
        → InStub.create (some bytes) is_sine sine_wave ≡ loaded stub
    pub again : (n : ℕ) → blocks (n * length bs) stub ≡ rounds n bs

  -- A call that is recorded is played back by another client that takes the file in place of its
  -- microphone: the segments that were played, whatever came in and when it was fetched, but for the
  -- last one, in their order and over again, if the dump file could be opened, the comfort-noise
  -- generator makes as many samples as it is asked for, and the samples are of 16 bits.
  pub recorded-Replays :
      {s : Recorder Q X} (bs : List (List ℤ)) (last : List ℤ)
      → Generates queue dsp
      → Recorded (bs ++ (last ∷ [])) s
      → All (All IsInt16) (bs ++ (last ∷ []))
      → Replays s bs
  recorded-Replays {s} bs last g r fit =
      let h = Recorded-Holds g r in
      let (whole, end) = append-All _ bs (last ∷ []) h.whole in
      let pcm = flatten (bs ++ (last ∷ [])) in
      let parts = flatten-append bs last in
      let long : block_size ≤ length pcm =
        rw parts (omega (arith, length-append (flatten bs) last, end.0)) in
      record {
        bytes = file_of pcm;
        stub = record { whole_pcm = pcm; pos = 0 };
        dumped = h.written;
        opened = λ is_sine sine_wave.
            (create-file_of 0 pcm is_sine sine_wave (All-flatten IsInt16 (bs ++ (last ∷ [])) fit)
              long).0;
        again = λ n. rw parts (blocks-rounds n bs last whole end.0);
      }

-- ===== src/Audio/Downstream/Fetching.antt =====
-- The size of what the speaker plays, through a full jitter buffer and an empty one.
use easy_voice_call.Base.{
  ◌≡◌, refl, ◌∙◌, subst, Bool, List, [], ◌∷◌, Option, some, none, length, take, drop, length-take,
  length-append, length-drop, All, arith,
}
use easy_voice_call.Base.Int.{ℤ}
use easy_voice_call.NetPacket.{NetPacket}
use easy_voice_call.Audio.{silence, block_size}
use easy_voice_call.Audio.Downstream.{
  Segment, Engines, DownstreamProcessor, init, append, conceal, next_segment, fetch, fade_out,
  predict,
}
use easy_voice_call.Audio.Downstream.Queue.{SpscQueue}
use easy_voice_call.Audio.Downstream.Blocks.{
  IsBlock, Kept, length-silence, length-fade_from, Whole, init-Whole, append-Whole,
}

module _ {Q X : Type 0} (queue : SpscQueue Segment Q) (dsp : Engines X) where
  -- The comfort-noise generator makes as many samples as it is asked for.
  pub record Generates : Type 0 where
    pub enough :
        (x : X) (pcm : List ℤ) (was_cn : Bool) → length (dsp.generate x pcm was_cn).0 ≡ length pcm

  conceal-Whole :
      (a b : Option Segment) (s : DownstreamProcessor Q X)
      → Generates
      → Kept a
      → Kept b
      → Whole queue dsp s
      → IsBlock (conceal queue dsp a b s).0 × Whole queue dsp (conceal queue dsp a b s).1
  unfolding conceal predict fade_out
  conceal-Whole (some a) (some b) s g ka kb w =
      let tmp_cn = (dsp.generate s.engines silence s.last_is_cn_packet).0 in
      let made = g.enough s.engines silence s.last_is_cn_packet in
      (
        omega (
          arith,
          length-append (take 160 tmp_cn) (drop 80 (drop 80 silence)),
          length-take 160 tmp_cn,
          length-drop 80 (drop 80 silence),
          length-drop 80 silence,
          made,
          length-silence,
        ),
        record {
          blocks = w.blocks;
          m1_kept = record { whole = length-fade_from dsp.scaled 0 a.samples ∙ ka.whole };
          m2_kept = record { whole = length-fade_from dsp.scaled block_size b.samples ∙ kb.whole };
        },
      )
  conceal-Whole (some a) none s g ka kb w = (length-silence, w)
  conceal-Whole none b s g ka kb w = (length-silence, w)

  -- Whatever packets are appended and whenever segments are fetched, through a full jitter buffer and
  -- an empty one.
  pub data Reach : DownstreamProcessor Q X → Type 0 where
    begins : (x : X) (need_aec : Bool) → Reach (init queue dsp x need_aec)
    appends :
        {s t : DownstreamProcessor Q X}
        → Reach s
        → (p : NetPacket) → append queue dsp s p ≡ some t
        → Reach t
    fetches : {s : DownstreamProcessor Q X} → Reach s → Reach (fetch queue dsp s).1

  fetched :
      (o : Option Segment) (s : DownstreamProcessor Q X)
      → Generates
      → ((g : Segment) → o ≡ some g → IsBlock g)
      → Whole queue dsp s
      → IsBlock (next_segment queue dsp o s).0 × Whole queue dsp (next_segment queue dsp o s).1
  unfolding next_segment
  fetched none s g block w = conceal-Whole s.m1 s.m2 s g w.m1_kept w.m2_kept w
  fetched (some segment) s g block w = (block segment refl, w)

  popped :
      (q : Q) (contents : List Segment)
      → queue.contents q ≡ contents
      → All IsBlock contents
      → ((g : Segment) → (queue.pop q).0 ≡ some g → IsBlock g)
        × All IsBlock (queue.contents (queue.pop q).1)
  popped q [] e blocks =
      let missing = queue.pop-empty q e in
      (λ g found. absurd cc, rw (queue.contents-pop_empty q e) tt)
  popped q (g ∷ gs) e blocks =
      let (first, rest) = queue.pop-front q g gs e in
      (λ h found. let same : g ≡ h = cc in subst IsBlock same blocks.0, rw rest blocks.1)

  fetch-Whole :
      (s : DownstreamProcessor Q X)
      → Generates
      → Whole queue dsp s
      → (length (fetch queue dsp s).0 ≡ block_size) × Whole queue dsp (fetch queue dsp s).1
  unfolding fetch
  fetch-Whole s g w =
      let (first, rest) = queue.pop s.decoded_buffer in
      let (block, left) = popped s.decoded_buffer (queue.contents s.decoded_buffer) refl w.blocks in
      let popped_s : DownstreamProcessor Q X = record s { decoded_buffer = rest } in
      let (whole, after) =
        fetched first popped_s g block
          (record { blocks = left; m1_kept = w.m1_kept; m2_kept = w.m2_kept }) in
      (
        after.m1_kept.whole,
        record {
          blocks = after.blocks;
          m1_kept = record { whole = whole };
          m2_kept = after.m1_kept;
        },
      )

  Reach-Whole : {s : DownstreamProcessor Q X} → Generates → Reach s → Whole queue dsp s
  Reach-Whole g (begins x need_aec) = init-Whole queue dsp x need_aec
  Reach-Whole g (appends {s} {t} r p e) = append-Whole queue dsp s t p (Reach-Whole g r) e
  Reach-Whole g (fetches {s} r) = (fetch-Whole s g (Reach-Whole g r)).1

  -- Every fetch gives the sound card 160 samples, whatever packets have been appended before and
  -- however often segments have been fetched, through a full jitter buffer and an empty one, if the
  -- comfort-noise generator makes as many samples as it is asked for.
  pub fetch-length :
      {s : DownstreamProcessor Q X}
      → Generates
      → Reach s
      → length (fetch queue dsp s).0 ≡ block_size
  fetch-length {s} g r = (fetch-Whole s g (Reach-Whole g r)).0

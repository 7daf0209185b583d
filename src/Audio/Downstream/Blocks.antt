-- ===== src/Audio/Downstream/Blocks.antt =====
-- The size of the segments that the downstream processor holds.
use easy_voice_call.Base.{
  ℕ, suc, ◌≤◌, ◌≡◌, refl, ap, subst, Bool, true, false, List, [], ◌∷◌, Option, some, none, length,
  length-take, All, All-append, ltb, if◌then◌else◌, Bool-cases, inl, inr, arith,
}
use easy_voice_call.Base.Int.{ℤ}
use easy_voice_call.NetPacket.{
  NetPacket, PayloadType, audio_message, audio_message_cn, payload_type,
}
use easy_voice_call.Audio.{silence, block_size}
use easy_voice_call.Audio.Downstream.{
  Segment, Engines, DownstreamProcessor, init, decode, append, buffer_farend, enqueue, verify_order,
  samples_of, fade_from,
}
use easy_voice_call.Audio.Downstream.Queue.{SpscQueue}
use easy_voice_call.Audio.Downstream.Playback.{buffered}

abbrev pub IsBlock : Segment → Type 0
IsBlock g = length g.samples ≡ block_size

-- A segment that is kept, if any, is a block.
pub record Kept (o : Option Segment) : Type 0 where
  pub whole : length (samples_of o) ≡ block_size

pub length-silence : length silence ≡ block_size
unfolding silence
length-silence = refl

pub length-fade_from :
    (scaled : ℕ → ℤ → ℤ) (n : ℕ) (bs : List ℤ) → length (fade_from scaled n bs) ≡ length bs
unfolding fade_from
length-fade_from scaled n [] = refl
length-fade_from scaled n (b ∷ bs) = ap suc (length-fade_from scaled (suc n) bs)

module _ {Q X : Type 0} (queue : SpscQueue Segment Q) (dsp : Engines X) where
  -- All that is buffered, and the two segments that were fetched last, are blocks.
  pub record Whole (s : DownstreamProcessor Q X) : Type 0 where
    pub blocks : All IsBlock (buffered queue dsp s)
    pub m1_kept : Kept s.m1
    pub m2_kept : Kept s.m2

  no_segment : Kept none
  no_segment = record { whole = length-silence }

  pub init-Whole : (x : X) (need_aec : Bool) → Whole (init queue dsp x need_aec)
  unfolding init
  init-Whole x need_aec = record {
    blocks = rw (queue.contents-new 100) tt;
    m1_kept = no_segment;
    m2_kept = no_segment;
  }

  push-blocks :
      (g : Segment) (q : Q)
      → IsBlock g
      → All IsBlock (queue.contents q)
      → All IsBlock (queue.contents (queue.push g q))
  push-blocks g q block blocks =
      rw (queue.contents-push g q)
        (elim (Bool-cases (ltb (length (queue.contents q)) (queue.capacity q))) [
          | inl room ↦ rw room (All-append IsBlock (queue.contents q) (g ∷ []) blocks (block, tt))
          | inr full ↦ rw full blocks
        ])

  -- A change of the other fields.
  with_engines :
      (s : DownstreamProcessor Q X) (x : X) (was_cn : Bool)
      → Whole s
      → Whole (record s { engines = x; last_is_cn_packet = was_cn })
  with_engines s x was_cn w = record { blocks = w.blocks; m1_kept = w.m1_kept; m2_kept = w.m2_kept }

  decode-Whole :
      (kind : PayloadType) (s : DownstreamProcessor Q X) (p : NetPacket) (pcm : List ℤ)
      → Whole s
      → Whole (decode queue dsp kind s p pcm).1
  unfolding decode
  decode-Whole audio_message s p pcm w = with_engines s _ false w
  decode-Whole audio_message_cn s p pcm w = with_engines s _ true w
  decode-Whole _ s p pcm w = w

  if-Whole :
      (b : Bool) (o : Option X) (s t : DownstreamProcessor Q X)
      → Whole s
      → (if b then elim o [ none ↦ none | some x ↦ some (record s { engines = x }) ] else some s)
        ≡ some t
      → Whole t
  if-Whole true none s t w e = absurd cc
  if-Whole true (some x) s t w e =
      let same : record s { engines = x } ≡ t = cc in
      subst Whole same (with_engines s x s.last_is_cn_packet w)
  if-Whole false o s t w e = let same : s ≡ t = cc in subst Whole same w

  unless-Whole :
      (b : Bool) (s t : DownstreamProcessor Q X)
      → (b ≡ false → Whole s)
      → (if b then none else some s) ≡ some t
      → Whole t
  unless-Whole true s t w e = absurd cc
  unless-Whole false s t w e = let same : s ≡ t = cc in subst Whole same (w refl)

  enqueue-Whole :
      (pcm : List ℤ) (p : NetPacket) (o : Option (DownstreamProcessor Q X))
      (t : DownstreamProcessor Q X)
      → ((s : DownstreamProcessor Q X) → o ≡ some s → Whole s)
      → enqueue queue dsp pcm p o ≡ some t
      → Whole t
  unfolding enqueue verify_order
  enqueue-Whole pcm p none t w e = absurd cc
  enqueue-Whole pcm p (some s) t w e =
      let whole = w s refl in
      unless-Whole (ltb (length pcm) block_size) _ t
        (λ long. record {
          blocks =
              push-blocks _ s.decoded_buffer
                (let enough : block_size ≤ length pcm = ground arith in
                  omega (arith, length-take block_size pcm))
                whole.blocks;
          m1_kept = whole.m1_kept;
          m2_kept = whole.m2_kept;
        })
        e

  pub append-Whole :
      (s t : DownstreamProcessor Q X) (p : NetPacket)
      → Whole s
      → append queue dsp s p ≡ some t
      → Whole t
  unfolding append buffer_farend
  append-Whole s t p w e =
      let (pcm, u) = decode queue dsp (payload_type p) s p silence in
      let decoded = decode-Whole (payload_type p) s p silence w in
      enqueue-Whole pcm p (buffer_farend queue dsp u pcm) t
        (λ v taken. if-Whole u.need_aec (dsp.buffer_farend u.engines pcm) u v decoded taken) e

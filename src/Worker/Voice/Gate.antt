-- ===== src/Worker/Voice/Gate.antt =====
-- Whether speech or comfort noise is sent: the counter of voiced segments in Worker.cpp.
use easy_voice_call.Base.{
  ℕ, ◌+◌, ◌-◌, ◌^◌, ◌≤◌, ◌<◌, ◌≡◌, refl, sym, subst, ◌∙◌, Bool, false, ◌||◌, List, [], ◌∷◌, ◌++◌,
  ltb, ◌==◌, if◌then◌else◌, arith, All,
}
use easy_voice_call.Audio.VolumeMeter.{one_second}
use easy_voice_call.Worker.Voice.{VoiceState, count_voice, close_window, gate}

-- The detector's verdict on a segment, and the times of its two calls of the clock.
pub record Verdict : Type 0 where
  pub have_voice : Bool
  pub now : ℕ
  pub later : ℕ

abbrev pub voices : List Verdict → ℕ
voices [] = 0
voices (v ∷ vs) = (if v.have_voice then 1 else 0) + voices vs

abbrev pub IsWithin : ℕ → Verdict → Type 0
IsWithin stamp v = v.now - stamp ≤ one_second

voices-append :
    (vs : List Verdict) (v : Verdict)
    → voices (vs ++ (v ∷ [])) ≡ voices vs + (if v.have_voice then 1 else 0)
voices-append [] v = ground arith
voices-append (w ∷ vs) v = rw (voices-append vs v) (omega arith)

module _ {F : Type 0} where
  pub run : VoiceState F → List Verdict → VoiceState F
  unfolding gate
  run s [] = s
  run s (v ∷ vs) = run (gate s v.have_voice v.now v.later) vs

  gate-within :
      (s : VoiceState F) (v : Verdict)
      → s.vad_counter + (if v.have_voice then 1 else 0) < 2 ^ 8
      → v.now - s.last_time_stamp ≤ one_second
      → let t = gate s v.have_voice v.now v.later in
        (t.vad_counter ≡ s.vad_counter + (if v.have_voice then 1 else 0))
        × (t.send_opus ≡ (s.send_opus || v.have_voice))
        × (t.last_time_stamp ≡ s.last_time_stamp)
  unfolding gate count_voice close_window
  gate-within s v few h = (ground arith, ground arith, ground arith)

  gate-after :
      (s : VoiceState F) (v : Verdict)
      → s.vad_counter + (if v.have_voice then 1 else 0) < 2 ^ 8
      → one_second < v.now - s.last_time_stamp
      → let t = gate s v.have_voice v.now v.later in
        (t.send_opus ≡ (
          if s.vad_counter + (if v.have_voice then 1 else 0) == 0
          then false
          else (s.send_opus || v.have_voice)))
        × (t.vad_counter ≡ 0)
        × (t.last_time_stamp ≡ v.later)
  unfolding gate count_voice close_window
  gate-after s v few h = (ground arith, ground arith, ground arith)

  run-append :
      (s : VoiceState F) (vs : List Verdict) (v : Verdict)
      → run s (vs ++ (v ∷ [])) ≡ gate (run s vs) v.have_voice v.now v.later
  unfolding run
  run-append s [] v = refl
  run-append s (w ∷ vs) v = run-append (gate s w.have_voice w.now w.later) vs v

  -- The counter and the flag after segments within one second of the stamp.
  run-window :
      (s : VoiceState F) (vs : List Verdict)
      → s.vad_counter + voices vs < 2 ^ 8
      → All (IsWithin s.last_time_stamp) vs
      → ((run s vs).vad_counter ≡ s.vad_counter + voices vs)
        × ((run s vs).send_opus ≡ (s.send_opus || ltb 0 (voices vs)))
        × ((run s vs).last_time_stamp ≡ s.last_time_stamp)
  unfolding run gate
  run-window s [] few within = ground arith
  run-window s (v ∷ vs) few within =
      let t = gate s v.have_voice v.now v.later in
      let (counted, opened, stamped) = gate-within s v (ground arith) within.0 in
      let (counter, flag, stamp) =
        run-window t vs (rw counted (ground arith))
          (subst (λ (n : ℕ). All (IsWithin n) vs) (sym stamped) within.1) in
      (counter ∙ rw counted (ground arith), flag ∙ rw opened (ground arith), stamp ∙ stamped)

  -- Over one window of the counter, with at most 255 voiced segments, the segments are sent as speech
  -- from the next one on exactly if one of them was voiced: when the first segment after a second has
  -- come, the flag is set if a segment since the last reset was voiced, this one included, and cleared
  -- if none was; and the counter starts again.
  pub run-verdict :
      (s : VoiceState F) (vs : List Verdict) (last : Verdict)
      → s.vad_counter ≡ 0
      → voices vs < 255
      → All (IsWithin s.last_time_stamp) vs
      → one_second < last.now - s.last_time_stamp
      → let t = run s (vs ++ (last ∷ [])) in
        (t.send_opus ≡ ltb 0 (voices (vs ++ (last ∷ []))))
        × (t.vad_counter ≡ 0)
        × (t.last_time_stamp ≡ last.later)
  unfolding run gate
  run-verdict s vs last zeroed few within after =
      let (counter, flag, stamp) = run-window s vs (ground arith) within in
      let u = run s vs in
      let few_after : u.vad_counter + (if last.have_voice then 1 else 0) < 2 ^ 8 =
        rw counter (ground arith) in
      let (opened, cleared, stamped) = gate-after u last few_after (rw stamp after) in
      rw (run-append s vs last, voices-append vs last)
        (opened ∙ rw (counter, zeroed) (ground arith), cleared, stamped)

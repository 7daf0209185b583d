-- ===== src/Desktop/Display.antt =====
-- The volume bars and the duration that client_qt5/mainwindow.cpp shows.
use easy_voice_call.Base.{
  ℕ, zero, suc, ◌+◌, ◌*◌, ◌/◌, ◌%◌, ◌<◌, ◌≡◌, ◌⊎◌, refl, ◌∙◌, ◌&&◌, List, [], ◌∷◌, Option, none,
  some, ltb, if◌then◌else◌, ◌==◌, get_elem?, length, arith, Bool-cases, inl, inr, ltb-true,
}
use easy_voice_call.Audio.VolumeMeter.{AudioIoVolume, max_volume_level}
use easy_voice_call.Audio.VolumeMeter.Peak.{IsInRange}
use easy_voice_call.Desktop.{
  Pixmap, vertical_bar_empty, vertical_bar_half_full, vertical_bar_full, Duration, level_bars,
  set_bar, bars_of, duration_of,
}

level_bars-bar :
    (level i n j : ℕ)
    → get_elem? (level_bars level i n) j ≡ (
        if ltb j n
        then some (if ltb (i + j) level then vertical_bar_half_full else vertical_bar_empty)
        else none)
unfolding level_bars
level_bars-bar level i zero j = ground arith
level_bars-bar level i (suc n) zero = ground arith
level_bars-bar level i (suc n) (suc j) =
    let same : i + 1 + j ≡ i + suc j = omega arith in
    level_bars-bar level (i + 1) n j ∙ rw same (ground arith)

set_bar-bar :
    (bars : List Pixmap) (i j : ℕ) (x : Pixmap)
    → i < length bars
    → get_elem? (set_bar bars i x) j ≡ (if j == i then some x else get_elem? bars j)
unfolding set_bar
set_bar-bar [] i j x h = ground arith
set_bar-bar (b ∷ bs) zero zero x h = ground arith
set_bar-bar (b ∷ bs) zero (suc j) x h = ground arith
set_bar-bar (b ∷ bs) (suc i) zero x h = ground arith
set_bar-bar (b ∷ bs) (suc i) (suc j) x h = set_bar-bar bs i j x (omega arith) ∙ ground arith

length-level_bars : (level i n : ℕ) → length (level_bars level i n) ≡ n
unfolding level_bars
length-level_bars level i zero = refl
length-level_bars level i (suc n) = omega (arith, length-level_bars level (i + 1) n)

-- The bar `j` of a volume: half full below the level, full at a recent level above it, and empty
-- elsewhere; and no bar from ten on.
abbrev pub bar : AudioIoVolume → ℕ → Option Pixmap
bar v j =
    if ltb j max_volume_level
    then some (
        if ltb j v.level
        then vertical_bar_half_full
        else if j == v.recent_max_level && ltb v.level v.recent_max_level
        then vertical_bar_full
        else vertical_bar_empty)
    else none

-- For what the volume meter reports, the window draws its ten bars without leaving the array: half
-- full below the level, full at the recent level if that is above the level, and empty elsewhere.
pub bars_of-bar :
    (v : AudioIoVolume)
    → IsInRange v
    → (bars : List Pixmap) × (bars_of v ≡ some bars) × ((j : ℕ) → get_elem? bars j ≡ bar v j)
unfolding bars_of
bars_of-bar v ranged =
    let drawn = level_bars v.level 0 max_volume_level in
    let in_array = ltb-true v.recent_max_level max_volume_level ranged.recent-max in
    let inside : v.recent_max_level < length drawn =
      rw (length-level_bars v.level 0 max_volume_level) ranged.recent-max in
    let below = ranged.level-recent in
    let top = ranged.recent-max in
    elim (Bool-cases (ltb v.level v.recent_max_level)) [
      | inl above ↦ (
        set_bar drawn v.recent_max_level vertical_bar_full,
        rw (above, in_array) refl,
        λ j.
            set_bar-bar drawn v.recent_max_level j vertical_bar_full inside
            ∙ rw (level_bars-bar v.level 0 max_volume_level j) (ground arith),
      )
      | inr equal ↦
          (drawn, rw equal refl, λ j. level_bars-bar v.level 0 max_volume_level j ∙ ground arith)
    ]

-- A duration of a second or more is shown as hours, minutes below sixty and seconds below sixty that
-- add up to it, and a duration of zero is not shown.
pub duration_of-sum :
    (d : ℕ)
    → (duration_of d ≡ none) × (d ≡ 0)
      ⊎ ((r : Duration) × (duration_of d ≡ some r)
          × (r.minutes < 60)
          × (r.seconds < 60)
          × (r.hours * 3600 + r.minutes * 60 + r.seconds ≡ d))
unfolding duration_of
duration_of-sum d = elim (Bool-cases (d == 0)) [
  | inl zeroed ↦ inl (rw zeroed refl, ground arith)
  | inr later ↦ inr (
    record { hours = d / 3600; minutes = d / 60 % 60; seconds = d % 60 },
    rw later refl,
    omega arith,
    omega arith,
    omega arith,
  )
]

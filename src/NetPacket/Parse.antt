-- ===== src/NetPacket/Parse.antt =====
-- The wire format read off a stream of bytes: an independent description of what each receiver of
-- NetPacket.hpp accepts, and the packets that are well formed.
use easy_voice_call.Base.{
  ℕ, ◌+◌, ◌≤◌, ◌≡◌, ap, sym, ◌∙◌, List, ◌++◌, arith, length, take, Option, none, some, ltb,
  if◌then◌else◌, take-append, take-add-append, ◌<◌, ◌-◌, Bool-cases, inl, inr, length-append, slice,
  read_le, length-take, take-drop-take, ltb-false,
}
use easy_voice_call.NetPacket.{NetPacket, fix_header_length}

-- The payload size that the header announces.
abbrev pub size_field : List ℕ → ℕ
size_field xs = read_le (slice 18 2 xs)

-- The first packet of the bytes, if they hold a whole one.
unfoldable pub parse : List ℕ → Option NetPacket
parse xs =
    if ltb (length xs) fix_header_length
    then none
    else (if ltb (length xs) (fix_header_length + size_field xs)
        then none
        else some (record { whole_packet = take (fix_header_length + size_field xs) xs }))

-- The buffer holds a header, and as many bytes behind it as the header says.
abbrev pub IsWellFormed : NetPacket → Type 0
IsWellFormed p =
    (20 ≤ length p.whole_packet) × (length p.whole_packet ≡ 20 + size_field p.whole_packet)

pub slice-append :
    (off n : ℕ) (xs ys : List ℕ) → off + n ≤ length xs → slice off n (xs ++ ys) ≡ slice off n xs
slice-append off n xs ys h =
    sym (take-drop-take off n (length xs) (xs ++ ys) h) ∙ ap (slice off n) (take-append xs ys)

-- A well-formed packet is read back, whatever follows it.
pub parse-IsWellFormed :
    (p : NetPacket) (rest : List ℕ) → IsWellFormed p → parse (p.whole_packet ++ rest) ≡ some p
unfolding parse
parse-IsWellFormed p rest h =
    let whole = p.whole_packet in
    let same = slice-append 18 2 whole rest (omega arith) in
    rw (
      length-append whole rest,
      same,
      ← h.1,
      ltb-false (length whole + length rest) 20 (omega arith),
      ltb-false (length whole + length rest) (length whole) (omega arith),
      take-append whole rest,
    )

-- And what is read is well formed.
pub parse-some :
    (xs : List ℕ) (p : NetPacket)
    → parse xs ≡ some p
    → IsWellFormed p
      × (p.whole_packet ≡ take (20 + size_field xs) xs)
      × (20 + size_field xs ≤ length xs)
unfolding parse
parse-some xs p e =
    let n = 20 + size_field xs in ground (arith, length-take n xs, take-drop-take 18 2 n xs)

-- Bytes that end before the payload that they announce hold no packet.
pub parse_cut : (bytes : List ℕ) → length bytes < 20 + size_field bytes → parse bytes ≡ none
unfolding parse
parse_cut bytes h = ground arith

-- Of the first `n` bytes, a well-formed packet is read exactly if it ends among them.
pub parse-take-IsWellFormed :
    (n : ℕ) (p : NetPacket) (rest : List ℕ)
    → 20 ≤ n
    → IsWellFormed p
    → parse (take n (p.whole_packet ++ rest))
      ≡ (if ltb n (length p.whole_packet) then none else some p)
parse-take-IsWellFormed n p rest long h =
    let whole = p.whole_packet in
    elim (Bool-cases (ltb n (length whole))) [
      | inl over ↦
          let less : n < length whole = ground arith in
          rw over (
            parse_cut (take n (whole ++ rest)) (
              omega (
                arith,
                length-take n (whole ++ rest),
                less,
                h.1,
                ap read_le (take-drop-take 18 2 n (whole ++ rest) (omega arith)),
                ap read_le (slice-append 18 2 whole rest (omega (arith, h.0))),
              )))
      | inr inside ↦
          let fits : length whole ≤ n = ground arith in
          let split : take n (whole ++ rest) ≡ whole ++ take (n - length whole) rest =
            ap (λ (m : ℕ). take m (whole ++ rest)) (omega (arith, fits))
            ∙ take-add-append whole rest (n - length whole) in
          rw (inside, split) (parse-IsWellFormed p (take (n - length whole) rest) h)
    ]

-- ===== src/Server/TcpSession/Framing.antt =====
-- The packets that a session reads off its connection, however the buffer of the last one is reused.
use easy_voice_call.Base.{
  ℕ, zero, suc, ◌+◌, ◌≤◌, ◌<◌, ◌≡◌, refl, subst, ap, ◌∙◌, true, false, List, [], ◌∷◌, ◌++◌, Option,
  none, some, length, take, drop, ltb, if◌then◌else◌, All, arith, Bool-cases, Option-cases, inl,
  inr, length-take, length-drop, take-append-take, take-drop-take, drop-append, read_le,
  append_assoc,
}
use Prim.Native.Nat.add
use easy_voice_call.NetPacket.{NetPacket}
use easy_voice_call.NetPacket.Parse.{
  parse, size_field, IsWellFormed, parse-IsWellFormed, parse-some,
}
use easy_voice_call.NetPacket.Receive.{reread_header, reread_payload, payload_length_lem}
use easy_voice_call.Server.TcpSession.WriteQueue.{wire_bytes}
use easy_voice_call.Server.TcpSession.{read_payload, read_header, read_loop}

-- The packets that bytes hold one after the other, up to the first that is cut short.
unfoldable pub frames : ℕ → List ℕ → Option (List NetPacket)
frames zero input = none
frames (suc fuel) input = elim (parse input) [
  | none ↦ some []
  | some p ↦
      let more = frames fuel (drop (length p.whole_packet) input) in
      elim more [ none ↦ none | some ps ↦ some (p ∷ ps) ]
]

drop-add : (m n : ℕ) (xs : List ℕ) → drop n (drop m xs) ≡ drop (m + n) xs
drop-add zero n xs = rw add.zero
drop-add (suc m) zero [] = rw add.suc
drop-add (suc m) (suc n) [] = rw add.suc
drop-add (suc m) n (x ∷ xs) = rw add.suc (drop-add m n xs)

-- What one round reads is the packet that the bytes begin with, whatever the buffer held.
read_payload_lem :
    (input junk : List ℕ)
    → 20 ≤ length input
    → length junk ≡ size_field input
    → read_payload (record { whole_packet = take 20 input ++ junk }) (drop 20 input) ≡ (
        if ltb (length input) (20 + size_field input)
        then none
        else some (
          record { whole_packet = take (20 + size_field input) input },
          drop (20 + size_field input) input,
        ))
unfolding read_payload
read_payload_lem input junk long fits =
    let size = size_field input in
    let full : length (take 20 input) ≡ 20 = omega (arith, length-take 20 input) in
    rw (payload_length_lem (take 20 input) junk full, fits)
      (elim (Bool-cases (ltb (length input) (20 + size))) [
        | inl cut ↦
            let cut' : ltb (length (drop 20 input)) size ≡ true =
              ground (arith, length-drop 20 input) in
            rw (cut, cut')
        | inr whole ↦
            let whole' : ltb (length (drop 20 input)) size ≡ false =
              ground (arith, length-drop 20 input) in
            let same_length : length junk ≡ length (take size (drop 20 input)) =
              ground (arith, length-drop 20 input, length-take size (drop 20 input)) in
            rw (
              whole,
              whole',
              reread_payload (take 20 input) full junk (take size (drop 20 input)) same_length,
              take-append-take 20 size input,
              drop-add 20 size input,
            )
      ])

read_header_lem :
    (old : NetPacket) (input : List ℕ)
    → 20 ≤ length old.whole_packet
    → read_header old input ≡ (
        if ltb (length input) 20
        then none
        else (if ltb (length input) (20 + size_field input)
            then none
            else some (
              record { whole_packet = take (20 + size_field input) input },
              drop (20 + size_field input) input,
            )))
unfolding read_header
read_header_lem old input h = elim (Bool-cases (ltb (length input) 20)) [
  | inl short ↦ rw short
  | inr long ↦
      let enough : 20 ≤ length input = ground arith in
      let full : length (take 20 input) ≡ 20 = omega (arith, length-take 20 input) in
      let (junk, fits, same) = reread_header (take 20 input) full old.whole_packet h in
      rw (long, same)
        (read_payload_lem input junk enough
          (fits ∙ ap read_le (take-drop-take 18 2 20 input (omega arith))))
]

-- In one round: what is answered is what the description of the format reads, the rest is what follows
-- the packet, and the buffer is long enough for the next header.
abbrev Reads : List ℕ → Option (NetPacket × List ℕ) → Type 0
Reads input none = parse input ≡ none
Reads input (some (p, rest)) =
    (parse input ≡ some p)
    × (rest ≡ drop (length p.whole_packet) input)
    × (20 ≤ length p.whole_packet)
    × (length p.whole_packet ≤ length input)

read_header-Reads :
    (old : NetPacket) (input : List ℕ)
    → 20 ≤ length old.whole_packet
    → Reads input (read_header old input)
unfolding parse
read_header-Reads old input h =
    rw (read_header_lem old input h) (ground (arith, length-take (20 + size_field input) input))

-- What one round reads is well formed.
pub read_header-formed :
    (old : NetPacket) (input : List ℕ) (msg : NetPacket) (rest : List ℕ)
    → 20 ≤ length old.whole_packet
    → read_header old input ≡ some (msg, rest)
    → IsWellFormed msg
read_header-formed old input msg rest h e =
    let read = subst (Reads input) e (read_header-Reads old input h) in
    (parse-some input msg read.0).0

-- A round that begins at a well-formed packet reads it, and leaves what follows it.
pub read_header-next :
    (old p : NetPacket) (rest : List ℕ)
    → 20 ≤ length old.whole_packet
    → IsWellFormed p
    → read_header old (p.whole_packet ++ rest) ≡ some (p, rest)
read_header-next old p rest h formed =
    go (read_header old (p.whole_packet ++ rest)) (read_header-Reads old (p.whole_packet ++ rest) h)
  where
    found : parse (p.whole_packet ++ rest) ≡ some p
    found = parse-IsWellFormed p rest formed

    go : (r : Option (NetPacket × List ℕ)) → Reads (p.whole_packet ++ rest) r → r ≡ some (p, rest)
    go none missing = let f = found in absurd cc
    go (some (q, more)) (read, behind, long, inside) =
        let f = found in
        let same : q ≡ p = cc in
        let left : more ≡ rest =
          behind
          ∙ ap (λ (m : NetPacket). drop (length m.whole_packet) (p.whole_packet ++ rest)) same
          ∙ drop-append p.whole_packet rest in
        cc

-- From any buffer that holds a header, the session hands on the packets that the description of the
-- format finds in its input, in their order, and nothing else: no byte of an earlier packet stays.
pub read_loop-frames :
    (fuel : ℕ) (old : NetPacket) (input : List ℕ)
    → 20 ≤ length old.whole_packet
    → read_loop fuel old input ≡ frames fuel input
unfolding read_loop frames
read_loop-frames zero old input h = refl
read_loop-frames (suc fuel) old input h =
    go (read_header old input) (read_header-Reads old input h) refl
      (λ p rest long. read_loop-frames fuel p rest long)
  where
    go :
        (r : Option (NetPacket × List ℕ))
        → Reads input r
        → read_header old input ≡ r
        → ((p : NetPacket) (rest : List ℕ)
            → 20 ≤ length p.whole_packet
            → read_loop fuel p rest ≡ frames fuel rest)
        → read_loop (suc fuel) old input ≡ frames (suc fuel) input
    go none r e ih = rw (e, r, read_loop, frames)
    go (some (p, rest)) (e1, e2, e3, e4) e ih = rw (e, e1, read_loop, frames, ih p rest e3, e2)

frames-some :
    (fuel : ℕ) (input : List ℕ) (p : NetPacket) (ps : List NetPacket)
    → parse input ≡ some p
    → frames fuel (drop (length p.whole_packet) input) ≡ some ps
    → frames (suc fuel) input ≡ some (p ∷ ps)
unfolding frames
frames-some fuel input p ps e more = rw (e, frames, more)

frames-wire_bytes :
    (fuel : ℕ) (ps : List NetPacket) (rest : List ℕ)
    → All IsWellFormed ps
    → parse rest ≡ none
    → length ps < fuel
    → frames fuel (wire_bytes ps ++ rest) ≡ some ps
unfolding frames
frames-wire_bytes zero ps rest w e h = absurd (omega arith)
frames-wire_bytes (suc fuel) [] rest w e h = rw (e, frames)
frames-wire_bytes (suc fuel) (p ∷ ps) rest w e h =
    let whole = p.whole_packet in
    let behind = wire_bytes ps ++ rest in
    frames-some fuel ((whole ++ wire_bytes ps) ++ rest) p ps
      (rw (append_assoc whole (wire_bytes ps) rest) (parse-IsWellFormed p behind w.0))
      (rw (append_assoc whole (wire_bytes ps) rest, drop-append whole behind)
        (frames-wire_bytes fuel ps rest w.1 e (omega arith)))

-- Well-formed packets written one after the other are read back, all of them and in their order, with
-- at most an incomplete packet behind them, whatever the buffer held, in one round more than packets.
pub read_loop-wire_bytes :
    (fuel : ℕ) (old : NetPacket) (ps : List NetPacket) (rest : List ℕ)
    → 20 ≤ length old.whole_packet
    → All IsWellFormed ps
    → parse rest ≡ none
    → length ps < fuel
    → read_loop fuel old (wire_bytes ps ++ rest) ≡ some ps
read_loop-wire_bytes fuel old ps rest h w e enough =
    read_loop-frames fuel old (wire_bytes ps ++ rest) h ∙ frames-wire_bytes fuel ps rest w e enough

frames_total :
    (fuel : ℕ) (input : List ℕ)
    → length input < fuel
    → (ps : List NetPacket) × (frames fuel input ≡ some ps)
unfolding frames
frames_total zero input h = absurd (omega arith)
frames_total (suc fuel) input h = elim (Option-cases (parse input)) [
  | inl e ↦ ([], rw (e, frames))
  | inr (p, e) ↦
      let (whole, cut, fits) = parse-some input p e in
      let (ps, more) =
        frames_total fuel (drop (length p.whole_packet) input)
          (omega (arith, length-drop (length p.whole_packet) input)) in
      (p ∷ ps, frames-some fuel input p ps e more)
]

-- On any input, well formed or not, the session ends after finitely many packets: fuel above the
-- number of bytes is enough.
pub read_loop_total :
    (fuel : ℕ) (old : NetPacket) (input : List ℕ)
    → 20 ≤ length old.whole_packet
    → length input < fuel
    → (ps : List NetPacket) × (read_loop fuel old input ≡ some ps)
read_loop_total fuel old input h enough =
    let (ps, e) = frames_total fuel input enough in (ps, read_loop-frames fuel old input h ∙ e)

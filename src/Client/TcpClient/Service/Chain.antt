-- ===== src/Client/TcpClient/Service/Chain.antt =====
-- The chain of readHeader and readPayload of client_essential/TcpClient.hpp, from any point of it on.
use easy_voice_call.Base.{
  ℕ, zero, suc, ◌≡◌, refl, ap, sym, ◌∙◌, false, List, [], ◌∷◌, ◌++◌, Option, none, some, length,
  take, drop, ltb, ltb-false, arith, memcpy, take-append, drop-append, length-append, Option-cases,
  inl, inr,
}
use easy_voice_call.NetPacket.{NetPacket, fix_header_length, check_header, payload_length}
use easy_voice_call.Client.TcpClient.{read_loop, read_header, read_payload}
use easy_voice_call.Client.TcpClient.Service.{Reading, idle, connects, reads_header, reads_payload}

abbrev pub prepend : NetPacket → Option (List NetPacket) → Option (List NetPacket)
prepend p none = none
prepend p (some ps) = some (p ∷ ps)

abbrev pub after_payload : ℕ → Option (NetPacket × List ℕ) → Option (List NetPacket)
after_payload fuel none = some []
after_payload fuel (some (msg, rest)) = prepend msg (read_loop fuel msg rest)

-- What is read off further bytes from a point of the chain on.
unfoldable pub loop : Reading → ℕ → NetPacket → List ℕ → Option (List NetPacket)
loop idle fuel msg bytes = some []
loop (connects o) fuel msg bytes = read_loop fuel msg bytes
loop (reads_header o) fuel msg bytes = read_loop fuel msg bytes
loop (reads_payload o) fuel msg bytes = after_payload fuel (read_payload msg bytes)

pub read_loop-round :
    (fuel : ℕ) (msg : NetPacket) (bytes : List ℕ)
    → read_loop (suc fuel) msg bytes ≡ after_payload fuel (read_header msg bytes)
unfolding read_loop
read_loop-round fuel msg bytes = elim (Option-cases (read_header msg bytes)) [
  | inl e ↦ rw (e, read_loop) refl
  | inr ((next, rest), e) ↦ elim (Option-cases (read_loop fuel next rest)) [
    | inl f ↦ rw (e, f, read_loop) refl
    | inr (ps, f) ↦ rw (e, f, read_loop) refl
  ]
]

-- More fuel reads the same.
prepend-suc :
    (msg : NetPacket) (o o' : Option (List NetPacket)) (ps : List NetPacket)
    → ((qs : List NetPacket) → o ≡ some qs → o' ≡ some qs)
    → prepend msg o ≡ some ps
    → prepend msg o' ≡ some ps
prepend-suc msg none o' ps h e = cc
prepend-suc msg (some qs) o' ps h e = ap (prepend msg) (h qs refl) ∙ e

after_payload-suc :
    (fuel : ℕ) (r : Option (NetPacket × List ℕ)) (ps : List NetPacket)
    → ((msg : NetPacket) (rest : List ℕ) (qs : List NetPacket)
        → read_loop fuel msg rest ≡ some qs
        → read_loop (suc fuel) msg rest ≡ some qs)
    → after_payload fuel r ≡ some ps
    → after_payload (suc fuel) r ≡ some ps
after_payload-suc fuel none ps h e = e
after_payload-suc fuel (some (msg, rest)) ps h e =
    prepend-suc msg (read_loop fuel msg rest) (read_loop (suc fuel) msg rest) ps (h msg rest) e

pub read_loop-suc :
    (fuel : ℕ) (msg : NetPacket) (bytes : List ℕ) (ps : List NetPacket)
    → read_loop fuel msg bytes ≡ some ps
    → read_loop (suc fuel) msg bytes ≡ some ps
unfolding read_loop
read_loop-suc zero msg bytes ps e = cc
read_loop-suc (suc fuel) msg bytes ps e =
    read_loop-round (suc fuel) msg bytes
    ∙ after_payload-suc fuel (read_header msg bytes) ps (read_loop-suc fuel)
        (sym (read_loop-round fuel msg bytes) ∙ e)

pub loop-suc :
    (r : Reading) (fuel : ℕ) (msg : NetPacket) (bytes : List ℕ) (ps : List NetPacket)
    → loop r fuel msg bytes ≡ some ps
    → loop r (suc fuel) msg bytes ≡ some ps
unfolding loop
loop-suc idle fuel msg bytes ps e = e
loop-suc (connects o) fuel msg bytes ps e = read_loop-suc fuel msg bytes ps e
loop-suc (reads_header o) fuel msg bytes ps e = read_loop-suc fuel msg bytes ps e
loop-suc (reads_payload o) fuel msg bytes ps e =
    after_payload-suc fuel (read_payload msg bytes) ps (read_loop-suc fuel) e

-- The bytes of a header, and those of a payload, on their way through the chain.
pub header_bytes :
    (msg : NetPacket) (bytes rest : List ℕ)
    → length bytes ≡ fix_header_length
    → read_header msg (bytes ++ rest)
      ≡ read_payload
          (check_header (record { whole_packet = memcpy msg.whole_packet 0 bytes })).0
          rest
unfolding read_header check_header
header_bytes msg bytes rest whole =
    let long : ltb (length (bytes ++ rest)) fix_header_length ≡ false =
      ltb-false _ _ (omega (arith, length-append {0} bytes rest)) in
    let taken : take fix_header_length (bytes ++ rest) ≡ bytes =
      ap (λ (n : ℕ). take n (bytes ++ rest)) (sym whole) ∙ take-append bytes rest in
    let left : drop fix_header_length (bytes ++ rest) ≡ rest =
      ap (λ (n : ℕ). drop n (bytes ++ rest)) (sym whole) ∙ drop-append bytes rest in
    rw (long, taken, left) refl

pub payload_bytes :
    (msg : NetPacket) (bytes rest : List ℕ)
    → length bytes ≡ payload_length msg
    → read_payload msg (bytes ++ rest)
      ≡ some (record { whole_packet = memcpy msg.whole_packet fix_header_length bytes }, rest)
unfolding read_payload
payload_bytes msg bytes rest whole =
    let long : ltb (length (bytes ++ rest)) (payload_length msg) ≡ false =
      ltb-false _ _ (omega (arith, whole, length-append {0} bytes rest)) in
    let taken : take (payload_length msg) (bytes ++ rest) ≡ bytes =
      ap (λ (n : ℕ). take n (bytes ++ rest)) (sym whole) ∙ take-append bytes rest in
    let left : drop (payload_length msg) (bytes ++ rest) ≡ rest =
      ap (λ (n : ℕ). drop n (bytes ++ rest)) (sym whole) ∙ drop-append bytes rest in
    rw (long, taken, left) refl

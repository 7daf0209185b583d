-- ===== src/Server/Echo.antt =====
-- server/UdpServer.hpp: the echo server over UDP. Its handlers run one after the other; what
-- async_receive_from gives, and that an async_send_to completes, are the steps.
use easy_voice_call.Base.{
  ℕ, zero, suc, ◌≤◌, ◌≡◌, refl, ap, ◌∙◌, Bool, not, ◌&&◌, List, [], ◌∷◌, ◌++◌, length, take, ltb,
  if◌then◌else◌, memcpy, overlay, arith, Bool-cases, inl, inr, length-overlay, length-take,
  overlay-drop, take-append,
}
use easy_voice_call.Server.RawUdp.{Endpoint}

abbrev pub max_length : ℕ
max_length = 1024

-- One completion of async_receive_from: an error, or a datagram, which is cut to the buffer.
pub record Arrival : Type 0 where
  pub failed : Bool
  pub sender : Endpoint
  pub datagram : List ℕ

pub record Echo : Type 0 where
  pub to : Endpoint
  pub bytes : List ℕ

pub record UdpServer : Type 0 where
  pub sender_endpoint : Endpoint
  pub data_buffer : List ℕ

pub do_send : UdpServer → ℕ → Echo
do_send s n = record { to = s.sender_endpoint; bytes = take n s.data_buffer }

-- do_receive and its handler, with the sends that it starts; then it waits for the next datagram.
pub do_receive : UdpServer → Arrival → UdpServer × List Echo
unfolding do_send
do_receive s a =
    let received = take max_length a.datagram in
    let filled : UdpServer = record {
      sender_endpoint = a.sender;
      data_buffer = memcpy s.data_buffer 0 received;
    } in
    if a.failed
    then (s, [])
    else if ltb 0 (length received)
    then (filled, do_send filled (length received) ∷ [])
    else (filled, [])

pub run : UdpServer → List Arrival → List Echo
unfolding do_receive
run s [] = []
run s (a ∷ more) = let (next, sent) = do_receive s a in sent ++ run next more

-- What should be echoed.
abbrev pub echoes : List Arrival → List Echo
echoes [] = []
echoes (a ∷ more) =
    if not a.failed && ltb 0 (length a.datagram)
    then record { to = a.sender; bytes = take max_length a.datagram } ∷ echoes more
    else echoes more

take-overlay :
    (dst src : List ℕ) → length src ≤ length dst → take (length src) (overlay dst src) ≡ src
take-overlay dst src h = ap (take (length src)) (overlay-drop dst src h) ∙ take-append src _

any-take : (n : ℕ) (xs : List ℕ) → 1 ≤ n → ltb 0 (length (take n xs)) ≡ ltb 0 (length xs)
any-take zero xs h = absurd (omega arith)
any-take (suc n) [] h = refl
any-take (suc n) (x ∷ xs) h = ground arith

-- Every datagram that arrives without an error and is not empty is sent back to its sender, once, cut
-- to 1024 bytes, in the order of arrival, and nothing else is sent: no byte of an earlier datagram.
pub run-echoes :
    (s : UdpServer) (arrivals : List Arrival)
    → length s.data_buffer ≡ max_length
    → run s arrivals ≡ echoes arrivals
unfolding run do_receive do_send
run-echoes s [] h = refl
run-echoes s (a ∷ more) h =
    let received = take max_length a.datagram in
    let filled : UdpServer = record {
      sender_endpoint = a.sender;
      data_buffer = overlay s.data_buffer received;
    } in
    let rest = run-echoes filled more (length-overlay s.data_buffer received ∙ h) in
    let same =
      take-overlay s.data_buffer received (omega (arith, length-take max_length a.datagram)) in
    elim (Bool-cases a.failed) [
      | inl failed ↦ rw failed (run-echoes s more h)
      | inr arrived ↦
          rw (arrived, ← any-take max_length a.datagram (omega arith))
            (elim (Bool-cases (ltb 0 (length received))) [
              | inl some_bytes ↦
                  rw (some_bytes, same)
                    (ap (λ (es : List Echo). record { to = a.sender; bytes = received } ∷ es) rest)
              | inr nothing ↦ rw nothing rest
            ])
    ]

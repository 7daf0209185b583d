-- ===== src/NetPacket/Receive.antt =====
-- The steps by which every receiver fills a packet: the header into a fresh buffer, `checkHeader`, and
-- the payload behind it.
use easy_voice_call.Base.{
  ℕ, ◌+◌, ◌-◌, ◌≤◌, ◌≡◌, ap, sym, ◌∙◌, true, List, ◌++◌, arith, length, take, drop, replicate,
  length-take, length-drop, length-append, length-replicate, overlay_all, memcpy, memcpy-append,
  slice, length-memcpy, length-resize, resize_grow, take-drop-take, take-append-take,
  take-add-append, overlay-drop, append_assoc, read_le,
}
use easy_voice_call.NetPacket.{
  NetPacket, PayloadType, fix_header_length, new, init, check_header, payload_length,
}
use easy_voice_call.NetPacket.Parse.{size_field, slice-append}

-- A packet without payload is as long as the header, whatever the version string.
pub length-new :
    (git_tag : List ℕ) (t : PayloadType) (sn up : ℕ)
    → length (new git_tag t sn up).whole_packet ≡ 20
unfolding new init
length-new git_tag t sn up = simp (length-memcpy, length-resize)

module _ (bytes : List ℕ) (long : 20 ≤ length bytes) where
  abbrev headed : NetPacket
  headed = record { whole_packet = take 20 bytes ++ replicate (size_field bytes) 0 }

  pub receive_header :
      (fresh : List ℕ)
      → length fresh ≡ 20
      → check_header (record { whole_packet = memcpy fresh 0 (slice 0 fix_header_length bytes) })
        ≡ (headed, true)
  unfolding check_header
  receive_header fresh h =
      let full : length (take 20 bytes) ≡ 20 = omega (arith, length-take 20 bytes) in
      rw
        (
          overlay_all fresh (take 20 bytes) (omega arith),
          take-drop-take 18 2 20 bytes (omega arith),
          resize_grow 0 (20 + size_field bytes) (take 20 bytes) (omega arith),
          full,
        )
        (ap (λ (n : ℕ). (record { whole_packet = take 20 bytes ++ replicate n 0 }, true))
          (omega arith))

  pub payload_length-headed : payload_length headed ≡ size_field bytes
  unfolding payload_length
  payload_length-headed = omega (
    arith,
    length-append (take 20 bytes) (replicate (size_field bytes) 0),
    length-take 20 bytes,
    length-replicate {A = ℕ} (size_field bytes) 0,
  )

  pub receive_payload :
      20 + size_field bytes ≤ length bytes
      → memcpy headed.whole_packet fix_header_length
          (slice fix_header_length (size_field bytes) bytes)
        ≡ take (20 + size_field bytes) bytes
  receive_payload h =
      memcpy-append (take 20 bytes) (replicate (size_field bytes) 0) 20
        (slice 20 (size_field bytes) bytes) (omega (arith, length-take 20 bytes))
      ∙ ap (◌++◌ (take 20 bytes)) (
          overlay_all _ (slice 20 (size_field bytes) bytes) (
            omega (
              arith,
              length-replicate {A = ℕ} (size_field bytes) 0,
              length-take (size_field bytes) (drop 20 bytes),
              length-drop 20 bytes,
            )))
      ∙ take-append-take 20 (size_field bytes) bytes

-- The same into a buffer that held an earlier packet, as the TCP sessions do.
module _ (header : List ℕ) (full : length header ≡ 20) where
  pub reread_header :
      (old : List ℕ)
      → 20 ≤ length old
      → (junk : List ℕ) × (length junk ≡ size_field header)
        × (check_header (record { whole_packet = memcpy old 0 header })
            ≡ (record { whole_packet = header ++ junk }, true))
  unfolding check_header
  reread_header old h =
      let size = size_field header in
      let tail = drop (length header) old in
      let whole = header ++ tail in
      let pad = replicate {A = ℕ} (20 + size - length whole) 0 in
      let same_size : size_field whole ≡ size =
        ap read_le (slice-append 18 2 header tail (omega arith)) in
      (
        take size tail ++ pad,
        omega (
          arith,
          length-append (take size tail) pad,
          length-take size tail,
          length-replicate {A = ℕ} (20 + size - length whole) 0,
          length-append header tail,
          length-drop (length header) old,
        ),
        rw (overlay-drop old header (omega arith), same_size)
            (ap (λ (w : List ℕ). (record { whole_packet = w }, true))
              (ap (λ (n : ℕ). take (n + size) whole ++ pad) (sym full)
                ∙ ap (λ (w : List ℕ). w ++ pad) (take-add-append header tail size)
                ∙ append_assoc header (take size tail) pad)),
      )

  pub reread_payload :
      (junk payload : List ℕ)
      → length junk ≡ length payload
      → memcpy (header ++ junk) fix_header_length payload ≡ header ++ payload
  reread_payload junk payload h =
      memcpy-append header junk 20 payload (omega arith)
      ∙ ap (◌++◌ header) (overlay_all junk payload h)

pub payload_length_lem :
    (header junk : List ℕ)
    → length header ≡ 20
    → payload_length (record { whole_packet = header ++ junk }) ≡ length junk
unfolding payload_length
payload_length_lem header junk h = omega (arith, length-append header junk)

-- ===== src/NetPacket/Layout.antt =====
-- The byte layout that the constructors of NetPacket.hpp leave behind.
use easy_voice_call.Base.{
  ℕ, zero, suc, ◌+◌, ◌≤◌, ◌<◌, ◌≡◌, ◌^◌, refl, ap, List, [], ◌∷◌, ◌++◌, arith, length, take,
  replicate, length-replicate, replicate-add, resize-nil, overlay_all, le16, le32, some, ltb-false,
  ◌∙◌,
}
use easy_voice_call.NetPacket.{
  PayloadType, undefined, unlisted, of_code, code, head_marker, fix_header_length, init, new,
  new_with_payload,
}

-- The fixed header as one list.
abbrev pub header_bytes : List ℕ → ℕ → ℕ → ℕ → ℕ → List ℕ
header_bytes version up_time type_code serial_number size =
    head_marker ++ version ++ le32 up_time ++ le16 type_code ++ le32 serial_number ++ le16 size

pub take_four : (xs : List ℕ) → 4 ≤ length xs → (a b c d : ℕ) × (take 4 xs ≡ a ∷ b ∷ c ∷ d ∷ [])
take_four (a ∷ b ∷ c ∷ d ∷ xs) h = (a, b, c, d, refl)
take_four [] h = absurd (omega arith)
take_four (a ∷ []) h = absurd (omega arith)
take_four (a ∷ b ∷ []) h = absurd (omega arith)
take_four (a ∷ b ∷ c ∷ []) h = absurd (omega arith)

-- The values that the 16 bits of the type hold: those of the enumerators, and the rest.
abbrev pub IsType : PayloadType → Type 0
IsType (unlisted n) = (11 ≤ n) × (n < 2 ^ 16)
IsType _ = Unit {0}

of_code_large : (n : ℕ) → 11 ≤ n → of_code n ≡ unlisted n
unfolding of_code
of_code_large (suc (suc (suc (suc (suc (suc (suc (suc (suc (suc (suc n))))))))))) h =
    ap unlisted (omega arith)
of_code_large zero h = absurd (omega arith)
of_code_large (suc zero) h = absurd (omega arith)
of_code_large (suc (suc zero)) h = absurd (omega arith)
of_code_large (suc (suc (suc zero))) h = absurd (omega arith)
of_code_large (suc (suc (suc (suc zero)))) h = absurd (omega arith)
of_code_large (suc (suc (suc (suc (suc zero))))) h = absurd (omega arith)
of_code_large (suc (suc (suc (suc (suc (suc zero)))))) h = absurd (omega arith)
of_code_large (suc (suc (suc (suc (suc (suc (suc zero))))))) h = absurd (omega arith)
of_code_large (suc (suc (suc (suc (suc (suc (suc (suc zero)))))))) h = absurd (omega arith)
of_code_large (suc (suc (suc (suc (suc (suc (suc (suc (suc zero))))))))) h = absurd (omega arith)
of_code_large (suc (suc (suc (suc (suc (suc (suc (suc (suc (suc zero)))))))))) h =
    absurd (omega arith)

pub of_code-code : (t : PayloadType) → IsType t → of_code (code t) ≡ t
unfolding of_code code
of_code-code undefined h = refl
of_code-code (unlisted n) h = of_code_large n h.0
of_code-code _ h = refl

pub code-lt : (t : PayloadType) → IsType t → code t < 2 ^ 16
unfolding code
code-lt (unlisted n) h = h.1
code-lt undefined h = omega arith
code-lt _ h = omega arith

pub of_code-IsType : (n : ℕ) → n < 2 ^ 16 → IsType (of_code n)
unfolding of_code
of_code-IsType (suc (suc (suc (suc (suc (suc (suc (suc (suc (suc (suc n))))))))))) h =
    (omega arith, omega arith)
of_code-IsType zero h = tt
of_code-IsType (suc zero) h = tt
of_code-IsType (suc (suc zero)) h = tt
of_code-IsType (suc (suc (suc zero))) h = tt
of_code-IsType (suc (suc (suc (suc zero)))) h = tt
of_code-IsType (suc (suc (suc (suc (suc zero))))) h = tt
of_code-IsType (suc (suc (suc (suc (suc (suc zero)))))) h = tt
of_code-IsType (suc (suc (suc (suc (suc (suc (suc zero))))))) h = tt
of_code-IsType (suc (suc (suc (suc (suc (suc (suc (suc zero)))))))) h = tt
of_code-IsType (suc (suc (suc (suc (suc (suc (suc (suc (suc zero))))))))) h = tt
of_code-IsType (suc (suc (suc (suc (suc (suc (suc (suc (suc (suc zero)))))))))) h = tt

pub code-of_code : (n : ℕ) → code (of_code n) ≡ n
unfolding of_code code
code-of_code (suc (suc (suc (suc (suc (suc (suc (suc (suc (suc (suc n))))))))))) = omega arith
code-of_code zero = refl
code-of_code (suc zero) = refl
code-of_code (suc (suc zero)) = refl
code-of_code (suc (suc (suc zero))) = refl
code-of_code (suc (suc (suc (suc zero)))) = refl
code-of_code (suc (suc (suc (suc (suc zero))))) = refl
code-of_code (suc (suc (suc (suc (suc (suc zero)))))) = refl
code-of_code (suc (suc (suc (suc (suc (suc (suc zero))))))) = refl
code-of_code (suc (suc (suc (suc (suc (suc (suc (suc zero)))))))) = refl
code-of_code (suc (suc (suc (suc (suc (suc (suc (suc (suc zero))))))))) = refl
code-of_code (suc (suc (suc (suc (suc (suc (suc (suc (suc (suc zero)))))))))) = refl

module _ (git_tag : List ℕ) (tagged : 4 ≤ length git_tag) where
  pub init_lem :
      (t : PayloadType) (size up sn : ℕ)
      → (init git_tag [] t size up sn).whole_packet
        ≡ header_bytes (take 4 git_tag) up (code t) sn size ++ replicate size 0
  unfolding init
  init_lem t size up sn =
      let (a, b, c, d, e) = take_four git_tag tagged in
      rw (
        e,
        resize-nil {A = ℕ} 0 (fix_header_length + size),
        replicate-add {A = ℕ} fix_header_length size 0,
      )

  -- A payload that fits 16 bits is accepted, and stands behind the header.
  pub new_with_payload_lem :
      (t : PayloadType) (sn up : ℕ) (payload : List ℕ)
      → length payload < 2 ^ 16
      → new_with_payload git_tag t sn up payload
        ≡ some (record {
          whole_packet = header_bytes (take 4 git_tag) up (code t) sn (length payload) ++ payload;
        })
  unfolding new_with_payload
  new_with_payload_lem t sn up payload h =
      let (a, b, c, d, e) = take_four git_tag tagged in
      rw (ltb-false 65535 (length payload) (omega arith), init_lem t (length payload) up sn, e)
        (ap
          (λ (body : List ℕ). some (record {
            whole_packet =
                header_bytes (a ∷ b ∷ c ∷ d ∷ []) up (code t) sn (length payload) ++ body;
          }))
          (overlay_all (replicate (length payload) 0) payload
            (length-replicate (length payload) 0)))

  pub new_lem :
      (t : PayloadType) (sn up : ℕ)
      → new git_tag t sn up
        ≡ record { whole_packet = header_bytes (take 4 git_tag) up (code t) sn 0 }
  unfolding new
  new_lem t sn up =
      let (a, b, c, d, e) = take_four git_tag tagged in
      ap (λ (w : List ℕ). record { whole_packet = w }) (init_lem t 0 up sn ∙ rw e)

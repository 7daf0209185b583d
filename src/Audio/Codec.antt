-- ===== src/Audio/Codec.antt =====
-- client_essential/OpusEnc.hpp and OpusDec.hpp: the calls of opus and what becomes of their results.
-- Opus is a parameter; a negative result of it is `none`, where its value does not matter.
use easy_voice_call.Base.{ℕ, ◌≤◌, ◌≡◌, refl, List, Option, none, some, length, if◌then◌else◌}
use easy_voice_call.Base.Int.{ℤ, pos, is_negative}
use easy_voice_call.ReturnType.{ReturnType, of_int}

abbrev pub max_packet_size : ℕ
max_packet_size = 3828

-- `create_encoder` and `create_decoder` give the error number with the state. An encoding fits the
-- buffer that `encode` is told of.
pub record Opus (E D : Type 0) : Type 0 where
  pub create_encoder : ℤ × Option E
  pub create_decoder : ℤ × Option D
  pub opus_encode : E → List ℤ → ℕ → Option (List ℕ) × E
  pub opus_decode : D → List ℕ → Option (List ℤ) × D
  pub encode-fits :
      (e f : E) (pcm : List ℤ) (size : ℕ) (bytes : List ℕ)
      → opus_encode e pcm size ≡ (some bytes, f)
      → length bytes ≤ size

module _ {E D : Type 0} (opus : Opus E D) where
  created : {S : Type 0} → ℤ × Option S → Option S × ReturnType
  unfolding of_int
  created (err, state) = (state, if is_negative err then of_int err else of_int (pos 0))

  -- OpusEnc::reInit and OpusDec::reInit.
  pub re_init_encoder : Option E × ReturnType
  unfolding created
  re_init_encoder = created opus.create_encoder

  pub re_init_decoder : Option D × ReturnType
  unfolding created
  re_init_decoder = created opus.create_decoder

  -- What stands in `encodedData` afterwards, and the result; EXIT_FAILURE is 1.
  encoded : List ℕ → Option (List ℕ) × E → List ℕ × ReturnType × E
  unfolding of_int
  encoded old (none, e) = (old, of_int (pos 1), e)
  encoded old (some bytes, e) = (bytes, of_int (pos 0), e)

  pub encode : E → List ℤ → List ℕ → List ℕ × ReturnType × E
  unfolding encoded
  encode e pcm_data encoded_data =
      encoded encoded_data (opus.opus_encode e pcm_data max_packet_size)

  decoded : List ℤ → Option (List ℤ) × D → List ℤ × ReturnType × D
  unfolding of_int
  decoded old (none, d) = (old, of_int (pos 1), d)
  decoded old (some pcm, d) = (pcm, of_int (pos 0), d)

  pub decode : D → List ℕ → List ℤ → List ℤ × ReturnType × D
  unfolding decoded
  decode d encoded_data pcm_data = decoded pcm_data (opus.opus_decode d encoded_data)

  encoded-fits :
      (old : List ℕ) (r : Option (List ℕ) × E)
      → ((bytes : List ℕ) (f : E) → r ≡ (some bytes, f) → length bytes ≤ max_packet_size)
      → length old ≤ max_packet_size
      → length (encoded old r).0 ≤ max_packet_size
  unfolding encoded
  encoded-fits old (none, e) fits short = short
  encoded-fits old (some bytes, e) fits short = fits bytes e refl

  -- Whether opus succeeds or not, what stands in the buffer fits an opus packet, if that holds before.
  pub encode-fits :
      (e : E) (pcm_data : List ℤ) (encoded_data : List ℕ)
      → length encoded_data ≤ max_packet_size
      → length (encode e pcm_data encoded_data).0 ≤ max_packet_size
  unfolding encode
  encode-fits e pcm_data encoded_data short =
      encoded-fits encoded_data (opus.opus_encode e pcm_data max_packet_size)
        (λ bytes f made. opus.encode-fits e f pcm_data max_packet_size bytes made) short

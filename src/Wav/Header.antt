-- ===== src/Wav/Header.antt =====
-- src/tts_studio/generation/wav.py: the 44 bytes that `finalize` expects in front of the samples, and
-- a reader of its fields.
use tts_studio.Base.{
  ℕ, ◌+◌, ◌*◌, ◌/◌, ◌%◌, ◌^◌, ◌<◌, ◌≡◌, refl, List, [], ◌∷◌, ◌++◌, arith, length, ltb, take, drop,
  if◌then◌else◌,
}
use tts_studio.Base.Exec.{Result, ok, err, value_error}

-- `struct.pack("<H")` and `struct.pack("<I")` of a number that fits.
unfoldable pub le16 : ℕ → List ℕ
le16 n = n % 256 ∷ n / 256 % 256 ∷ []

unfoldable pub le32 : ℕ → List ℕ
le32 n = n % 256 ∷ n / 256 % 256 ∷ n / 65536 % 256 ∷ n / 16777216 % 256 ∷ []

-- The fields of the header in front of `n` bytes of samples.
unfoldable pub header_bytes : ℕ → List ℕ
unfolding le16 le32
header_bytes n =
    (b'R' ∷ b'I' ∷ b'F' ∷ b'F' ∷ [])
    ++ le32 (36 + n)
    ++ (b'W' ∷ b'A' ∷ b'V' ∷ b'E' ∷ b'f' ∷ b'm' ∷ b't' ∷ b' ' ∷ [])
    ++ le32 16
    ++ le16 1
    ++ le16 1
    ++ le32 48000
    ++ le32 96000
    ++ le16 2
    ++ le16 16
    ++ (b'd' ∷ b'a' ∷ b't' ∷ b'a' ∷ [])
    ++ le32 n

-- `struct.pack` refuses a number of more than 32 bits.
unfoldable pub expected_header : ℕ → Result (List ℕ)
unfolding header_bytes
expected_header n = if ltb (36 + n) (2 ^ 32) then ok (header_bytes n) else err value_error

-- A reader of little-endian fields, independent of the writer.
abbrev little : List ℕ → ℕ
little [] = 0
little (b ∷ r) = b + 256 * little r

abbrev pub u16_at : ℕ → List ℕ → ℕ
u16_at i bs = little (take 2 (drop i bs))

abbrev pub u32_at : ℕ → List ℕ → ℕ
u32_at i bs = little (take 4 (drop i bs))

abbrev pub HasFields : ℕ → List ℕ → Type 0
HasFields n bs =
    (length bs ≡ 44)
    × (u32_at 4 bs ≡ 36 + n)
    × (u32_at 16 bs ≡ 16)
    × (u16_at 20 bs ≡ 1)
    × (u16_at 22 bs ≡ 1)
    × (u32_at 24 bs ≡ 48000)
    × (u32_at 28 bs ≡ 96000)
    × (u16_at 32 bs ≡ 2)
    × (u16_at 34 bs ≡ 16)
    × (u32_at 40 bs ≡ n)

header_bytes-HasFields : (n : ℕ) → 36 + n < 2 ^ 32 → HasFields n (header_bytes n)
unfolding header_bytes
header_bytes-HasFields n h =
    (refl, omega arith, refl, refl, refl, refl, refl, refl, refl, omega arith)

-- For every size that 32 bits can hold the header is made, of 44 bytes, and a reader finds in it the
-- sizes `n` of the samples and `36 + n` of all that follows the first size, the PCM format, one
-- channel, 48000 frames and 96000 bytes a second, and two bytes or 16 bits a frame.
pub expected_header-HasFields :
    (n : ℕ) → 36 + n < 2 ^ 32 → (bs : List ℕ) × (expected_header n ≡ ok bs) × HasFields n bs
unfolding expected_header
expected_header-HasFields n h = (header_bytes n, ground arith, header_bytes-HasFields n h)

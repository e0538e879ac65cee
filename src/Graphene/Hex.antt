-- ===== src/Graphene/Hex.antt =====
-- Bytes as hexadecimal text, and numbers as bytes. A character is its code.
pub mod RoundTrip
use ghostdagsim.Common.{
  ℕ, zero, suc, ◌+◌, ◌-◌, ◌*◌, ◌/◌, ◌%◌, ◌^◌, Bool, ◌&&◌, List, [], ◌∷◌, ◌++◌, bit_or, ltb, leb,
  if◌then◌else◌,
}

-- `(v >> (i * 8)) & 0xff`, for i from 0 to 7
unfoldable pub u64_to_vec : ℕ → List ℕ
u64_to_vec v =
    v % 256
    ∷ (v / 2 ^ 8 % 256)
    ∷ (v / 2 ^ 16 % 256)
    ∷ (v / 2 ^ 24 % 256)
    ∷ (v / 2 ^ 32 % 256)
    ∷ (v / 2 ^ 40 % 256)
    ∷ (v / 2 ^ 48 % 256)
    ∷ (v / 2 ^ 56 % 256)
    ∷ []

-- `hex_chars[d]`
abbrev pub hex_char : ℕ → ℕ
hex_char d = if ltb d 10 then 48 + d else 87 + d

unfoldable pub hex_encode : List ℕ → List ℕ
hex_encode [] = []
hex_encode (c ∷ cs) = hex_char (c / 16) ∷ hex_char (c % 16) ∷ hex_encode cs

-- The lambda `h2`, an unsigned char.
abbrev pub h2 : ℕ → ℕ
h2 c = if leb 48 c && leb c 57 then c - 48 else (10 + c + 256 - 97) % 256

unfoldable pub hex_byte : ℕ → ℕ → ℕ
hex_byte a b = bit_or (h2 a * 2 ^ 4) (h2 b) % 256

-- The loops of DeserializeBloomFilter and DeserializeIBLT: behind a text of odd length stands a 0.
unfoldable pub hex_decode : List ℕ → List ℕ
unfolding hex_byte
hex_decode [] = []
hex_decode (a ∷ []) = hex_byte a 0 ∷ []
hex_decode (a ∷ b ∷ cs) = hex_byte a b ∷ hex_decode cs

-- Shifts of 64 and more are undefined; those bytes are lost here.
pub decode_from : ℕ → ℕ → List ℕ → ℕ
unfolding hex_byte
decode_from k v [] = v
decode_from k v (a ∷ []) = v
decode_from k v (a ∷ b ∷ cs) =
    decode_from (k + 1) (bit_or v (hex_byte a b * 2 ^ (8 * k) % 2 ^ 64)) cs

unfoldable pub hex_decode_u64 : List ℕ → ℕ
unfolding decode_from
hex_decode_u64 hex = decode_from 0 0 hex

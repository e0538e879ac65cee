-- ===== src/Graphene/Hex/RoundTrip.antt =====
-- What was written as hexadecimal text is read back.
use ghostdagsim.Common.{
  ℕ, suc, ◌+◌, ◌*◌, ◌/◌, ◌%◌, ◌^◌, ◌≤◌, ◌<◌, ◌≡◌, refl, ap, ◌∙◌, arith, List, [], ◌∷◌, length, All,
}
use ghostdagsim.Common.Bits.{bit_or-high_low, bit_or-low_high}
use native.Mathlib.Nat.{pow-le-pow_right, pow-suc, mul-le-mul_right}
use ghostdagsim.Graphene.Hex.{
  u64_to_vec, hex_char, hex_encode, h2, hex_byte, hex_decode, decode_from, hex_decode_u64,
}

-- Bytes, which `unsigned char` and `uint8_t` hold.
abbrev pub AreBytes : List ℕ → Type 0
AreBytes = All λ c. c < 256

h2-hex_char : (n : ℕ) → n < 16 → h2 (hex_char n) ≡ n
h2-hex_char n h = ground arith

hex_byte-hex_char : (c : ℕ) → c < 256 → hex_byte (hex_char (c / 16)) (hex_char (c % 16)) ≡ c
unfolding hex_byte
hex_byte-hex_char c h =
    let high = h2-hex_char (c / 16) (omega arith) in
    let low = h2-hex_char (c % 16) (omega arith) in
    rw (hex_byte, high, low, bit_or-high_low 4 (c / 16) (c % 16) (omega arith)) (omega arith)

-- The text of some bytes is read back.
pub hex_decode-hex_encode : (bs : List ℕ) → AreBytes bs → hex_decode (hex_encode bs) ≡ bs
unfolding hex_decode hex_encode
hex_decode-hex_encode [] h = refl
hex_decode-hex_encode (c ∷ cs) h = rw (hex_byte-hex_char c h.0, hex_decode-hex_encode cs h.1) refl

-- The number of some bytes, the first of which stands for multiples of `p`.
abbrev value_from : ℕ → List ℕ → ℕ
value_from p [] = 0
value_from p (c ∷ cs) = c * p + value_from (p * 256) cs

eight_more : (n : ℕ) → 2 ^ (n + 8) ≡ 2 ^ n * 256
eight_more n =
    let e : n + 8 ≡ suc (suc (suc (suc (suc (suc (suc (suc n))))))) = omega arith in
    rw e (
      omega (
        arith,
        pow-suc 2 n,
        pow-suc 2 (suc n),
        pow-suc 2 (suc (suc n)),
        pow-suc 2 (suc (suc (suc n))),
        pow-suc 2 (suc (suc (suc (suc n)))),
        pow-suc 2 (suc (suc (suc (suc (suc n))))),
        pow-suc 2 (suc (suc (suc (suc (suc (suc n)))))),
        pow-suc 2 (suc (suc (suc (suc (suc (suc (suc n))))))),
      ))

decode_from-hex_encode :
    (bs : List ℕ) (k v : ℕ)
    → k + length bs ≤ 8
    → AreBytes bs
    → v < 2 ^ (8 * k)
    → decode_from k v (hex_encode bs) ≡ v + value_from (2 ^ (8 * k)) bs
unfolding decode_from hex_encode
decode_from-hex_encode [] k v room h low = omega arith
decode_from-hex_encode (c ∷ cs) k v room h low =
    let p : ℕ = 2 ^ (8 * k) in
    let next : 2 ^ (8 * (k + 1)) ≡ p * 256 = ap (λ n. 2 ^ n) (omega arith) ∙ eight_more (8 * k) in
    let below : suc c * p ≤ 256 * p = mul-le-mul_right p (omega (arith, h.0)) in
    let limit : 2 ^ (8 * (k + 1)) ≤ 2 ^ 64 =
      pow-le-pow_right (omega arith) {i = 8 * (k + 1)} {j = 64} (omega arith) in
    let fits : c * p < 2 ^ 64 = omega arith in
    let kept : c * p % 2 ^ 64 ≡ c * p = omega arith in
    rw (hex_byte-hex_char c h.0, kept, bit_or-low_high (8 * k) v c low)
      (decode_from-hex_encode cs (k + 1) (v + c * p) (omega arith) h.1 (omega arith)
        ∙ rw next (omega arith))

-- The eight bytes of a number of 64 bits, as text, are read back.
pub hex_decode_u64-hex_encode :
    (v : ℕ) → v < 2 ^ 64 → hex_decode_u64 (hex_encode (u64_to_vec v)) ≡ v
unfolding hex_decode_u64 u64_to_vec
hex_decode_u64-hex_encode v h =
    decode_from-hex_encode (u64_to_vec v) 0 0 (omega arith) bytes (omega arith) ∙ omega arith
  where
    bytes : AreBytes (u64_to_vec v)
    bytes = (
      omega arith,
      (
        omega arith,
        (
          omega arith,
          (omega arith, (omega arith, (omega arith, (omega arith, (omega arith, tt))))),
        ),
      ),
    )

-- ===== src/Bytes/Bits.antt =====
-- `(value << 8n) | byte` and `value & 0xffn`, as arithmetic: by induction on the count of digits
-- that the two operations go through.
use Prim.Native.Nat.{bit_and, bit_or, bit_and-bitwise, bit_or-bitwise, digits, max, min}
use native.Mathlib.Nat.{pow-suc, one-le-pow}
use blindference.Prelude.{
  ℕ, zero, suc, ◌+◌, ◌-◌, ◌*◌, ◌/◌, ◌%◌, ◌^◌, ◌≤◌, ◌<◌, ◌≡◌, refl, ap, ◌∙◌, arith,
}

or_digits_fields :
    (n k q r a : ℕ) → a ≤ n → a ≡ q * 2 ^ k → r < 2 ^ k → digits (λ b. b) max n a r ≡ a + r
or_digits_fields zero k q r a bound shape small = omega arith
or_digits_fields (suc n) k q r zero bound shape small = omega arith
or_digits_fields (suc n) zero q r (suc a) bound shape small = omega (
  arith,
  or_digits_fields n zero (suc a / 2) (r / 2) (suc a / 2) (omega arith) (omega arith) (omega arith),
)
or_digits_fields (suc n) (suc k) q r (suc a) bound shape small =
    let even : suc a ≡ 2 * (q * 2 ^ k) = omega (arith, ap (λ (t : ℕ). q * t) (pow-suc 2 k)) in
    omega (
      arith,
      or_digits_fields n k q (r / 2) (suc a / 2) (omega arith) (omega arith)
          (omega (arith, pow-suc 2 k)),
    )

-- A byte put in below a shifted number is added to it.
pub bit_or_byte : (value byte : ℕ) → byte < 256 → bit_or (value * 256) byte ≡ value * 256 + byte
bit_or_byte value byte h =
    bit_or-bitwise (value * 256) byte
    ∙ or_digits_fields (value * 256) 8 value byte (value * 256) (omega arith) refl h

and_digits_mask :
    (n k q r a : ℕ)
    → a ≤ n
    → a ≡ q * 2 ^ k + r
    → r < 2 ^ k
    → digits (λ b. zero) min n a (2 ^ k - 1) ≡ r
and_digits_mask zero k q r a bound shape small = omega arith
and_digits_mask (suc n) k q r zero bound shape small = omega arith
and_digits_mask (suc n) zero q r (suc a) bound shape small = omega (
  arith,
  and_digits_mask n zero (suc a / 2) 0 (suc a / 2) (omega arith) (omega arith) (omega arith),
)
and_digits_mask (suc n) (suc k) q r (suc a) bound shape small =
    let whole : suc a ≡ 2 * (q * 2 ^ k) + r = omega (arith, ap (λ (t : ℕ). q * t) (pow-suc 2 k)) in
    let mask : (2 ^ suc k - 1) / 2 ≡ 2 ^ k - 1 = omega (arith, pow-suc 2 k, one-le-pow k 2) in
    let odd : (2 ^ suc k - 1) % 2 ≡ 1 = omega (arith, pow-suc 2 k, one-le-pow k 2) in
    rw (mask, odd)
      (omega (
        arith,
        and_digits_mask n k q (r / 2) (suc a / 2) (omega arith) (omega arith)
            (omega (arith, pow-suc 2 k)),
      ))

-- Masking by 0xff leaves the lowest byte.
pub bit_and_0xff : (value : ℕ) → bit_and value 0xff ≡ value % 256
bit_and_0xff value =
    bit_and-bitwise value 0xff
    ∙ and_digits_mask value 8 (value / 256) (value % 256) value (omega arith) (omega arith)
        (omega arith)

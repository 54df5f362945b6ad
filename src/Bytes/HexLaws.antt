-- ===== src/Bytes/HexLaws.antt =====
-- Hexadecimal text and bytes: decoding and parsing undo the printing.
use native.Mathlib.Nat.{pow-suc}
use blindference.Prelude.{
  ℕ, zero, suc, ◌+◌, ◌-◌, ◌*◌, ◌/◌, ◌%◌, ◌^◌, ◌≤◌, ◌<◌, ◌≡◌, refl, ap, ◌∙◌, inl, inr, some, ok,
  List, [], ◌∷◌, ◌++◌, append_assoc, length, replicate, length-append, replicate_snoc, Bool-cases,
  ltb, lt→ltb, ltb→lt, le→ltb_false, ltb_false→le, arith,
}
use blindference.Bytes.{Buffer, IsBytes, be_value_from, be_value, be_bytes}
use blindference.Bytes.Laws.{be_bytes-IsBytes}
use blindference.Bytes.Hex.{
  big_int_hex, or_syntax_error, hex_digit, hex_digit_value, to_hex, parse_hex_from, to_string_from,
  to_string_16, pad_start, decode_hex,
}

hex_digit_value-hex_digit : (d : ℕ) → d < 16 → hex_digit_value (hex_digit d) ≡ some d
unfolding hex_digit_value hex_digit
hex_digit_value-hex_digit d h = ground arith

-- Decoding the hexadecimal text of bytes gives the bytes.
pub decode_hex-to_hex : (bytes : Buffer) → IsBytes bytes → decode_hex (to_hex bytes) ≡ bytes
unfolding decode_hex to_hex
decode_hex-to_hex [] h = refl
decode_hex-to_hex (b ∷ bs) (p, h) =
    let high = hex_digit_value-hex_digit (b / 16) (omega arith) in
    let low = hex_digit_value-hex_digit (b % 16) (omega arith) in
    let whole : b / 16 * 16 + b % 16 ≡ b = omega arith in
    rw (high, low, whole, decode_hex-to_hex bs h)

-- Parsing the hexadecimal text of bytes gives the number that they spell.
pub parse_hex_from-to_hex :
    (acc : ℕ) (bytes : Buffer)
    → IsBytes bytes
    → parse_hex_from acc (to_hex bytes) ≡ some (be_value_from acc bytes)
unfolding parse_hex_from to_hex be_value_from
parse_hex_from-to_hex acc [] h = refl
parse_hex_from-to_hex acc (b ∷ bs) (p, h) =
    let high = hex_digit_value-hex_digit (b / 16) (omega arith) in
    let low = hex_digit_value-hex_digit (b % 16) (omega arith) in
    let whole : (acc * 16 + b / 16) * 16 + b % 16 ≡ acc * 256 + b = omega arith in
    rw (high, low, whole) (parse_hex_from-to_hex (acc * 256 + b) bs h)

length-to_hex : (bytes : Buffer) → length (to_hex bytes) ≡ 2 * length bytes
unfolding to_hex
length-to_hex [] = refl
length-to_hex (b ∷ bs) = omega (arith, length-to_hex bs)

pub to_hex-append : (xs ys : Buffer) → to_hex (xs ++ ys) ≡ to_hex xs ++ to_hex ys
unfolding to_hex
to_hex-append [] ys = refl
to_hex-append (x ∷ xs) ys = rw (to_hex-append xs ys)

to_hex_one : (b : ℕ) → to_hex (b ∷ []) ≡ hex_digit (b / 16) ∷ hex_digit (b % 16) ∷ []
unfolding to_hex
to_hex_one b = refl

-- The w lowest hexadecimal digits of a number.
hex_digits : ℕ → ℕ → List ℕ
hex_digits zero n = []
hex_digits (suc w) n = hex_digits w (n / 16) ++ hex_digit (n % 16) ∷ []

hex_digits_zero : (w : ℕ) → hex_digits w 0 ≡ replicate w b'0'
unfolding hex_digits hex_digit
hex_digits_zero zero = refl
hex_digits_zero (suc w) = rw (hex_digits_zero w) (replicate_snoc w b'0')

pad_snoc :
    (w : ℕ) (s : List ℕ) (d : ℕ)
    → pad_start (suc w) b'0' (s ++ d ∷ []) ≡ pad_start w b'0' s ++ d ∷ []
unfolding pad_start
pad_snoc w s d =
    let same : suc w - length (s ++ d ∷ []) ≡ w - length s =
      omega (arith, length-append s (d ∷ [])) in
    rw (same, append_assoc)

pad_one :
    (w f n : ℕ) → n < 16 → pad_start (suc w) b'0' (to_string_from (suc f) n) ≡ hex_digits (suc w) n
unfolding to_string_from hex_digits
pad_one w f n h =
    let small = lt→ltb n 16 h in
    let quotient : n / 16 ≡ 0 = omega arith in
    let remainder : n % 16 ≡ n = omega arith in
    let width : pad_start (suc w) b'0' (hex_digit n ∷ []) ≡ replicate w b'0' ++ hex_digit n ∷ [] =
      (let count : suc w - 1 ≡ w = omega arith in unfold pad_start in rw count) in
    rw (small, quotient, remainder, hex_digits_zero w) width

step_more :
    (f n : ℕ)
    → 16 ≤ n
    → to_string_from (suc f) n ≡ to_string_from f (n / 16) ++ hex_digit (n % 16) ∷ []
unfolding to_string_from
step_more f n h = rw (le→ltb_false n 16 h)

-- A number of at most w digits, printed and padded, shows its w lowest digits.
pad_to_string_from :
    (w f n : ℕ)
    → n < f
    → n < 16 ^ suc w
    → pad_start (suc w) b'0' (to_string_from f n) ≡ hex_digits (suc w) n
unfolding hex_digits
pad_to_string_from w zero n h k = elim h [ ]
pad_to_string_from zero (suc f) n h k = pad_one zero f n (omega (arith, pow-suc 16 0))
pad_to_string_from (suc w) (suc f) n h k = elim (Bool-cases (ltb n 16)) [
  | inl one ↦ pad_one (suc w) f n (ltb→lt n 16 one)
  | inr more ↦
      let above = ltb_false→le n 16 more in
      let inner =
        pad_to_string_from w f (n / 16) (omega arith) (omega (arith, pow-suc 16 (suc w))) in
      rw (
        step_more f n above,
        pad_snoc (suc w) (to_string_from f (n / 16)) (hex_digit (n % 16)),
        inner,
      )
]

abbrev double : ℕ → ℕ
double zero = zero
double (suc k) = suc (suc (double k))

hex_digits-be_bytes : (k n : ℕ) → hex_digits (double k) n ≡ to_hex (be_bytes k n)
unfolding hex_digits be_bytes
hex_digits-be_bytes zero n = unfold to_hex in refl
hex_digits-be_bytes (suc k) n =
    let quotient : n / 16 / 16 ≡ n / 256 = omega arith in
    let high : n % 256 / 16 ≡ n / 16 % 16 = omega arith in
    let low : n % 256 % 16 ≡ n % 16 = omega arith in
    let last = to_hex_one (n % 256) in
    rw (
      to_hex-append (be_bytes k (n / 256)) ((n % 256) ∷ []),
      last,
      quotient,
      high,
      low,
      hex_digits-be_bytes k (n / 256),
      append_assoc,
    )

-- The hexadecimal text of a 16-byte number, padded to 32 digits, is that of its 16 bytes.
pub pad-to_string_16 :
    (n : ℕ) → n < 256 ^ 16 → pad_start 32 b'0' (to_string_16 n) ≡ to_hex (be_bytes 16 n)
unfolding to_string_16
pad-to_string_16 n h = pad_to_string_from 31 (suc n) n (omega arith) h ∙ hex_digits-be_bytes 16 n

-- So it decodes to the number's 16 bytes.
pub decode-pad-to_string_16 :
    (n : ℕ) → n < 256 ^ 16 → decode_hex (pad_start 32 b'0' (to_string_16 n)) ≡ be_bytes 16 n
decode-pad-to_string_16 n h =
    ap decode_hex (pad-to_string_16 n h) ∙ decode_hex-to_hex (be_bytes 16 n) (be_bytes-IsBytes 16 n)

-- `BigInt('0x' + buf.toString('hex'))` is the number that a non-empty buffer spells.
pub big_int_hex-to_hex :
    (bytes : Buffer)
    → IsBytes bytes
    → 0 < length bytes
    → big_int_hex (to_hex bytes) ≡ ok (be_value bytes)
unfolding big_int_hex to_hex be_value
big_int_hex-to_hex [] h pos = elim pos [ ]
big_int_hex-to_hex (b ∷ bs) h pos = ap or_syntax_error (parse_hex_from-to_hex 0 (b ∷ bs) h)

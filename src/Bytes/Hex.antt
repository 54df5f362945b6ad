-- ===== src/Bytes/Hex.antt =====
-- Hexadecimal text, as lists of code points: `toString('hex')`, `BigInt('0x' + s)`,
-- `n.toString(16)`, `padStart` and the decoding that `Buffer.from(s, 'hex')` and `write` do.
use blindference.Prelude.{
  ℕ, zero, suc, ◌+◌, ◌-◌, ◌*◌, ◌/◌, ◌%◌, List, [], ◌∷◌, ◌++◌, Option, none, some, ltb, leb, ◌&&◌,
  if◌then◌else◌, length, replicate, refl, ◌≡◌, Result, ok, err,
}
use blindference.Bytes.{Buffer}

-- The digits `0`-`9` and `a`-`f`.
unfoldable pub hex_digit : ℕ → ℕ
hex_digit d = if ltb d 10 then b'0' + d else b'a' + (d - 10)

unfoldable pub hex_digit_value : ℕ → Option ℕ
hex_digit_value c =
    if leb b'0' c && leb c b'9'
    then some (c - b'0')
    else if leb b'a' c && leb c b'f'
    then some (c - b'a' + 10)
    else if leb b'A' c && leb c b'F'
    then some (c - b'A' + 10)
    else none

unfoldable pub to_hex : Buffer → List ℕ
to_hex [] = []
to_hex (b ∷ bs) = hex_digit (b / 16) ∷ hex_digit (b % 16) ∷ to_hex bs

abbrev push_digit : Option ℕ → (ℕ → Option ℕ) → Option ℕ
push_digit none k = none
push_digit (some d) k = k d

-- The value of a digit string behind what is already read; `none` is a `SyntaxError`.
unfoldable pub parse_hex_from : ℕ → List ℕ → Option ℕ
parse_hex_from acc [] = some acc
parse_hex_from acc (c ∷ s) = push_digit (hex_digit_value c) (λ d. parse_hex_from (acc * 16 + d) s)

-- `n.toString(16)`; one round for each digit, so `n + 1` rounds are enough.
unfoldable pub to_string_from : ℕ → ℕ → List ℕ
to_string_from zero n = []
to_string_from (suc f) n =
    let higher = to_string_from f (n / 16) in
    if ltb n 16 then hex_digit n ∷ [] else higher ++ hex_digit (n % 16) ∷ []

unfoldable pub to_string_16 : ℕ → List ℕ
unfolding to_string_from
to_string_16 n = to_string_from (suc n) n

-- `s.padStart(width, c)`
unfoldable pub pad_start : ℕ → ℕ → List ℕ → List ℕ
pad_start width c s = replicate (width - length s) c ++ s

abbrev push_byte : Option ℕ → Option ℕ → Buffer → Buffer
push_byte (some h) (some l) rest = (h * 16 + l) ∷ rest
push_byte _ _ rest = []

-- Pairs of digits as bytes, up to the first that is no pair.
unfoldable pub decode_hex : List ℕ → Buffer
decode_hex [] = []
decode_hex (a ∷ []) = []
decode_hex (a ∷ b ∷ s) = push_byte (hex_digit_value a) (hex_digit_value b) (decode_hex s)

to_string_16_runs : to_string_16 48879 ≡ b'b' ∷ b'e' ∷ b'e' ∷ b'f' ∷ []
unfolding to_string_16 hex_digit
to_string_16_runs = refl

abbrev pub or_syntax_error : Option ℕ → Result ℕ
or_syntax_error none = err "SyntaxError: Cannot convert to a BigInt"
or_syntax_error (some n) = ok n

-- `BigInt('0x' + s)`
unfoldable pub big_int_hex : List ℕ → Result ℕ
big_int_hex [] = err "SyntaxError: Cannot convert 0x to a BigInt"
big_int_hex (c ∷ s) = or_syntax_error (parse_hex_from 0 (c ∷ s))

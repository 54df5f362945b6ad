-- ===== src/Sdk/Encryption/Keys.antt =====
-- The key halves of the agent SDK: splitting a 32-byte key and joining two 128-bit numbers.
use blindference.Prelude.{
  ℕ, ◌^◌, ◌<◌, ◌≡◌, ap, ap₂, ◌++◌, ◌∙◌, ok, length, replicate, take, drop, take_all, drop_all,
  append-nil, length-append, length-take, length-drop, take_append_exact, drop_append_exact,
  take-append-drop, All-take, All-drop, arith,
}
use blindference.Bytes.{Buffer, IsBytes, subarray, write_at, be_value, be_bytes}
use blindference.Bytes.Laws.{
  length-be_bytes, be_bytes-IsBytes, be_value-be_bytes, be_bytes-be_value, be_value-lt,
}
use blindference.Bytes.HexLaws.{decode-pad-to_string_16, big_int_hex-to_hex}
use blindference.Sdk.Encryption.{KeyHalves, split_key_for_cofhe, combine_key_halves}

-- Two buffers of 16 bytes, written into 32 zeros.
write_halves :
    (a b : Buffer)
    → length a ≡ 16
    → length b ≡ 16
    → write_at 16 (take 16 b) (write_at 0 (take 16 a) (replicate 32 0)) ≡ a ++ b
write_halves a b ha hb =
    let first : write_at 0 (take 16 a) (replicate 32 0) ≡ a ++ replicate 16 0 =
      rw (take_all 16 a (omega arith), ha, take_all 32 a (omega arith)) in
    let total : length (a ++ replicate 16 0) ≡ 32 =
      omega (arith, length-append a (replicate 16 0)) in
    rw (
      first,
      total,
      take_all 16 b (omega arith),
      hb,
      take_all 16 b (omega arith),
      take_append_exact 16 a (replicate 16 0) ha,
      drop_all 32 (a ++ replicate 16 0) (omega arith),
      append-nil b,
    )

-- Below 2^128, joining two halves gives their 16 bytes each, most significant first.
pub combine-eq-be_bytes :
    (high low : ℕ)
    → high < 256 ^ 16
    → low < 256 ^ 16
    → combine_key_halves high low ≡ be_bytes 16 high ++ be_bytes 16 low
unfolding combine_key_halves
combine-eq-be_bytes high low hh hl =
    rw (decode-pad-to_string_16 high hh, decode-pad-to_string_16 low hl)
      (write_halves (be_bytes 16 high) (be_bytes 16 low) (length-be_bytes 16 high)
        (length-be_bytes 16 low))

-- A key of two 16-byte halves splits into the numbers that they spell.
pub split-append :
    (a b : Buffer)
    → IsBytes a
    → IsBytes b
    → length a ≡ 16
    → length b ≡ 16
    → split_key_for_cofhe (a ++ b) ≡ ok (record { high = be_value a; low = be_value b })
unfolding split_key_for_cofhe
split-append a b pa pb ha hb =
    let total : length (a ++ b) ≡ 32 = omega (arith, length-append a b) in
    let front : subarray 0 16 (a ++ b) ≡ a = take_append_exact 16 a b ha in
    let back : subarray 16 32 (a ++ b) ≡ b =
      ap (take 16) (drop_append_exact 16 a b ha) ∙ take_all 16 b (omega arith) in
    rw (
      total,
      front,
      back,
      big_int_hex-to_hex a pa (omega arith),
      big_int_hex-to_hex b pb (omega arith),
    )

-- A buffer of 16 bytes and the number that it spells.
be_value_16 :
    (a : Buffer)
    → IsBytes a
    → length a ≡ 16
    → (be_value a < 256 ^ 16) × (be_bytes 16 (be_value a) ≡ a)
be_value_16 a p h =
    let bound = be_value-lt a p in
    let bytes = be_bytes-be_value a p in (rw h at bound, rw h at bytes)

-- Splitting a key of 32 bytes succeeds, and joining the halves gives the key.
pub combine-split :
    (key : Buffer)
    → IsBytes key
    → length key ≡ 32
    → (halves : KeyHalves) × (split_key_for_cofhe key ≡ ok halves)
      × (combine_key_halves halves.high halves.low ≡ key)
combine-split key bytes h =
    let a = take 16 key in
    let b = drop 16 key in
    let pa = All-take (λ x. x < 256) 16 key bytes in
    let pb = All-drop (λ x. x < 256) 16 key bytes in
    let ha : length a ≡ 16 = omega (arith, length-take 16 key) in
    let hb : length b ≡ 16 = omega (arith, length-drop 16 key) in
    let whole : a ++ b ≡ key = take-append-drop 16 key in
    let (la, ea) = be_value_16 a pa ha in
    let (lb, eb) = be_value_16 b pb hb in
    let halves = split-append a b pa pb ha hb in
    (
      record { high = be_value a; low = be_value b },
      rw whole at halves,
      combine-eq-be_bytes (be_value a) (be_value b) la lb ∙ ap₂ ◌++◌ ea eb ∙ whole,
    )

-- Joining two numbers below 2^128 and splitting the key gives the numbers.
pub split-combine :
    (high low : ℕ)
    → high < 256 ^ 16
    → low < 256 ^ 16
    → split_key_for_cofhe (combine_key_halves high low) ≡ ok (record { high = high; low = low })
split-combine high low hh hl = rw (
  combine-eq-be_bytes high low hh hl,
  split-append (be_bytes 16 high) (be_bytes 16 low) (be_bytes-IsBytes 16 high)
      (be_bytes-IsBytes 16 low) (length-be_bytes 16 high) (length-be_bytes 16 low),
  be_value-be_bytes 16 high hh,
  be_value-be_bytes 16 low hl,
)

-- ===== src/Bytes/Laws.antt =====
-- Big-endian numbers and their bytes are inverse to one another.
use native.Mathlib.Nat.{pow-suc}
use blindference.Prelude.{
  ℕ, zero, suc, ◌+◌, ◌*◌, ◌/◌, ◌%◌, ◌^◌, ◌≤◌, ◌<◌, ◌≡◌, refl, sym, ◌∙◌, ◌≡⟨◌⟩◌, ◌∎, [], ◌∷◌, ◌++◌,
  length, length-append, append_assoc, append-nil, All-append, arith,
}
use blindference.Bytes.{Buffer, IsBytes, be_value_from, be_value, be_bytes}

pub length-be_bytes : (k n : ℕ) → length (be_bytes k n) ≡ k
unfolding be_bytes
length-be_bytes zero n = refl
length-be_bytes (suc k) n =
    omega
      (arith, length-append (be_bytes k (n / 256)) ((n % 256) ∷ []), length-be_bytes k (n / 256))

pub be_bytes-IsBytes : (k n : ℕ) → IsBytes (be_bytes k n)
unfolding be_bytes
be_bytes-IsBytes zero n = tt
be_bytes-IsBytes (suc k) n =
    All-append (λ b. b < 256) (be_bytes k (n / 256)) ((n % 256) ∷ []) (be_bytes-IsBytes k (n / 256))
      (omega arith, tt)

pub be_value_from-append :
    (acc : ℕ) (xs ys : Buffer)
    → be_value_from acc (xs ++ ys) ≡ be_value_from (be_value_from acc xs) ys
unfolding be_value_from
be_value_from-append acc [] ys = refl
be_value_from-append acc (x ∷ xs) ys = be_value_from-append (acc * 256 + x) xs ys

-- Reading the k bytes of a number that fits into k bytes gives the number.
pub be_value-be_bytes : (k n : ℕ) → n < 256 ^ k → be_value (be_bytes k n) ≡ n
unfolding be_value be_bytes
be_value-be_bytes zero n h = omega arith
be_value-be_bytes (suc k) n h =
    be_value_from-append 0 (be_bytes k (n / 256)) ((n % 256) ∷ [])
    ∙ omega (arith, be_value-be_bytes k (n / 256) (omega (arith, pow-suc 256 k)))

-- The bytes of what is read behind a prefix are the prefix's bytes and those read.
be_bytes-be_value_from :
    (k j v : ℕ) (bytes : Buffer)
    → k ≡ length bytes + j
    → IsBytes bytes
    → be_bytes k (be_value_from v bytes) ≡ be_bytes j v ++ bytes
unfolding be_value_from be_bytes
be_bytes-be_value_from k j v [] e h =
    let same : k ≡ j = omega arith in rw same (sym (append-nil (be_bytes j v)))
be_bytes-be_value_from k j v (b ∷ bs) e (p, h) =
    let quotient : (v * 256 + b) / 256 ≡ v = omega arith in
    let remainder : (v * 256 + b) % 256 ≡ b = omega arith in
    be_bytes k (be_value_from (v * 256 + b) bs)
    ≡⟨ be_bytes-be_value_from k (suc j) (v * 256 + b) bs (omega arith) h ⟩
      be_bytes (suc j) (v * 256 + b) ++ bs
    ≡⟨ (rw (quotient, remainder, append_assoc)) ⟩ be_bytes j v ++ b ∷ bs ∎

-- The bytes of the number that a buffer spells are the buffer.
pub be_bytes-be_value :
    (bytes : Buffer) → IsBytes bytes → be_bytes (length bytes) (be_value bytes) ≡ bytes
unfolding be_value be_bytes
be_bytes-be_value bytes h = be_bytes-be_value_from (length bytes) 0 0 bytes (omega arith) h

scale_lt : (v b t q : ℕ) → b < 256 → t < (v * 256 + b + 1) * q → t < (v + 1) * (q * 256)
scale_lt v b t q p h =
    let k : (v * 256 + b + 1) * q ≤ (v + 1) * 256 * q = grind arith in omega arith

be_value_from-lt :
    (v : ℕ) (bytes : Buffer) → IsBytes bytes → be_value_from v bytes < (v + 1) * 256 ^ length bytes
unfolding be_value_from
be_value_from-lt v [] h = omega arith
be_value_from-lt v (b ∷ bs) (p, h) =
    rw (pow-suc 256 (length bs)) (scale_lt v b _ _ p (be_value_from-lt (v * 256 + b) bs h))

-- What a buffer spells is below 256 to its length.
pub be_value-lt : (bytes : Buffer) → IsBytes bytes → be_value bytes < 256 ^ length bytes
unfolding be_value
be_value-lt bytes h = omega (arith, be_value_from-lt 0 bytes h)

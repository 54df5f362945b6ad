-- ===== src/Bytes/Layout.antt =====
-- A buffer laid out as IV, tag and ciphertext: cutting it gives the parts back.
use blindference.Prelude.{
  ℕ, ◌+◌, ◌-◌, ◌≤◌, ◌≡◌, ◌∙◌, sym, ap, zero, suc, [], ◌∷◌, refl, ◌++◌, append_assoc, length,
  length-append, take, drop, take_append_exact, drop_append_exact, take-append-drop, arith,
}
use blindference.Bytes.{Buffer, subarray}

module _ {n m k : ℕ} (iv tag text : Buffer) (iv_length : length iv ≡ n)
    (tag_length : length tag ≡ m) (end : k ≡ n + m) where
  pub subarray-layout_iv : subarray 0 n (iv ++ (tag ++ text)) ≡ iv
  subarray-layout_iv = take_append_exact (n - 0) iv (tag ++ text) (omega arith)

  pub subarray-layout_tag : subarray n k (iv ++ (tag ++ text)) ≡ tag
  subarray-layout_tag =
      ap (take (k - n)) (drop_append_exact n iv (tag ++ text) iv_length)
      ∙ take_append_exact (k - n) tag text (omega arith)

  pub drop-layout : drop k (iv ++ (tag ++ text)) ≡ text
  drop-layout =
      ap (drop k) (sym (append_assoc iv tag text))
      ∙ drop_append_exact k (iv ++ tag) text (omega (arith, length-append iv tag))

drop-drop : (n m k : ℕ) (xs : Buffer) → k ≡ n + m → drop m (drop n xs) ≡ drop k xs
drop-drop zero m k xs e = let same : m ≡ k = omega arith in rw same
drop-drop (suc n) m zero xs e = absurd (omega arith)
drop-drop (suc n) zero (suc k) [] e = refl
drop-drop (suc n) (suc m) (suc k) [] e = refl
drop-drop (suc n) m (suc k) (x ∷ xs) e = drop-drop n m k xs (omega arith)

-- Cutting a buffer in three and joining the parts gives the buffer.
pub layout_whole :
    (n k : ℕ) (packed : Buffer)
    → n ≤ k
    → subarray 0 n packed ++ (subarray n k packed ++ drop k packed) ≡ packed
layout_whole n k packed h =
    let start : n - 0 ≡ n = omega arith in
    let rest = drop-drop n (k - n) k packed (omega arith) in
    rw (start, ← rest, take-append-drop (k - n) (drop n packed)) (take-append-drop n packed)

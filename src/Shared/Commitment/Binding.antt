-- ===== src/Shared/Commitment/Binding.antt =====
-- What a commitment commits to.
use blindference.Prelude.{
  ◌≡◌, refl, sym, ap, ◌∙◌, ◌++◌, length, take, drop, length-append, take_append_exact,
  drop_append_exact, arith,
}
use blindference.Bytes.{Buffer}
use blindference.Bytes.Hex.{to_hex, decode_hex}
use blindference.Bytes.HexLaws.{decode_hex-to_hex}
use blindference.Crypto.{Gcm}
use blindference.Shared.Commitment.{Sha256, hash_output, build_commitment_hash}

same_prefix : (a b x y : Buffer) → length x ≡ length y → a ++ x ≡ b ++ y → (a ≡ b) × (x ≡ y)
same_prefix a b x y same h =
    let size : length a ≡ length b =
      let whole = sym (length-append a x) ∙ ap length h ∙ length-append b y in omega arith in
    (
      sym (take_append_exact (length a) a x refl)
          ∙ ap (take (length a)) h
          ∙ take_append_exact (length a) b y (sym size),
      sym (drop_append_exact (length a) a x refl)
          ∙ ap (drop (length a)) h
          ∙ drop_append_exact (length a) b y (sym size),
    )

module _ (g : Gcm) (sha : Sha256) where
  digests :
      (x y : Buffer) → to_hex (sha.digest x) ≡ to_hex (sha.digest y) → sha.digest x ≡ sha.digest y
  digests x y h =
      sym (decode_hex-to_hex (sha.digest x) (sha.digest-IsBytes x))
      ∙ ap decode_hex h
      ∙ decode_hex-to_hex (sha.digest y) (sha.digest-IsBytes y)

  texts : (s t : g.Text) → g.encode s ≡ g.encode t → s ≡ t
  texts s t h = sym (g.decode-encode s) ∙ ap g.decode h ∙ g.decode-encode t

  -- A commitment binds the identifier and the text of an output: two outputs with the same commitment
  -- are the same, unless one of the two pairs of inputs that SHA-256 is given collides. The identifier
  -- needs no separator, since the hash behind it has 32 bytes.
  pub build_commitment_hash_binds :
      (cid cid' text text' : g.Text)
      → (sha.digest (g.encode text) ≡ sha.digest (g.encode text') → g.encode text ≡ g.encode text')
      → (sha.digest (g.encode cid ++ hash_output g sha text)
            ≡ sha.digest (g.encode cid' ++ hash_output g sha text')
          → g.encode cid ++ hash_output g sha text ≡ g.encode cid' ++ hash_output g sha text')
      → build_commitment_hash g sha cid (hash_output g sha text)
        ≡ build_commitment_hash g sha cid' (hash_output g sha text')
      → (cid ≡ cid') × (text ≡ text')
  unfolding build_commitment_hash hash_output
  build_commitment_hash_binds cid cid' text text' output_free commitment_free h =
      let (same_cid, same_hash) =
        same_prefix (g.encode cid) (g.encode cid') (hash_output g sha text)
          (hash_output g sha text')
          (sha.length-digest (g.encode text) ∙ sym (sha.length-digest (g.encode text')))
          (commitment_free (digests _ _ h)) in
      (texts cid cid' same_cid, texts text text' (output_free same_hash))

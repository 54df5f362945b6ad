-- ===== src/Frontend/Page/Sealed.antt =====
-- What the page seals, the SDK unpacks and opens.
use blindference.Prelude.{
  ℕ, ◌+◌, ◌-◌, ◌≡◌, refl, ap, sym, ◌∙◌, ◌++◌, ok, ◌>>=◌, length, replicate, take, drop, take_all,
  drop_all, length-append, length-take, length-drop, length-replicate, take_append_exact,
  drop_append_exact, append-nil, append_assoc, take-append-drop, ◌≤◌, [], arith,
}
use blindference.Bytes.{Buffer, write_at}
use blindference.Crypto.{Gcm, WebCrypto}
use blindference.Sdk.Encryption.{decrypt_aes_gcm, pack_aes_payload, unpack_aes_payload}
use blindference.Sdk.Encryption.Payloads.{unpack-pack}
use blindference.Frontend.Page.Seal.{SealedText, encrypt_text, pack_payload}

drop_behind : (a z : Buffer) (n : ℕ) → n ≤ length z → drop (length a + n) (a ++ z) ≡ drop n z
drop_behind a z n h =
    let front : length (a ++ take n z) ≡ length a + n =
      omega (arith, length-append a (take n z), length-take n z) in
    let split : (a ++ take n z) ++ drop n z ≡ a ++ z =
      append_assoc a (take n z) (drop n z) ∙ ap (λ l. a ++ l) (take-append-drop n z) in
    ap (drop (length a + n)) (sym split)
    ∙ drop_append_exact (length a + n) (a ++ take n z) (drop n z) front

-- Writing behind a prefix whose length is the offset.
write_behind :
    (a b z : Buffer)
    → length b ≤ length z
    → write_at (length a) b (a ++ z) ≡ a ++ (b ++ drop (length b) z)
write_behind a b z h =
    let room : take (length (a ++ z) - length a) b ≡ b =
      take_all (length (a ++ z) - length a) b (omega (arith, length-append a z)) in
    rw (take_append_exact (length a) a z refl, room, drop_behind a z (length b) h) refl

-- Three buffers written one behind the other into a buffer of their total length.
write_three :
    (a b c z : Buffer)
    → length z ≡ length a + length b + length c
    → write_at (length a + length b) c (write_at (length a) b (write_at 0 a z)) ≡ a ++ (b ++ c)
write_three a b c z total =
    let z1 = drop (length a) z in
    let z2 = drop (length b) z1 in
    let l1 : length z1 ≡ length b + length c = omega (arith, length-drop (length a) z) in
    let l2 : length z2 ≡ length c = omega (arith, length-drop (length b) z1) in
    let first : write_at 0 a z ≡ a ++ z1 = write_behind [] a z (omega arith) in
    let second : write_at (length a) b (a ++ z1) ≡ (a ++ b) ++ z2 =
      write_behind a b z1 (omega arith) ∙ sym (append_assoc a b z2) in
    let third : write_at (length (a ++ b)) c ((a ++ b) ++ z2)
        ≡ (a ++ b) ++ (c ++ drop (length c) z2) =
      write_behind (a ++ b) c z2 (omega arith) in
    let rest : drop (length c) z2 ≡ [] = drop_all (length c) z2 (omega arith) in
    let tail : (a ++ b) ++ (c ++ drop (length c) z2) ≡ a ++ (b ++ c) =
      ap (λ l. (a ++ b) ++ (c ++ l)) rest
      ∙ (ap (λ l. (a ++ b) ++ l) (append-nil c) ∙ append_assoc a b c) in
    ap (λ l. write_at (length a + length b) c (write_at (length a) b l)) first
    ∙ (ap (λ l. write_at (length a + length b) c l) second
        ∙ (ap (λ n. write_at n c ((a ++ b) ++ z2)) (sym (length-append a b)) ∙ (third ∙ tail)))

-- Packing joins the IV, the tag and the ciphertext.
pub pack_payload-eq-append :
    (payload : SealedText)
    → pack_payload payload ≡ pack_aes_payload payload.iv payload.auth_tag payload.ciphertext
unfolding pack_payload pack_aes_payload
pack_payload-eq-append payload =
    let total = length payload.iv + length payload.auth_tag + length payload.ciphertext in
    write_three payload.iv payload.auth_tag payload.ciphertext (replicate total 0)
      (length-replicate total 0)

-- What the page seals under a key of 32 bytes and packs, the agent SDK unpacks and opens to the
-- same text.
pub encrypt_text-opens :
    (g : Gcm) (web : WebCrypto g) (random_bytes : ℕ → Buffer) (text : g.Text) (key : Buffer)
    → ((n : ℕ) → length (random_bytes n) ≡ n)
    → length key ≡ 32
    → (do
      payload ← encrypt_text g web random_bytes text key
      p ← unpack_aes_payload (pack_payload payload)
      decrypt_aes_gcm g p.ciphertext key p.iv p.auth_tag)
      ≡ ok text
unfolding encrypt_text decrypt_aes_gcm
encrypt_text-opens g web random_bytes text key draws size =
    let iv = random_bytes 12 in
    let ((cipher, tag), sealed) =
      g.seals key iv (g.encode text) size (λ bare. let drawn = draws 12 in omega arith) in
    let tag_length = g.length-tag key iv (g.encode text) cipher tag sealed in
    let cut : length (cipher ++ tag) - 16 ≡ length cipher =
      omega (arith, length-append cipher tag) in
    rw
      (
        web.web_encrypt_lem key iv (g.encode text) cipher tag sealed,
        cut,
        take_append_exact (length cipher) cipher tag refl,
        drop_append_exact (length cipher) cipher tag refl,
        pack_payload-eq-append (record { iv = iv; auth_tag = tag; ciphertext = cipher }),
        unpack-pack iv tag cipher (draws 12) tag_length,
        g.opens key iv (g.encode text) cipher tag sealed,
        g.decode-encode text,
      )
      refl

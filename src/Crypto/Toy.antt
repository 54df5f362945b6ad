-- ===== src/Crypto/Toy.antt =====
-- A cipher that meets the laws, for the instances of the theorems: it leaves the text as it is,
-- and its tag is 16 zeros.
use blindference.Prelude.{
  not, ◌≢◌, ◌-◌, ◌==◌, if◌then◌else◌, ◌≡◌, refl, sym, ap, ℕ, ◌++◌, Result, ok, err, length,
  replicate, take, length-append, take_append_exact, arith,
}
use blindference.Bytes.{Buffer}
use blindference.Crypto.{Gcm, WebCrypto}

abbrev pub zero_tag : Buffer
zero_tag = replicate 16 0

abbrev pub toy_seal : Buffer → Buffer → Buffer → Result (Buffer × Buffer)
toy_seal key iv plain =
    if not (length key == 32)
    then err "RangeError: Invalid key length"
    else if length iv == 0
    then err "TypeError: Invalid initialization vector"
    else ok (plain, zero_tag)

pub toy_seals :
    (key iv plain : Buffer)
    → length key ≡ 32
    → length iv ≢ 0
    → (sealed : Buffer × Buffer) × (toy_seal key iv plain ≡ ok sealed)
toy_seals key iv plain h some_iv = ((plain, zero_tag), ground arith)

pub toy_length-tag :
    (key iv plain cipher tag : Buffer) → toy_seal key iv plain ≡ ok (cipher, tag) → length tag ≡ 16
toy_length-tag key iv plain cipher tag h =
    let e : zero_tag ≡ tag = ground arith in sym (ap length e)

pub toy_opens :
    (key iv plain cipher tag : Buffer)
    → toy_seal key iv plain ≡ ok (cipher, tag)
    → ok cipher ≡ ok plain
toy_opens key iv plain cipher tag h = ground arith

abbrev pub toy_gcm : Gcm
toy_gcm = record {
  Text = Buffer;
  encode = λ text. text;
  decode = λ bytes. bytes;
  decode-encode = λ text. refl;
  seal = toy_seal;
  open_sealed = λ key iv tag cipher. ok cipher;
  seals = toy_seals;
  length-tag = toy_length-tag;
  opens = toy_opens;
}

abbrev pub toy_web_encrypt : Buffer → Buffer → Buffer → Result Buffer
toy_web_encrypt key iv plain =
    if length key == 32 then ok (plain ++ zero_tag) else err "OperationError"

pub toy_web_encrypt_lem :
    (key iv plain cipher tag : Buffer)
    → toy_seal key iv plain ≡ ok (cipher, tag)
    → toy_web_encrypt key iv plain ≡ ok (cipher ++ tag)
toy_web_encrypt_lem key iv plain cipher tag h = ground arith

abbrev pub toy_web_decrypt : Buffer → Buffer → Buffer → Result Buffer
toy_web_decrypt key iv sealed = ok (take (length sealed - 16) sealed)

pub toy_web_decrypt_lem :
    (key iv cipher tag : Buffer)
    → length tag ≡ 16
    → toy_web_decrypt key iv (cipher ++ tag) ≡ ok cipher
toy_web_decrypt_lem key iv cipher tag h = ap ok (
    take_append_exact (length (cipher ++ tag) - 16) cipher tag
      (omega (arith, length-append cipher tag)))

abbrev pub toy_web_crypto : WebCrypto toy_gcm
toy_web_crypto = record {
  web_encrypt = toy_web_encrypt;
  web_decrypt = toy_web_decrypt;
  web_encrypt_lem = toy_web_encrypt_lem;
  web_decrypt_lem = toy_web_decrypt_lem;
}

-- A source of bytes that draws zeros.
abbrev pub zero_bytes : ℕ → Buffer
zero_bytes n = replicate n 0

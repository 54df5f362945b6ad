-- ===== src/Frontend/Escrow/Outcome.antt =====
-- How the creation of an escrow ends, and the job ids that it takes.
use Prim.Native.String
use blindference.Prelude.{
  ℕ, String, ◌≡◌, ◌⊎◌, ◌*◌, ◌<◌, ◌/◌, ◌%◌, ◌<+>◌, inl, inr, refl, true, false, Option, none, some,
  is_some, Result, ok, err, ap, str_eq, truthy, text_truthy, starts_with, ◌==◌, zero, suc, length,
  [], ◌∷◌, text_length, arith,
}
use text.Mathlib.TextLemmas.{length-append, length-cons}
use text.Mathlib.TextEquality.{eq_iff}
use text.Mathlib.TextPositions.{starts_with-append}
use blindference.Bytes.{Buffer, IsBytes}
use blindference.Sdk.Agent.Jobs.{char_at, hex_text}
use blindference.Frontend.Page.Submit.{Model, job_price_cusdc}
use blindference.Frontend.Escrow.{
  CreateEscrowResult, EscrowServices, Hook, Wallet, refusal, make, settle_make, after_guards,
  create_escrow,
}

-- What a caller learns: the escrow, which the hook shows without an error, or nothing, with an
-- error.
abbrev pub Told : {W : Type 0} → Option CreateEscrowResult × Hook W → Type 0
Told out =
    (out.1.loading ≡ false)
    × (((res : CreateEscrowResult) × (out.0 ≡ some res)
          × (out.1.result ≡ some res)
          × (out.1.error ≡ none))
        ⊎ ((out.0 ≡ none) × (is_some out.1.error ≡ true)))

module _ {W : Type 0} (services : EscrowServices W) where
  settle_make-Told :
      (r : Result CreateEscrowResult) (hook : Hook W)
      → hook.error ≡ none
      → Told (settle_make services r hook)
  settle_make-Told (ok res) hook h = (refl, inl (res, refl, refl, h))
  settle_make-Told (err e) hook h = (refl, inr (refl, refl))

  after_guards-Told :
      (guard : Option String) (amount : ℕ) (job_id : String) (hook : Hook W)
      → hook.loading ≡ false
      → Told (after_guards services guard amount job_id hook)
  unfolding after_guards make
  after_guards-Told (some msg) amount job_id hook h = (h, inr (refl, refl))
  after_guards-Told none amount job_id hook h =
      let out = make services amount job_id hook.world in
      settle_make-Told out.0 (record { world = out.1; loading = true; error = none; result = none })
        refl

  -- From a hook at rest, the creation of an escrow comes to rest, whatever its guards and the SDK do:
  -- either it returns the escrow that the hook then shows, with no error, or it returns nothing and
  -- the hook shows an error.
  pub create_escrow-Told :
      (wallet : Wallet) (usdc_amount : ℕ) (job_id : String) (hook : Hook W)
      → hook.loading ≡ false
      → Told (create_escrow services wallet usdc_amount job_id hook)
  unfolding create_escrow
  create_escrow-Told wallet usdc_amount job_id hook h =
      after_guards-Told (refusal wallet usdc_amount job_id) usdc_amount job_id hook h

length-char_at : (n : ℕ) (s : String) → n < text_length s → text_length (char_at n s) ≡ 1
length-char_at n String.[] h = ground arith
length-char_at zero (String.◌∷◌ c s) h = String.count.cons c ""
length-char_at (suc n) (String.◌∷◌ c s) h = length-char_at n s (omega (arith, length-cons c s))

length-hex_text : (bytes : Buffer) → IsBytes bytes → text_length (hex_text bytes) ≡ 2 * length bytes
unfolding hex_text
length-hex_text [] h = refl
length-hex_text (b ∷ bs) h =
    let high = char_at (b / 16) "0123456789abcdef" in
    let low = char_at (b % 16) "0123456789abcdef" in
    omega (
      arith,
      length-append high (low <+> hex_text bs),
      length-append low (hex_text bs),
      length-char_at (b / 16) "0123456789abcdef" (ground arith),
      length-char_at (b % 16) "0123456789abcdef" (ground arith),
      length-hex_text bs h.1,
    )

price-positive : (m : Model) → (job_price_cusdc m == 0) ≡ false
price-positive m = ground arith

prefixed-truthy : (s : String) → text_truthy ("0x" <+> s) ≡ true
prefixed-truthy s =
    let empty : str_eq ("0x" <+> s) "" ≡ true → text_length ("0x" <+> s) ≡ 0 =
      λ h. ap text_length ((eq_iff ("0x" <+> s) "").0 h) in
    ground (arith, length-append "0x" s)

prefixed-starts_with : (s : String) → starts_with ("0x" <+> s) "0x" ≡ true
prefixed-starts_with s = starts_with-append "0x" s

-- The task ids and the prices of the inference page pass the guards: a connected wallet is never
-- refused for the job id of 32 bytes or for the amount.
pub refusal_task_id :
    (wallet : Wallet) (m : Model) (bytes : Buffer)
    → truthy wallet.address ≡ true
    → wallet.has_clients ≡ true
    → wallet.has_cofhe ≡ true
    → IsBytes bytes
    → length bytes ≡ 32
    → refusal wallet (job_price_cusdc m) ("0x" <+> hex_text bytes) ≡ none
unfolding refusal
refusal_task_id wallet m bytes connected clients cofhe h size =
    let hex : text_length (hex_text bytes) ≡ 64 = omega (arith, length-hex_text bytes h) in
    let whole : text_length ("0x" <+> hex_text bytes) ≡ 66 =
      omega (arith, length-append "0x" (hex_text bytes)) in
    rw
      (
        connected,
        clients,
        cofhe,
        whole,
        price-positive m,
        prefixed-truthy (hex_text bytes),
        prefixed-starts_with (hex_text bytes),
      )
      refl

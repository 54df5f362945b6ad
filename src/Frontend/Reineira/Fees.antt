-- ===== src/Frontend/Reineira/Fees.antt =====
-- The fees of the patched signer.
use blindference.Prelude.{
  ℕ, ◌*◌, ◌<◌, ◌≤◌, String, ◌≡◌, refl, sym, ap, subst, ◌∙◌, Option, none, some, or_default, Result,
  ok, err, arith,
}
use blindference.Async.{Async, pure, try_catch, handle, continue, ◌>>=◌}
use blindference.Async.Laws.{>>=-ok}
use blindference.Async.Triple.{Post, Triple, >>=-Triple}
use blindference.Frontend.Reineira.{
  SdkFees, fallback_fees, Provider, Transaction, priority_of, priority, fees_above, estimate,
  get_fee_params, patched_send,
}

-- Fees that a chain accepts: a priority fee above 0, within the maximal one.
abbrev pub Valid : SdkFees → Type 0
Valid fees =
    (0 < fees.max_priority_fee_per_gas) × (fees.max_priority_fee_per_gas ≤ fees.max_fee_per_gas)

-- Ten times that base fee is covered, where there is one.
abbrev pub TenTimes : ℕ → SdkFees → Type 0
TenTimes base fees = 0 < base → base * 10 < fees.max_fee_per_gas

fees_above-Valid :
    (base priority : ℕ)
    → 0 < priority
    → Valid (fees_above base priority) × TenTimes base (fees_above base priority)
fees_above-Valid base priority h = (ground arith, ground arith)

priority_of_pos : (fee : Option ℕ) → 0 < priority_of fee
priority_of_pos none = omega arith
priority_of_pos (some fee) = ground arith

module _ {W : Type 0} (provider : Provider W) (w : W) where
  abbrev Read : Result (Option ℕ) → Type 0
  Read r = (provider.base_fee_per_gas w).0 ≡ r

  abbrev Unread : String → W → Type 0
  Unread e v = Read (err e)

  read_from : (r : Result (Option ℕ)) (v : W) → Read r → Post (λ base v. Read (ok base)) Unread r v
  read_from (ok base) v h = h
  read_from (err e) v h = h

  read : Triple (λ v. v ≡ w) provider.base_fee_per_gas (λ base v. Read (ok base)) Unread
  read v h =
      subst
        (λ x.
          Post (λ base v. Read (ok base)) Unread (provider.base_fee_per_gas x).0
            (provider.base_fee_per_gas x).1)
        (sym h) (read_from (provider.base_fee_per_gas w).0 (provider.base_fee_per_gas w).1 refl)

  priority_from :
      (C : Type 0) (r : Result (Option ℕ)) (v : W)
      → C
      → let out = continue r (λ fee. pure (priority_of fee)) v in
        let caught = handle out.0 (λ e. pure 2000000) out.1 in
        Post (λ p v. C × (0 < p)) Unread caught.0 caught.1
  unfolding pure
  priority_from C (ok fee) v c = (c, priority_of_pos fee)
  priority_from C (err e) v c = (c, omega arith)

  priority_pos : (C : Type 0) → Triple (λ v. C) (priority provider) (λ p v. C × (0 < p)) Unread
  unfolding priority try_catch ◌>>=◌
  priority_pos C v c =
      priority_from C (provider.max_priority_fee_per_gas v).0
        (provider.max_priority_fee_per_gas v).1 c

  -- What the fees are worth, by the base fee that was read.
  abbrev Priced : SdkFees → W → Type 0
  Priced fees v =
      (base : Option ℕ) × Read (ok base) × Valid fees × TenTimes (or_default base 0) fees

  estimate-Priced : Triple (λ v. v ≡ w) (estimate provider) Priced Unread
  unfolding estimate pure
  estimate-Priced =
      >>=-Triple (λ v. v ≡ w) (λ base v. Read (ok base)) Priced Unread provider.base_fee_per_gas _
        read
        λ base.
          >>=-Triple (λ v. Read (ok base)) (λ p v. Read (ok base) × (0 < p)) Priced Unread
            (priority provider) (λ p. pure (fees_above (or_default base 0) p))
            (priority_pos (Read (ok base)))
            λ p v (h, pos).
              let (valid, covers) = fees_above-Valid (or_default base 0) p pos in
              (base, h, valid, covers)

  abbrev Got : Result SdkFees → Type 0
  Got r =
      (fees : SdkFees) × (r ≡ ok fees)
      × Valid fees
      × ((base : ℕ) → Read (ok (some base)) → TenTimes base fees)

  caught :
      (r : Result SdkFees) (v : W)
      → Post Priced Unread r v
      → Got (handle r (λ e. pure fallback_fees) v).0
  unfolding pure
  caught (ok fees) v (base, h, valid, covers) = (
    fees,
    refl,
    valid,
    λ b h'.
        let read_once : ◌≡◌ {A = Result (Option ℕ)} (ok base) (ok (some b)) = sym h ∙ h' in
        let same : base ≡ some b = ground arith in
        subst (λ n. TenTimes n fees) (ap (λ o. or_default o 0) same) covers,
  )
  caught (err e) v h = (fallback_fees, refl, (omega arith, omega arith), λ b h'. cc)

  get_fee_params-Got : Got (get_fee_params (some provider) w).0
  unfolding get_fee_params try_catch
  get_fee_params-Got =
      caught (estimate provider w).0 (estimate provider w).1 (estimate-Priced w refl)

  -- Whatever the provider's reads do, the patched signer hands every transaction on, as one of type 2
  -- with a priority fee above 0 and within its maximal fee; and where the base fee of the latest block
  -- was read, and is above 0, the maximal fee is above ten times that.
  pub patched_send-Valid :
      (original : Transaction → Async W String) (tx : Transaction)
      → (fees : SdkFees) × (v : W) × (patched_send original (some provider) tx w
          ≡ original (record tx { fees = some fees; kind = some 2 }) v)
        × Valid fees
        × ((base : ℕ) → (provider.base_fee_per_gas w).0 ≡ ok (some base) → TenTimes base fees)
  unfolding patched_send
  patched_send-Valid original tx =
      let (fees, got, valid, covers) = get_fee_params-Got in
      let v = (get_fee_params (some provider) w).1 in
      (
        fees,
        v,
        >>=-ok (get_fee_params (some provider)) _ w v fees (ap (λ r. (r, v)) got),
        valid,
        covers,
      )

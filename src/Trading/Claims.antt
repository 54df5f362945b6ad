-- ===== src/Trading/Claims.antt =====
-- Claims of the trading-signal client: the wallet that they ask for, and the payout that they report.
use blindference.Prelude.{
  ℕ, String, ◌≡◌, ◌⊎◌, inl, inr, refl, ap, List, [], ◌∷◌, ◌++◌, Option, none, some, Result, ok, err,
  Option-cases, ◌∙◌, All, arith, false, true, Bool,
}
use blindference.Async.{◌>>=◌}
use blindference.Trading.{
  Log, Event, paid_by, find_payout, Wallet, Contracts, ContractAddresses, claim_loss,
  purchase_coverage,
}

module _ (decode : String → Result Event) (underwriter : String) where
  nothing : find_payout decode underwriter [] ≡ none
  unfolding find_payout
  nothing = refl

  passed :
      (log : Log) (logs : List Log)
      → paid_by decode underwriter log ≡ none
      → find_payout decode underwriter (log ∷ logs) ≡ find_payout decode underwriter logs
  unfolding find_payout
  passed log logs unpaid = ground arith

  found :
      (log : Log) (logs : List Log) (n : ℕ)
      → paid_by decode underwriter log ≡ some n
      → find_payout decode underwriter (log ∷ logs) ≡ some n
  unfolding find_payout
  found log logs n paid = ground arith

  -- The payout found is that of the first log of the underwriter that is a ClaimPaid, and there is
  -- none when no log is.
  pub find_payout_first :
      (logs : List Log)
      → ((find_payout decode underwriter logs ≡ none)
          × All (λ log. paid_by decode underwriter log ≡ none) logs)
        ⊎ ((before : List Log) × (log : Log) × (later : List Log) × (n : ℕ) × (logs
              ≡ before ++ log ∷ later)
            × All (λ l. paid_by decode underwriter l ≡ none) before
            × (paid_by decode underwriter log ≡ some n)
            × (find_payout decode underwriter logs ≡ some n))
  find_payout_first [] = inl (nothing, tt)
  find_payout_first (log ∷ logs) = elim (Option-cases (paid_by decode underwriter log)) [
    | inr (n, paid) ↦ inr ([], log, logs, n, refl, tt, paid, found log logs n paid)
    | inl unpaid ↦ elim (find_payout_first logs) [
      | inl (missing, rest) ↦ inl (passed log logs unpaid ∙ missing, (unpaid, rest))
      | inr (before, l, later, n, order, rest, paid, first) ↦ inr (
        log ∷ before,
        l,
        later,
        n,
        ap (λ ls. log ∷ ls) order,
        (unpaid, rest),
        paid,
        passed log logs unpaid ∙ first,
      )
    ]
  ]

abbrev pub is_error : {A : Type 0} → Result A → Bool
is_error (ok a) = false
is_error (err e) = true

module _ {W : Type 0} (contracts : Contracts W) (decode : String → Result Event)
    (addresses : ContractAddresses) where
  -- Without a wallet, or with one that has no account, neither a purchase nor a claim reaches the
  -- chain: both throw, and the state stays.
  pub writes_need_account :
      (wallet : Option Wallet) (invocation_id amount escrow_id : ℕ) (w : W)
      → (wallet ≡ none) ⊎ (wallet ≡ some (record { account = none }))
      → let claim = claim_loss contracts decode addresses wallet invocation_id w in
        let purchase =
          purchase_coverage contracts decode addresses wallet invocation_id amount escrow_id w in
        (is_error claim.0 ≡ true) × (claim.1 ≡ w) × (is_error purchase.0 ≡ true) × (purchase.1 ≡ w)
  unfolding claim_loss purchase_coverage ◌>>=◌
  writes_need_account wallet invocation_id amount escrow_id w (inl e) =
      (rw e refl, rw e refl, rw e refl, rw e refl)
  writes_need_account wallet invocation_id amount escrow_id w (inr e) =
      (rw e refl, rw e refl, rw e refl, rw e refl)

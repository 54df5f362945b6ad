-- ===== src/Frontend/Chain/Fees.antt =====
-- What a transaction of the web client that went through has behind it.
use blindference.Prelude.{
  ℕ, ◌+◌, ◌*◌, ◌<◌, ◌≡◌, sym, ap, ◌∙◌, ltb, if◌then◌else◌, String, str_eq, Option, none, some, ok,
  arith, eq_iff,
}
use blindference.Async.{pure, try_catch, ◌>>=◌}
use blindference.Async.Laws.{>>=-inv, guarded}
use blindference.Sdk.Agent.{FeeParams}
use blindference.Frontend.Chain.{
  Call, Chain, fee_params, fees_for, fallback_priority_fee_per_gas, write, send,
}

-- Fees that a block of that base fee takes, twice the base fee ahead.
abbrev pub Covers : Option ℕ → FeeParams → Type 0
Covers (some base) (FeeParams.eip1559 priority max_fee) =
    (0 < priority) × (2 * base + priority < max_fee)
Covers (some base) (FeeParams.legacy price) = ⊥
Covers none (FeeParams.eip1559 priority max_fee) = ⊥
Covers none (FeeParams.legacy price) = Unit {0}

-- A call that the wallet signed with fees that cover the base fee of the latest block, and whose
-- receipt says `success`.
pub data Confirmed {W : Type 0} (chain : Chain W) (call : Call) (hash : String) (w w' : W)
    : Type 0 where
  confirmed :
      (base : Option ℕ) (fees : FeeParams) (read estimated signed : W)
      → chain.base_fee_per_gas w ≡ (ok base, read)
      → Covers base fees
      → chain.write_contract call fees estimated ≡ (ok hash, signed)
      → chain.receipt_status hash signed ≡ (ok "success", w')
      → Confirmed chain call hash w w'

module _ {W : Type 0} (chain : Chain W) where
  fees_for-Covers :
      (base : Option ℕ) (priority : ℕ) (fees : FeeParams) (w w' : W)
      → 0 < priority
      → fees_for chain base priority w ≡ (ok fees, w')
      → Covers base fees
  unfolding ◌>>=◌ pure
  fees_for-Covers none priority (FeeParams.legacy price) w w' pos h = tt
  fees_for-Covers none priority (FeeParams.eip1559 p m) w w' pos h = ground arith
  fees_for-Covers (some base) priority (FeeParams.legacy price) w w' pos h = ground arith
  fees_for-Covers (some base) priority (FeeParams.eip1559 p m) w w' pos h = ground arith

  fee_params-Covers :
      (fees : FeeParams) (w w' : W)
      → fee_params chain w ≡ (ok fees, w')
      → (base : Option ℕ) × (read : W) × (chain.base_fee_per_gas w ≡ (ok base, read))
        × Covers base fees
  unfolding fee_params
  fee_params-Covers fees w w' h =
      let (base, read, block, h1) = >>=-inv chain.base_fee_per_gas _ w fees w' h in
      let (estimate, v, estimated, h2) =
        >>=-inv
          (try_catch chain.estimate_max_priority_fee_per_gas
            (λ e. pure fallback_priority_fee_per_gas))
          _ read fees w' h1 in
      (
        base,
        read,
        block,
        fees_for-Covers base (if ltb 0 estimate then estimate else fallback_priority_fee_per_gas)
            fees v w' (ground arith) h2,
      )

  -- A transaction that comes back was signed with fees above twice the base fee of the latest
  -- block beside a priority fee above 0, where the block has a base fee, and its receipt says
  -- `success`.
  pub send-Confirmed :
      (call : Call) (reverted hash : String) (w w' : W)
      → send chain call reverted w ≡ (ok hash, w')
      → Confirmed chain call hash w w'
  unfolding send write
  send-Confirmed call reverted hash w w' h =
      let (sent, signed, written, h1) = >>=-inv (write chain call) _ w hash w' h in
      let (fees, estimated, priced, signing) =
        >>=-inv (fee_params chain) (λ fees. chain.write_contract call fees) w sent signed written in
      let (status, mined, receipt, h2) = >>=-inv (chain.receipt_status sent) _ signed hash w' h1 in
      let (base, read, block, covers) = fee_params-Covers fees w estimated priced in
      let (passed, same, last) = guarded (str_eq status "success") reverted sent hash mined w' h2 in
      confirmed base fees read estimated signed block covers
        (signing ∙ ap (λ x. (ok x, signed)) same)
        (ap (λ x. chain.receipt_status x signed) (sym same)
          ∙ (receipt
              ∙ (ap (λ (s : String). (ok s, mined)) ((eq_iff status "success").0 passed)
                  ∙ ap (λ m. (ok "success", m)) last)))

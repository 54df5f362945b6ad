-- ===== src/Sdk/Agent/Fees.antt =====
-- The fees of the transaction that stores a prompt key.
use blindference.Prelude.{ℕ, ◌+◌, ◌*◌, ◌<◌, ◌≡◌, some, ok, arith}
use blindference.Async.{try_catch, ◌>>=◌}
use blindference.Sdk.Agent.{Services, FeeParams}
use blindference.Sdk.Agent.Keys.{fee_params}

module _ {W : Type 0} (services : Services W) where
  -- With a base fee, the fees are those of EIP-1559: the priority fee is above 0 whatever the
  -- estimate did, and the maximum covers twice the base fee beside it.
  pub fee_params_cover :
      (w w' w'' : W) (base priority max_fee : ℕ)
      → services.base_fee_per_gas w ≡ (ok (some base), w')
      → fee_params services w ≡ (ok (FeeParams.eip1559 priority max_fee), w'')
      → (0 < priority) × (2 * base + priority < max_fee)
  unfolding fee_params ◌>>=◌ try_catch
  fee_params_cover w w' w'' base priority max_fee h fees = ground arith

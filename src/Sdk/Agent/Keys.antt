-- ===== src/Sdk/Agent/Keys.antt =====
-- The prompt key on the chain, and the key and the text of an answer (agent.ts).
use blindference.Prelude.{
  Result, ℕ, ◌+◌, ◌*◌, ◌/◌, String, not, ltb, str_eq, if◌then◌else◌, [], ◌∷◌, Option, none, some,
  err, or_default, ◌<+>◌,
}
use blindference.Bytes.{Buffer}
use blindference.Crypto.{Gcm}
use blindference.Async.{Async, pure, lift, try_catch, throw_when, ◌>>=◌, ◌>>◌}
use blindference.Cofhe.{CofheClient, EncryptedItemInput, Permit, uint_128}
use blindference.Sdk.Encryption.{combine_key_halves}
use blindference.Sdk.Agent.Opening.{open_packed}
use blindference.Sdk.Ipfs.{download_from_ipfs}
use blindference.Sdk.Agent.{Agent, Services, Config, ContractInput, FeeParams, Call, on}

abbrev pub to_contract_input : EncryptedItemInput → ContractInput
to_contract_input item = record {
  ct_hash = item.ct_hash;
  security_zone = or_default item.security_zone 0;
  utype = item.utype;
  signature = item.signature;
}

abbrev pub fallback_priority_fee_per_gas : ℕ
fallback_priority_fee_per_gas = 2000000

module _ {W : Type 0} (services : Services W) where
  abbrev fees_for : Option ℕ → ℕ → Async W FeeParams
  fees_for none priority = services.gas_price >>= λ price. pure (FeeParams.legacy price)
  fees_for (some base) priority = pure (FeeParams.eip1559 priority (base * 2 + priority + 1000000))

  -- The fee parameters of `_storePromptKey`: an estimate that fails, or is 0, is replaced.
  unfoldable pub fee_params : Async W FeeParams
  fee_params = do
    base_fee_per_gas ← services.base_fee_per_gas
    estimate ←
        try_catch services.estimate_max_priority_fee_per_gas
          (λ e. pure fallback_priority_fee_per_gas)
    let priority = if ltb 0 estimate then estimate else fallback_priority_fee_per_gas
    fees_for base_fee_per_gas priority

  -- An item that is missing throws where it is read, behind the fees.
  unfoldable pub store_prompt_key :
      Config → String → Result EncryptedItemInput → Result EncryptedItemInput → Async W String
  unfolding fee_params throw_when ◌>>◌
  store_prompt_key config task_id high low = do
    fees ← fee_params
    high_input ← lift high
    low_input ← lift low
    hash ← services.write_contract (
        Call.store_key config.prompt_key_store_address task_id (to_contract_input high_input)
          (to_contract_input low_input) (services.address ∷ []) fees)
    status ← services.receipt_status hash
    throw_when (not (str_eq status "success"))
        ("PromptKeyStore transaction failed for task " <+> task_id)
    pure hash

  -- The permit to decrypt with: an expired one is replaced.
  unfoldable pub current_permit : CofheClient W → Async W Permit
  unfolding ◌>>◌
  current_permit client = do
    permit ← client.get_or_create_self_permit
    now_ms ← services.now
    if ltb permit.expiration (now_ms / 1000)
        then (do client.remove_active_permit; client.get_or_create_self_permit)
        else pure permit

  unfoldable pub decrypt_with_client : Config → CofheClient W → String → Async W Buffer
  unfolding current_permit
  decrypt_with_client config client task_id = do
    (high_hash, low_hash) ← services.encrypted_key config.prompt_key_store_address task_id
    permit ← current_permit client
    high ← client.decrypt_for_view high_hash uint_128 permit
    low ← client.decrypt_for_view low_hash uint_128 permit
    pure (combine_key_halves high low)

  unfoldable pub decrypt_output_key : Config → String → Async (Agent W) Buffer
  unfolding decrypt_with_client
  decrypt_output_key config task_id agent = elim agent.cofhe_client [
    | none ↦ (err "CoFHE client not initialized", agent)
    | some client ↦ on (decrypt_with_client config client task_id) agent
  ]

  -- The two gateways of the environment come first.
  unfoldable pub download_and_decrypt_output :
      (g : Gcm) → Option String → Option String → Config → String → Buffer → Async W g.Text
  unfolding open_packed
  download_and_decrypt_output g env ipfs_env config cid key = do
    packed ← download_from_ipfs services.fetch cid env ipfs_env (some config.ipfs_gateway)
    lift (open_packed g key packed)

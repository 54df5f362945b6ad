-- ===== src/Tests/Wallet.antt =====
-- The transactions of the web client at concrete inputs. The chain holds the four handles of the
-- vault, and mines every call.
use blindference.Prelude.{
  Option, Result, length, ℕ, ◌≡◌, ◌≢◌, refl, String, List, [], ◌∷◌, none, some, decimal, ok, err,
}
use blindference.Async.{Async, ◌>>=◌}
use blindference.Cofhe.{EncryptedItemInput}
use blindference.Sdk.Agent.{FeeParams}
use blindference.Frontend.Chain.{Call, Chain, fee_params, send}
use blindference.Frontend.Chain.Fees.{Confirmed, send-Confirmed}
use blindference.Frontend.Vault.{
  to_contract_input, expects_four, store_prompt_key_for_text_request, four_of,
  store_encrypted_risk_inputs_in_vault,
}
use blindference.Frontend.Vault.Stored.{store_prompt_key-Confirmed, store_risk_inputs_cases}

abbrev pub Held : Type 0
Held = ℕ × ℕ × ℕ × ℕ

abbrev pub empty : Held
empty = (0, 0, 0, 0)

abbrev hold : Call → Held → Held
hold (Call.store_encrypted_inputs vault loan_id a b c d) held =
    (a.ct_hash, b.ct_hash, c.ct_hash, d.ct_hash)
hold _ held = held

abbrev pub chain : Chain Held
chain = record {
  base_fee_per_gas = λ w. (ok (some 100), w);
  estimate_max_priority_fee_per_gas = λ w. (err "not supported", w);
  gas_price = λ w. (ok 7, w);
  write_contract = λ call fees w. (ok "0xhash", hold call w);
  receipt_status = λ hash w. (ok "success", w);
}

-- A chain on which every transaction is reverted.
abbrev pub reverting : Chain Held
reverting = record chain { receipt_status = λ hash w. (ok "reverted", w) }

abbrev pub read_vault : String → String → Async Held (String × ℕ × ℕ × ℕ × ℕ × ℕ)
read_vault vault loan_id w = (ok ("0x1", 5, w.0, w.1, w.2, w.3), w)

priced : fee_params chain empty ≡ (ok (FeeParams.eip1559 2000000 3000200), empty)
unfolding fee_params ◌>>=◌
priced = refl

drips : send chain (Call.drip "0xf") "reverted" empty ≡ (ok "0xhash", empty)
unfolding send fee_params
drips = refl

drip_reverted : send reverting (Call.drip "0xf") "reverted" empty ≡ (err "reverted", empty)
unfolding send fee_params
drip_reverted = refl

send-Confirmed_example : Confirmed chain (Call.drip "0xf") "0xhash" empty empty
send-Confirmed_example =
    send-Confirmed chain (Call.drip "0xf") "reverted" "0xhash" empty empty drips

abbrev pub item : ℕ → EncryptedItemInput
item n = record { ct_hash = n; security_zone = none; utype = 4; signature = "0x" }

key_stored :
    store_prompt_key_for_text_request chain (some "0x1") "0xab" (item 1) (item 2) [] "0x2" empty
    ≡ (ok "0xhash", empty)
unfolding store_prompt_key_for_text_request fee_params
key_stored = refl

store_prompt_key-Confirmed_example :
    (user : String) × (nodes : List String) × (some "0x1" ≡ some user)
    × Confirmed chain
        (Call.store_key "0x2" "0xab"
          (to_contract_input (item 1))
          (to_contract_input (item 2))
          nodes)
        "0xhash"
        empty
        empty
    × (nodes ≢ [])
    × (◌≡◌ {A = List String} [] [] → nodes ≡ user ∷ [])
    × (◌≢◌ {A = List String} [] [] → nodes ≡ [])
store_prompt_key-Confirmed_example =
    store_prompt_key-Confirmed chain (some "0x1") "0xab" "0x2" "0xhash" (item 1) (item 2) [] empty
      empty key_stored

abbrev pub features : List EncryptedItemInput
features = item 11 ∷ item 12 ∷ item 13 ∷ item 14 ∷ []

abbrev pub held : Held
held = (11, 12, 13, 14)

inputs_stored :
    store_encrypted_risk_inputs_in_vault chain (some "0x1") features "loan_1" "0xv" empty
    ≡ (ok "0xhash", held)
unfolding store_encrypted_risk_inputs_in_vault four_of fee_params
inputs_stored = refl

three_refused :
    store_encrypted_risk_inputs_in_vault chain
      (some "0x1")
      (item 1 ∷ item 2 ∷ item 3 ∷ [])
      "loan_1"
      "0xv"
      empty
    ≡ (err "BlindferenceInputVault expects exactly 4 encrypted features, got 3.", empty)
unfolding store_encrypted_risk_inputs_in_vault decimal
three_refused = refl

abbrev storing : Result String × Held
storing = store_encrypted_risk_inputs_in_vault chain (some "0x1") features "loan_1" "0xv" empty

store_risk_inputs_cases_example :
    ((hash : String) (w' : Held)
      → storing ≡ (ok hash, w')
      → (user : String) × (a b c d : EncryptedItemInput) × (◌≡◌ {A = Option String}
          (some "0x1")
          (some user))
        × (features ≡ a ∷ b ∷ c ∷ d ∷ [])
        × Confirmed chain
            (Call.store_encrypted_inputs "0xv" "loan_1"
              (to_contract_input a)
              (to_contract_input b)
              (to_contract_input c)
              (to_contract_input d))
            hash
            empty
            w')
    × (◌≡◌ {A = Option String} (some "0x1") none
        → storing ≡ (err "Wallet client is missing the active account.", empty))
    × ((user : String)
        → ◌≡◌ {A = Option String} (some "0x1") (some user)
        → length features ≢ 4
        → storing ≡ (err (expects_four (length features)), empty))
store_risk_inputs_cases_example =
    store_risk_inputs_cases chain (some "0x1") "loan_1" "0xv" features empty

-- ===== src/Sdk/Client.antt =====
-- network/packages/agent-sdk/src/client.ts: the client for payloads that are sealed already. The
-- services behind its HTTP clients and its wallet are arguments.
pub mod Requests
use blindference.Prelude.{
  ℕ, String, Bool, true, false, not, ◌||◌, str_eq, if◌then◌else◌, List, Option, none, some, ok, err,
  find_first, or_default, or_text, truthy, decimal, ◌<+>◌,
}
use blindference.Async.{Async, pure, throw, throw_when, ◌>>=◌, ◌>>◌}
use blindference.Async.Poll.{poll_until}
use blindference.Sdk.Agent.{QuorumRequest, Call, CreditBalance, CreditPackage}
use blindference.Sdk.Agent.Credits.{Purchase}

pub record InferenceResult : Type 0 where
  pub request_id : String
  pub task_id : Option String
  pub status : String
  pub output_cid : Option String
  pub commitment_hash : Option String

pub record EncryptedPayload : Type 0 where
  pub task_id : String
  pub prompt_cid : String
  pub encrypted_prompt_key : String × String
  pub model_id : Option String
  pub payment_mode : Option String
  pub payment_currency : Option String
  pub source : Option String

pub record Preview : Type 0 where
  pub leader : String
  pub verifiers : List String

-- The body of `POST /v1/inference/requests`.
pub record InferenceRequest : Type 0 where
  pub developer_address : String
  pub task_id : String
  pub mode : String
  pub model_id : String
  pub prompt_cid : String
  pub encrypted_prompt_key : String × String
  pub coverage_enabled : Bool
  pub leader_address : String
  pub verifier_addresses : List String
  pub min_tier : ℕ
  pub zdr_required : Bool
  pub verifier_count : ℕ
  pub payment_mode : String
  pub payment_currency : String
  pub source : String

-- What the ICL answers to a submission: `request_id` and `job_id`.
pub record Submitted : Type 0 where
  pub request_id : Option String
  pub job_id : Option String

pub record StatusData : Type 0 where
  pub status : String
  pub task_id : Option String
  pub job_id : Option String
  pub output_cid : Option String
  pub commitment_hash : Option String

pub record ClientServices (W : Type 0) : Type 0 where
  pub address : String
  pub quorum_preview : QuorumRequest → Async W Preview
  pub submit_request : InferenceRequest → Async W Submitted
  pub request_status : String → Async W StatusData
  pub health : Async W (Unit {0})
  pub get_balance : String → Async W CreditBalance
  pub get_packages : Async W (List CreditPackage)
  pub purchase_package : String → String → Async W CreditBalance
  pub write_contract : Call → Async W String
  pub receipt_status : String → Async W String
  pub sleep : ℕ → Async W (Unit {0})

-- `a || b`
abbrev pub first_truthy : Option String → Option String → Option String
first_truthy a b = if truthy a then a else b

abbrev is_status : StatusData → String → String → Bool
is_status answer upper lower = str_eq answer.status upper || str_eq answer.status lower

abbrev closed : String → StatusData → String → Option InferenceResult
closed request_id answer status = some (record {
  request_id = request_id;
  task_id = first_truthy answer.task_id answer.job_id;
  status = status;
  output_cid = none;
  commitment_hash = none;
})

-- The three answers that end the poll; any other, DISPUTED and TIMEDOUT with it, goes on.
unfoldable pub result_of : String → StatusData → Option InferenceResult
result_of request_id answer =
    if is_status answer "ACCEPTED" "accepted"
    then some (record {
      request_id = request_id;
      task_id = first_truthy answer.task_id answer.job_id;
      status = "COMPLETED";
      output_cid = answer.output_cid;
      commitment_hash = answer.commitment_hash;
    })
    else if is_status answer "REJECTED" "rejected"
    then closed request_id answer "REJECTED"
    else if is_status answer "FAILED" "failed"
    then closed request_id answer "FAILED"
    else none

module _ {W : Type 0} (services : ClientServices W) where
  unfoldable pub get_balance : Option String → Async W CreditBalance
  get_balance address = services.get_balance (or_text address services.address)

  -- The Payment Service's health is asked, and the wallet's address is a constant all the same.
  unfoldable pub get_payment_wallet_address : Async W String
  unfolding ◌>>◌
  get_payment_wallet_address = do services.health; pure "0x7F9B413Da50e72415b16Eb9df6e5E59774a338dc"

  unfoldable pub deposit_blind : ℕ → Async W String
  unfolding get_payment_wallet_address
  deposit_blind amount_wei = do
    wallet ← get_payment_wallet_address
    tx_hash ←
        services.write_contract
          (Call.transfer "0x232D5470DaaC7AD552a42d876aDEF1f778033cE0" wallet amount_wei)
    services.receipt_status tx_hash
    pure tx_hash

  abbrev buy : String → Option CreditPackage → Async W Purchase
  buy package_id none = throw ("Package " <+> package_id <+> " not found")
  buy package_id (some pkg) = do
    tx_hash ← deposit_blind pkg.price_blind_wei
    balance ← services.purchase_package package_id tx_hash
    pure (record { balance = balance; tx_hash = tx_hash })

  unfoldable pub purchase_package : String → Async W Purchase
  unfolding deposit_blind
  purchase_package package_id = do
    packages ← services.get_packages
    buy package_id (find_first (λ p. str_eq p.id package_id) packages)

  unfoldable pub status_round : String → Async W StatusData
  unfolding ◌>>◌
  status_round request_id = do services.sleep 3000; services.request_status request_id

  unfoldable pub poll_until_complete : String → ℕ → Async W InferenceResult
  unfolding status_round poll_until result_of
  poll_until_complete request_id max_attempts =
      poll_until (status_round request_id) (result_of request_id)
        ("Polling timed out after " <+> decimal max_attempts <+> " attempts") max_attempts

  unfoldable pub request_of : EncryptedPayload → Option Bool → Preview → InferenceRequest
  request_of payload insurance preview = record {
    developer_address = services.address;
    task_id = payload.task_id;
    mode = "text";
    model_id = or_text payload.model_id "groq:llama-3.3-70b-versatile";
    prompt_cid = payload.prompt_cid;
    encrypted_prompt_key = payload.encrypted_prompt_key;
    coverage_enabled = or_default insurance false;
    leader_address = preview.leader;
    verifier_addresses = preview.verifiers;
    min_tier = 0;
    zdr_required = false;
    verifier_count = 2;
    payment_mode = or_text payload.payment_mode "credits";
    payment_currency = or_text payload.payment_currency "blind";
    source = or_text payload.source "sdk";
  }

  unfoldable pub submit_encrypted_inference :
      EncryptedPayload → Option Bool → Async W InferenceResult
  unfolding request_of poll_until_complete throw_when ◌>>◌
  submit_encrypted_inference payload insurance = do
    preview ← services.quorum_preview (record {
      model_id = or_text payload.model_id "groq:llama-3.3-70b-versatile";
      min_tier = 0;
      verifier_count = 2;
      zdr_required = false;
    })
    submitted ← services.submit_request (request_of payload insurance preview)
    let request_id = first_truthy submitted.request_id submitted.job_id
    throw_when (not (truthy request_id)) "ICL response did not include a request identifier"
    poll_until_complete (or_default request_id "") 60

  -- `submitInference` is not implemented.
  unfoldable pub submit_inference : Async W InferenceResult
  submit_inference =
      throw
        "Full end-to-end inference with CoFHE encryption is not yet implemented. Use submitEncryptedInference() with a pre-encrypted payload instead."

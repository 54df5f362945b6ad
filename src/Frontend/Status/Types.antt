-- ===== src/Frontend/Status/Types.antt =====
-- The backend's reports (network/packages/frontend/src/api/inferenceApi.ts), as far as the mapping
-- reads them, and `DemoStatus`. Scores and confidences are only copied.
use blindference.Prelude.{ℕ, String, Bool, List, [], ◌∷◌, Option, none, some, str_eq, if◌then◌else◌}

-- A value of `Record<string, unknown>`: a text, an array of some length, or anything else.
pub data Unknown : Type 0 where
  text : String → Unknown
  items : ℕ → Unknown
  other : Unknown

abbrev pub Metadata : Type 0
Metadata = List (String × Unknown)

unfoldable pub field_of : String → Metadata → Option Unknown
field_of key [] = none
field_of key ((k, v) ∷ more) = if str_eq k key then some v else field_of key more

-- `typeof value === 'string' ? value : undefined`
abbrev pub as_text : Option Unknown → Option String
as_text (some (text s)) = some s
as_text _ = none

-- `Array.isArray(value) ? value.length : 0`
abbrev pub array_length : Option Unknown → ℕ
array_length (some (items n)) = n
array_length _ = 0

pub data RequestStatus : Type 0 where
  queued accepted rejected disputed failed pending_store_key : RequestStatus

pub data Mode : Type 0 where
  risk text : Mode

pub record LeaderSubmission : Type 0 where
  pub risk_score : Option ℕ
  pub confidence : Option ℕ
  pub submitted_at : Option String

pub record Verdict : Type 0 where
  pub verifier_address : String
  pub submitted : Bool
  pub accepted : Option Bool
  pub confidence : Option ℕ

pub record BackendInferenceRequest : Type 0 where
  pub request_id : String
  pub task_id : String
  pub developer_address : String
  pub mode : Option Mode
  pub text_mode : Option Bool
  pub status : RequestStatus
  pub leader_address : String
  pub verifier_addresses : List String
  pub metadata : Metadata
  pub result_preview : Option String
  pub risk_score : Option ℕ
  pub leader_submission : Option LeaderSubmission
  pub verifier_verdicts : List Verdict
  pub chain_tx_hash : Option String
  pub aggregated_confidence : Option ℕ
  pub confirm_count : ℕ
  pub reject_count : ℕ
  pub encrypted_output_key_high : Option String
  pub encrypted_output_key_low : Option String
  pub output_cid : Option String
  pub commitment_hash : Option String
  pub failure_reason : Option String
  pub created_at : String
  pub updated_at : String

pub data TextStatus : Type 0 where
  queued accepted rejected disputed timedout : TextStatus

pub record TextQuorum : Type 0 where
  pub verifier_addresses : List String
  pub confirmations : ℕ

pub record TextLeader : Type 0 where
  pub leader_address : String
  pub summary : Option String

pub record TextVerdict : Type 0 where
  pub verifier_address : String
  pub submitted : Bool
  pub accepted : Option Bool

pub record BackendTextInferenceStatus : Type 0 where
  pub job_id : String
  pub status : TextStatus
  pub output_cid : Option String
  pub commitment_hash : Option String
  pub encrypted_output_key_high : Option String
  pub encrypted_output_key_low : Option String
  pub quorum : Option TextQuorum
  pub reject_reason : Option String
  pub leader_submission : Option TextLeader
  pub verifier_verdicts : Option (List TextVerdict)

pub record JobStatusResponse : Type 0 where
  pub job_id : String
  pub user_address : String
  pub model_id : String
  pub status : String
  pub leader_address : Option String
  pub verifier_addresses : Option (List String)
  pub error_reason : Option String
  pub result_hash : Option String
  pub output_cid : Option String
  pub encrypted_output_key_high : Option String
  pub encrypted_output_key_low : Option String
  pub leader_summary : Option String
  pub rewards_distributed : Bool
  pub created_at : String
  pub updated_at : String

-- The union that the ICL answers with: a risk request has a `request_id`, a text status has none.
pub data BackendInferenceStatusResponse : Type 0 where
  request : BackendInferenceRequest → BackendInferenceStatusResponse
  text_status : BackendTextInferenceStatus → BackendInferenceStatusResponse
  job : JobStatusResponse → BackendInferenceStatusResponse

pub data Stage : Type 0 where
  queued assigned executing verifying accepted rejected disputed failed : Stage

pub data VerdictWord : Type 0 where
  confirm reject : VerdictWord

pub data LeaderWord : Type 0 where
  complete executed executing assigned : LeaderWord

pub record Result : Type 0 where
  pub risk_score : ℕ
  pub confidence : ℕ
  pub execution_time_ms : ℕ

pub record TextResult : Type 0 where
  pub output_cid : Option String
  pub commitment_hash : Option String
  pub encrypted_output_key_high : Option String
  pub encrypted_output_key_low : Option String
  pub leader_output_preview : Option String

pub record Leader : Type 0 where
  pub address : String
  pub status : LeaderWord

pub record Verifier : Type 0 where
  pub address : String
  pub verdict : Option VerdictWord
  pub confidence : ℕ

pub record Quorum : Type 0 where
  pub leader : Option Leader
  pub verifiers : List Verifier
  pub confirm_count : ℕ
  pub reject_count : ℕ

-- The keys of `timestamps`, `none` where the object has no such key.
pub record Timestamps : Type 0 where
  pub queued : Option ℕ
  pub assigned : Option ℕ
  pub executing : Option ℕ
  pub verifying : Option ℕ
  pub accepted : Option ℕ
  pub rejected : Option ℕ
  pub disputed : Option ℕ

abbrev pub no_timestamps : Timestamps
no_timestamps = record {
  queued = none;
  assigned = none;
  executing = none;
  verifying = none;
  accepted = none;
  rejected = none;
  disputed = none;
}

pub record DemoStatus : Type 0 where
  pub request_id : String
  pub task_id : String
  pub mode : Mode
  pub status : Stage
  pub result : Option Result
  pub text_result : Option TextResult
  pub quorum : Quorum
  pub coverage_id : Option String
  pub coverage_recommendation : Option String
  pub result_commit_tx : Option String
  pub escrow_creation_tx : Option String
  pub escrow_release_tx : Option String
  pub coverage_purchase_tx : Option String
  pub dispute_submission_tx : Option String
  pub failure_reason : Option String
  pub dispute_resolution_tx : Option String
  pub timestamps : Timestamps
  pub developer_address : String
  pub raw : BackendInferenceStatusResponse

-- ===== src/Frontend/Status/Job.antt =====
-- `mapJobToDemoStatus` of useInferenceStatus.ts, and `mapJobResponse` of hooks/useJobStatus.ts.
use blindference.Prelude.{
  String, Bool, true, false, ◌||◌, str_eq, if◌then◌else◌, List, [], map, Option, none, some, truthy,
  or_default,
}
use blindference.Frontend.Status.Types.{
  JobStatusResponse, BackendInferenceStatusResponse, Stage, VerdictWord, LeaderWord, Leader,
  Verifier, Mode, no_timestamps, DemoStatus,
}

unfoldable pub job_demo_stage : String → Stage
job_demo_stage status =
    if str_eq status "COMPLETED"
    then Stage.accepted
    else if str_eq status "FAILED" || str_eq status "REFUNDED"
    then Stage.rejected
    else if str_eq status "PENDING_PAYMENT"
    then Stage.queued
    else Stage.executing

abbrev is_accepted_stage : Stage → Bool
is_accepted_stage Stage.accepted = true
is_accepted_stage _ = false

abbrev is_rejected_stage : Stage → Bool
is_rejected_stage Stage.rejected = true
is_rejected_stage _ = false

abbrev job_leader : Option String → Stage → Option Leader
job_leader none stage = none
job_leader (some address) stage =
    if truthy (some address)
    then some (record {
      address = address;
      status = if is_accepted_stage stage then LeaderWord.complete else LeaderWord.executing;
    })
    else none

unfoldable pub job_verifier : Stage → String → Verifier
job_verifier stage address = record {
  address = address;
  verdict = if is_accepted_stage stage then some VerdictWord.confirm else none;
  confidence = 0;
}

unfoldable pub map_job_to_demo_status : JobStatusResponse → DemoStatus
unfolding job_demo_stage job_verifier
map_job_to_demo_status job =
    let stage = job_demo_stage job.status in
    record {
      request_id = job.job_id;
      task_id = job.job_id;
      mode = Mode.text;
      status = stage;
      result = none;
      text_result = some (record {
        output_cid = job.output_cid;
        commitment_hash = job.result_hash;
        encrypted_output_key_high = job.encrypted_output_key_high;
        encrypted_output_key_low = job.encrypted_output_key_low;
        leader_output_preview = job.leader_summary;
      });
      quorum = record {
        leader = job_leader job.leader_address stage;
        verifiers = map (job_verifier stage) (or_default job.verifier_addresses []);
        confirm_count = if is_accepted_stage stage then 3 else 0;
        reject_count = if is_rejected_stage stage then 3 else 0;
      };
      coverage_id = none;
      coverage_recommendation = none;
      result_commit_tx = none;
      escrow_creation_tx = none;
      escrow_release_tx = none;
      coverage_purchase_tx = none;
      dispute_submission_tx = none;
      dispute_resolution_tx = none;
      failure_reason = job.error_reason;
      timestamps = no_timestamps;
      developer_address = job.user_address;
      raw = BackendInferenceStatusResponse.job job;
    }

-- useJobStatus.ts
pub data JobStage : Type 0 where
  running completed failed refunded pending_payment : JobStage

pub record JobStatus : Type 0 where
  pub job_id : String
  pub stage : JobStage
  pub status : String
  pub model_id : String
  pub result_hash : Option String
  pub output_cid : Option String
  pub leader_address : Option String
  pub verifier_addresses : Option (List String)
  pub error_reason : Option String
  pub rewards_distributed : Bool
  pub created_at : String
  pub updated_at : String
  pub raw : JobStatusResponse

unfoldable pub job_stage : String → JobStage
job_stage status =
    if str_eq status "COMPLETED"
    then JobStage.completed
    else if str_eq status "FAILED"
    then JobStage.failed
    else if str_eq status "REFUNDED"
    then JobStage.refunded
    else if str_eq status "PENDING_PAYMENT"
    then JobStage.pending_payment
    else JobStage.running

unfoldable pub map_job_response : JobStatusResponse → JobStatus
unfolding job_stage
map_job_response response = record {
  job_id = response.job_id;
  stage = job_stage response.status;
  status = response.status;
  model_id = response.model_id;
  result_hash = response.result_hash;
  output_cid = response.output_cid;
  leader_address = response.leader_address;
  verifier_addresses = response.verifier_addresses;
  error_reason = response.error_reason;
  rewards_distributed = response.rewards_distributed;
  created_at = response.created_at;
  updated_at = response.updated_at;
  raw = response;
}

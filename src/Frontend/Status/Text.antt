-- ===== src/Frontend/Status/Text.antt =====
-- `mapTextStatusToDemoStatus` of useInferenceStatus.ts.
use blindference.Prelude.{
  ℕ, String, Bool, true, false, str_eq, if◌then◌else◌, List, [], ◌∷◌, ◌++◌, map, Option, none, some,
  length, filter_by, any_of, or_default, or_text,
}
use blindference.Frontend.Status.Types.{
  BackendTextInferenceStatus, BackendInferenceStatusResponse, TextStatus, TextQuorum, TextLeader,
  TextVerdict, Stage, VerdictWord, LeaderWord, Leader, Verifier, Mode, no_timestamps, DemoStatus,
}

unfoldable pub text_stage : TextStatus → Stage
text_stage TextStatus.timedout = Stage.rejected
text_stage TextStatus.queued = Stage.queued
text_stage TextStatus.accepted = Stage.accepted
text_stage TextStatus.rejected = Stage.rejected
text_stage TextStatus.disputed = Stage.disputed

abbrev pub text_word : Option Bool → Option VerdictWord
text_word none = none
text_word (some true) = some VerdictWord.confirm
text_word (some false) = some VerdictWord.reject

abbrev is_true : Option Bool → Bool
is_true (some true) = true
is_true _ = false

abbrev pub is_false : Option Bool → Bool
is_false (some false) = true
is_false _ = false

unfoldable pub text_verifier : TextVerdict → Verifier
text_verifier v = record {
  address = v.verifier_address;
  verdict = if v.submitted then text_word v.accepted else none;
  confidence = if is_true v.accepted then 100 else 0;
}

-- The verifiers of the quorum whose address is not among those seen, which the loop pushes.
unfoldable pub backfill : List Verifier → List String → List Verifier
backfill seen [] = []
backfill seen (address ∷ addresses) =
    let rest = backfill seen addresses in
    if any_of (λ v. str_eq v.address address) seen
    then rest
    else record { address = address; verdict = none; confidence = 0 } ∷ rest

abbrev pub quorum_addresses : Option TextQuorum → List String
quorum_addresses none = []
quorum_addresses (some q) = q.verifier_addresses

abbrev confirmations : Option TextQuorum → ℕ
confirmations none = 0
confirmations (some q) = q.confirmations

unfoldable pub verifier_verdicts : BackendTextInferenceStatus → List Verifier
unfolding text_verifier backfill
verifier_verdicts request =
    let verdicts = map text_verifier (or_default request.verifier_verdicts []) in
    verdicts ++ backfill verdicts (quorum_addresses request.quorum)

abbrev is_accepted_stage : Stage → Bool
is_accepted_stage Stage.accepted = true
is_accepted_stage _ = false

abbrev leader_of : Option TextLeader → Stage → Option Leader
leader_of none stage = none
leader_of (some leader) stage = some (record {
  address = leader.leader_address;
  status = if is_accepted_stage stage then LeaderWord.complete else LeaderWord.executed;
})

abbrev summary_of : Option TextLeader → Option String
summary_of none = none
summary_of (some leader) = leader.summary

unfoldable pub map_text_status_to_demo_status : String → BackendTextInferenceStatus → DemoStatus
unfolding text_stage verifier_verdicts
map_text_status_to_demo_status request_id request = record {
  request_id = or_text (some request.job_id) request_id;
  task_id = or_text (some request.job_id) request_id;
  mode = Mode.text;
  status = text_stage request.status;
  result = none;
  text_result = some (record {
    output_cid = request.output_cid;
    commitment_hash = request.commitment_hash;
    encrypted_output_key_high = request.encrypted_output_key_high;
    encrypted_output_key_low = request.encrypted_output_key_low;
    leader_output_preview = summary_of request.leader_submission;
  });
  quorum = record {
    leader = leader_of request.leader_submission (text_stage request.status);
    verifiers = verifier_verdicts request;
    confirm_count = confirmations request.quorum;
    reject_count =
        length (filter_by (λ v. is_false v.accepted) (or_default request.verifier_verdicts []));
  };
  failure_reason = request.reject_reason;
  coverage_id = none;
  coverage_recommendation = none;
  result_commit_tx = none;
  escrow_creation_tx = none;
  escrow_release_tx = none;
  coverage_purchase_tx = none;
  dispute_submission_tx = none;
  dispute_resolution_tx = none;
  timestamps = no_timestamps;
  developer_address = "";
  raw = BackendInferenceStatusResponse.text_status request;
}

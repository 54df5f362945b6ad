-- ===== src/Frontend/Status/Request.antt =====
-- `deriveStage`, `buildTimestamps` and `mapRequestToStatus` of useInferenceStatus.ts.
use blindference.Prelude.{
  ℕ, ◌+◌, String, Bool, true, false, ◌&&◌, ◌||◌, ◌==◌, ltb, leb, if◌then◌else◌, str_eq, List, map,
  Option, none, some, length, filter_by, find_first, truthy, is_some, or_default, or_option,
  starts_with, to_lower_case,
}
use blindference.Frontend.Status.Types.{
  field_of, as_text, array_length, RequestStatus, Mode, LeaderSubmission, Verdict,
  BackendInferenceRequest, BackendInferenceStatusResponse, Stage, VerdictWord, LeaderWord, Verifier,
  Timestamps, no_timestamps, DemoStatus,
}

unfoldable pub hash_like : Option String → Option String
hash_like none = none
hash_like (some value) = if starts_with value "0x" then some value else none

pub data TimeValue : Type 0 where
  number : ℕ → TimeValue
  text : String → TimeValue

-- `Date.parse` is `parse_date`, with `none` for `NaN`.
unfoldable pub to_millis : (String → Option ℕ) → Option TimeValue → Option ℕ
to_millis parse_date none = none
to_millis parse_date (some (TimeValue.number n)) = some n
to_millis parse_date (some (TimeValue.text s)) = if truthy (some s) then parse_date s else none

abbrev pub is_accepted : RequestStatus → Bool
is_accepted RequestStatus.accepted = true
is_accepted _ = false

abbrev pub is_rejected : RequestStatus → Bool
is_rejected RequestStatus.rejected = true
is_rejected _ = false

abbrev pub is_disputed : RequestStatus → Bool
is_disputed RequestStatus.disputed = true
is_disputed _ = false

-- The verdicts that were submitted.
abbrev pub submissions : List Verdict → ℕ
submissions verdicts = length (filter_by (λ v. v.submitted) verdicts)

unfoldable pub derive_stage : BackendInferenceRequest → Stage
derive_stage request =
    if truthy request.failure_reason
    then Stage.failed
    else if is_accepted request.status
    then Stage.accepted
    else if is_rejected request.status
    then Stage.rejected
    else if is_disputed request.status
    then Stage.disputed
    else if is_some request.leader_submission
        && ltb (submissions request.verifier_verdicts) (length request.verifier_addresses)
    then Stage.verifying
    else if leb (length request.verifier_addresses + 1)
        (array_length (field_of "permits" request.metadata))
    then Stage.executing
    else Stage.assigned

-- `if (at) timestamps.KEY = at`
abbrev when_set : Option ℕ → (ℕ → Timestamps → Timestamps) → Timestamps → Timestamps
when_set none write t = t
when_set (some n) write t = if n == 0 then t else write n t

abbrev text_time : Option String → Option TimeValue
text_time none = none
text_time (some s) = some (TimeValue.text s)

abbrev submitted_time : Option LeaderSubmission → Option TimeValue
submitted_time none = none
submitted_time (some leader) = text_time leader.submitted_at

abbrev finish : RequestStatus → ℕ → Timestamps → Timestamps
finish RequestStatus.accepted at_ t = record t { accepted = some at_ }
finish RequestStatus.rejected at_ t = record t { rejected = some at_ }
finish RequestStatus.disputed at_ t = record t { disputed = some at_ }
finish _ at_ t = t

unfoldable pub build_timestamps : (String → Option ℕ) → BackendInferenceRequest → Timestamps
unfolding to_millis
build_timestamps parse_date request =
    let created_at = to_millis parse_date (text_time (some request.created_at)) in
    let permit_attached_at =
      to_millis parse_date (text_time (as_text (field_of "permit_attached_at" request.metadata))) in
    let leader_submitted_at = to_millis parse_date (submitted_time request.leader_submission) in
    let finished_at = to_millis parse_date (text_time (some request.updated_at)) in
    when_set finished_at (finish request.status) (
      when_set leader_submitted_at (λ n t. record t { verifying = some n })
        (when_set permit_attached_at (λ n t. record t { executing = some n })
          (when_set created_at (λ n t. record t { queued = some n; assigned = some n })
            no_timestamps)))

abbrev is_text : Option Mode → Bool
is_text (some Mode.text) = true
is_text _ = false

-- `request.mode === 'text' || request.text_mode`
unfoldable pub is_text_request : BackendInferenceRequest → Bool
is_text_request request = is_text request.mode || or_default request.text_mode false

abbrev leader_score : Option LeaderSubmission → Option ℕ
leader_score none = none
leader_score (some leader) = leader.risk_score

abbrev leader_confidence : Option LeaderSubmission → Option ℕ
leader_confidence none = none
leader_confidence (some leader) = leader.confidence

abbrev pub same_address : String → String → Bool
same_address a b = str_eq (to_lower_case a) (to_lower_case b)

abbrev pub word_of : Option Bool → VerdictWord
word_of (some false) = VerdictWord.reject
word_of _ = VerdictWord.confirm

abbrev pub verifier_of : String → Option Verdict → Verifier
verifier_of address none = record { address = address; verdict = none; confidence = 0 }
verifier_of address (some v) = record {
  address = address;
  verdict = if v.submitted then some (word_of v.accepted) else none;
  confidence = or_default v.confidence 0;
}

unfoldable pub verifier_row : List Verdict → String → Verifier
unfolding to_lower_case
verifier_row verdicts address =
    verifier_of address (find_first (λ v. same_address v.verifier_address address) verdicts)

abbrev leader_word : Option LeaderSubmission → Stage → LeaderWord
leader_word (some leader) stage = LeaderWord.complete
leader_word none Stage.executing = LeaderWord.executing
leader_word none Stage.verifying = LeaderWord.executing
leader_word none _ = LeaderWord.assigned

unfoldable pub map_request_to_status :
    (String → Option ℕ) → BackendInferenceRequest → Option String → DemoStatus
unfolding derive_stage hash_like build_timestamps is_text_request verifier_row
map_request_to_status parse_date request coverage_recommendation =
    let stage = derive_stage request in
    let text_at = λ (key : String). as_text (field_of key request.metadata) in
    record {
      request_id = request.request_id;
      task_id = request.task_id;
      mode = if is_text_request request then Mode.text else Mode.risk;
      status = stage;
      result =
          if is_some request.leader_submission
            || truthy request.result_preview
            || is_some request.risk_score
          then some (record {
            risk_score =
                or_default (or_option request.risk_score (leader_score request.leader_submission))
                  0;
            confidence =
                or_default
                  (or_option request.aggregated_confidence
                    (leader_confidence request.leader_submission))
                  0;
            execution_time_ms = 1240;
          })
          else none;
      text_result =
          if is_text_request request
          then some (record {
            output_cid = request.output_cid;
            commitment_hash = request.commitment_hash;
            encrypted_output_key_high = request.encrypted_output_key_high;
            encrypted_output_key_low = request.encrypted_output_key_low;
            leader_output_preview = none;
          })
          else none;
      quorum = record {
        leader =
            if truthy (some request.leader_address)
            then some (record {
              address = request.leader_address;
              status = leader_word request.leader_submission stage;
            })
            else none;
        verifiers = map (verifier_row request.verifier_verdicts) request.verifier_addresses;
        confirm_count = request.confirm_count;
        reject_count = request.reject_count;
      };
      coverage_id = text_at "coverage_id";
      coverage_recommendation = coverage_recommendation;
      result_commit_tx = hash_like request.chain_tx_hash;
      escrow_creation_tx =
          or_option (hash_like (text_at "escrow_creation_tx"))
            (hash_like (text_at "task_registered_tx"));
      escrow_release_tx =
          or_option (hash_like (text_at "escrow_release_tx"))
            (if is_accepted request.status then hash_like request.chain_tx_hash else none);
      coverage_purchase_tx = hash_like (text_at "coverage_purchase_tx");
      dispute_submission_tx = hash_like (text_at "dispute_submission_tx");
      failure_reason = request.failure_reason;
      dispute_resolution_tx = hash_like (text_at "dispute_resolution_tx");
      timestamps = build_timestamps parse_date request;
      developer_address = request.developer_address;
      raw = BackendInferenceStatusResponse.request request;
    }

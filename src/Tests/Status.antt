-- ===== src/Tests/Status.antt =====
-- The statuses at concrete reports.
use blindference.Prelude.{
  ℕ, ◌≡◌, inl, inr, refl, true, false, String, [], ◌∷◌, Option, none, some, ok, err, ltb, suc,
}
use blindference.Frontend.Status.Types.{
  RequestStatus, Mode, BackendInferenceRequest, BackendTextInferenceStatus, TextStatus,
  JobStatusResponse, Stage, field_of, Unknown,
}
use blindference.Frontend.Status.Request.{derive_stage}
use blindference.Frontend.Status.Text.{map_text_status_to_demo_status}
use blindference.Frontend.Status.Poll.{StatusApi, Hook, IclStatus}
use blindference.Frontend.Status.Verifiers.{map_text_status-Lists, Lists}

abbrev failed_request : BackendInferenceRequest
failed_request = record {
  request_id = "r1";
  task_id = "t1";
  developer_address = "0xd";
  mode = some Mode.risk;
  text_mode = none;
  status = RequestStatus.failed;
  leader_address = "0xl";
  verifier_addresses = "0xa" ∷ "0xb" ∷ [];
  metadata = ("permits", Unknown.items 3) ∷ [];
  result_preview = none;
  risk_score = none;
  leader_submission = none;
  verifier_verdicts = [];
  chain_tx_hash = none;
  aggregated_confidence = none;
  confirm_count = 0;
  reject_count = 0;
  encrypted_output_key_high = none;
  encrypted_output_key_low = none;
  output_cid = none;
  commitment_hash = none;
  failure_reason = none;
  created_at = "2026-01-01";
  updated_at = "2026-01-02";
}

-- That request shows EXECUTING.
derive_stage_run : derive_stage failed_request ≡ Stage.executing
unfolding derive_stage field_of
derive_stage_run = refl

abbrev parse_date : String → Option ℕ
parse_date s = some 7

abbrev text_status : BackendTextInferenceStatus
text_status = record {
  job_id = "";
  status = TextStatus.rejected;
  output_cid = none;
  commitment_hash = none;
  encrypted_output_key_high = none;
  encrypted_output_key_low = none;
  quorum = some (record { verifier_addresses = "0xa" ∷ "0xb" ∷ []; confirmations = 0 });
  reject_reason = some "bad";
  leader_submission = none;
  verifier_verdicts =
      some (record { verifier_address = "0xa"; submitted = true; accepted = some false } ∷ []);
}

map_text_status-Lists_example :
    Lists "0xb" (map_text_status_to_demo_status "r2" text_status).quorum.verifiers
map_text_status-Lists_example = map_text_status-Lists "r2" text_status "0xb" (inr (inl refl))

abbrev pub job : JobStatusResponse
job = record {
  job_id = "j1";
  user_address = "0xu";
  model_id = "m";
  status = "COMPLETED";
  leader_address = some "0xl";
  verifier_addresses = some ("0xa" ∷ "0xb" ∷ []);
  error_reason = none;
  result_hash = none;
  output_cid = some "cid";
  encrypted_output_key_high = some "1";
  encrypted_output_key_low = some "2";
  leader_summary = none;
  rewards_distributed = true;
  created_at = "2026-01-01";
  updated_at = "2026-01-02";
}

-- Services that count their calls; the hook unmounts at the third.
abbrev up : StatusApi ℕ
up = record {
  job_status = λ id n. (ok job, suc n);
  icl_status = λ id n. (ok (IclStatus.text_status text_status), suc n);
  quote = λ id n. (err "down", suc n);
  mounted = λ n. ltb n 3;
  parse_date = parse_date;
}

abbrev down : StatusApi ℕ
down = record up {
  job_status = λ id n. (err "down", suc n);
  icl_status = λ id n. (err "down too", suc n);
}

abbrev hook : ℕ → Hook ℕ
hook n = record { world = n; status = none; last_logged = none }

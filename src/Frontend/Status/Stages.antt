-- ===== src/Frontend/Status/Stages.antt =====
-- Which stage a report shows.
use blindference.Prelude.{
  ℕ, ◌+◌, ◌≤◌, ◌<◌, String, ◌≡◌, ◌↔◌, ◌⊎◌, true, false, Option, length, truthy, is_some, arith,
}
use blindference.Frontend.Status.Types.{
  RequestStatus, BackendInferenceRequest, Stage, field_of, array_length,
}
use blindference.Frontend.Status.Request.{derive_stage, build_timestamps, submissions}
use blindference.Frontend.Status.Job.{JobStage}

-- A request shows FAILED exactly when it has a failure reason that is not empty.
pub derive_stage-failed_iff :
    (request : BackendInferenceRequest)
    → (derive_stage request ≡ Stage.failed) ↔ (truthy request.failure_reason ≡ true)
unfolding derive_stage
derive_stage-failed_iff request = ground arith

-- A request with no failure reason shows ACCEPTED, REJECTED or DISPUTED exactly when the backend's
-- status is that.
pub derive_stage_final :
    (request : BackendInferenceRequest)
    → truthy request.failure_reason ≡ false
    → ((derive_stage request ≡ Stage.accepted) ↔ (request.status ≡ RequestStatus.accepted))
      × ((derive_stage request ≡ Stage.rejected) ↔ (request.status ≡ RequestStatus.rejected))
      × ((derive_stage request ≡ Stage.disputed) ↔ (request.status ≡ RequestStatus.disputed))
unfolding derive_stage
derive_stage_final request h = ground arith

-- A request shows VERIFYING only behind a leader's submission and with a verdict outstanding, and
-- EXECUTING only with a permit for the leader and each verifier.
pub derive_stage_progress :
    (request : BackendInferenceRequest)
    → (derive_stage request ≡ Stage.verifying
        → (is_some request.leader_submission ≡ true)
          × (submissions request.verifier_verdicts < length request.verifier_addresses))
      × (derive_stage request ≡ Stage.executing
          → length request.verifier_addresses + 1
            ≤ array_length (field_of "permits" request.metadata))
unfolding derive_stage
derive_stage_progress request = ground arith

-- A request that the backend calls failed, with no failure reason, does not show FAILED, nor any
-- other final stage.
pub derive_stage_misses_failed :
    (request : BackendInferenceRequest)
    → request.status ≡ RequestStatus.failed
    → truthy request.failure_reason ≡ false
    → (derive_stage request ≡ Stage.verifying)
      ⊎ (derive_stage request ≡ Stage.executing)
      ⊎ (derive_stage request ≡ Stage.assigned)
unfolding derive_stage
derive_stage_misses_failed request h reason = ground arith

-- A request's timestamps: QUEUED and ASSIGNED are the same, and a final stage is stamped only under
-- the backend status of that name.
pub build_timestamps_final :
    (parse_date : String → Option ℕ) (request : BackendInferenceRequest)
    → let t = build_timestamps parse_date request in
      (t.queued ≡ t.assigned)
      × (is_some t.accepted ≡ true → request.status ≡ RequestStatus.accepted)
      × (is_some t.rejected ≡ true → request.status ≡ RequestStatus.rejected)
      × (is_some t.disputed ≡ true → request.status ≡ RequestStatus.disputed)
unfolding build_timestamps
build_timestamps_final parse_date request = ground arith

-- The stage of useInferenceStatus for a stage of useJobStatus.
abbrev pub demo_of : JobStage → Stage
demo_of JobStage.completed = Stage.accepted
demo_of JobStage.failed = Stage.rejected
demo_of JobStage.refunded = Stage.rejected
demo_of JobStage.pending_payment = Stage.queued
demo_of JobStage.running = Stage.executing

-- ===== src/Frontend/Status/Poll.antt =====
-- The poll of useInferenceStatus.ts. The two APIs are arguments; `mounted` is read from the outside
-- state, since the effect's cleanup may clear it while a call is awaited.
use blindference.Prelude.{
  ℕ, String, Bool, if◌then◌else◌, Option, none, some, Result, ok, err, or_default, or_option, ◌<+>◌,
}
use blindference.Async.{Async}
use blindference.Frontend.Status.Types.{
  BackendInferenceRequest, BackendTextInferenceStatus, JobStatusResponse, Stage, TextResult,
  DemoStatus,
}
use blindference.Frontend.Status.Request.{map_request_to_status}
use blindference.Frontend.Status.Text.{map_text_status_to_demo_status}
use blindference.Frontend.Status.Job.{map_job_to_demo_status}

-- What `inferenceApi.getStatus` answers; `isTextStatusResponse` tells the two apart.
pub data IclStatus : Type 0 where
  request : BackendInferenceRequest → IclStatus
  text_status : BackendTextInferenceStatus → IclStatus

pub record StatusApi (W : Type 0) : Type 0 where
  -- `jobApi.getStatus(requestId)`
  pub job_status : String → Async W JobStatusResponse
  -- `inferenceApi.getStatus(requestId)`
  pub icl_status : String → Async W IclStatus
  -- `coverageApi.quote(requestId)`, of which the recommendation is read
  pub quote : String → Async W String
  pub mounted : W → Bool
  pub parse_date : String → Option ℕ

-- The hook's state beside the world: the status that it shows, and the key last logged.
pub record Hook (W : Type 0) : Type 0 where
  pub world : W
  pub status : Option DemoStatus
  pub last_logged : Option String

unfoldable pub stage_text : Stage → String
stage_text Stage.queued = "QUEUED"
stage_text Stage.assigned = "ASSIGNED"
stage_text Stage.executing = "EXECUTING"
stage_text Stage.verifying = "VERIFYING"
stage_text Stage.accepted = "ACCEPTED"
stage_text Stage.rejected = "REJECTED"
stage_text Stage.disputed = "DISPUTED"
stage_text Stage.failed = "FAILED"

abbrev result_key : Option TextResult → String
result_key none = ""
result_key (some r) = or_default (or_option r.output_cid r.commitment_hash) ""

unfoldable pub log_key : DemoStatus → String
unfolding stage_text
log_key mapped = stage_text mapped.status <+> ":" <+> result_key mapped.text_result

abbrev pub answer_of {ℓ} : {A : Type ℓ} → Result A → Option A
answer_of (ok a) = some a
answer_of (err e) = none

-- A call of a service, from the hook's state. `.catch(() => null)` gives `none`.
abbrev pub or_null : {W A : Type 0} → Async W A → Hook W → Option A × Hook W
or_null call hook = let (r, w) = call hook.world in (answer_of r, record hook { world = w })

module _ {W : Type 0} (api : StatusApi W) (request_id : String) where
  abbrev show_job : JobStatusResponse → Hook W → Hook W
  show_job response hook =
      let mapped = map_job_to_demo_status response in
      record hook { status = some mapped; last_logged = some (log_key mapped) }

  abbrev show_icl : IclStatus → Option String → Hook W → Hook W
  show_icl (IclStatus.text_status s) recommendation hook = record hook {
    status = some (map_text_status_to_demo_status request_id s);
  }
  show_icl (IclStatus.request r) recommendation hook = record hook {
    status = some (map_request_to_status api.parse_date r recommendation);
  }

  -- The fallback to the ICL: both calls are made, and the status is set if both came through (a
  -- failed quote counts as none) and the hook is still mounted.
  unfoldable pub poll_icl : Hook W → Hook W
  poll_icl hook =
      let (r, w) = api.icl_status request_id hook.world in
      let (quote, hook') = or_null (api.quote request_id) (record hook { world = w }) in
      elim r [
        | err e ↦ hook'
        | ok answer ↦ if api.mounted hook'.world then show_icl answer quote hook' else hook'
      ]

  unfoldable pub poll : Hook W → Hook W
  unfolding poll_icl
  poll hook =
      let (response, hook') = or_null (api.job_status request_id) hook in
      elim response [
        | none ↦ poll_icl hook'
        | some job ↦ if api.mounted hook'.world then show_job job hook' else poll_icl hook'
      ]

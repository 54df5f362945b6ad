-- ===== src/Frontend/Page/Steps.antt =====
-- The execution trace of InferenceNewPage.tsx.
use blindference.Prelude.{
  ℕ, Bool, true, false, ltb, ◌==◌, if◌then◌else◌, String, Option, some, truthy,
}
use blindference.Frontend.Status.Types.{Stage}

pub data StepKey : Type 0 where
  encrypt icl leader quorum onchain decrypt : StepKey

pub data ChatStage : Type 0 where
  idle encrypting uploading escrow submitting : ChatStage

pub data StepStatus : Type 0 where
  pending active done error : StepStatus

-- `order.indexOf(key)`
abbrev pub index_of : StepKey → ℕ
index_of StepKey.encrypt = 0
index_of StepKey.icl = 1
index_of StepKey.leader = 2
index_of StepKey.quorum = 3
index_of StepKey.onchain = 4
index_of StepKey.decrypt = 5

-- Before a request has an id.
abbrev pub local_status : StepKey → ChatStage → StepStatus
local_status StepKey.encrypt ChatStage.encrypting = StepStatus.active
local_status StepKey.encrypt ChatStage.uploading = StepStatus.done
local_status StepKey.encrypt ChatStage.submitting = StepStatus.done
local_status StepKey.icl ChatStage.uploading = StepStatus.active
local_status StepKey.icl ChatStage.escrow = StepStatus.done
local_status StepKey.icl ChatStage.submitting = StepStatus.done
local_status _ _ = StepStatus.pending

abbrev pub reached_by : Option Stage → ℕ
reached_by (some Stage.queued) = 1
reached_by (some Stage.assigned) = 2
reached_by (some Stage.executing) = 3
reached_by (some Stage.verifying) = 4
reached_by (some Stage.accepted) = 5
reached_by (some Stage.rejected) = 3
reached_by (some Stage.disputed) = 3
reached_by _ = 0

abbrev pub is_accepted : Option Stage → Bool
is_accepted (some Stage.accepted) = true
is_accepted _ = false

abbrev pub decrypt_status : Option Stage → Bool → StepStatus
decrypt_status job_status decrypted =
    if is_accepted job_status
    then if decrypted then StepStatus.done else StepStatus.active
    else if ltb 5 (reached_by job_status)
    then StepStatus.done
    else StepStatus.pending

abbrev pub remote_status : StepKey → Option Stage → Bool → StepStatus
remote_status StepKey.decrypt job_status decrypted = decrypt_status job_status decrypted
remote_status key job_status decrypted =
    if ltb (index_of key) (reached_by job_status)
    then StepStatus.done
    else if index_of key == reached_by job_status
    then StepStatus.active
    else StepStatus.pending

unfoldable pub step_status : StepKey → ChatStage → Option String → Option Stage → Bool → StepStatus
step_status key stage request_id job_status decrypted =
    if truthy request_id then remote_status key job_status decrypted else local_status key stage

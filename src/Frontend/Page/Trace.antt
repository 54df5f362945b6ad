-- ===== src/Frontend/Page/Trace.antt =====
-- What the execution trace shows.
use blindference.Prelude.{◌<◌, ◌≡◌, ◌≢◌, true, Bool, String, Option, truthy, arith}
use blindference.Frontend.Status.Types.{Stage}
use blindference.Frontend.Page.Steps.{
  StepKey, ChatStage, StepStatus, index_of, step_status, is_accepted,
}

-- The trace of a request is in order: before a step that is done or active, every step is done; no
-- step shows an error, whatever the job's status; and the last step is done only for an accepted
-- job that has been decrypted.
pub step_status_ordered :
    (stage : ChatStage) (request_id : Option String) (job_status : Option Stage) (decrypted : Bool)
    (earlier later : StepKey)
    → truthy request_id ≡ true
    → index_of earlier < index_of later
    → let show : StepKey → StepStatus =
        λ key. step_status key stage request_id job_status decrypted in
      (show later ≡ StepStatus.done → show earlier ≡ StepStatus.done)
      × (show later ≡ StepStatus.active → show earlier ≡ StepStatus.done)
      × (show later ≢ StepStatus.error)
      × (show StepKey.decrypt ≡ StepStatus.done
          → (is_accepted job_status ≡ true) × (decrypted ≡ true))
unfolding step_status
step_status_ordered stage request_id job_status decrypted earlier later h order = ground arith

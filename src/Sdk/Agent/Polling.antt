-- ===== src/Sdk/Agent/Polling.antt =====
-- The poll of a job by the agent.
use blindference.Prelude.{ℕ, suc, ◌+◌, String, ◌≡◌, true, ok, err, decimal, ◌<+>◌, arith}
use blindference.Async.Poll.Rounds.{
  Pending, poll_until_settles, poll_until_times_out, poll_until_settled,
}
use blindference.Sdk.Agent.{Services, JobData}
use blindference.Sdk.Agent.Jobs.{is_over, job_over, poll_round, poll_job_status}

module _ {W : Type 0} (services : Services W) (job_id : String) where
  abbrev message : ℕ → String
  message n = "Polling timed out after " <+> decimal n <+> " attempts"

  -- A job that is over in one of the rounds allowed, and running in those before, comes back from
  -- that round, and no later round is made.
  pub poll_job_status_settles :
      (n left : ℕ) (job : JobData) (w w' w'' : W)
      → Pending (poll_round services job_id) job_over n w w'
      → poll_round services job_id w' ≡ (ok job, w'')
      → is_over job ≡ true
      → poll_job_status services job_id (n + suc left) w ≡ (ok job, w'')
  unfolding poll_job_status
  poll_job_status_settles n left job w w' w'' pending h over =
      poll_until_settles (poll_round services job_id) job_over (message (n + suc left)) n left job
        job w w' w'' pending h (ground arith)

  -- A job that runs through all the rounds allowed ends the poll with an error that counts them.
  pub poll_job_status_times_out :
      (n : ℕ) (w w' : W)
      → Pending (poll_round services job_id) job_over n w w'
      → poll_job_status services job_id n w ≡ (err (message n), w')
  unfolding poll_job_status
  poll_job_status_times_out n w w' pending =
      poll_until_times_out (poll_round services job_id) job_over (message n) n w w' pending

  -- A poll comes back only with a job that is over.
  pub poll_job_status-over :
      (limit : ℕ) (w w' : W) (job : JobData)
      → poll_job_status services job_id limit w ≡ (ok job, w')
      → is_over job ≡ true
  unfolding poll_job_status
  poll_job_status-over limit w w' job h =
      let (last, over) =
        poll_until_settled (poll_round services job_id) job_over (message limit) limit w w' job h in
      ground arith

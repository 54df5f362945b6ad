-- ===== src/Frontend/Status/Polling.antt =====
-- What one poll does to the status that is shown.
use blindference.Prelude.{String, ◌≡◌, true, false, some, ok, arith}
use blindference.Frontend.Status.Types.{JobStatusResponse}
use blindference.Frontend.Status.Job.{map_job_to_demo_status}
use blindference.Frontend.Status.Poll.{StatusApi, Hook, log_key, poll}

module _ {W : Type 0} (api : StatusApi W) (request_id : String) (hook : Hook W) where
  -- A poll that finds the hook unmounted when its last call has come back shows nothing new.
  pub poll_unmounted :
      api.mounted (poll api request_id hook).world ≡ false
      → (poll api request_id hook).status ≡ hook.status
  unfolding poll
  poll_unmounted h = ground arith

  -- A job that the Payment Service reports is shown, and the ICL is not asked, while the hook is
  -- mounted: the world is as the one call left it.
  pub poll_job :
      (job : JobStatusResponse) (w : W)
      → api.job_status request_id hook.world ≡ (ok job, w)
      → api.mounted w ≡ true
      → poll api request_id hook ≡ record {
        world = w;
        status = some (map_job_to_demo_status job);
        last_logged = some (log_key (map_job_to_demo_status job));
      }
  unfolding poll
  poll_job job w h mounted = ground arith

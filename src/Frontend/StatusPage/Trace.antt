-- ===== src/Frontend/StatusPage/Trace.antt =====
-- The execution trace and the timeline of a request.
use blindference.Prelude.{ℕ, ◌<◌, ◌≡◌, ◌≢◌, refl, true, arith}
use blindference.Frontend.Status.Types.{Stage}
use blindference.Frontend.StatusPage.{is_completed, is_current, timeline_completed, current_index}

-- The trace of a request has at most one row that is current; the rows in front of it are completed,
-- and so are those in front of a row that is completed.
pub trace_ordered :
    (stage : Stage) (i j : ℕ)
    → (is_current stage i ≡ true → is_current stage j ≡ true → i ≡ j)
      × (is_current stage i ≡ true → j < i → is_completed stage j ≡ true)
      × (is_completed stage i ≡ true → j < i → is_completed stage j ≡ true)
unfolding is_completed is_current
trace_ordered Stage.queued i j = ground arith
trace_ordered Stage.assigned i j = ground arith
trace_ordered Stage.executing i j = ground arith
trace_ordered Stage.verifying i j = ground arith
trace_ordered Stage.accepted i j = ground arith
trace_ordered Stage.rejected i j = ground arith
trace_ordered Stage.disputed i j = ground arith
trace_ordered Stage.failed i j = ground arith

-- On each of the five rows, the trace and the timeline agree on what is completed, unless the request
-- was rejected or failed.
pub timeline_agrees :
    (stage : Stage) (i : ℕ)
    → stage ≢ Stage.rejected
    → stage ≢ Stage.failed
    → i < 5
    → timeline_completed stage i ≡ is_completed stage i
unfolding timeline_completed is_completed current_index
timeline_agrees Stage.queued i r f h = ground arith
timeline_agrees Stage.assigned i r f h = ground arith
timeline_agrees Stage.executing i r f h = ground arith
timeline_agrees Stage.verifying i r f h = ground arith
timeline_agrees Stage.accepted i r f h = ground arith
timeline_agrees Stage.rejected i r f h = absurd (r refl)
timeline_agrees Stage.disputed i r f h = refl
timeline_agrees Stage.failed i r f h = absurd (f refl)

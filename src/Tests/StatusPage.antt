-- ===== src/Tests/StatusPage.antt =====
-- The status page at concrete inputs.
use blindference.Prelude.{ℕ, ◌≡◌, ◌<◌, refl, true, false, none, some, ok, arith}
use blindference.Frontend.Status.Types.{Stage}
use blindference.Frontend.StatusPage.{
  Panel, initial, is_completed, is_current, timeline_completed, panel, leave_effect, enter_effect,
}
use blindference.Frontend.StatusPage.Trace.{trace_ordered, timeline_agrees}
use blindference.Frontend.StatusPage.Life.{
  Life, Step, Reach, Consistent, Reach-panel, rerun_strands,
}
use blindference.Frontend.Status.Job.{map_job_to_demo_status}
use blindference.Tests.Chat.{accepted}

trace_ordered_example :
    (is_current Stage.executing 2 ≡ true → is_current Stage.executing 1 ≡ true → ◌≡◌ {A = ℕ} 2 1)
    × (is_current Stage.executing 2 ≡ true → 1 < 2 → is_completed Stage.executing 1 ≡ true)
    × (is_completed Stage.executing 2 ≡ true → 1 < 2 → is_completed Stage.executing 1 ≡ true)
trace_ordered_example = trace_ordered Stage.executing 2 1

timeline_agrees_example : timeline_completed Stage.verifying 3 ≡ is_completed Stage.verifying 3
timeline_agrees_example = timeline_agrees Stage.verifying 3 (λ h. cc) (λ h. cc) (omega arith)

abbrev start : Life
start = record { page = initial; running = false; clicked = 0 }

-- The effect decrypts on its own; the client goes while it does.
abbrev busy : Life
busy = record { page = (enter_effect accepted true initial).1; running = true; clicked = 0 }

abbrev opened : Life
opened = record busy { page = leave_effect false (ok "hi") busy.page; running = false }

runs : Reach start opened
unfolding enter_effect map_job_to_demo_status
runs =
    Reach.next (Reach.next Reach.here (Step.rerun start accepted true))
      (Step.finish busy (ok "hi") refl)

Reach-panel_example :
    Consistent opened × (panel opened.page ≡ Panel.waiting → opened.page.text_answer ≡ some "")
Reach-panel_example = Reach-panel {l = start} refl runs

shows_the_answer : panel opened.page ≡ Panel.answer "hi"
unfolding panel leave_effect enter_effect map_job_to_demo_status
shows_the_answer = refl

stuck :
    ((enter_effect accepted false busy.page).0 ≡ none)
    × ((leave_effect true (ok "hi") (enter_effect accepted false busy.page).1).is_decrypting ≡ true)
unfolding map_job_to_demo_status
stuck = rerun_strands busy accepted (ok "hi") (unfold enter_effect in refl)

-- ===== src/Frontend/Queries.antt =====
-- Hooks and a form that ask the Payment Service: hooks/useDeveloperStats.ts, hooks/useNodeStats.ts,
-- hooks/useNodeJobs.ts, hooks/useIsNodeOperator.ts and components/DisputeForm.tsx. The answers are
-- arguments. The recent jobs of a developer are always the empty list, and left out.
pub mod Life
use blindference.Prelude.{
  String, Bool, true, false, if◌then◌else◌, List, [], ◌∷◌, Option, none, some, Result, ok, err,
  or_text, text_truthy, truthy,
}
use blindference.Async.{Async}

pub record Query (A : Type 0) : Type 0 where
  pub answer : Option A
  pub loading : Bool
  pub error : Option String

-- `err?.response?.data?.detail || err.message || fallback`
pub record Failure : Type 0 where
  pub detail : Option String
  pub message : Option String

pub data Answer (A : Type 0) : Type 0 where
  came : A → Answer A
  failed : Failure → Answer A

unfoldable pub failure_text : String → Failure → String
failure_text fallback e = or_text e.detail (or_text e.message fallback)

module _ {A : Type 0} where
  -- The effect of useDeveloperStats up to its request, and whether it is made. Without an address it
  -- leaves `loading` as it is.
  unfoldable pub enter_stats : Option String → Query A → Bool × Query A
  enter_stats address query =
      if truthy address
      then (true, record query { loading = true; error = none })
      else (false, record query { answer = none })

  -- Its answer, where the effect was not cleaned up: after a clean-up nothing is set.
  unfoldable pub finish_stats : Bool → Result A → Query A → Query A
  finish_stats true r query = query
  finish_stats false (ok a) query = record query { answer = some a; loading = false }
  finish_stats false (err e) query = record query {
    error = some (if text_truthy e then e else "Failed to fetch developer stats");
    loading = false;
  }

  -- `fetchStats` and `fetchJobs` up to the request; `cleared` is what no address leaves.
  unfoldable pub begin_node : Option A → Option String → Query A → Bool × Query A
  begin_node cleared address query =
      if truthy address
      then (true, record query { loading = true; error = none })
      else (false, record query { answer = cleared })

  unfoldable pub end_node : String → Answer A → Query A → Query A
  unfolding failure_text
  end_node fallback (Answer.came a) query = record query { answer = some a; loading = false }
  end_node fallback (Answer.failed e) query = record query {
    error = some (failure_text fallback e);
    loading = false;
  }

pub record Operator : Type 0 where
  pub is_operator : Bool
  pub loading : Bool

-- `checkOperator` up to its request, and behind it; a request that fails is no operator.
unfoldable pub begin_check : Option String → Operator → Bool × Operator
begin_check address op =
    if truthy address
    then (true, record op { loading = true })
    else (false, record op { is_operator = false })

unfoldable pub end_check : Result Bool → Operator → Operator
end_check (ok b) op = record { is_operator = b; loading = false }
end_check (err e) op = record { is_operator = false; loading = false }

-- What the form calls of the page that shows it.
pub data Told : Type 0 where
  on_success on_close : Told

pub record DisputeForm : Type 0 where
  pub reason : String
  pub is_submitting : Bool
  pub error : String
  pub told : List Told

-- A prefilled reason takes the place of the reason.
unfoldable pub prefill : Option String → DisputeForm → DisputeForm
prefill reason form = record form { reason = or_text reason form.reason }

unfoldable pub settle_dispute : Option Failure → DisputeForm → DisputeForm
unfolding failure_text
settle_dispute none form = record form {
  is_submitting = false;
  told = Told.on_close ∷ Told.on_success ∷ form.told;
}
settle_dispute (some e) form = record form {
  is_submitting = false;
  error = failure_text "Failed to submit dispute. Try again." e;
}

-- `handleSubmit`; `file request_id reason` comes back with a failure or none. The calls of the page are
-- listed last first.
unfoldable pub handle_dispute :
    {W : Type 0}
    → (String → String → W → Option Failure × W)
    → String
    → DisputeForm
    → W
    → DisputeForm × W
unfolding settle_dispute
handle_dispute file request_id form w =
    let (answer, w') = file request_id form.reason w in
    (settle_dispute answer (record form { is_submitting = true; error = "" }), w')

-- ===== src/Frontend/Risk/Store.antt =====
-- stores/inferenceStore.ts. The numbers of the form are natural; an action is a function of the store.
use blindference.Prelude.{ℕ, String, Bool, false, Option, none}

pub data RiskModel : Type 0 where
  llama3_70b gemini_pro opt_125m : RiskModel

pub record InferenceState : Type 0 where
  pub model_id : RiskModel
  pub credit_score : ℕ
  pub loan_amount : ℕ
  pub account_age : ℕ
  pub prev_defaults : ℕ
  pub coverage_enabled : Bool
  pub is_encrypting : Bool
  pub is_submitting : Bool
  pub request_id : Option String
  pub error : Option String

unfoldable pub initial_state : InferenceState
initial_state = record {
  model_id = RiskModel.gemini_pro;
  credit_score = 720;
  loan_amount = 25000;
  account_age = 1200;
  prev_defaults = 2;
  coverage_enabled = false;
  is_encrypting = false;
  is_submitting = false;
  request_id = none;
  error = none;
}

-- One constructor for each action of the store.
pub data Action : Type 0 where
  set_model_id : RiskModel → Action
  set_credit_score set_loan_amount set_account_age set_prev_defaults : ℕ → Action
  set_coverage_enabled set_is_encrypting set_is_submitting : Bool → Action
  set_request_id set_error : Option String → Action
  reset : Action

unfoldable pub act : Action → InferenceState → InferenceState
unfolding initial_state
act (set_model_id id) s = record s { model_id = id }
act (set_credit_score n) s = record s { credit_score = n }
act (set_loan_amount n) s = record s { loan_amount = n }
act (set_account_age n) s = record s { account_age = n }
act (set_prev_defaults n) s = record s { prev_defaults = n }
act (set_coverage_enabled c) s = record s { coverage_enabled = c }
act (set_is_encrypting c) s = record s { is_encrypting = c }
act (set_is_submitting c) s = record s { is_submitting = c }
act (set_request_id id) s = record s { request_id = id }
act (set_error e) s = record s { error = e }
act reset s = initial_state

-- ===== src/Frontend/StatusPage.antt =====
-- pages/InferenceStatusPage.tsx: the decryption of the answer, the countdown of the dispute window and
-- the execution trace, with components/StatusTimeline.tsx. `decryptOutputKey` and
-- `downloadAndDecryptTextOutput` run between the two halves of a decryption: what they bring back is an
-- argument of the second half. `Date.parse` and `Date.now` are arguments, in milliseconds.
pub mod Clock
pub mod Life
pub mod Trace
use blindference.Prelude.{
  ℕ, ◌+◌, ◌-◌, ◌*◌, ◌/◌, ◌%◌, String, Bool, true, false, not, ◌&&◌, ◌||◌, ltb, leb, ◌==◌,
  if◌then◌else◌, Option, none, some, Result, ok, err, truthy, text_truthy, decimal, ◌<+>◌,
}
use blindference.Frontend.Status.Types.{Stage, Mode, TextResult, DemoStatus}
use blindference.Frontend.Page.Steps.{is_accepted}
use blindference.Frontend.Chat.Effects.{Output, accepted_text, text_output, accepted_output}

-- The part of the page's state that a decryption moves.
pub record Decryption : Type 0 where
  pub text_answer : Option String
  pub text_answer_error : Option String
  pub is_decrypting : Bool
  pub show_decrypt_modal : Bool
  pub decrypted : Bool

abbrev pub initial : Decryption
initial = record {
  text_answer = none;
  text_answer_error = none;
  is_decrypting = false;
  show_decrypt_modal = false;
  decrypted = false;
}

abbrev shows_answer : Option DemoStatus → Bool
shows_answer none = false
shows_answer (some status) = accepted_text status.status status.mode

unfoldable pub forget_answer : Option DemoStatus → Decryption → Decryption
forget_answer status page =
    if shows_answer status
    then page
    else record page { text_answer = none; text_answer_error = none; decrypted = false }

abbrev begin : Bool → Option Output → Decryption → Option Output × Decryption
begin client_ready none page = (none, page)
begin client_ready (some out) page =
    if client_ready
    then (some out, record page { is_decrypting = true; text_answer_error = none })
    else (none, page)

-- The effect, up to its first `await`: what is to be decrypted, if anything.
unfoldable pub enter_effect : Option DemoStatus → Bool → Decryption → Option Output × Decryption
unfolding forget_answer accepted_output
enter_effect status client_ready page =
    begin client_ready (accepted_output status) (forget_answer status page)

-- The rest of the effect; one that was cancelled changes nothing.
unfoldable pub leave_effect : Bool → Result String → Decryption → Decryption
leave_effect true outcome page = page
leave_effect false (ok answer) page = record page {
  text_answer = some answer;
  decrypted = true;
  is_decrypting = false;
}
leave_effect false (err e) page = record page { text_answer_error = some e; is_decrypting = false }

-- `handleManualDecrypt` up to its first `await`, and whether it goes on.
unfoldable pub begin_manual : Option DemoStatus → Bool → Decryption → Bool × Decryption
begin_manual none client_ready page = (false, page)
begin_manual (some status) client_ready page =
    if is_accepted (some status.status) && client_ready
    then (true, record page { show_decrypt_modal = true; is_decrypting = true })
    else (false, page)

abbrev handles_of : Option Output → Result Output
handles_of none = err "Missing output handles"
handles_of (some out) = ok out

-- What it decrypts.
abbrev pub manual_output : DemoStatus → Result Output
manual_output status = handles_of (text_output status.text_result)

-- The rest of it, its `catch` and its `finally`.
unfoldable pub end_manual : Result String → Decryption → Decryption
end_manual (ok answer) page = record page {
  text_answer = some answer;
  decrypted = true;
  show_decrypt_modal = false;
  is_decrypting = false;
}
end_manual (err e) page = record page { text_answer_error = some e; is_decrypting = false }

-- What the panel of the result shows.
pub data Panel : Type 0 where
  locked : (busy : Bool) → Panel
  decrypting : Panel
  failed : String → Panel
  answer : String → Panel
  waiting : Panel

abbrev text_or : Option String → (String → Panel) → Panel → Panel
text_or none f other = other
text_or (some s) f other = if text_truthy s then f s else other

unfoldable pub panel : Decryption → Panel
panel page =
    if not page.decrypted
    then Panel.locked page.is_decrypting
    else if page.is_decrypting
    then Panel.decrypting
    else text_or page.text_answer_error Panel.failed
        (text_or page.text_answer Panel.answer Panel.waiting)

-- The hours and the minutes that are left of the dispute window, which `Math.max(…, 0)` keeps from
-- running below 0.
unfoldable pub time_left : ℕ → ℕ → ℕ × ℕ
time_left accepted_at now =
    let diff = (accepted_at + 72 * 60 * 60 * 1000) - now in
    (diff / 3600000, (diff % 3600000) / 60000)

unfoldable pub time_left_text : (String → ℕ) → Option String → ℕ → String
unfolding time_left
time_left_text date_parse updated_at now =
    if truthy updated_at
    then (elim updated_at [
      | none ↦ "72h 0m"
      | some at ↦
          let (hours, minutes) = time_left (date_parse at) now in
          decimal hours <+> "h " <+> decimal minutes <+> "m"
    ])
    else "72h 0m"

-- The five rows of the execution trace.
unfoldable pub is_completed : Stage → ℕ → Bool
is_completed Stage.accepted i = true
is_completed Stage.verifying i = ltb i 4
is_completed Stage.executing i = ltb i 3
is_completed Stage.assigned i = ltb i 2
is_completed Stage.queued i = ltb i 1
is_completed _ i = false

unfoldable pub is_current : Stage → ℕ → Bool
is_current Stage.queued i = i == 0
is_current Stage.assigned i = i == 1
is_current Stage.executing i = i == 2
is_current Stage.verifying i = i == 3
is_current Stage.accepted i = i == 4
is_current _ i = false

-- `currentIndex` of the timeline; `none` is the index -1.
unfoldable pub current_index : Stage → Option ℕ
current_index Stage.queued = some 0
current_index Stage.assigned = some 1
current_index Stage.executing = some 2
current_index Stage.verifying = some 3
current_index Stage.accepted = some 4
current_index Stage.rejected = some 3
current_index Stage.failed = some 3
current_index Stage.disputed = none

abbrev reaches : Option ℕ → ℕ → Bool
reaches none i = false
reaches (some n) i = leb i n

unfoldable pub timeline_completed : Stage → ℕ → Bool
unfolding current_index
timeline_completed stage i = reaches (current_index stage) i

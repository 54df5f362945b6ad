-- ===== src/Frontend/Page/Submitted.antt =====
-- How a submission of InferenceNewPage.tsx ends.
use std.Path.{ap, fun_ext}
use blindference.Prelude.{ℕ, String, ◌≡◌, refl, Option, none, some, Result, ok, err, List}
use blindference.Bytes.{Buffer}
use blindference.Crypto.{Gcm, WebCrypto}
use blindference.Async.{Async}
use blindference.Cofhe.{CofheClient}
use blindference.Frontend.Chat.Effects.{Browser}
use blindference.Frontend.Chat.Actions.{push_user_message, fail_assistant_message}
use blindference.Frontend.Page.Steps.{ChatStage}
use blindference.Frontend.Page.Submit.{
  ChatSubmission, PaymentMode, QuorumPreview, Turn, PageServices, Page, Choice, Draws,
}
use blindference.Frontend.Page.Flow.{
  Connection, Stored, trim, upload_stored, attempt_before, attempt, settle_attempt, run_submit,
}
use blindference.Frontend.Page.Handle.{
  Settings, Guard, guard_of, choice_of, after_guard, handle_chat_submit,
}

settle_idle :
    {W : Type 0} (b : Browser) (id : String) (r : Result (Unit {0})) (page : Page W)
    → (settle_attempt b id r page).stage ≡ ChatStage.idle
settle_idle b id (ok u) page = refl
settle_idle b id (err e) page = refl

module _ {W : Type 0} (services : PageServices W) (b : Browser) (draws : Draws)
    (escrow_error : Option String) (g : Gcm) (web : WebCrypto g) (random_bytes : ℕ → Buffer)
    (stringify : List Turn → String → g.Text) where
  run_submit_idle :
      (choice : Choice) (client : CofheClient W) (prompt : String) (page : Page W)
      → (run_submit services b choice draws escrow_error g web random_bytes stringify client prompt
          page).stage
        ≡ ChatStage.idle
  unfolding run_submit
  run_submit_idle choice client prompt page =
      let pushed =
        push_user_message b draws.user_id draws.assistant_id draws.now prompt choice.model.label
          page.chat in
      let begun : Page W = record page { chat = pushed; prompt = ""; error = none } in
      let out =
        attempt services b choice draws escrow_error g web random_bytes stringify client prompt
          page.chat.messages begun in
      settle_idle b draws.assistant_id out.0 out.1

  after_guard_idle :
      (settings : Settings) (guard : Guard W) (prompt : String) (page : Page W)
      → page.stage ≡ ChatStage.idle
      → (after_guard services b draws escrow_error g web random_bytes stringify settings guard
          prompt page).stage
        ≡ ChatStage.idle
  after_guard_idle settings (Guard.refused msg) prompt page h = h
  after_guard_idle settings (Guard.passed ready) prompt page h =
      run_submit_idle
        (choice_of services b draws escrow_error g web random_bytes stringify settings ready)
        ready.client prompt page

  -- A submission from an idle page leaves the page idle, whatever its guards and its services do.
  pub handle_chat_submit_idle :
      (settings : Settings) (conn : Connection W) (page : Page W)
      → page.stage ≡ ChatStage.idle
      → (handle_chat_submit services b draws escrow_error g web random_bytes stringify settings conn
          page).stage
        ≡ ChatStage.idle
  unfolding handle_chat_submit
  handle_chat_submit_idle settings conn page h =
      after_guard_idle settings (guard_of conn (trim page.prompt)) (trim page.prompt) page h

  -- An attempt that throws, at whatever step, shows its message and fails the assistant's message with
  -- it, in the chat as that step left it.
  pub run_submit_failed :
      (choice : Choice) (client : CofheClient W) (prompt e : String) (page failed : Page W)
      → let pushed =
          push_user_message b draws.user_id draws.assistant_id draws.now prompt choice.model.label
            page.chat in
        let begun : Page W = record page { chat = pushed; prompt = ""; error = none } in
        (attempt services b choice draws escrow_error g web random_bytes stringify client prompt
            page.chat.messages begun
          ≡ (err e, failed))
        → run_submit services b choice draws escrow_error g web random_bytes stringify client prompt
            page
          ≡ record failed {
            error = some e;
            stage = ChatStage.idle;
            chat = fail_assistant_message b draws.assistant_id e failed.chat;
          }
  unfolding run_submit
  run_submit_failed choice client prompt e page failed h = rw h refl

module _ {W : Type 0} (services : PageServices W) (b : Browser) (draws : Draws)
    (escrow_error : Option String) (g : Gcm) (web : WebCrypto g) (random_bytes : ℕ → Buffer)
    (stringify : List Turn → String → g.Text) (other : ℕ → String → Async W (Option String)) where
  upload_stored_credits :
      (choice : Choice) (o : Option QuorumPreview) (s : Stored)
      → choice.payment_mode ≡ PaymentMode.credits
      → upload_stored services b choice draws escrow_error o s
        ≡ upload_stored (record services { create_escrow = other }) b choice draws escrow_error o s
  unfolding upload_stored
  upload_stored_credits choice none s h = refl
  upload_stored_credits choice (some preview) s h = rw h refl

  -- A submission that is paid with credits creates no escrow: it does the same whatever the service
  -- for escrows would do.
  pub run_submit_credits :
      (choice : Choice) (client : CofheClient W) (prompt : String) (page : Page W)
      → choice.payment_mode ≡ PaymentMode.credits
      → run_submit services b choice draws escrow_error g web random_bytes stringify client prompt
          page
        ≡ run_submit
            (record services { create_escrow = other })
            b
            choice
            draws
            escrow_error
            g
            web
            random_bytes
            stringify
            client
            prompt
            page
  unfolding run_submit attempt attempt_before
  run_submit_credits choice client prompt page h =
      let pushed =
        push_user_message b draws.user_id draws.assistant_id draws.now prompt choice.model.label
          page.chat in
      let begun : Page W = record page { chat = pushed; prompt = ""; error = none } in
      let after : (Option QuorumPreview → Stored → Async (Page W) (Unit {0})) → Page W = λ upload.
        let out =
          attempt_before services b choice draws escrow_error g web random_bytes stringify client
            upload prompt page.chat.messages begun in
        settle_attempt b draws.assistant_id out.0 out.1 in
      ap after (fun_ext (λ o. fun_ext (λ s. upload_stored_credits choice o s h)))

-- A submission whose quorum preview throws at every state, with any message and any effect, uploads
-- no prompt, creates no escrow and submits no job, in either payment mode: it does the same whatever
-- these three services would do.
pub run_submit_no_nodes :
    {W : Type 0} (services : PageServices W) (b : Browser) (choice : Choice) (draws : Draws)
    (escrow_error : Option String) (g : Gcm) (web : WebCrypto g) (random_bytes : ℕ → Buffer)
    (stringify : List Turn → String → g.Text) (client : CofheClient W) (prompt : String)
    (page : Page W) (message : W → String) (next : W → W) (upload : Buffer → Async W String)
    (create : ℕ → String → Async W (Option String))
    (submit : ChatSubmission → Async W (Option String))
    → let without = record services { quorum_preview = λ id w. (err (message w), next w) } in
      let other = record without {
        upload_prompt = upload;
        create_escrow = create;
        submit_job = submit;
      } in
      run_submit without b choice draws escrow_error g web random_bytes stringify client prompt page
      ≡ run_submit other b choice draws escrow_error g web random_bytes stringify client prompt page
unfolding run_submit attempt attempt_before upload_stored
run_submit_no_nodes services b choice draws escrow_error g web random_bytes stringify client prompt
      page message next upload create submit =
    refl

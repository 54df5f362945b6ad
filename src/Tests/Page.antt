-- ===== src/Tests/Page.antt =====
-- The inference page at a concrete submission.
use blindference.Prelude.{ℕ, ◌≡◌, refl, true, false, String, [], ◌∷◌, none, some, ok, err}
use blindference.Bytes.{Buffer}
use blindference.Crypto.Toy.{toy_gcm, toy_web_crypto, zero_bytes}
use blindference.Frontend.Status.Types.{Stage}
use blindference.Frontend.PromptKey.{encrypt_prompt_key_for_text_request}
use blindference.Frontend.Page.Seal.{encrypt_text}
use blindference.Frontend.Page.Steps.{StepKey, ChatStage, StepStatus, step_status}
use blindference.Frontend.Page.Submit.{PaymentMode, PageServices, Page, Choice, Draws}
use blindference.Frontend.Page.Flow.{Connection, run_submit}
use blindference.Frontend.Page.Handle.{Settings, handle_chat_submit}
use blindference.Frontend.Page.Submitted.{run_submit_no_nodes}
use blindference.Tests.Encryption.{flaky, key, text}
use blindference.Tests.Chat.{chat, browser}

abbrev shown : StepKey → StepStatus
shown key = step_status key ChatStage.idle (some "r") (some Stage.accepted) true

abbrev services : PageServices ℕ
services = record {
  quorum_preview = λ id n. (ok (record { leader = "0xa"; verifiers = "0xb" ∷ "0xc" ∷ [] }), n);
  store_prompt_key = λ args n. (ok "0xtx", n);
  upload_prompt = λ packed n. (ok "cid", n);
  create_escrow = λ price id n. (ok (some "7"), n);
  submit_job = λ job n. (ok (some "job-1"), n);
}

abbrev settings : PaymentMode → Settings
settings mode = record {
  model = record { id = "m"; label = "M"; provider = "p"; model = "m" };
  payment_mode = mode;
  payment_currency = "usdc";
  insurance_opt_in = false;
}

abbrev choice : PaymentMode → Choice
choice mode = record {
  model = (settings mode).model;
  payment_mode = mode;
  payment_currency = "usdc";
  insurance_opt_in = false;
  address = "0x1";
  store_address = "0x2";
}

abbrev draws : Draws
draws = record {
  user_id = "u1";
  assistant_id = "a1";
  now = 5;
  key = key;
  task_bytes = 171 ∷ 5 ∷ [];
}

abbrev connection : Connection ℕ
connection = record {
  cofhe_client = some flaky;
  is_ready = true;
  address = some "0x1";
  has_clients = true;
  store_address = some "0x2";
}

-- The network behind the page has failed once already: the next calls succeed.
abbrev page : String → Page ℕ
page prompt = record {
  world = 1;
  chat = chat;
  prompt = prompt;
  error = none;
  stage = ChatStage.idle;
}

abbrev write_out : {A : Type 0} → A → String → Buffer
write_out conversation prompt = text

abbrev submitted : PaymentMode → String → Page ℕ
submitted mode prompt =
    handle_chat_submit services browser draws none toy_gcm toy_web_crypto zero_bytes write_out
      (settings mode) connection (page prompt)

submits_with_escrow :
    ((submitted PaymentMode.escrow "  hi ").chat.active_request_id ≡ "job-1")
    × ((submitted PaymentMode.escrow "  hi ").error ≡ none)
unfolding handle_chat_submit encrypt_text encrypt_prompt_key_for_text_request
submits_with_escrow = (refl, refl)

abbrev without : PageServices ℕ
without = record services { quorum_preview = λ id n. (err "no nodes", n) }

run_submit_no_nodes_example :
    run_submit without browser
      (choice PaymentMode.escrow)
      draws
      none
      toy_gcm
      toy_web_crypto
      zero_bytes
      write_out
      flaky
      "hi"
      (page "hi")
    ≡ run_submit
        (record without {
          upload_prompt = λ packed n. (err "e", 0);
          create_escrow = λ price id n. (ok none, 0);
          submit_job = λ job n. (err "e", 0);
        })
        browser
        (choice PaymentMode.escrow)
        draws
        none
        toy_gcm
        toy_web_crypto
        zero_bytes
        write_out
        flaky
        "hi"
        (page "hi")
run_submit_no_nodes_example =
    run_submit_no_nodes services browser (choice PaymentMode.escrow) draws none toy_gcm
      toy_web_crypto zero_bytes write_out flaky "hi" (page "hi") (λ n. "no nodes") (λ n. n)
      (λ packed n. (err "e", 0)) (λ price id n. (ok none, 0)) (λ job n. (err "e", 0))

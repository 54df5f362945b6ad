-- ===== src/Tests/Risk.antt =====
-- A risk submission, the chat and the history at concrete inputs.
use blindference.Prelude.{◌≡◌, Bool, refl, true, List, [], ◌∷◌, some, ok, err, All}
use blindference.Cofhe.{CofheClient}
use blindference.Frontend.Chain.{fee_params}
use blindference.Frontend.History.{HistoryEntry, Slot, add_history_entry}
use blindference.Frontend.History.Refinement.{Command, run_all, apply_all, view, run_all_refines}
use blindference.Frontend.Chat.{Chat}
use blindference.Frontend.Chat.Effects.{
  on_accepted, on_rejected, finish_auto_decrypt, decrypted_patch,
}
use blindference.Frontend.Chat.Ready.{Decryptable}
use blindference.Frontend.Chat.Reach.{Step, Reach, Reach-Decryptable}
use blindference.Frontend.Risk.Store.{initial_state}
use blindference.Frontend.Risk.Submit.{
  RiskServices, RiskPage, RiskWallet, RiskConnection, attempt, history_entry_of,
}
use blindference.Frontend.Risk.Submitted.{Submitted}
use blindference.Tests.Chat.{chat, browser, entry, accepted}
use blindference.Tests.Wallet.{Held, empty, held, chain, read_vault, features}

abbrev client : CofheClient Held
client = record {
  encrypt_inputs = λ items w. (ok features, w);
  get_or_create_self_permit = λ w. (ok (record { issuer = "0x1"; expiration = 5 }), w);
  remove_active_permit = λ w. (ok tt, w);
  decrypt_for_view = λ handle type permit w. (ok handle, w);
}

abbrev services : RiskServices Held
services = record {
  chain = chain;
  stored_input_handles = read_vault;
  quorum_preview = λ id w. (ok (record { leader = "0xa"; verifiers = "0xb" ∷ [] }), w);
  create_sharing = λ request w. (ok request.recipient, w);
  submit = λ submission w. (ok "req-1", w);
}

abbrev wallet : RiskWallet Held
wallet = record { client = client; address = "0X1"; account = some "0x1"; vault = "0xv" }

abbrev connection : RiskConnection Held
connection = record {
  cofhe_client = some client;
  is_ready = true;
  address = some "0x1";
  has_clients = true;
  account = some "0x1";
  vault = some "0xv";
}

abbrev page : RiskPage Held
page = record { world = empty; store = initial_state; history = Slot.missing; location = "/" }

abbrev fits : List HistoryEntry → Bool
fits es = true

abbrev landed : RiskPage Held
landed = record {
  world = held;
  store = record initial_state { is_submitting = true; request_id = some "req-1" };
  history = add_history_entry fits (history_entry_of initial_state "loan_9" "req-1" 9) Slot.missing;
  location = "/inference/req-1";
}

-- The vault names another owner.
other_owner :
    (attempt services fits (record wallet { address = "0x2" }) initial_state 9 page).0
    ≡ err "BlindferenceInputVault stored handles for a different owner than the connected wallet."
unfolding attempt fee_params
other_owner = refl

run_all_refines_example :
    view (
      run_all fits
        (Command.add entry ∷ Command.update "m2" (decrypted_patch (ok "hi")) ∷ [])
        Slot.missing)
    ≡ apply_all
        (Command.add entry ∷ Command.update "m2" (decrypted_patch (ok "hi")) ∷ [])
        (view Slot.missing)
run_all_refines_example =
    run_all_refines fits (λ es. refl)
      (Command.add entry ∷ Command.update "m2" (decrypted_patch (ok "hi")) ∷ []) Slot.missing

-- The answer comes in, is opened, and a refusal of another request follows.
abbrev opened : Chat
opened = finish_auto_decrypt browser "r" (ok "hi") (on_accepted browser accepted chat)

Reach-Decryptable_example : All Decryptable (on_rejected browser accepted opened).messages
Reach-Decryptable_example =
    Reach-Decryptable {c = chat} (refl, tt)
      (Reach.next browser
        (Reach.next browser (Reach.next browser Reach.here (Step.accept chat accepted))
          (Step.finish (on_accepted browser accepted chat) "r" (ok "hi")))
        (Step.reject opened accepted))

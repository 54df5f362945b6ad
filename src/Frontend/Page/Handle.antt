-- ===== src/Frontend/Page/Handle.antt =====
-- The guards of `handleChatSubmit`, before its first change.
use blindference.Prelude.{
  ℕ, String, Bool, ◌&&◌, if◌then◌else◌, List, Option, none, some, truthy, text_truthy, or_default,
}
use blindference.Bytes.{Buffer}
use blindference.Crypto.{Gcm, WebCrypto}
use blindference.Cofhe.{CofheClient}
use blindference.Frontend.Chat.Effects.{Browser}
use blindference.Frontend.Page.Submit.{PaymentMode, Model, Turn, PageServices, Page, Choice, Draws}
use blindference.Frontend.Page.Flow.{Connection, trim, run_submit}

-- What the user has chosen on the page.
pub record Settings : Type 0 where
  pub model : Model
  pub payment_mode : PaymentMode
  pub payment_currency : String
  pub insurance_opt_in : Bool

-- What a submission needs of the wallet and the environment.
pub record Ready (W : Type 0) : Type 0 where
  pub client : CofheClient W
  pub address : String
  pub store_address : String

-- The first guard that fails, or what the submission needs.
pub data Guard (W : Type 0) : Type 0 where
  refused : String → Guard W
  passed : Ready W → Guard W

module _ {W : Type 0} where
  abbrev with_store : CofheClient W → String → Option String → Guard W
  with_store client address store_address =
      if truthy store_address
      then Guard.passed (record {
        client = client;
        address = address;
        store_address = or_default store_address "";
      })
      else Guard.refused "VITE_PROMPT_KEY_STORE_ADDRESS is not configured."

  abbrev with_client : Connection W → Option (CofheClient W) → Guard W
  with_client conn none = Guard.refused "Connect your wallet and wait for CoFHE to initialize."
  with_client conn (some client) =
      if conn.is_ready && truthy conn.address
      then if conn.has_clients
        then with_store client (or_default conn.address "") conn.store_address
        else Guard.refused "Wallet client is not available yet."
      else Guard.refused "Connect your wallet and wait for CoFHE to initialize."

  unfoldable pub guard_of : Connection W → String → Guard W
  guard_of conn prompt =
      if text_truthy prompt
      then with_client conn conn.cofhe_client
      else Guard.refused "Please enter a prompt first."

  module _ (services : PageServices W) (b : Browser) (draws : Draws) (escrow_error : Option String)
      (g : Gcm) (web : WebCrypto g) (random_bytes : ℕ → Buffer)
      (stringify : List Turn → String → g.Text) (settings : Settings) where
    abbrev pub choice_of : Ready W → Choice
    choice_of ready = record {
      model = settings.model;
      payment_mode = settings.payment_mode;
      payment_currency = settings.payment_currency;
      insurance_opt_in = settings.insurance_opt_in;
      address = ready.address;
      store_address = ready.store_address;
    }

    abbrev pub after_guard : Guard W → String → Page W → Page W
    after_guard (refused msg) prompt page = record page { error = some msg }
    after_guard (passed ready) prompt page =
        run_submit services b (choice_of ready) draws escrow_error g web random_bytes stringify
          ready.client prompt page

    unfoldable pub handle_chat_submit : Connection W → Page W → Page W
    unfolding guard_of trim run_submit
    handle_chat_submit conn page =
        after_guard (guard_of conn (trim page.prompt)) (trim page.prompt) page

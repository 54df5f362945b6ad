-- ===== src/Tests/EscrowPage.antt =====
-- The page of an escrow at concrete inputs. The state counts the transactions.
use blindference.Prelude.{ℕ, ◌+◌, ◌≡◌, refl, false, true, none, some, ok, err, decimal}
use blindference.Frontend.Escrow.{Wallet}
use blindference.Frontend.EscrowPage.{PageSdk, EscrowPage, handle_create}
use blindference.Frontend.EscrowPage.Ended.{Ended}

abbrev sdk : PageSdk ℕ
sdk = record {
  get_reineira_sdk = λ w. (ok tt, w);
  usdc = λ n. n;
  encode_resolver_data = λ job_id. ok job_id;
  create = λ amount resolver_data w. (ok (record { id = 7; create_tx = some "0xc" }), w + 1);
  fund = λ escrow amount w. (ok "0xf", w + 1);
}

abbrev poor : PageSdk ℕ
poor = record sdk { fund = λ escrow amount w. (err "no funds", w) }

abbrev wallet : Wallet
wallet = record { address = some "0x1"; has_clients = true; has_cofhe = true }

abbrev page : EscrowPage ℕ
page = record {
  world = 0;
  amount = "10";
  job_id = " 0x1111111111111111111111111111111111111111111111111111111111111111";
  loading = false;
  error = some "old";
  success = none;
  escrow_id = some 3;
  create_tx_hash = none;
  fund_tx_hash = none;
}

shown :
    (handle_create sdk (λ s. some 10) wallet page).success
    ≡ some "Escrow #7 created and funded successfully!"
unfolding handle_create decimal
shown = refl

half : (handle_create poor (λ s. some 10) wallet page).escrow_id ≡ some 7
unfolding handle_create
half = refl

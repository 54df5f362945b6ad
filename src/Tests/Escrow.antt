-- ===== src/Tests/Escrow.antt =====
-- The creation of an escrow for a job.
use blindference.Prelude.{
  ◌≡◌, refl, true, false, ◌==◌, if◌then◌else◌, ℕ, String, none, some, ok, err,
}
use blindference.Frontend.Page.Submit.{Model}
use blindference.Frontend.Escrow.{EscrowServices, Hook, Wallet, create_escrow}

-- The services count the calls; the funding fails at the first call of a fresh network.
abbrev services : EscrowServices ℕ
services = record {
  get_reineira_sdk = λ n. (ok tt, n);
  create = λ amount job_id n. (ok (record { id = 7; create_tx = none }), n);
  fund = λ escrow amount n. (if n == 0 then err "" else ok "0xfund", 1);
}

abbrev wallet : Wallet
wallet = record { address = some "0x1"; has_clients = true; has_cofhe = true }

abbrev hook : Hook ℕ
hook = record { world = 0; loading = false; error = none; result = none }

abbrev job_id : String
job_id = "0x0101010101010101010101010101010101010101010101010101010101010101"

funding_fails : create_escrow services wallet 1000 job_id hook ≡ (
  none,
  record { world = 1; loading = false; error = some "Escrow creation failed"; result = none },
)
unfolding create_escrow
funding_fails = refl

abbrev model : Model
model = record { id = "m"; label = "M"; provider = "p"; model = "m" }

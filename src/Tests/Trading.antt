-- ===== src/Tests/Trading.antt =====
-- The trading-signal client at concrete prices and logs.
use blindference.Prelude.{
  ℕ, suc, arith, to_lower_case, ◌+◌, ◌-◌, ◌*◌, ◌/◌, ◌<◌, ◌≡◌, refl, false, str_eq, if◌then◌else◌,
  String, List, [], ◌∷◌, some, Result, ok, err,
}
use blindference.Trading.{
  ℤ, Direction, Signal, Coverage, Log, Event, Contracts, ContractAddresses, find_payout,
  projected_loss_bps,
}
use blindference.Trading.Loss.{projected_loss_bps_adverse}

abbrev signal : Signal
signal = record {
  invocation_id = 1;
  asset = "0x";
  direction = Direction.buy;
  confidence_bps = 9000;
  price_at_issue = ℤ.pos 2000;
  issued_at = 1;
  valid_until = 2;
  agent = "0xa";
}

loss_runs : projected_loss_bps signal (ℤ.pos 1900) 50 ≡ 500
unfolding projected_loss_bps
loss_runs = refl

projected_loss_bps_adverse_example :
    (Direction.buy ≡ Direction.buy → 1900 < 2000)
    × (Direction.buy ≡ Direction.sell → 2000 < 1900)
    × (Direction.buy ≡ Direction.hold → 50 < ((1900 - 2000) + (2000 - 1900)) * 10000 / 2000)
projected_loss_bps_adverse_example =
    projected_loss_bps_adverse signal 2000 1900 50 refl (unfold projected_loss_bps in omega arith)

abbrev decode : String → Result Event
decode body = if str_eq body "paid" then ok (Event.claim_paid 7) else err "no event"

abbrev logs : List Log
logs = record { address = "0xA"; body = "other" } ∷ record { address = "0xa"; body = "paid" } ∷ []

payout_runs : find_payout decode "0xa" logs ≡ some 7
unfolding find_payout to_lower_case
payout_runs = refl

abbrev coverage : Coverage
coverage = record {
  buyer = "0xb";
  coverage_amount = 1;
  escrow_id = 1;
  purchased_at = 1;
  claimed = false;
}

abbrev contracts : Contracts ℕ
contracts = record {
  signal_of = λ id n. (ok signal, suc n);
  coverage_of = λ id buyer n. (ok coverage, suc n);
  simulate_purchase = λ account id amount escrow n. (ok "request", suc n);
  simulate_claim = λ account id n. (ok "request", suc n);
  write = λ request n. (ok "0xhash", suc n);
  receipt_logs = λ hash n. (ok logs, suc n);
}

abbrev addresses : ContractAddresses
addresses = record { signal_attestor = "0x1"; loss_underwriter = "0xa"; price_oracle = "0x2" }

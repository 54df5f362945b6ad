-- ===== src/Trading/Loss.antt =====
-- The projected loss of a signal.
use blindference.Prelude.{ℕ, ◌+◌, ◌-◌, ◌*◌, ◌/◌, ◌≤◌, ◌<◌, ◌≡◌, ◌⊎◌, refl, inl, inr, arith}
use native.Mathlib.Nat.{div-le_of_le-mul, le-div_iff_mul-le, div-mul-le_self}
use blindference.Trading.{ℤ, Direction, Signal, loss_at, projected_loss_bps}

div_mono : (a b k : ℕ) → 0 < k → a ≤ b → a / k ≤ b / k
div_mono a b k positive h =
    let back : a / k * k ≤ a = div-mul-le_self a k in (le-div_iff_mul-le positive).1 (omega arith)

at_most_all : (drop issue : ℕ) → drop ≤ issue → drop * 10000 / issue ≤ 10000
at_most_all drop issue h = div-le_of_le-mul issue (omega arith)

buy_at_most_all :
    (issue current tolerance : ℕ) → loss_at Direction.buy issue current tolerance ≤ 10000
buy_at_most_all issue current tolerance =
    ground (arith, at_most_all (issue - current) issue (omega arith))

price_cases : (p : ℤ) → ((n : ℕ) × (p ≡ ℤ.pos n)) ⊎ ((n : ℕ) × (p ≡ ℤ.negsuc n))
price_cases (ℤ.pos n) = inl (n, refl)
price_cases (ℤ.negsuc n) = inr (n, refl)

-- The projected loss of a BUY is at most 10,000 basis points, whatever the prices are.
pub projected_loss_bps_bound :
    (signal : Signal) (current : ℤ) (tolerance : ℕ)
    → signal.direction ≡ Direction.buy
    → projected_loss_bps signal current tolerance ≤ 10000
unfolding projected_loss_bps
projected_loss_bps_bound signal current tolerance h = elim (price_cases signal.price_at_issue) [
  | inr (_, below) ↦ ground arith
  | inl (issue, above) ↦ elim (price_cases current) [
    | inr (_, below) ↦ ground arith
    | inl (price, there) ↦ ground (arith, buy_at_most_all issue price tolerance)
  ]
]

-- A loss is projected only for a move against the signal: below the price at issue for a BUY, above
-- it for a SELL, and by more than the tolerance for a HOLD.
pub projected_loss_bps_adverse :
    (signal : Signal) (issue price tolerance : ℕ)
    → signal.price_at_issue ≡ ℤ.pos issue
    → 0 < projected_loss_bps signal (ℤ.pos price) tolerance
    → (signal.direction ≡ Direction.buy → price < issue)
      × (signal.direction ≡ Direction.sell → issue < price)
      × (signal.direction ≡ Direction.hold
          → tolerance < ((price - issue) + (issue - price)) * 10000 / issue)
unfolding projected_loss_bps
projected_loss_bps_adverse signal issue price tolerance h loss = ground arith

-- For a BUY, a lower price never projects a smaller loss, as long as it is above 0.
pub projected_loss_bps_antitone :
    (signal : Signal) (issue low high tolerance : ℕ)
    → signal.direction ≡ Direction.buy
    → signal.price_at_issue ≡ ℤ.pos issue
    → 0 < low
    → low ≤ high
    → projected_loss_bps signal (ℤ.pos high) tolerance
      ≤ projected_loss_bps signal (ℤ.pos low) tolerance
unfolding projected_loss_bps
projected_loss_bps_antitone signal issue low high tolerance b h above order =
    ground (arith, div_mono ((issue - high) * 10000) ((issue - low) * 10000) issue)

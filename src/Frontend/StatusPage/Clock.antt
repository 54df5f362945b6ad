-- ===== src/Frontend/StatusPage/Clock.antt =====
-- What the countdown of the dispute window says.
use blindference.Prelude.{ℕ, ◌+◌, ◌-◌, ◌*◌, ◌≤◌, ◌<◌, arith}
use blindference.Frontend.StatusPage.{time_left}

-- The countdown of a request that was accepted in the past never shows more than 72 hours, nor 60
-- minutes or more, and what it shows is what is left of the window, cut to the minute.
pub time_left_exact :
    (accepted_at now : ℕ)
    → accepted_at ≤ now
    → let (hours, minutes) = time_left accepted_at now in
      let left = (accepted_at + 259200000) - now in
      (hours ≤ 72)
      × (minutes < 60)
      × (hours * 3600000 + minutes * 60000 ≤ left)
      × (left < hours * 3600000 + (minutes + 1) * 60000)
unfolding time_left
time_left_exact accepted_at now h = (omega arith, omega arith, omega arith, omega arith)

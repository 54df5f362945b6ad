-- ===== src/Async/Poll.antt =====
-- A loop that asks again until an answer settles the matter, or the rounds allowed are used up:
-- the shape of `_pollJobStatus` and `_pollUntilComplete` of the agent SDK.
pub mod Rounds
use blindference.Prelude.{ℕ, zero, suc, String, Option, none, some, ok, err}
use blindference.Async.{Async}

module _ {W A B : Type 0} (round : Async W A) (settle : A → Option B) (timeout : String) where
  unfoldable pub poll_until : ℕ → Async W B
  poll_until zero w = (err timeout, w)
  poll_until (suc left) w =
      let (answer, w') = round w in
      elim answer [
        | err e ↦ (err e, w')
        | ok a ↦ elim (settle a) [ some b ↦ (ok b, w') | none ↦ poll_until left w' ]
      ]

-- ===== src/Async/Poll/Rounds.antt =====
-- How many rounds a poll makes, and what it comes back with.
use blindference.Prelude.{
  ℕ, zero, suc, ◌+◌, String, ◌≡◌, refl, ◌∙◌, Option, none, some, ok, err, arith, Result-cases,
  Option-cases, inl, inr, ap, sym,
}
use blindference.Async.{Async}
use blindference.Async.Poll.{poll_until}

module _ {W A B : Type 0} (round : Async W A) (settle : A → Option B) where
  -- So many rounds, from one state to another, none of which settles the matter.
  pub data Pending : ℕ → W → W → Type 0 where
    at_once : (w : W) → Pending 0 w w
    once_more :
        (n : ℕ) (w w' w'' : W) (a : A)
        → round w ≡ (ok a, w')
        → settle a ≡ none
        → Pending n w' w''
        → Pending (suc n) w w''

  module _ (timeout : String) where
    still_open :
        (left : ℕ) (a : A) (w w' : W)
        → round w ≡ (ok a, w')
        → settle a ≡ none
        → poll_until round settle timeout (suc left) w ≡ poll_until round settle timeout left w'
    unfolding poll_until
    still_open left a w w' h pending = ground arith

    settled :
        (left : ℕ) (a : A) (b : B) (w w' : W)
        → round w ≡ (ok a, w')
        → settle a ≡ some b
        → poll_until round settle timeout (suc left) w ≡ (ok b, w')
    unfolding poll_until
    settled left a b w w' h done = ground arith

    no_rounds : (w : W) → poll_until round settle timeout 0 w ≡ (err timeout, w)
    unfolding poll_until
    no_rounds w = refl

    wait :
        (more total : ℕ) {n : ℕ} {w w' : W}
        → Pending n w w'
        → total ≡ n + more
        → poll_until round settle timeout total w ≡ poll_until round settle timeout more w'
    wait more total (Pending.at_once w) e = let e' : total ≡ more = omega arith in rw e' refl
    wait more total (Pending.once_more n w w' w'' a h pending rest) e =
        let e' : total ≡ suc (n + more) = omega arith in
        rw e' (still_open (n + more) a w w' h pending ∙ wait more (n + more) rest refl)

    pub poll_until_settles :
        (n left : ℕ) (a : A) (b : B) (w w' w'' : W)
        → Pending n w w'
        → round w' ≡ (ok a, w'')
        → settle a ≡ some b
        → poll_until round settle timeout (n + suc left) w ≡ (ok b, w'')
    poll_until_settles n left a b w w' w'' pending h done =
        wait (suc left) (n + suc left) pending refl ∙ settled left a b w' w'' h done

    pub poll_until_times_out :
        (n : ℕ) (w w' : W)
        → Pending n w w'
        → poll_until round settle timeout n w ≡ (err timeout, w')
    poll_until_times_out n w w' pending = wait 0 n pending (omega arith) ∙ no_rounds w'

    failed :
        (left : ℕ) (e : String) (w w' : W)
        → round w ≡ (err e, w')
        → poll_until round settle timeout (suc left) w ≡ (err e, w')
    unfolding poll_until
    failed left e w w' h = ground arith

    -- What comes back settled an answer.
    pub poll_until_settled :
        (n : ℕ) (w w' : W) (b : B)
        → poll_until round settle timeout n w ≡ (ok b, w')
        → (a : A) × (settle a ≡ some b)
    poll_until_settled zero w w' b h = cc (h, no_rounds w)
    poll_until_settled (suc n) w w' b h = elim (Result-cases (round w).0) [
      | inr (e, thrown) ↦ cc (h, failed n e w (round w).1 (ap (λ r. (r, (round w).1)) thrown))
      | inl (a, came) ↦
          let answer : round w ≡ (ok a, (round w).1) = ap (λ r. (r, (round w).1)) came in
          elim (Option-cases (settle a)) [
            | inl pending ↦
                poll_until_settled n (round w).1 w' b
                  (sym (still_open n a w (round w).1 answer pending) ∙ h)
            | inr (b', done) ↦ (a, cc (done, h, settled n a b' w (round w).1 answer done))
          ]
    ]

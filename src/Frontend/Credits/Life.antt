-- ===== src/Frontend/Credits/Life.antt =====
-- The life of a balance.
use blindference.Prelude.{
  ℕ, suc, String, true, ◌≡◌, ◌≢◌, refl, Option, none, some, Result, ok, err, or_text, text_truthy,
  Bool-cases, inl, inr, arith,
}
use blindference.Frontend.Credits.{Balance, Amounts, begin_fetch, end_fetch, on_message}

-- The balance, and how many requests are under way.
pub record Life : Type 0 where
  pub balance : Balance
  pub fetching : ℕ

-- `fetchBalance` is called by a page or by `onerror`.
pub data Step : Life → Life → Type 0 where
  fetch :
      (l : Life) (address : Option String)
      → (begin_fetch address l.balance).0 ≡ true
      → Step l (record { balance = (begin_fetch address l.balance).1; fetching = suc l.fetching })
  fetched :
      (balance : Balance) (n : ℕ) (r : Result Amounts)
      → Step
          (record { balance = balance; fetching = suc n })
          (record { balance = end_fetch r balance; fetching = n })
  message :
      (l : Life) (event : Option Amounts)
      → Step l (record l { balance = on_message event l.balance })

pub data Reach (l : Life) : Life → Type 0 where
  here : Reach l l
  next : {m n : Life} → Reach l m → Step m n → Reach l n

-- Both amounts are texts that are not empty, and a balance that is loading has a request under way and
-- no error.
abbrev pub Sound : Life → Type 0
Sound l =
    (text_truthy l.balance.cusdc ≡ true)
    × (text_truthy l.balance.blind ≡ true)
    × (l.balance.loading ≡ true → (l.fetching ≢ 0) × (l.balance.error ≡ none))

or_text_truthy : (o : Option String) → text_truthy (or_text o "0") ≡ true
or_text_truthy none = refl
or_text_truthy (some s) = elim (Bool-cases (text_truthy s)) [
  | inl full ↦ rw full full
  | inr bare ↦ rw bare refl
]

Step-Sound : {l m : Life} → Step l m → Sound l → Sound m
unfolding begin_fetch end_fetch on_message
Step-Sound (Step.fetch l address asked) (a, b, c) = ground arith
Step-Sound (Step.fetched balance n (ok amounts)) (a, b, c) =
    (or_text_truthy amounts.balance_cusdc, or_text_truthy amounts.balance_blind, λ h. ground arith)
Step-Sound (Step.fetched balance n (err e)) (a, b, c) = (a, b, λ h. ground arith)
Step-Sound (Step.message l none) h = h
Step-Sound (Step.message l (some amounts)) (a, b, c) =
    (or_text_truthy amounts.balance_cusdc, or_text_truthy amounts.balance_blind, λ h. ground arith)

-- Through any requests, events and failures, in any order, both amounts are texts that are not empty,
-- and a balance that is loading has a request under way and shows no error.
pub Reach-Sound : {l m : Life} → Sound l → Reach l m → Sound m
Reach-Sound h Reach.here = h
Reach-Sound h (Reach.next r step) = Step-Sound step (Reach-Sound h r)

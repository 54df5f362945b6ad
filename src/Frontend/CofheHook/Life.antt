-- ===== src/Frontend/CofheHook/Life.antt =====
-- The life of the hook: `initCofhe` starts again whenever a wallet client comes or goes, or on a retry;
-- what was started comes back in any order.
use blindference.Prelude.{
  String, true, false, ◌≡◌, refl, List, [], ◌∷◌, ◌++◌, Option, none, some, is_some, ok, err, arith,
}
use blindference.Frontend.CofheHook.{CofheHook, begin_init, end_init}

-- The hook, and the wallets whose connection is under way.
pub record Life : Type 0 where
  pub hook : CofheHook
  pub connecting : List String

abbrev connecting_with : Option String → List String → List String
connecting_with none wallets = wallets
connecting_with (some wallet) wallets = wallet ∷ wallets

pub data Step : Life → Life → Type 0 where
  begin :
      (l : Life) (wallet : Option String)
      → Step l (record {
        hook = begin_init wallet l.hook;
        connecting = connecting_with wallet l.connecting;
      })
  connected :
      (hook : CofheHook) (before after : List String) (wallet : String)
      → Step
          (record { hook = hook; connecting = before ++ wallet ∷ after })
          (record { hook = end_init (ok wallet) hook; connecting = before ++ after })
  failed :
      (hook : CofheHook) (before after : List String) (wallet e : String)
      → Step
          (record { hook = hook; connecting = before ++ wallet ∷ after })
          (record { hook = end_init (err e) hook; connecting = before ++ after })

pub data Reach (l : Life) : Life → Type 0 where
  here : Reach l l
  next : {m n : Life} → Reach l m → Step m n → Reach l n

-- A hook that is ready has a client and no error.
abbrev pub Usable : Life → Type 0
Usable l = l.hook.is_ready ≡ true → (is_some l.hook.client ≡ true) × (l.hook.error ≡ none)

Step-Usable : {l m : Life} → Step l m → Usable l → Usable m
unfolding begin_init end_init
Step-Usable (Step.begin l none) h = λ r. ground arith
Step-Usable (Step.begin l (some wallet)) h = λ r. ground arith
Step-Usable (Step.connected hook before after wallet) h = λ r. (refl, refl)
Step-Usable (Step.failed hook before after wallet e) h = λ r. ground arith

-- However the wallets come and go, and the connections succeed or fail in whatever order, a hook that
-- says it is ready has a client and shows no error.
pub Reach-Usable : {l m : Life} → Usable l → Reach l m → Usable m
Reach-Usable h Reach.here = h
Reach-Usable h (Reach.next r step) = Step-Usable step (Reach-Usable h r)

-- Where the wallet changes while its connection is under way, the client that comes back last stays,
-- even that of the wallet before.
pub late_connection :
    (hook : CofheHook) (old new : String)
    → Reach
        (record { hook = hook; connecting = [] })
        (record {
          hook = record { client = some old; is_ready = true; error = none };
          connecting = [];
        })
unfolding begin_init end_init
late_connection hook old new =
    Reach.next
      (Reach.next
        (Reach.next (Reach.next Reach.here (Step.begin _ (some old))) (Step.begin _ (some new)))
        (Step.connected (record hook { is_ready = false; error = none }) [] (old ∷ []) new))
      (Step.connected (record { client = some new; is_ready = true; error = none }) [] [] old)

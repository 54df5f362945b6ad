-- ===== src/Frontend/Wrap/Steps.antt =====
-- The steps that a wrap shows when it has ended.
use blindference.Prelude.{
  ℕ, zero, suc, String, Bool, true, false, ◌≡◌, refl, subst, sym, ap, ◌∙◌, List, [], ◌∷◌, map,
  Option, none, is_some, Result, ok, err, if◌then◌else◌, truthy, decimal, ◌<+>◌, arith,
}
use blindference.Async.{Async, pure, try_catch, ◌>>=◌, ◌>>◌}
use blindference.Async.Triple.{Post, Triple, >>=-Triple}
use blindference.Frontend.Wrap.{
  StepState, pending, in_progress, done, error, WrapStep, Hook, Wallet, WrapServices, Escrow,
  update_step, mark_error, is_in_progress, initial_steps, refusal, call, set_step, set_success,
  look, redeem_escrow, fund_escrow, attempt, settle, after_guards, wrap,
}

abbrev pub statuses : List WrapStep → List StepState
statuses steps = map (λ s. s.status) steps

abbrev put : ℕ → StepState → List StepState → List StepState
put n s [] = []
put zero s (x ∷ xs) = s ∷ xs
put (suc n) s (x ∷ xs) = x ∷ put n s xs

statuses-update_step :
    (n : ℕ) (s : StepState) (tx : Option String) (steps : List WrapStep)
    → statuses (update_step n s tx steps) ≡ put n s (statuses steps)
unfolding update_step
statuses-update_step n s tx [] = refl
statuses-update_step zero s tx (x ∷ xs) = refl
statuses-update_step (suc n) s tx (x ∷ xs) = ap (λ l. x.status ∷ l) (statuses-update_step n s tx xs)

abbrev mark : List StepState → List StepState
mark [] = []
mark (s ∷ steps) = let rest = mark steps in if is_in_progress s then error ∷ steps else s ∷ rest

statuses-mark_error : (steps : List WrapStep) → statuses (mark_error steps) ≡ mark (statuses steps)
unfolding mark_error
statuses-mark_error [] = refl
statuses-mark_error (x ∷ xs) = ground (arith, statuses-mark_error xs)

-- The steps of a wrap that failed: the first ones done, at most one marked as failed, and no step
-- behind it begun. A read of the balance that fails marks none, before the first step or behind the
-- funding.
pub data Stopped : List StepState → Type 0 where
  before : Stopped (pending ∷ pending ∷ pending ∷ [])
  creating : Stopped (error ∷ pending ∷ pending ∷ [])
  funding : Stopped (done ∷ error ∷ pending ∷ [])
  funded : Stopped (done ∷ done ∷ pending ∷ [])
  redeeming : Stopped (done ∷ done ∷ error ∷ [])

module _ {W : Type 0} where
  abbrev At : List StepState → Hook W → Type 0
  At l hook = (statuses hook.steps ≡ l) × (hook.success ≡ none) × (hook.error ≡ none)

  abbrev Failed : String → Hook W → Type 0
  Failed e hook = Stopped (mark (statuses hook.steps)) × (hook.success ≡ none)

  abbrev Finished : Unit {0} → Hook W → Type 0
  Finished u hook =
      (statuses hook.steps ≡ done ∷ done ∷ done ∷ [])
      × (is_some hook.success ≡ true)
      × (hook.error ≡ none)

  call-At :
      {A : Type 0} (l : List StepState) (m : Async W A)
      → Stopped (mark l)
      → Triple (At l) (call m) (λ a. At l) Failed
  call-At l m stop hook (at, fresh, clean) =
      elim (m hook.world).0
        as (λ r. Post (λ a. At l) Failed r (record hook { world = (m hook.world).1 })) [
          | ok a ↦ (at, fresh, clean)
          | err e ↦ (subst (λ x. Stopped (mark x)) (sym at) stop, fresh)
        ]

  then_call :
      {A B : Type 0} (l : List StepState) (Q : B → Hook W → Type 0) (m : Async W A)
      (f : A → Async (Hook W) B)
      → Stopped (mark l)
      → ((a : A) → Triple (At l) (f a) Q Failed)
      → Triple (At l) (call m >>= f) Q Failed
  then_call l Q m f stop next =
      >>=-Triple (At l) (λ a. At l) Q Failed (call m) f (call-At l m stop) next

  then_set :
      {B : Type 0} (l : List StepState) (Q : B → Hook W → Type 0) (n : ℕ) (s : StepState)
      (tx : Option String) (f : Unit {0} → Async (Hook W) B)
      → ((u : Unit {0}) → Triple (At (put n s l)) (f u) Q Failed)
      → Triple (At l) (set_step n s tx >>= f) Q Failed
  unfolding ◌>>=◌
  then_set l Q n s tx f next hook (at, fresh, clean) =
      next tt (record hook { steps = update_step n s tx hook.steps })
        (statuses-update_step n s tx hook.steps ∙ ap (put n s) at, fresh, clean)

  looked :
      {A : Type 0} (m : Async W A) (w : W)
      → (try_catch (m >>= λ a. pure tt) (λ e. pure tt) w).0 ≡ ok tt
  unfolding try_catch ◌>>=◌ pure
  looked m w = ground arith

  -- A read for the log alone never fails.
  then_look :
      {A B : Type 0} (l : List StepState) (Q : B → Hook W → Type 0) (services : WrapServices W)
      (m : Async W A) (f : Unit {0} → Async (Hook W) B)
      → ((u : Unit {0}) → Triple (At l) (f u) Q Failed)
      → Triple (At l) (look services m >>= f) Q Failed
  then_look l Q services m f next =
      >>=-Triple (At l) (λ a. At l) Q Failed (look services m) f
        (λ hook at.
          subst
            (λ r.
              Post (λ a. At l) Failed r
                (record hook {
                  world = (try_catch (m >>= λ a. pure tt) (λ e. pure tt) hook.world).1;
                }))
            (sym (looked m hook.world)) at)
        next

  then_look_if :
      {A B : Type 0} (l : List StepState) (Q : B → Hook W → Type 0) (services : WrapServices W)
      (c : Bool) (m : Async W A) (f : Unit {0} → Async (Hook W) B)
      → ((u : Unit {0}) → Triple (At l) (f u) Q Failed)
      → Triple (At l) ((if c then look services m else pure tt) >>= f) Q Failed
  unfolding ◌>>=◌ pure
  then_look_if l Q services true m f next = then_look l Q services m f next
  then_look_if l Q services false m f next = next tt

  succeeded :
      (text : String) → Triple (At (done ∷ done ∷ done ∷ [])) (set_success text) Finished Failed
  succeeded text hook (at, fresh, clean) = (at, refl, clean)

  module _ (services : WrapServices W) (usdc_amount : ℕ) where
    redeem_escrow-Finished :
        (escrow : Escrow)
        → Triple
            (At (done ∷ done ∷ pending ∷ []))
            (redeem_escrow services usdc_amount escrow)
            Finished
            Failed
    unfolding redeem_escrow ◌>>◌
    redeem_escrow-Finished escrow =
        let text = decimal usdc_amount <+> " USDC wrapped to cUSDC successfully!" in
        then_set _ Finished 2 in_progress none _ λ _.
          then_call (done ∷ done ∷ in_progress ∷ []) Finished (services.redeem escrow) _
            Stopped.redeeming
            λ hash. then_set _ Finished 2 done hash _ λ _.
              then_look (done ∷ done ∷ done ∷ []) Finished services services.cusdc_balance
                (λ _. set_success text) λ _. succeeded text

    fund_escrow-Finished :
        (escrow : Escrow)
        → Triple
            (At (done ∷ pending ∷ pending ∷ []))
            (fund_escrow services usdc_amount escrow)
            Finished
            Failed
    unfolding fund_escrow ◌>>◌
    fund_escrow-Finished escrow = then_set _ Finished 1 in_progress none _ λ _.
        then_call (done ∷ in_progress ∷ pending ∷ []) Finished
          (services.fund escrow (services.usdc usdc_amount)) _ Stopped.funding
          λ hash. then_set _ Finished 1 done hash _ λ _.
            then_call (done ∷ done ∷ pending ∷ []) Finished services.usdc_balance _ Stopped.funded
              λ balance.
                then_look_if (done ∷ done ∷ pending ∷ []) Finished services (truthy hash)
                  (services.fund_receipt hash) (λ _. redeem_escrow services usdc_amount escrow)
                  λ _. redeem_escrow-Finished escrow

    attempt-Finished :
        Triple
          (At (pending ∷ pending ∷ pending ∷ []))
          (attempt services usdc_amount)
          Finished
          Failed
    unfolding attempt ◌>>◌
    attempt-Finished =
        then_call (pending ∷ pending ∷ pending ∷ []) Finished services.get_reineira_sdk _
          Stopped.before
          λ _.
            then_call (pending ∷ pending ∷ pending ∷ []) Finished services.usdc_balance _
              Stopped.before
              λ _.
                then_look (pending ∷ pending ∷ pending ∷ []) Finished services
                  services.cusdc_balance _
                  λ _. then_set _ Finished 0 in_progress none _ λ _.
                    then_call (in_progress ∷ pending ∷ pending ∷ []) Finished
                      (services.create (services.usdc usdc_amount)) _ Stopped.creating
                      λ escrow.
                        then_set _ Finished 0 done escrow.create_tx
                          (λ _. fund_escrow services usdc_amount escrow)
                          λ _. fund_escrow-Finished escrow

  -- How a wrap that its guards let pass ends.
  pub data Ended (hook : Hook W) : Type 0 where
    wrapped :
        statuses hook.steps ≡ done ∷ done ∷ done ∷ []
        → is_some hook.success ≡ true
        → hook.error ≡ none
        → Ended hook
    stopped :
        Stopped (statuses hook.steps) → hook.success ≡ none → is_some hook.error ≡ true → Ended hook

  settle-Ended :
      (r : Result (Unit {0})) (hook : Hook W) → Post Finished Failed r hook → Ended (settle r hook)
  unfolding settle
  settle-Ended (ok u) hook (at, made, clean) = Ended.wrapped at made clean
  settle-Ended (err e) hook (stop, fresh) =
      Ended.stopped (subst Stopped (sym (statuses-mark_error hook.steps)) stop) fresh refl

  settle_rests : (r : Result (Unit {0})) (hook : Hook W) → (settle r hook).loading ≡ false
  unfolding settle
  settle_rests (ok u) hook = refl
  settle_rests (err e) hook = refl

  -- A wrap that its guards let pass comes to rest in one of two ways, whatever the SDK and the chain
  -- do: all three steps are done, and the hook shows success and no error; or it shows an error
  -- and no success, and the steps are done up to the one that failed, with none begun behind it.
  pub wrap-Ended :
      (services : WrapServices W) (wallet : Wallet) (usdc_amount : ℕ) (hook : Hook W)
      → refusal wallet usdc_amount ≡ none
      → ((wrap services wallet usdc_amount hook).loading ≡ false)
        × Ended (wrap services wallet usdc_amount hook)
  unfolding wrap after_guards
  wrap-Ended services wallet usdc_amount hook h =
      let start : Hook W = record {
        world = hook.world;
        loading = true;
        error = none;
        success = none;
        steps = initial_steps;
      } in
      let out = attempt services usdc_amount start in
      rw h (
        settle_rests out.0 out.1,
        settle-Ended out.0 out.1 (
            attempt-Finished services usdc_amount start (unfold initial_steps in refl, refl, refl)),
      )

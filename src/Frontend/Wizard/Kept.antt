-- ===== src/Frontend/Wizard/Kept.antt =====
-- How the steps of the wizard's submission leave what the user has: the turns and the location.
use blindference.Prelude.{String, Bool, true, false, ◌≡◌, refl, none, Result, ok, err}
use blindference.Async.{Async, lift, throw_when}
use blindference.Async.Triple.{Post, Triple}
use blindference.Frontend.Wizard.{Wizard}
use blindference.Frontend.Wizard.Submit.{call}

-- The turns, in the page and in the storage, and the location are those of before.
pub data Kept {W : Type 0} (start page : Wizard W) : Type 0 where
  kept :
      page.message_history ≡ start.message_history
      → page.stored_history ≡ start.stored_history
      → page.location ≡ start.location
      → Kept start page

module _ {W : Type 0} (start : Wizard W) where
  abbrev pub Clean : Wizard W → Type 0
  Clean page =
      (page.message_history ≡ start.message_history)
      × (page.stored_history ≡ start.stored_history)
      × (page.location ≡ start.location)
      × (page.error ≡ none)

  abbrev pub Failed : String → Wizard W → Type 0
  Failed e page = Kept start page

  abbrev pub forget : (page : Wizard W) → Clean page → Kept start page
  forget page (turns, slot, there, clean) = Kept.kept turns slot there

  -- A page in which the action came back with that value, from a state where `P` held.
  abbrev pub After : {A : Type 0} → (W → Type 0) → Async W A → A → Wizard W → Type 0
  After P m a page = Clean page × ((w : W) × P w × (m w ≡ (ok a, page.world)))

  called :
      {A : Type 0} (P : W → Type 0) (m : Async W A) (r : Result A) (page : Wizard W) (w' : W)
      → m page.world ≡ (r, w')
      → P page.world
      → Clean page
      → Post (After P m) Failed r (record page { world = w' })
  called P m (ok a) page w' h p i = (i, (page.world, p, h))
  called P m (err e) page w' h p i = forget (record page { world = w' }) i

  pub call-After :
      {A : Type 0} (P : W → Type 0) (m : Async W A)
      → Triple (λ page. Clean page × P page.world) (call m) (After P m) Failed
  call-After P m page (i, p) = called P m (m page.world).0 page (m page.world).1 refl p i

  abbrev pub Anything : W → Type 0
  Anything w = Unit {0}

  pub call-Clean : {A : Type 0} (m : Async W A) → Triple Clean (call m) (After Anything m) Failed
  call-Clean m page i = call-After Anything m page (i, tt)

  pub lift-After :
      {A : Type 0} (P : W → Type 0) (r : Result A)
      → Triple
          (λ page. Clean page × P page.world)
          (lift r)
          (λ a page. Clean page × (P page.world × (r ≡ ok a)))
          Failed
  unfolding lift
  lift-After P (ok a) page (i, p) = (i, (p, refl))
  lift-After P (err e) page (i, p) = forget page i

  pub lift-Clean : {A : Type 0} (r : Result A) → Triple Clean (lift r) (λ a. Clean) Failed
  unfolding lift
  lift-Clean (ok a) page i = i
  lift-Clean (err e) page (turns, slot, there, clean) = Kept.kept turns slot there

  pub throw_when-passes :
      (P : Wizard W → Type 0) (test : Bool) (e : String)
      → ((page : Wizard W) → P page → Kept start page)
      → Triple P (throw_when test e) (λ u page. P page × (test ≡ false)) Failed
  unfolding throw_when
  throw_when-passes P true e keeps page p = keeps page p
  throw_when-passes P false e keeps page p = (p, refl)

-- ===== src/Frontend/StatusPage/Life.antt =====
-- The life of the status page: its effect runs again whenever the request, the client or the output
-- changes, and decryptions come back when they do.
use blindference.Prelude.{
  ℕ, suc, String, str_eq, eq_iff, Bool, true, false, ◌≡◌, refl, ap, Option, none, some, is_some,
  Result, ok, err, text_truthy, arith,
}
use blindference.Frontend.Status.Types.{DemoStatus}
use blindference.Frontend.StatusPage.{
  Decryption, Panel, forget_answer, enter_effect, leave_effect, begin_manual, end_manual, panel,
}

-- The page, whether its last run of the effect has a decryption under way, and how many manual ones
-- are.
pub record Life : Type 0 where
  pub page : Decryption
  pub running : Bool
  pub clicked : ℕ

pub data Step : Life → Life → Type 0 where
  -- The effect runs again; the run before is cancelled.
  rerun :
      (l : Life) (status : Option DemoStatus) (client_ready : Bool)
      → Step l (record {
        page = (enter_effect status client_ready l.page).1;
        running = is_some (enter_effect status client_ready l.page).0;
        clicked = l.clicked;
      })
  finish :
      (l : Life) (outcome : Result String)
      → l.running ≡ true
      → Step l (record {
        page = leave_effect false outcome l.page;
        running = false;
        clicked = l.clicked;
      })
  finish_cancelled :
      (l : Life) (outcome : Result String)
      → Step l (record l { page = leave_effect true outcome l.page })
  -- The button is disabled during a decryption.
  click :
      (l : Life) (status : Option DemoStatus) (client_ready : Bool)
      → l.page.is_decrypting ≡ false
      → (begin_manual status client_ready l.page).0 ≡ true
      → Step l
          (record l { page = (begin_manual status client_ready l.page).1; clicked = suc l.clicked })
  answer :
      (l : Life) (outcome : Result String) (n : ℕ)
      → l.clicked ≡ suc n
      → Step l (record l { page = end_manual outcome l.page; clicked = n })

pub data Reach (l : Life) : Life → Type 0 where
  here : Reach l l
  next : {m n : Life} → Reach l m → Step m n → Reach l n

-- The page says that the answer is decrypted exactly where it has one.
abbrev pub Consistent : Life → Type 0
Consistent l = l.page.decrypted ≡ is_some l.page.text_answer

enter_effect-Consistent :
    (status : Option DemoStatus) (client_ready : Bool) (page : Decryption)
    → page.decrypted ≡ is_some page.text_answer
    → let out = (enter_effect status client_ready page).1 in out.decrypted ≡ is_some out.text_answer
unfolding enter_effect forget_answer
enter_effect-Consistent status client_ready page h = ground arith

leave_effect-Consistent :
    (outcome : Result String) (page : Decryption)
    → page.decrypted ≡ is_some page.text_answer
    → let out = leave_effect false outcome page in out.decrypted ≡ is_some out.text_answer
unfolding leave_effect
leave_effect-Consistent (ok a) page h = refl
leave_effect-Consistent (err e) page h = h

begin_manual-Consistent :
    (status : Option DemoStatus) (client_ready : Bool) (page : Decryption)
    → page.decrypted ≡ is_some page.text_answer
    → let out = (begin_manual status client_ready page).1 in out.decrypted ≡ is_some out.text_answer
unfolding begin_manual
begin_manual-Consistent none client_ready page h = h
begin_manual-Consistent (some status) client_ready page h = ground arith

end_manual-Consistent :
    (outcome : Result String) (page : Decryption)
    → page.decrypted ≡ is_some page.text_answer
    → let out = end_manual outcome page in out.decrypted ≡ is_some out.text_answer
unfolding end_manual
end_manual-Consistent (ok a) page h = refl
end_manual-Consistent (err e) page h = h

Step-Consistent : {l m : Life} → Step l m → Consistent l → Consistent m
Step-Consistent (Step.rerun l status client_ready) h =
    enter_effect-Consistent status client_ready l.page h
Step-Consistent (Step.finish l outcome running) h = leave_effect-Consistent outcome l.page h
Step-Consistent (Step.finish_cancelled l outcome) h = unfold leave_effect in h
Step-Consistent (Step.click l status client_ready idle on) h =
    begin_manual-Consistent status client_ready l.page h
Step-Consistent (Step.answer l outcome n some_click) h = end_manual-Consistent outcome l.page h

Reach-Consistent : {l m : Life} → Consistent l → Reach l m → Consistent m
Reach-Consistent h Reach.here = h
Reach-Consistent h (Reach.next r step) = Step-Consistent step (Reach-Consistent h r)

empty_text : (s : String) → text_truthy s ≡ false → s ≡ ""
empty_text s h = let same : str_eq s "" ≡ true = ground arith in (eq_iff s "").0 same

waits_for_nothing :
    (page : Decryption) (answer : Option String)
    → page.text_answer ≡ answer
    → page.decrypted ≡ is_some page.text_answer
    → panel page ≡ Panel.waiting
    → answer ≡ some ""
unfolding panel
waits_for_nothing page none same h w = ground arith
waits_for_nothing page (some a) same h w = ap some (empty_text a (ground arith))

-- However the effect, its cancellations and the button interleave, the page is marked as decrypted
-- exactly while it has an answer; so the panel waits for an output key only where the answer is the
-- empty text.
pub Reach-panel :
    {l m : Life}
    → Consistent l
    → Reach l m
    → Consistent m × (panel m.page ≡ Panel.waiting → m.page.text_answer ≡ some "")
Reach-panel {l} {m} h r =
    let here = Reach-Consistent h r in (here, waits_for_nothing m.page m.page.text_answer refl here)

-- A run of the effect that finds the client gone cancels the run before, whose decryption then leaves
-- the page busy when it comes back, whatever it brings.
pub rerun_strands :
    (l : Life) (status : Option DemoStatus) (outcome : Result String)
    → l.page.is_decrypting ≡ true
    → let out = enter_effect status false l.page in
      (out.0 ≡ none) × ((leave_effect true outcome out.1).is_decrypting ≡ true)
unfolding enter_effect leave_effect forget_answer
rerun_strands l status outcome h = ground arith

-- A manual decryption that succeeds behind an automatic one that failed shows the old error in place of
-- its answer.
pub manual_hidden :
    (page : Decryption) (e a : String)
    → page.text_answer_error ≡ some e
    → text_truthy e ≡ true
    → panel (end_manual (ok a) page) ≡ Panel.failed e
unfolding panel end_manual
manual_hidden page e a h t = rw (h, t) refl

-- ===== src/Frontend/Wizard/Submitted.antt =====
-- How a submission of the wizard ends.
use blindference.Prelude.{ℕ, String, Bool, ◌≡◌, List, [], ◌∷◌, ◌++◌, none, some, ok, err, ◌<+>◌}
use blindference.Bytes.{Buffer}
use blindference.Crypto.{Gcm, WebCrypto}
use blindference.Async.{Async}
use blindference.Async.Triple.{Triple}
use blindference.Cofhe.{CofheClient}
use blindference.Frontend.Page.Submit.{Model, QuorumPreview}
use blindference.Frontend.Wizard.{
  WizardTurn, JobReply, WizardSubmission, WizardServices, Wizard, WizardWallet, WizardDraws,
  WizardSealed, no_nodes, request_id_of,
}
use blindference.Frontend.Wizard.Submit.{upload_to_icl, submission_of, attempt}
use blindference.Frontend.Wizard.Kept.{Kept, After}
use blindference.Frontend.Wizard.Sealing.{Sealing}

module _ {W : Type 0} (services : WizardServices W) (timeout_ms : ℕ) (fits : List WizardTurn → Bool)
    (wallet : WizardWallet) (model : Model) (start : Wizard W) (g : Gcm) (web : WebCrypto g)
    (random_bytes : ℕ → Buffer) (stringify : List WizardTurn → String → g.Text)
    (draws : WizardDraws) (client : CofheClient W) (prompt : String) where
  abbrev Sealed : WizardSealed → W → Type 0
  Sealed =
      Sealing services timeout_ms fits wallet model start g web random_bytes stringify draws client
        prompt

  -- The two ways in which a submission that throws nothing ends, each step from the state that the last
  -- one left; in either the key was stored and the sealed prompt uploaded.
  pub data Sent (page : Wizard W) : Type 0 where
    submitted :
        (s : WizardSealed) (preview : QuorumPreview) (cid id : String) (reply : JobReply)
        (stored uploaded : W)
        → Sealed s stored
        → s.preview ≡ some preview
        → upload_to_icl services timeout_ms s.packed stored ≡ (ok cid, uploaded)
        → services.submit_job
            (submission_of services timeout_ms fits wallet model start.message_history s prompt cid)
            uploaded
          ≡ (ok reply, page.world)
        → request_id_of reply ≡ some id
        → page.message_history
          ≡ start.message_history ++ record { role = "user"; content = prompt } ∷ []
        → page.location ≡ "/inference/" <+> id
        → page.error ≡ none
        → Sent page
    unserved :
        (s : WizardSealed) (cid : String) (stored : W)
        → Sealed s stored
        → s.preview ≡ none
        → upload_to_icl services timeout_ms s.packed stored ≡ (ok cid, page.world)
        → Kept start page
        → page.error ≡ some no_nodes
        → Sent page

  module _ (s : WizardSealed) (cid : String) where
    abbrev Uploaded : Wizard W → Type 0
    Uploaded = After start (Sealed s) (upload_to_icl services timeout_ms s.packed) cid

    abbrev Up : W → Type 0
    Up w = (v : W) × Sealed s v × (upload_to_icl services timeout_ms s.packed v ≡ (ok cid, w))

    abbrev body : WizardSubmission
    body = submission_of services timeout_ms fits wallet model start.message_history s prompt cid

  abbrev trying : Async (Wizard W) (Unit {0})
  trying =
      attempt services timeout_ms fits wallet model start.message_history g web random_bytes
        stringify draws client prompt

  -- How a submission that its guards let pass ends: it threw nothing, or the page shows what it threw.
  pub data Settled (page : Wizard W) : Type 0 where
    sent : Sent page → Settled page
    failed :
        (e : String) (stopped : Wizard W)
        → trying start ≡ (err e, stopped)
        → page.world ≡ stopped.world
        → page.error ≡ some e
        → Kept start page
        → Settled page

-- ===== src/Frontend/Wizard/Sealing.antt =====
-- What the sealing of a prompt in the wizard leaves.
use blindference.Prelude.{
  ℕ, String, Bool, arith, ◌≡◌, refl, sym, ap, subst, ◌∙◌, List, Option, none, some, Result, ok, err,
  ◌<+>◌,
}
use blindference.Bytes.{Buffer}
use blindference.Crypto.{Gcm, WebCrypto}
use blindference.Async.{Async, lift, pure, try_catch, continue, handle, ◌>>=◌, ◌>>◌}
use blindference.Async.Triple.{Triple, >>=-Triple}
use blindference.Cofhe.{CofheClient}
use blindference.Sdk.Agent.Jobs.{hex_text}
use blindference.Frontend.PromptKey.{EncryptedPromptKeyPayload, encrypt_prompt_key_for_text_request}
use blindference.Frontend.Page.Seal.{pack_payload, SealedText}
use blindference.Frontend.Page.Submit.{Model, QuorumPreview, nodes_of}
use blindference.Frontend.Wizard.{
  WizardTurn, WizardServices, Wizard, WizardWallet, WizardDraws, WizardSealed, encrypt_text,
}
use blindference.Frontend.Wizard.Submit.{
  with_timeout, encryption_late, call, set_step, seal_and_store,
}
use blindference.Frontend.Wizard.Kept.{Clean, Failed, After, call-After, lift-After}

module _ {W : Type 0} (services : WizardServices W) (timeout_ms : ℕ) (fits : List WizardTurn → Bool)
    (wallet : WizardWallet) (model : Model) (start : Wizard W) (g : Gcm) (web : WebCrypto g)
    (random_bytes : ℕ → Buffer) (stringify : List WizardTurn → String → g.Text)
    (draws : WizardDraws) (client : CofheClient W) (prompt : String) where
  -- What the service says of the quorum: the preview, or nothing where it threw.
  pub data Previewed : Option QuorumPreview → W → W → Type 0 where
    previewed :
        (preview : QuorumPreview) (w w' : W)
        → services.quorum_preview model.id w ≡ (ok preview, w')
        → Previewed (some preview) w w'
    missed :
        (e : String) (w w' : W)
        → services.quorum_preview model.id w ≡ (err e, w')
        → Previewed none w w'

  abbrev pub shut : Result SealedText
  shut = encrypt_text g web random_bytes (stringify start.message_history prompt) draws.key

  abbrev pub keys : Async W EncryptedPromptKeyPayload
  keys =
      with_timeout services.overdue (encrypt_prompt_key_for_text_request client draws.key) 120000
        encryption_late

  abbrev look : Async W (Option QuorumPreview)
  look = try_catch (services.quorum_preview model.id >>= λ p. pure (some p)) (λ e. pure none)

  abbrev pub keep_key : EncryptedPromptKeyPayload → Option QuorumPreview → Async W String
  keep_key payload preview = services.store_prompt_key (record {
    task_id = "0x" <+> hex_text draws.task_bytes;
    high = payload.high_input;
    low = payload.low_input;
    allowed_nodes = nodes_of wallet.address preview;
    store_address = wallet.store_address;
  })

  abbrev pub sealed_with :
      EncryptedPromptKeyPayload → Option QuorumPreview → SealedText → String → WizardSealed
  sealed_with payload preview sealed tx = record {
    task_id = "0x" <+> hex_text draws.task_bytes;
    packed = pack_payload sealed;
    keys = (payload.high, payload.low);
    key_inputs = (payload.high_input, payload.low_input);
    preview = preview;
    store_tx = tx;
  }

  -- The steps up to the upload, each from the state that the last one left: the conversation with the
  -- prompt is sealed with the drawn key, the halves of that key are encrypted, the quorum is asked for,
  -- and the halves are stored for its nodes, or for the user alone.
  pub data Sealing : WizardSealed → W → Type 0 where
    sealing :
        (sealed : SealedText) (payload : EncryptedPromptKeyPayload) (preview : Option QuorumPreview)
        (tx : String) (u v w : W)
        → shut ≡ ok sealed
        → keys start.world ≡ (ok payload, u)
        → Previewed preview u v
        → keep_key payload preview v ≡ (ok tx, w)
        → Sealing (sealed_with payload preview sealed tx) w

  seen_from :
      (r : Result QuorumPreview) (preview : Option QuorumPreview) (w v w' : W)
      → services.quorum_preview model.id w ≡ (r, v)
      → (let out = continue r (λ p. pure (some p)) v in handle out.0 (λ e. pure none) out.1)
        ≡ (ok preview, w')
      → Previewed preview w w'
  unfolding pure
  seen_from (ok p) preview w v w' h came =
      let same : some p ≡ preview = ground arith in
      subst (λ o. Previewed o w w') same
        (subst (λ x. Previewed (some p) w x) (ap (λ x. x.1) came) (Previewed.previewed p w v h))
  seen_from (err e) preview w v w' h came =
      let same : none ≡ preview = ground arith in
      subst (λ o. Previewed o w w') same
        (subst (λ x. Previewed none w x) (ap (λ x. x.1) came) (Previewed.missed e w v h))

  look-Previewed :
      (preview : Option QuorumPreview) (w w' : W)
      → look w ≡ (ok preview, w')
      → Previewed preview w w'
  unfolding try_catch ◌>>=◌
  look-Previewed preview w w' came =
      let seen = services.quorum_preview model.id w in
      seen_from seen.0 preview w seen.1 w' refl came

  abbrev pub Ready : WizardSealed → Wizard W → Type 0
  Ready s page = Clean start page × Sealing s page.world

  abbrev pub seal : Async (Wizard W) WizardSealed
  seal =
      seal_and_store services timeout_ms fits wallet model start.message_history g web random_bytes
        stringify draws client prompt

  -- What holds of the state behind each step.
  abbrev Shut : SealedText → W → Type 0
  Shut sealed w = (w ≡ start.world) × (shut ≡ ok sealed)

  abbrev Keyed : SealedText → EncryptedPromptKeyPayload → W → Type 0
  Keyed sealed payload w = (u : W) × Shut sealed u × (keys u ≡ (ok payload, w))

  abbrev Looked : SealedText → EncryptedPromptKeyPayload → Option QuorumPreview → W → Type 0
  Looked sealed payload preview w = (u : W) × Keyed sealed payload u × (look u ≡ (ok preview, w))

  key_kept :
      (sealed : SealedText) (payload : EncryptedPromptKeyPayload) (preview : Option QuorumPreview)
      (tx : String)
      → Triple
          (After start (Looked sealed payload preview) (keep_key payload preview) tx)
          (pure (sealed_with payload preview sealed tx))
          Ready
          (Failed start)
  unfolding pure
  key_kept sealed payload preview tx page
        (i, (v, (u, (t, (here, is_shut), keyed), looked), stored)) =
      (
        i,
        Sealing.sealing sealed payload preview tx u v page.world is_shut
            (ap keys (sym here) ∙ keyed) (look-Previewed preview u v looked) stored,
      )

  pub seal-Ready :
      Triple (λ page. Clean start page × (page.world ≡ start.world)) seal Ready (Failed start)
  unfolding seal_and_store ◌>>◌ pure
  seal-Ready =
      let C : Wizard W → Type 0 = λ page. Clean start page × (page.world ≡ start.world) in
      let F = Failed start in
      let S =
        λ (sealed : SealedText) (page : Wizard W). Clean start page × Shut sealed page.world in
      >>=-Triple C (λ u. C) Ready F (set_step (some "AES-256-GCM encrypting prompt...")) _
        (λ p i. i)
        λ u.
          >>=-Triple C S Ready F (lift shut) _ (lift-After start (λ w. w ≡ start.world) shut)
            λ sealed.
              >>=-Triple (S sealed) (λ u. S sealed) Ready F
                (set_step (some "CoFHE ZK proof generation (~10-30s)...")) _ (λ p i. i)
                λ u.
                  >>=-Triple (S sealed) (After start (Shut sealed) keys) Ready F (call keys) _
                    (call-After start (Shut sealed) keys)
                    λ payload.
                      let K = After start (Shut sealed) keys payload in
                      >>=-Triple K (λ u. K) Ready F
                        (set_step (some "Storing encrypted key on-chain...")) _ (λ p i. i)
                        λ u.
                          >>=-Triple K (After start (Keyed sealed payload) look) Ready F (call look)
                            _ (call-After start (Keyed sealed payload) look)
                            λ preview.
                              >>=-Triple (After start (Keyed sealed payload) look preview)
                                (After start (Looked sealed payload preview)
                                  (keep_key payload preview))
                                Ready F (call (keep_key payload preview))
                                (λ tx. pure (sealed_with payload preview sealed tx))
                                (call-After start (Looked sealed payload preview)
                                  (keep_key payload preview))
                                (key_kept sealed payload preview)

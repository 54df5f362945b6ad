-- ===== src/Sdk/Agent/Outcomes.antt =====
-- What an inference and a purchase of the agent come back with.
use blindference.Prelude.{
  ℕ, String, ◌≡◌, ◌⊎◌, refl, ap, true, false, ◌||◌, str_eq, Option, none, some, is_some, ok, err,
  truthy, find_first, arith, inl, inr, Bool-cases, List,
}
use blindference.Bytes.{Buffer}
use blindference.Crypto.{Gcm}
use blindference.Cofhe.{CofheClient}
use blindference.Async.{Async, pure, ◌>>=◌, ◌>>◌, throw_when}
use blindference.Async.Laws.{>>=-inv}
use blindference.Sdk.Agent.{Agent, Services, Config, JobData, Call, CreditPackage, on, init_cofhe}
use blindference.Sdk.Agent.Jobs.{
  InferOptions, InferenceResult, prepare_with, submit, open_output, conclude, finish, infer,
  is_over, is_completed, poll_job_status,
}
use blindference.Sdk.Agent.Polling.{poll_job_status-over}
use blindference.Sdk.Agent.Credits.{
  Currency, token_of, default_payment_wallet, deposit, purchase_package,
}

module _ {W : Type 0} (services : Services W) where
  -- A connection that fails leaves the client in place, so that the next `initCofhe` returns
  -- without connecting it.
  pub init_cofhe_keeps_unconnected :
      (client : CofheClient W) (e : String) (agent : Agent W) (w : W)
      → agent.cofhe_client ≡ none
      → services.create_cofhe_client ≡ some client
      → services.connect client agent.world ≡ (err e, w)
      → let failed : Agent W = record { cofhe_client = some client; world = w } in
        (init_cofhe services agent ≡ (err e, failed))
        × (init_cofhe services failed ≡ (ok tt, failed))
  unfolding init_cofhe
  init_cofhe_keeps_unconnected client e agent w fresh made failed = ground arith

  -- A package that is on sale is claimed only behind the transfer of its price: where the transfer
  -- throws, the claim is not made.
  pub purchase_unpaid :
      (id e : String) (packages : List CreditPackage) (p : CreditPackage) (w w' w'' : W)
      → services.get_packages w ≡ (ok packages, w')
      → find_first (λ p. str_eq p.id id) packages ≡ some p
      → deposit services p.price_blind_wei Currency.blind w' ≡ (err e, w'')
      → purchase_package services id w ≡ (err e, w'')
  unfolding purchase_package ◌>>=◌
  purchase_unpaid id e packages p w w' w'' h found unpaid = ground arith

  -- A deposit whose transfer is mined but reverted comes back with its hash all the same.
  pub deposit_reverted :
      (amount : ℕ) (currency : Currency) (hash : String) (w w' w'' : W)
      → services.write_contract (Call.transfer (token_of currency) default_payment_wallet amount) w
        ≡ (ok hash, w')
      → services.receipt_status hash w' ≡ (ok "reverted", w'')
      → deposit services amount currency w ≡ (ok hash, w'')
  unfolding deposit ◌>>=◌
  deposit_reverted amount currency hash w w' w'' sent mined = rw (sent, mined) refl

  on-inv :
      {A : Type 0} (call : Async W A) (a b : Agent W) (x : A)
      → on call a ≡ (ok x, b)
      → (w : W) × (call a.world ≡ (ok x, w))
  on-inv call a b x h =
      let thrown : (call a.world).0 ≡ ok x = ap (λ p. p.0) h in
      ((call a.world).1, ap (λ answer. (answer, (call a.world).1)) thrown)

  module _ (g : Gcm) (config : Config) (random_bytes : ℕ → Buffer) (draws : ℕ → ℕ)
      (env ipfs_env : Option String) where
    -- The answer comes with the result of a completed job, and with that of no other.
    abbrev pub Final : InferenceResult g.Text → Type 0
    Final r =
        ((r.status ≡ "COMPLETED") × (is_some r.output ≡ true) × (truthy r.output_cid ≡ true))
        ⊎ ((str_eq r.status "FAILED" || str_eq r.status "REFUNDED" ≡ true)
            × (is_some r.output ≡ false))

    open_output-Final :
        (job_id task_id : String) (job : JobData) (a a' : Agent W) (r : InferenceResult g.Text)
        → open_output services g config random_bytes draws env ipfs_env job_id task_id job a
          ≡ (ok r, a')
        → Final r
    unfolding open_output ◌>>=◌ throw_when
    open_output-Final job_id task_id job a a' r h = ground arith

    unanswered : String → String → JobData → InferenceResult g.Text
    unanswered job_id task_id job = record {
      job_id = job_id;
      task_id = task_id;
      status = job.status;
      output = none;
      output_cid = none;
      commitment_hash = none;
    }

    unanswered-Final :
        (job_id task_id : String) (job : JobData) (r : InferenceResult g.Text)
        → is_over job ≡ true
        → is_completed job ≡ false
        → ok (unanswered job_id task_id job) ≡ ok r
        → Final r
    unfolding unanswered
    unanswered-Final job_id task_id job r over other h = ground arith

    conclude-Final :
        (job_id task_id : String) (job : JobData) (a a' : Agent W) (r : InferenceResult g.Text)
        → is_over job ≡ true
        → conclude services g config random_bytes draws env ipfs_env job_id task_id job a
          ≡ (ok r, a')
        → Final r
    unfolding conclude pure
    conclude-Final job_id task_id job a a' r over h = elim (Bool-cases (is_completed job)) [
      | inl completed ↦ open_output-Final job_id task_id job a a' r (ground arith)
      | inr other ↦
          let ended : ok (unanswered job_id task_id job) ≡ ok r =
            unfold unanswered in ap (λ p. p.0) (rw other at h) in
          unanswered-Final job_id task_id job r over other ended
    ]

    finish-Final :
        (job_id task_id : String) (a a' : Agent W) (r : InferenceResult g.Text)
        → finish services g config random_bytes draws env ipfs_env job_id task_id a ≡ (ok r, a')
        → Final r
    unfolding finish
    finish-Final job_id task_id a a' r h =
        let (job, b, polled, concluded) =
          >>=-inv (on (poll_job_status services job_id 60))
            (conclude services g config random_bytes draws env ipfs_env job_id task_id) a r a' h in
        let (w, answer) = on-inv (poll_job_status services job_id 60) a b job polled in
        conclude-Final job_id task_id job b a' r
          (poll_job_status-over services job_id 60 a.world w job answer) concluded

    -- An inference that comes back is final: it is COMPLETED with an answer and its CID, or it has
    -- no answer and the status FAILED or
    -- REFUNDED, the second of which its declared type leaves out.
    pub infer-Final :
        (options : InferOptions g.Text) (a a' : Agent W) (r : InferenceResult g.Text)
        → infer services g config random_bytes draws env ipfs_env options a ≡ (ok r, a')
        → Final r
    unfolding infer ◌>>◌
    infer-Final options a a' r h =
        let (_, b, ready, h1) = >>=-inv (init_cofhe services) _ a r a' h in
        let (p, c, prepared, h2) =
          >>=-inv (prepare_with services g config random_bytes draws options) _ b r a' h1 in
        let (job_id, d, submitted, h3) =
          >>=-inv (on (submit services g config random_bytes draws options p)) _ c r a' h2 in
        finish-Final job_id p.task_id d a' r h3

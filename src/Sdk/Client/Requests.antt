-- ===== src/Sdk/Client/Requests.antt =====
-- The requests of client.ts: what ends their poll.
use blindference.Prelude.{
  ℕ, zero, Bool, or_default, suc, Option, inl, inr, String, ◌≡◌, ◌⊎◌, refl, true, false, not, some,
  none, ok, err, decimal, ◌<+>◌, truthy, arith,
}
use blindference.Async.{◌>>◌, throw_when}
use blindference.Async.Laws.{>>=-inv, throw_when_passed}
use blindference.Async.Poll.Rounds.{Pending, poll_until_times_out, poll_until_settled}
use blindference.Sdk.Client.{
  InferenceResult, StatusData, ClientServices, EncryptedPayload, first_truthy, result_of,
  status_round, poll_until_complete, submit_encrypted_inference, request_of,
}

-- A result of a request: one of the three final words, and a CID with none but COMPLETED.
abbrev pub Closed : InferenceResult → Type 0
Closed r =
    (r.status ≡ "COMPLETED")
    ⊎ (((r.status ≡ "REJECTED") ⊎ (r.status ≡ "FAILED")) × (r.output_cid ≡ none))

result_of-Closed :
    (request_id : String) (answer : StatusData) (r : InferenceResult)
    → result_of request_id answer ≡ some r
    → Closed r × (r.request_id ≡ request_id)
unfolding result_of
result_of-Closed request_id answer r h = ground arith

disputed_goes_on :
    (request_id : String) (answer : StatusData)
    → (answer.status ≡ "DISPUTED") ⊎ (answer.status ≡ "TIMEDOUT")
    → result_of request_id answer ≡ none
unfolding result_of
disputed_goes_on request_id answer (inl e) = rw e refl
disputed_goes_on request_id answer (inr e) = rw e refl

named_request :
    (request_id : Option String)
    → not (truthy request_id) ≡ false
    → truthy (some (or_default request_id "")) ≡ true
named_request none h = cc
named_request (some id) h = ground arith

module _ {W : Type 0} (services : ClientServices W) where
  unsettled :
      (request_id : String) (answer : StatusData) (w : W)
      → status_round services request_id w ≡ (ok answer, w)
      → result_of request_id answer ≡ none
      → (n : ℕ) → Pending (status_round services request_id) (result_of request_id) n w w
  unsettled request_id answer w h open_one zero = Pending.at_once w
  unsettled request_id answer w h open_one (suc n) =
      Pending.once_more n w w w answer h open_one (unsettled request_id answer w h open_one n)

  -- A request that stays DISPUTED or TIMEDOUT is polled to the last round, and ends in the poll's
  -- own timeout, though its status is known.
  pub poll_disputed_times_out :
      (request_id : String) (answer : StatusData) (n : ℕ) (w : W)
      → status_round services request_id w ≡ (ok answer, w)
      → (answer.status ≡ "DISPUTED") ⊎ (answer.status ≡ "TIMEDOUT")
      → poll_until_complete services request_id n w
        ≡ (err ("Polling timed out after " <+> decimal n <+> " attempts"), w)
  unfolding poll_until_complete
  poll_disputed_times_out request_id answer n w h open_one =
      poll_until_times_out (status_round services request_id) (result_of request_id)
        ("Polling timed out after " <+> decimal n <+> " attempts") n w w
        (unsettled request_id answer w h (disputed_goes_on request_id answer open_one) n)

  poll-Closed :
      (request_id : String) (n : ℕ) (w w' : W) (r : InferenceResult)
      → poll_until_complete services request_id n w ≡ (ok r, w')
      → Closed r × (r.request_id ≡ request_id)
  unfolding poll_until_complete
  poll-Closed request_id n w w' r h =
      let (answer, settled) =
        poll_until_settled (status_round services request_id) (result_of request_id)
          ("Polling timed out after " <+> decimal n <+> " attempts") n w w' r h in
      result_of-Closed request_id answer r settled

  -- A submission that comes back has one of the three final words, names a request, and carries a
  -- CID with none but COMPLETED.
  pub submit_encrypted_inference-Closed :
      (payload : EncryptedPayload) (insurance : Option Bool) (w w' : W) (r : InferenceResult)
      → submit_encrypted_inference services payload insurance w ≡ (ok r, w')
      → Closed r × (truthy (some r.request_id) ≡ true)
  unfolding submit_encrypted_inference ◌>>◌
  submit_encrypted_inference-Closed payload insurance w w' r h =
      let (preview, w1, previewed, h1) = >>=-inv (services.quorum_preview _) _ w r w' h in
      let (submitted, w2, answered, h2) =
        >>=-inv (services.submit_request (request_of services payload insurance preview)) _ w1 r w'
          h1 in
      let request_id = first_truthy submitted.request_id submitted.job_id in
      let (_, w3, passed, h3) =
        >>=-inv
          (throw_when (not (truthy request_id)) "ICL response did not include a request identifier")
          _ w2 r w' h2 in
      let (closed, named) = poll-Closed (or_default request_id "") 60 w3 w' r h3 in
      let there = named_request request_id (throw_when_passed _ _ w2 w3 _ passed) in
      (closed, rw named there)

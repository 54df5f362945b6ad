-- ===== src/Frontend/Vault/Stored.antt =====
-- What is on the chain when a store of the web client comes back.
use blindference.Prelude.{
  String, ◌≡◌, ◌≢◌, refl, subst, sym, ◌∙◌, List, [], ◌∷◌, Option, none, some, ok, err, length,
  arith,
}
use blindference.Async.{lift, ◌>>=◌}
use blindference.Async.Laws.{>>=-inv}
use blindference.Cofhe.{EncryptedItemInput}
use blindference.Frontend.Chain.{Call, Chain}
use blindference.Frontend.Chain.Fees.{Confirmed, send-Confirmed}
use blindference.Frontend.Vault.{
  to_contract_input, expects_four, account_of, safe_allowed_nodes, four_of,
  store_prompt_key_for_text_request, store_encrypted_risk_inputs_in_vault,
}

account_of-ok :
    {W : Type 0} (account : Option String) (user : String) (w w' : W)
    → lift (account_of account) w ≡ (ok user, w')
    → (account ≡ some user) × (w ≡ w')
unfolding lift
account_of-ok none user w w' h = ground arith
account_of-ok (some a) user w w' h = ground arith

four_of-ok :
    {A W : Type 0} (items : List A) (a b c d : A) (w w' : W)
    → lift (four_of items) w ≡ (ok (a, b, c, d), w')
    → (items ≡ a ∷ b ∷ c ∷ d ∷ []) × (w ≡ w')
unfolding lift four_of
four_of-ok [] a b c d w w' h = ground arith
four_of-ok (x ∷ []) a b c d w w' h = ground arith
four_of-ok (x ∷ y ∷ []) a b c d w w' h = ground arith
four_of-ok (x ∷ y ∷ z ∷ []) a b c d w w' h = ground arith
four_of-ok (x ∷ y ∷ z ∷ u ∷ []) a b c d w w' h = ground arith
four_of-ok (x ∷ y ∷ z ∷ u ∷ v ∷ more) a b c d w w' h = ground arith

four_of-err :
    {A : Type 0} (items : List A)
    → length items ≢ 4
    → four_of items ≡ err (expects_four (length items))
unfolding four_of
four_of-err [] h = refl
four_of-err (x ∷ []) h = refl
four_of-err (x ∷ y ∷ []) h = refl
four_of-err (x ∷ y ∷ z ∷ []) h = refl
four_of-err (x ∷ y ∷ z ∷ u ∷ []) h = absurd (h refl)
four_of-err (x ∷ y ∷ z ∷ u ∷ v ∷ more) h = refl

safe_allowed_nodes_some :
    (allowed : List String) (user : String)
    → (safe_allowed_nodes allowed user ≢ [])
      × (allowed ≡ [] → safe_allowed_nodes allowed user ≡ user ∷ [])
      × (allowed ≢ [] → safe_allowed_nodes allowed user ≡ allowed)
unfolding safe_allowed_nodes
safe_allowed_nodes_some [] user = ((λ h. cc), (λ h. refl), λ h. absurd (h refl))
safe_allowed_nodes_some (node ∷ nodes) user = ((λ h. cc), (λ h. cc), λ h. refl)

module _ {W : Type 0} (chain : Chain W) (account : Option String) where
  -- A prompt key that is stored went out in a confirmed transaction from a wallet with an account,
  -- and the nodes that it names are those that were allowed or, where none was, the user alone:
  -- never nobody.
  pub store_prompt_key-Confirmed :
      (task_id store hash : String) (high low : EncryptedItemInput) (allowed : List String)
      (w w' : W)
      → store_prompt_key_for_text_request chain account task_id high low allowed store w
        ≡ (ok hash, w')
      → (user : String) × (nodes : List String) × (account ≡ some user)
        × Confirmed chain
            (Call.store_key store task_id (to_contract_input high) (to_contract_input low) nodes)
            hash
            w
            w'
        × (nodes ≢ [])
        × (allowed ≡ [] → nodes ≡ user ∷ [])
        × (allowed ≢ [] → nodes ≡ allowed)
  unfolding store_prompt_key_for_text_request
  store_prompt_key-Confirmed task_id store hash high low allowed w w' h =
      let (user, v, found, sent) = >>=-inv (lift (account_of account)) _ w hash w' h in
      let (there, same) = account_of-ok account user w v found in
      let (some_node, alone, given) = safe_allowed_nodes_some allowed user in
      (
        user,
        safe_allowed_nodes allowed user,
        there,
        subst
            (λ x.
              Confirmed chain
                (Call.store_key store task_id (to_contract_input high) (to_contract_input low)
                  (safe_allowed_nodes allowed user))
                hash x w')
            (sym same) (send-Confirmed chain _ _ hash v w' sent),
        some_node,
        alone,
        given,
      )

  pub store_risk_inputs-Confirmed :
      (loan_id vault hash : String) (inputs : List EncryptedItemInput) (w w' : W)
      → store_encrypted_risk_inputs_in_vault chain account inputs loan_id vault w ≡ (ok hash, w')
      → (user : String) × (a b c d : EncryptedItemInput) × (account ≡ some user)
        × (inputs ≡ a ∷ b ∷ c ∷ d ∷ [])
        × Confirmed chain
            (Call.store_encrypted_inputs vault loan_id
              (to_contract_input a)
              (to_contract_input b)
              (to_contract_input c)
              (to_contract_input d))
            hash
            w
            w'
  unfolding store_encrypted_risk_inputs_in_vault
  store_risk_inputs-Confirmed loan_id vault hash inputs w w' h =
      let (user, v, found, h1) = >>=-inv (lift (account_of account)) _ w hash w' h in
      let (there, same) = account_of-ok account user w v found in
      let (items, v', four, sent) = >>=-inv (lift (four_of inputs)) _ v hash w' h1 in
      let (a, b, c, d) = items in
      let (inputs_four, same') = four_of-ok inputs a b c d v v' four in
      (
        user,
        a,
        b,
        c,
        d,
        there,
        inputs_four,
        subst
            (λ x.
              Confirmed chain
                (Call.store_encrypted_inputs vault loan_id (to_contract_input a)
                  (to_contract_input b) (to_contract_input c) (to_contract_input d))
                hash x w')
            (sym (same ∙ same')) (send-Confirmed chain _ _ hash v' w' sent),
      )

  -- Features that are stored went out in a confirmed transaction, four of them in their order, from a
  -- wallet with an account. Without an account, or with any other number of features, the store throws
  -- that reason and nothing is asked of the chain.
  pub store_risk_inputs_cases :
      (loan_id vault : String) (inputs : List EncryptedItemInput) (w : W)
      → let out = store_encrypted_risk_inputs_in_vault chain account inputs loan_id vault w in
        ((hash : String) (w' : W)
          → out ≡ (ok hash, w')
          → (user : String) × (a b c d : EncryptedItemInput) × (account ≡ some user)
            × (inputs ≡ a ∷ b ∷ c ∷ d ∷ [])
            × Confirmed chain
                (Call.store_encrypted_inputs vault loan_id
                  (to_contract_input a)
                  (to_contract_input b)
                  (to_contract_input c)
                  (to_contract_input d))
                hash
                w
                w')
        × (account ≡ none → out ≡ (err "Wallet client is missing the active account.", w))
        × ((user : String)
            → account ≡ some user
            → length inputs ≢ 4
            → out ≡ (err (expects_four (length inputs)), w))
  store_risk_inputs_cases loan_id vault inputs w = (
    λ hash w' h. store_risk_inputs-Confirmed loan_id vault hash inputs w w' h,
    λ missing. unfold store_encrypted_risk_inputs_in_vault lift ◌>>=◌ in rw missing refl,
    λ user there other.
        unfold store_encrypted_risk_inputs_in_vault lift ◌>>=◌ in
        rw (there, four_of-err inputs other) refl,
  )

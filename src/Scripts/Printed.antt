-- ===== src/Scripts/Printed.antt =====
-- What the scripts print.
use blindference.Prelude.{
  ℕ, String, ◌≡◌, refl, ap, subst, ◌∙◌, List, [], ◌∷◌, Result, ok, err, decimal, arith,
}
use blindference.Async.{Async, pure, lift, try_catch, ◌>>=◌, ◌>>◌}
use blindference.Async.Laws.{>>=-inv}
use blindference.Scripts.{required, or_else, Exit, exit_of, run_main}
use blindference.Scripts.Args.{EscrowArgs, DisputeArgs, escrow_args, dispute_args}
use blindference.Scripts.Escrow.{
  EscrowEnv, EscrowSdk, resolver_data_of, create_and_fund, create_escrow,
}
use blindference.Scripts.Coverage.{
  CoverageEnv, CoverageSdk, rpc_url, start_sdk, dispute_printed, file_dispute,
}

module _ {W : Type 0} (sdk : EscrowSdk W) where
  -- The id of an escrow that was created and funded with the amount, or nothing and exit code 1.
  pub data Printed : Exit → W → Type 0 where
    funded :
        (args : EscrowArgs) (policy : String) (id : ℕ) (v v' w : W)
        → sdk.create (sdk.usdc args.amount) args.owner args.resolver policy v ≡ (ok id, v')
        → sdk.fund id (sdk.usdc args.amount) v' ≡ (ok tt, w)
        → Printed (record { stdout = decimal id ∷ []; code = 0 }) w
    failed : (w : W) → Printed (record { stdout = []; code = 1 }) w

  created :
      (args : EscrowArgs) (policy : String) (lines : List String) (v w : W)
      → create_and_fund sdk args policy v ≡ (ok lines, w)
      → Printed (exit_of (ok lines)) w
  unfolding create_and_fund ◌>>◌ pure
  created args policy lines v w h =
      let (id, v', made, h1) =
        >>=-inv (sdk.create (sdk.usdc args.amount) args.owner args.resolver policy) _ v lines w h in
      let (u, v'', paid, h2) =
        >>=-inv (sdk.fund id (sdk.usdc args.amount)) (λ _. pure (decimal id ∷ [])) v' lines w h1 in
      let last : ◌≡◌ {A = Result (List String) × W} (ok (decimal id ∷ []), v'') (ok lines, w) =
        h2 in
      let printed : decimal id ∷ [] ≡ lines = ground arith in
      let same : v'' ≡ w = ap (λ x. x.1) last in
      subst (λ l. Printed (record { stdout = l; code = 0 }) w) printed
        (Printed.funded args policy id v v' w made (paid ∙ ap (λ (x : W). (ok tt, x)) same))

  shown_from :
      (number : String → ℕ) (env : EscrowEnv) (argv : List String) (w w' : W)
      (r : Result (List String))
      → create_escrow sdk number env argv w ≡ (r, w')
      → Printed (exit_of r) w'
  unfolding create_escrow ◌>>◌
  shown_from number env argv w w' (err e) h = Printed.failed w'
  shown_from number env argv w w' (ok lines) h =
      let (args, v1, parsed, h1) = >>=-inv (lift (escrow_args number argv)) _ w lines w' h in
      let (key, v2, keyed, h2) =
        >>=-inv
          (lift (required "Missing ICL_WALLET_PRIVATE_KEY env var" env.icl_wallet_private_key)) _ v1
          lines w' h1 in
      let (url, v3, placed, h3) =
        >>=-inv
          (lift (
            required "Missing ARBITRUM_SEPOLIA_RPC or ARBITRUM_SEPOLIA_RPC_URL env var"
              (or_else env.arbitrum_sepolia_rpc env.arbitrum_sepolia_rpc_url)))
          _ v2 lines w' h2 in
      let (u, v4, started, h4) =
        >>=-inv (sdk.create_sdk key url)
          (λ _. lift (resolver_data_of sdk.encode_bytes32 args) >>= λ policy.
            create_and_fund sdk args policy)
          v3 lines w' h3 in
      let (policy, v5, encoded, h5) =
        >>=-inv (lift (resolver_data_of sdk.encode_bytes32 args))
          (λ policy. create_and_fund sdk args policy) v4 lines w' h4 in
      created args policy lines v5 w' h5

  -- The script prints exactly one line, the id of an escrow that it has created and then funded with
  -- the same amount, and exits with 0; in any other case it prints nothing and exits with 1.
  pub create_escrow-Printed :
      (number : String → ℕ) (env : EscrowEnv) (argv : List String) (w : W)
      → let out = run_main (create_escrow sdk number env argv) w in Printed out.0 out.1
  unfolding run_main
  create_escrow-Printed number env argv w =
      let out = create_escrow sdk number env argv w in shown_from number env argv w out.1 out.0 refl

module _ {W : Type 0} (sdk : CoverageSdk W) (big_int : String → Result ℕ) (env : CoverageEnv) where
  warned : (m : Async W (Unit {0})) (v : W) → (try_catch m (λ e. pure tt) v).0 ≡ ok tt
  unfolding try_catch pure
  warned m v = ground arith

  dispute_printed_true :
      (args : DisputeArgs) (w : W) → (dispute_printed sdk big_int env args w).0 ≡ ok ("true" ∷ [])
  unfolding dispute_printed try_catch ◌>>=◌ pure
  dispute_printed_true args w = ground arith

  -- Once its arguments and its key are read and the SDK is there, the script says that the dispute was
  -- filed and exits with 0, whether the dispute went through or not.
  pub file_dispute_true :
      (argv : List String) (args : DisputeArgs) (key : String) (w v : W)
      → dispute_args big_int argv ≡ ok args
      → required "Missing DISPUTE_AUTHORITY_PRIVATE_KEY or PRIVATE_KEY env var"
          (or_else env.own_private_key env.private_key)
        ≡ ok key
      → sdk.create_sdk key (rpc_url sdk big_int env) w ≡ (ok tt, v)
      → (run_main (file_dispute sdk big_int env argv) w).0
        ≡ record { stdout = "true" ∷ []; code = 0 }
  unfolding run_main file_dispute start_sdk lift try_catch pure ◌>>=◌ ◌>>◌
  file_dispute_true argv args key w v parsed keyed started =
      rw (parsed, keyed, started, warned sdk.initialize v)
        (ap exit_of (dispute_printed_true args _))

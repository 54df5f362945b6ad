-- ===== src/Frontend/Tokens/Notified.antt =====
-- How a deposit tells the Payment Service of its transfer.
use blindference.Prelude.{
  ℕ, zero, suc, ◌+◌, String, ◌≡◌, refl, sym, ap, ◌∙◌, none, some, Result, ok, err, arith,
}
use blindference.Frontend.Tokens.{Wallet}
use blindference.Frontend.Tokens.Deposit.{
  Token, DepositStatus, Modal, Deposits, Addresses, Guard, guard_of, notify_loop, transfer, confirm,
  settle, after_guard, handle_deposit,
}

module _ {W : Type 0} (services : Deposits W) (addresses : Addresses) (hash : String) where
  -- So many notices, one behind the other and 3 seconds apart, that failed.
  pub data Missed : ℕ → W → W → Type 0 where
    at_once : (w : W) → Missed 0 w w
    once_more :
        (n : ℕ) (w w' w'' : W) (e : String)
        → services.notify_deposit hash w ≡ (err e, w')
        → Missed n (services.sleep 3000 w') w''
        → Missed (suc n) w w''

  again :
      (left : ℕ) (w w' : W) (e : String)
      → services.notify_deposit hash w ≡ (err e, w')
      → notify_loop services addresses hash (suc (suc left)) w
        ≡ notify_loop services addresses hash (suc left) (services.sleep 3000 w')
  unfolding notify_loop
  again left w w' e h = rw h refl

  told :
      (left : ℕ) (w w' : W) (u : Unit {0})
      → services.notify_deposit hash w ≡ (ok u, w')
      → notify_loop services addresses hash (suc left) w ≡ (ok tt, w')
  unfolding notify_loop
  told zero w w' u h = h
  told (suc left) w w' u h = rw h refl

  wait_through :
      (left total : ℕ) {n : ℕ} {w w' : W}
      → Missed n w w'
      → total ≡ n + left
      → notify_loop services addresses hash (suc total) w
        ≡ notify_loop services addresses hash (suc left) w'
  wait_through left total (Missed.at_once w) e =
      let same : total ≡ left = omega arith in rw same refl
  wait_through left total (Missed.once_more n w w' w'' e' h more) e =
      let same : total ≡ suc (n + left) = omega arith in
      rw same (again (n + left) w w' e' h ∙ wait_through left (n + left) more refl)

  pub notify_loop_tells :
      (n left : ℕ) (w w' w'' : W) (u : Unit {0})
      → Missed n w w'
      → services.notify_deposit hash w' ≡ (ok u, w'')
      → notify_loop services addresses hash (suc (n + left)) w ≡ (ok tt, w'')
  notify_loop_tells n left w w' w'' u missed h =
      wait_through left (n + left) missed refl ∙ told left w' w'' u h

  last : (w : W) → notify_loop services addresses hash 1 w ≡ services.notify_deposit hash w
  unfolding notify_loop
  last w = refl

  pub notify_loop_gives_up :
      (n : ℕ) (w w' w'' : W) (e : String)
      → Missed n w w'
      → services.notify_deposit hash w' ≡ (err e, w'')
      → notify_loop services addresses hash (suc n) w ≡ (err e, w'')
  notify_loop_gives_up n w w' w'' e missed h = wait_through 0 n missed (omega arith) ∙ (last w' ∙ h)

  module _ (wallet : Wallet) (amount : String) (modal : Modal W) (paid : W)
      (passed : guard_of addresses wallet Token.blind ≡ Guard.passed)
      (paying : transfer services addresses wallet amount modal.world ≡ (ok hash, paid)) where
    deposited :
        (r : Result (Unit {0})) (w : W)
        → notify_loop services addresses hash 5 (services.sleep 7000 paid) ≡ (r, w)
        → handle_deposit services addresses wallet Token.blind amount modal
          ≡ settle services addresses r
              (record { world = w; status = DepositStatus.sending; error = none })
    unfolding handle_deposit after_guard confirm
    deposited r w h = rw (passed, paying, h) refl

    -- A deposit whose transfer is signed is done as soon as one of five notices gets through: 7
    -- seconds behind the signature the first, and 3 seconds behind each that failed the next. The
    -- service is not told again behind that.
    pub handle_deposit_told :
        (n left : ℕ) (w w' : W)
        → n + left ≡ 4
        → Missed n (services.sleep 7000 paid) w
        → services.notify_deposit hash w ≡ (ok tt, w')
        → handle_deposit services addresses wallet Token.blind amount modal
          ≡ record { world = w'; status = DepositStatus.done; error = none }
    handle_deposit_told n left w w' five missed h = deposited (ok tt) w' (
        ap (λ k. notify_loop services addresses hash (suc k) (services.sleep 7000 paid)) (sym five)
        ∙ notify_loop_tells n left (services.sleep 7000 paid) w w' tt missed h)

    -- Where all five notices fail, the deposit shows the last one's error, although its transfer
    -- was signed.
    pub handle_deposit_untold :
        (w w' : W) (e : String)
        → Missed 4 (services.sleep 7000 paid) w
        → services.notify_deposit hash w ≡ (err e, w')
        → handle_deposit services addresses wallet Token.blind amount modal
          ≡ record { world = w'; status = DepositStatus.error; error = some e }
    handle_deposit_untold w w' e missed h =
        deposited (err e) w' (notify_loop_gives_up 4 (services.sleep 7000 paid) w w' e missed h)

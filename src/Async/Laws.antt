-- ===== src/Async/Laws.antt =====
-- How actions run, in the parts of a `do` block that went one way or the other.
use blindference.Prelude.{String, Bool, true, false, not, Result, ok, err, ◌≡◌, refl, arith}
use blindference.Async.{Async, pure, throw_when, continue, try_catch, ◌>>=◌, ◌>>◌}

module _ {ℓ} {W A B : Type ℓ} (m : Async W A) (f : A → Async W B) (w w' : W) where
  pub >>=-ok : (a : A) → m w ≡ (ok a, w') → (m >>= f) w ≡ f a w'
  unfolding ◌>>=◌
  >>=-ok a h = rw h

  pub >>=-err : (e : String) → m w ≡ (err e, w') → (m >>= f) w ≡ (err e, w')
  unfolding ◌>>=◌
  >>=-err e h = rw h

module _ {ℓ} {W A : Type ℓ} (m : Async W A) (h : String → Async W A) (w w' : W) where
  pub try_catch-ok : (a : A) → m w ≡ (ok a, w') → try_catch m h w ≡ (ok a, w')
  unfolding try_catch
  try_catch-ok a p = rw p

  pub try_catch-err : (e : String) → m w ≡ (err e, w') → try_catch m h w ≡ h e w'
  unfolding try_catch
  try_catch-err e p = rw p

-- What comes back from a chain came from its last action.
module _ {ℓ} {W A B : Type ℓ} (m : Async W A) (f : A → Async W B) (w : W) where
  inv_from :
      (b : B) (w' w'' : W) (r : Result A)
      → m w ≡ (r, w')
      → continue r f w' ≡ (ok b, w'')
      → (a : A) × (v : W) × (m w ≡ (ok a, v)) × (f a v ≡ (ok b, w''))
  inv_from b w' w'' (ok a) h h' = (a, w', h, h')
  inv_from b w' w'' (err e) h h' = cc

  pub >>=-inv :
      (b : B) (w'' : W)
      → (m >>= f) w ≡ (ok b, w'')
      → (a : A) × (w' : W) × (m w ≡ (ok a, w')) × (f a w' ≡ (ok b, w''))
  unfolding ◌>>=◌
  >>=-inv b w'' h = inv_from b (m w).1 w'' (m w).0 refl h

pub >>-inv :
    {W A B : Type 0} (m : Async W A) (n : Async W B) (w : W) (b : B) (w'' : W)
    → (m >> n) w ≡ (ok b, w'')
    → (a : A) × (w' : W) × (m w ≡ (ok a, w')) × (n w' ≡ (ok b, w''))
unfolding ◌>>◌
>>-inv m n w b w'' h = >>=-inv m (λ _. n) w b w'' h

-- A guard that lets pass.
pub throw_when_passed :
    {W : Type 0} (test : Bool) (e : String) (w w' : W) (u : Unit {0})
    → throw_when test e w ≡ (ok u, w')
    → test ≡ false
unfolding throw_when
throw_when_passed test e w w' u h = ground arith

-- A guard in front of a value: where the value comes back, the test held.
pub guarded :
    {W A : Type 0} (test : Bool) (e : String) (x y : A) (w w' : W)
    → (throw_when (not test) e >> pure x) w ≡ (ok y, w')
    → (test ≡ true) × (x ≡ y) × (w ≡ w')
unfolding throw_when pure ◌>>◌
guarded true e x y w w' h = (refl, ground arith, ground arith)
guarded false e x y w w' h = ground arith

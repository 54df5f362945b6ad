-- ===== src/Async.antt =====
-- `async` functions: an action on a state that may throw. What was done before a throw stays done,
-- so the state comes back beside the error. The state is a type parameter: a client of other
-- services lets it stand for whatever those services keep.
pub mod Laws
pub mod Poll
pub mod Triple
use blindference.Prelude.{String, Result, ok, err, Bool, true, false, if◌then◌else◌}

abbrev pub Async {ℓ} : Type ℓ → Type ℓ → Type ℓ
Async W A = W → Result A × W

module _ {ℓ} {W A : Type ℓ} where
  unfoldable pub pure : A → Async W A
  pure a w = (ok a, w)

  -- `throw new Error(message)`
  unfoldable pub throw : String → Async W A
  throw e w = (err e, w)

  unfoldable pub lift : Result A → Async W A
  lift r w = (r, w)

  -- the continuation of `catch`
  abbrev pub handle : Result A → (String → Async W A) → Async W A
  handle (ok a) h w = (ok a, w)
  handle (err e) h w = h e w

  -- `try { m } catch (e) { h(e) }`
  unfoldable pub try_catch : Async W A → (String → Async W A) → Async W A
  try_catch m h w = let (r, w') = m w in handle r h w'

module _ {ℓ} {W A B : Type ℓ} where
  abbrev pub continue : Result A → (A → Async W B) → Async W B
  continue (ok a) f w = f a w
  continue (err e) f w = (err e, w)

  infixl 10 ◌>>=◌ ◌>>◌
  unfoldable pub ◌>>=◌ : Async W A → (A → Async W B) → Async W B
  unfolding pure throw lift try_catch
  ◌>>=◌ m f w = let (r, w') = m w in continue r f w'

  unfoldable pub ◌>>◌ : Async W A → Async W B → Async W B
  unfolding ◌>>=◌
  m >> n = m >>= λ _. n

module _ {W : Type 0} where
  -- `if (test) throw new Error(message)`
  unfoldable pub throw_when : Bool → String → Async W (Unit {0})
  throw_when test e w = (if test then err e else ok tt, w)

-- ===== src/Async/Triple.antt =====
-- What an action that starts where `P` holds leaves behind: `Q` where it comes back, `E` where it
-- throws.
use blindference.Prelude.{String, Result, ok, err}
use blindference.Async.{Async, continue, ◌>>=◌}

module _ {W A : Type 0} where
  abbrev pub Post : (A → W → Type 0) → (String → W → Type 0) → Result A → W → Type 0
  Post Q E (ok a) w = Q a w
  Post Q E (err e) w = E e w

  abbrev pub Triple : (W → Type 0) → Async W A → (A → W → Type 0) → (String → W → Type 0) → Type 0
  Triple P m Q E = (w : W) → P w → Post Q E (m w).0 (m w).1

module _ {W A B : Type 0} (R : A → W → Type 0) (Q : B → W → Type 0) (E : String → W → Type 0) where
  continue-Post :
      (r : Result A) (f : A → Async W B) (w : W)
      → Post R E r w
      → ((a : A) → Triple (R a) (f a) Q E)
      → Post Q E (continue r f w).0 (continue r f w).1
  continue-Post (ok a) f w h next = next a w h
  continue-Post (err e) f w h next = h

module _ {W A B : Type 0} (P : W → Type 0) (R : A → W → Type 0) (Q : B → W → Type 0)
    (E : String → W → Type 0) where
  -- A chain: what the first action leaves is where the second starts.
  pub >>=-Triple :
      (m : Async W A) (f : A → Async W B)
      → Triple P m R E
      → ((a : A) → Triple (R a) (f a) Q E)
      → Triple P (m >>= f) Q E
  unfolding ◌>>=◌
  >>=-Triple m f first next w p = continue-Post R Q E (m w).0 f (m w).1 (first w p) next

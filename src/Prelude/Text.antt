-- ===== src/Prelude/Text.antt =====
-- Operations on texts that the program uses.
use Prim.Native.Nat.{ℕ}
use Prim.Native.Char.{Char, code}
use Prim.Native.String
use Prim.Native.String.{String}
use mathlib.Core.Path.{◌≡◌, refl}
use mathlib.Core.Bool.{Bool, true, false, ◌||◌}
use mathlib.Core.List.{List, [], ◌∷◌}
use text.Mathlib.Text.{find?}
use blindference.Prelude.Tests.{◌==◌, if◌then◌else◌, is_some}

-- `text.length`, of a text within the basic plane.
abbrev pub text_length : String → ℕ
text_length s = String.count s

-- `text.includes(part)`
unfoldable pub includes : String → String → Bool
includes text part = is_some (find? text part)

-- `list.some(p)`
abbrev pub any_of {ℓ} : {A : Type ℓ} → (A → Bool) → List A → Bool
any_of p [] = false
any_of p (x ∷ xs) = p x || any_of p xs

-- `url.replace(/\/$/, '')`
unfoldable pub strip_slash : String → String
strip_slash String.[] = ""
strip_slash (String.◌∷◌ c String.[]) = if code c == b'/' then "" else String.◌∷◌ c String.[]
strip_slash (String.◌∷◌ c (String.◌∷◌ d s)) = String.◌∷◌ c (strip_slash (String.◌∷◌ d s))

-- `texts.join(separator)`
unfoldable pub join : String → List String → String
join separator [] = ""
join separator (s ∷ []) = s
join separator (s ∷ t ∷ more) = String.◌++◌ s (String.◌++◌ separator (join separator (t ∷ more)))

strip_slash_runs : strip_slash "https://ipfs.io/ipfs/" ≡ "https://ipfs.io/ipfs"
unfolding strip_slash
strip_slash_runs = refl

includes_runs : includes "TypeError: Failed to fetch" "Failed to fetch" ≡ true
unfolding includes
includes_runs = refl

lower_from : String → String → Char → Char
lower_from (String.◌∷◌ u us) (String.◌∷◌ l ls) c =
    if code u == code c then l else lower_from us ls c
lower_from _ _ c = c

-- `text.toLowerCase()`, of an ASCII text such as an address.
unfoldable pub to_lower_case : String → String
unfolding lower_from
to_lower_case String.[] = ""
to_lower_case (String.◌∷◌ c s) =
    String.◌∷◌ (lower_from "ABCDEFGHIJKLMNOPQRSTUVWXYZ" "abcdefghijklmnopqrstuvwxyz" c)
      (to_lower_case s)

to_lower_case_runs : to_lower_case "0xAbC9" ≡ "0xabc9"
unfolding to_lower_case
to_lower_case_runs = refl

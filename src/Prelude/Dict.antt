-- ===== src/Prelude/Dict.antt =====
-- Go's `map[string]string` as an association list; the nil map is the empty list.
use Prim.Native.String.{String}
use mathlib.Core.Path.{◌≡◌, refl}
use mathlib.Core.Option.{Option, none, some}
use mathlib.Core.List.{List, [], ◌∷◌}
use native.Mathlib.Omega.{arith}
use text.Mathlib.Text.{◌==◌}
use text.Mathlib.TextEquality.{eq_iff}
use k8s_ops_platform.Prelude.Tests.{if◌then◌else◌}

-- The pairs have distinct keys when they come from `insert`, which overwrites in place.
module _ {ℓ} {Value : Type ℓ} where
  unfoldable pub lookup : String → List (String × Value) → Option Value
  lookup wanted [] = none
  lookup wanted (entry ∷ rest) = if entry.0 == wanted then some entry.1 else lookup wanted rest

  unfoldable pub insert : String → Value → List (String × Value) → List (String × Value)
  insert key value [] = (key, value) ∷ []
  insert key value (entry ∷ rest) =
      if entry.0 == key then (key, value) ∷ rest else entry ∷ insert key value rest

  -- A lookup after an insertion finds the new value at its key and the old one elsewhere.
  pub lookup-insert :
      (key wanted : String) (value : Value) (dict : List (String × Value))
      → lookup wanted (insert key value dict)
        ≡ (if key == wanted then some value else lookup wanted dict)
  unfolding lookup insert
  lookup-insert key wanted value [] = refl
  lookup-insert key wanted value (entry ∷ rest) = ground (
    arith,
    lookup-insert key wanted value rest,
    eq_iff entry.0 wanted,
    eq_iff entry.0 key,
    eq_iff key wanted,
  )

-- `m[k]` of a map of texts: the zero value "" when the key is missing.
abbrev pub get_or_empty : Option String → String
get_or_empty none = ""
get_or_empty (some v) = v

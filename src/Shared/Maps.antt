-- ===== src/Shared/Maps.antt =====
-- JavaScript's `Map` and `Set` with text keys, in insertion order.
use capital_os.Shared.Tests.{if◌then◌else◌}
use capital_os.Shared.Strings.{Text, text_eq, text_eq_iff}
use mathlib.Core.Path.{◌≡◌}
use mathlib.Core.Bool.{Bool, false, ◌||◌}
use mathlib.Core.Option.{Option, none, some}
use mathlib.Core.List.{List, [], ◌∷◌, ◌++◌}
use native.Mathlib.Omega.{arith}

-- `set.has(key)`
abbrev pub has : Text → List Text → Bool
has k [] = false
has k (j ∷ s) = text_eq k j || has k s

-- `set.add(key)`
abbrev pub add : Text → List Text → List Text
add k s = if has k s then s else s ++ k ∷ []

-- `new Set(list)`, added one after the other to a set.
unfoldable pub add_all : List Text → List Text → List Text
add_all s [] = s
add_all s (k ∷ ks) = add_all (add k s) ks

abbrev pub distinct : List Text → List Text
distinct ks = add_all [] ks

module _ {ℓ} {V : Type ℓ} where
  -- `map.get(key)`
  unfoldable pub get : Text → List (Text × V) → Option V
  get k [] = none
  get k ((j, v) ∷ m) = if text_eq k j then some v else get k m

  -- `map.set(key, value)`
  unfoldable pub put : Text → V → List (Text × V) → List (Text × V)
  put k v [] = (k, v) ∷ []
  put k v ((j, w) ∷ m) = if text_eq k j then (j, v) ∷ m else (j, w) ∷ put k v m

  pub get-put_self : (k : Text) (v : V) (m : List (Text × V)) → get k (put k v m) ≡ some v
  unfolding get put
  get-put_self k v [] = ground (arith, text_eq_iff k k)
  get-put_self k v ((j, w) ∷ m) =
      ground (arith, text_eq_iff k j, text_eq_iff k k, get-put_self k v m)

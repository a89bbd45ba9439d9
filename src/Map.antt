-- ===== src/Map.antt =====
-- `HashMap<String, V>` and `HashSet<String>` as lists without repeated keys, in the order of
-- insertion. Where the program walks a map, the order of the walk is a parameter of its caller.
use dqrvcs.Prelude.{List, [], ◌∷◌, ◌++◌, ◌≡◌, refl, arith, if◌then◌else◌, Option, none, some}
use dqrvcs.Text.{Text, eqb, eqb_iff, contains}

abbrev pub Map {ℓ} : Type ℓ → Type ℓ
Map V = List (Text × V)

module _ {ℓ} {V : Type ℓ} where
  -- `get`
  unfoldable pub lookup : Text → Map V → Option V
  lookup k [] = none
  lookup k ((j, v) ∷ m) = if eqb j k then some v else lookup k m

  -- `insert`
  unfoldable pub insert : Text → V → Map V → Map V
  insert k v [] = (k, v) ∷ []
  insert k v ((j, w) ∷ m) = if eqb j k then (k, v) ∷ m else (j, w) ∷ insert k v m

  unfoldable pub keys : Map V → List Text
  keys [] = []
  keys ((k, v) ∷ m) = k ∷ keys m

  pub lookup-insert :
      (k j : Text) (v : V) (m : Map V)
      → lookup j (insert k v m) ≡ (if eqb k j then some v else lookup j m)
  unfolding lookup insert
  lookup-insert k j v [] = refl
  lookup-insert k j v ((i, w) ∷ m) =
      ground (arith, eqb_iff k j, eqb_iff i k, eqb_iff i j, lookup-insert k j v m)

  -- No key twice.
  abbrev pub IsUnique : Map V → Type ℓ
  IsUnique [] = Unit
  IsUnique ((k, v) ∷ m) = (lookup k m ≡ none) × IsUnique m

  pub insert-IsUnique : (k : Text) (v : V) (m : Map V) → IsUnique m → IsUnique (insert k v m)
  unfolding insert lookup
  insert-IsUnique k v [] u = (refl, tt)
  insert-IsUnique k v ((j, w) ∷ m) (fresh, u) =
      ground (arith, eqb_iff j k, eqb_iff k j, insert-IsUnique k v m u, lookup-insert k j v m)

-- `HashSet::insert`
unfoldable pub set_insert : Text → List Text → List Text
unfolding contains
set_insert k s = if contains s k then s else s ++ k ∷ []

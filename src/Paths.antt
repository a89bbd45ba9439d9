-- ===== src/Paths.antt =====
-- `std::path` on Unix, as far as gui/src/main.rs uses it: a path is its text.
use dqrvcs.Prelude.{
  Option, none, some, Bool, true, false, not, ◌&&◌, ◌||◌, List, [], ◌∷◌, ◌++◌, ◌==◌, if◌then◌else◌,
  is_empty, retain,
}
use dqrvcs.Text.{Text, codes, eqb, starts_with}
use dqrvcs.Text.Split.{split_by}

abbrev pub FilePath : Type 0
FilePath = Text

unfoldable pub is_absolute : FilePath → Bool
is_absolute path = starts_with path (codes "/")

abbrev pub ends_with_slash : FilePath → Bool
ends_with_slash [] = true
ends_with_slash (c ∷ []) = c == b'/'
ends_with_slash (c ∷ d ∷ s) = ends_with_slash (d ∷ s)

-- `Path::join`: an absolute second path replaces the first.
unfoldable pub join_path : FilePath → FilePath → FilePath
unfolding is_absolute
join_path base path =
    if is_absolute path
    then path
    else if ends_with_slash base
    then base ++ path
    else base ++ b'/' ∷ path

-- `components()`: the root, a leading ".", and the names between slashes.
unfoldable pub components : FilePath → List Text
components path =
    let names =
      retain (λ t. not (is_empty t) && not (eqb t (codes "."))) (split_by (λ c. c == b'/') path) in
    if is_absolute path
    then codes "/" ∷ names
    else if starts_with path (codes "./") || eqb path (codes ".")
    then codes "." ∷ names
    else names

unfoldable pub is_component_prefix : List Text → List Text → Bool
is_component_prefix [] ts = true
is_component_prefix (s ∷ ss) [] = false
is_component_prefix (s ∷ ss) (t ∷ ts) = eqb s t && is_component_prefix ss ts

-- `path.starts_with(base)`, which compares whole components.
unfoldable pub path_starts_with : FilePath → FilePath → Bool
path_starts_with path base = is_component_prefix (components base) (components path)

-- The last of some components, and the others.
abbrev pub last_component : List Text → Option Text
last_component [] = none
last_component (c ∷ []) = some c
last_component (c ∷ d ∷ cs) = last_component (d ∷ cs)

-- `file_name()`: the last component, unless it is the root, "." or "..".
unfoldable pub file_name : FilePath → Option Text
file_name path = elim (last_component (components path)) [
  | none ↦ none
  | some c ↦ if eqb c (codes "/") || eqb c (codes ".") || eqb c (codes "..") then none else some c
]

-- The text in front of the last "/", if there is one.
unfoldable pub before_last_slash : FilePath → Option FilePath
before_last_slash [] = none
before_last_slash (c ∷ cs) = elim (before_last_slash cs) [
  | some t ↦ some (c ∷ t)
  | none ↦ if c == b'/' then some [] else none
]

-- `parent()` of a path with no "/" at its end and no "." or empty component, as `current_dir`
-- returns it.
unfoldable pub parent : FilePath → Option FilePath
parent path =
    if is_empty path || eqb path (codes "/") then none else elim (before_last_slash path) [
      | none ↦ some []
      | some [] ↦ some (codes "/")
      | some (c ∷ cs) ↦ some (c ∷ cs)
    ]

-- ===== src/FilePath.antt =====
-- `std::path::Path` on paths of normal components, as the program builds them: an absolute path
-- is `/` and its components, a relative one its components alone. The deepest component comes
-- first, so that the parent is the tail.
pub mod Laws
use coding_agent_sandbox.Common.{
  ℕ, Bool, false, not, Option, none, some, List, [], ◌∷◌, ◌++◌, map, length, Eq, ◌==◌, bool_eq,
  nat_eq, list_eq, if◌then◌else◌,
}
use coding_agent_sandbox.Common.Dict.{is_some}
use mathlib.Core.Option
use native.Mathlib.Decide.{ℕ_discrete}

-- An `OsStr` file name: its bytes.
abbrev pub Name : Type 0
Name = List ℕ

pub record FilePath : Type 0 where
  pub absolute : Bool
  pub names : List Name

path_discrete : Discrete FilePath
path_discrete = hlevel ℕ_discrete

instance unfoldable pub path_eq : Eq FilePath
unfolding path_discrete ℕ_discrete
path_eq = record { dec = path_discrete }

-- `Path::is_absolute`
abbrev pub is_absolute : FilePath → Bool
is_absolute p = p.absolute

-- `p.as_os_str().is_empty()`: the relative path of no components
unfoldable pub is_blank : FilePath → Bool
is_blank p = elim p.names [ [] ↦ not p.absolute | ◌∷◌ _ _ ↦ false ]

-- `Path::file_name`
unfoldable pub file_name : FilePath → Option Name
file_name p = elim p.names [ [] ↦ none | ◌∷◌ n _ ↦ some n ]

-- `PathBuf::push` and `Path::join` of one file name
unfoldable pub join : FilePath → Name → FilePath
join p n = record p { names = n ∷ p.names }

-- `PathBuf::push` of a path: an absolute one replaces the path.
unfoldable pub push : FilePath → FilePath → FilePath
push p q = if q.absolute then q else record p { names = q.names ++ p.names }

-- `PathBuf::pop`: the root and the empty path stay.
unfoldable pub pop : FilePath → FilePath
pop p = elim p.names [ [] ↦ p | ◌∷◌ _ ns ↦ record p { names = ns } ]

-- `Path::parent`
unfoldable pub parent : FilePath → Option FilePath
parent p = elim p.names [ [] ↦ none | ◌∷◌ _ ns ↦ some record p { names = ns } ]

tails : List Name → List (List Name)
tails [] = [] ∷ []
tails (n ∷ ns) = (n ∷ ns) ∷ tails ns

-- `Path::ancestors`: the path itself first, then its parents
unfoldable pub ancestors : FilePath → List FilePath
unfolding tails
ancestors p = map (λ ns. record { absolute = p.absolute; names = ns }) (tails p.names)

-- The names of `d` below `a`, if the names of `a` end `d`.
strip : List Name → List Name → Option (List Name)
unfolding list_eq nat_eq
strip a [] = if a == [] then some [] else none
strip a (n ∷ d) =
    let rest = Option.map (◌∷◌ n) (strip a d) in if a == (n ∷ d) then some [] else rest

-- `path.strip_prefix(base)`: the empty path is a prefix of every path.
unfoldable pub strip_prefix : FilePath → FilePath → Option FilePath
unfolding strip is_blank
strip_prefix path base =
    if is_blank base
    then some path
    else if path.absolute == base.absolute
    then Option.map (λ ns. record { absolute = false; names = ns }) (strip base.names path.names)
    else none

-- `path.starts_with(base)`
unfoldable pub starts_with : FilePath → FilePath → Bool
unfolding strip_prefix
starts_with path base = is_some (strip_prefix path base)

-- `PathTree::depth`, the number of normal components
abbrev pub depth : FilePath → ℕ
depth p = length p.names

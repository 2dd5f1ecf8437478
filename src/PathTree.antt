-- ===== src/PathTree.antt =====
-- src/syncing/closure.rs: the closure table of a set of paths, indexed three ways. The maps are
-- association lists; no property depends on the order in which a map is iterated.
pub mod Represents
pub mod Rows
pub mod Insert
pub mod FromPaths
pub mod Remove
pub mod Queries
pub mod Serial
use coding_agent_sandbox.Common.{
  ℕ, ◌+◌, ◌-◌, ◌%◌, ◌^◌, Bool, true, false, not, List, [], ◌∷◌, ◌++◌, map, length, ◌==◌, nat_eq,
  ltb, leb, if◌then◌else◌, retain, sort_by,
}
use coding_agent_sandbox.Common.Dict
use coding_agent_sandbox.Common.Dict.{Dict, is_some, or_nil}
use coding_agent_sandbox.FilePath.{FilePath, path_eq, is_blank, depth, ancestors}
use mathlib.Core.List.{foldl, reverse}

-- A row of an index: a path and its distance.
abbrev pub Entry : Type 0
Entry = FilePath × ℕ

pub record PathTree : Type 0 where
  pub by_ancestor : Dict FilePath (List Entry)
  pub by_descendant : Dict FilePath (List Entry)
  pub by_parent : Dict FilePath (List FilePath)

-- `PathTree::new`, `default` and what `clear` leaves
abbrev pub empty : PathTree
empty = record { by_ancestor = []; by_descendant = []; by_parent = [] }

unfoldable pub contains : PathTree → FilePath → Bool
unfolding Dict.lookup
contains t p = is_some (Dict.lookup p t.by_descendant)

-- `path.ancestors().filter(|a| !a.as_os_str().is_empty())`
unfoldable pub solid_ancestors : FilePath → List FilePath
unfolding ancestors is_blank retain
solid_ancestors p = retain (λ a. not (is_blank a)) (ancestors p)

-- `total.saturating_sub(depth(ancestor)) as u32`
unfoldable pub distance : FilePath → FilePath → ℕ
distance a d = (depth d - depth a) % 2 ^ 32

unfoldable pub ancestors_with_distance : FilePath → List Entry
unfolding solid_ancestors distance
ancestors_with_distance p = map (λ a. (a, distance a p)) (solid_ancestors p)

unfoldable pub insert_row : PathTree → FilePath → FilePath → ℕ → PathTree
unfolding Dict.push
insert_row t ancestor descendant distance = record {
  by_ancestor = Dict.push ancestor (descendant, distance) t.by_ancestor;
  by_descendant = Dict.push descendant (ancestor, distance) t.by_descendant;
  by_parent = if distance == 1 then Dict.push ancestor descendant t.by_parent else t.by_parent;
}

-- The inner loop of `insert`, over the ancestors of a prefix.
unfoldable pub insert_rows : PathTree → FilePath → List Entry → PathTree
unfolding insert_row
insert_rows t prefix [] = t
insert_rows t prefix ((ancestor, distance) ∷ rows) =
    insert_rows (insert_row t ancestor prefix distance) prefix rows

-- One round of the outer loop of `insert`.
unfoldable pub insert_prefix : PathTree → FilePath → PathTree
unfolding contains insert_rows ancestors_with_distance
insert_prefix t prefix =
    if contains t prefix then t else insert_rows t prefix (ancestors_with_distance prefix)

unfoldable pub insert : PathTree → FilePath → PathTree
unfolding insert_prefix solid_ancestors
insert t path = foldl insert_prefix t (reverse (solid_ancestors path))

unfoldable pub from_paths : List FilePath → PathTree
unfolding insert sort_by
from_paths paths = foldl insert empty (sort_by (λ p q. leb (depth p) (depth q)) paths)

unfoldable pub children_of : PathTree → FilePath → List FilePath
unfolding Dict.lookup
children_of t path = or_nil (Dict.lookup path t.by_parent)

-- `iter().filter(|(_, distance)| *distance > 0).map(|(path, _)| path)`
unfoldable pub proper : List Entry → List FilePath
unfolding retain
proper rows = map (λ r. r.0) (retain (λ r. ltb 0 r.1) rows)

unfoldable pub descendants_of : PathTree → FilePath → List FilePath
unfolding Dict.lookup proper
descendants_of t path = proper (or_nil (Dict.lookup path t.by_ancestor))

unfoldable pub ancestors_of : PathTree → FilePath → List FilePath
unfolding Dict.lookup proper
ancestors_of t path = proper (or_nil (Dict.lookup path t.by_descendant))

unfoldable pub subtree_paths : PathTree → FilePath → List FilePath
unfolding contains descendants_of
subtree_paths t path = if contains t path then path ∷ descendants_of t path else []

-- `path.components().count()`: an absolute path has the root as one more component.
unfoldable pub component_count : FilePath → ℕ
component_count p = if p.absolute then length p.names + 1 else length p.names

-- One round of the loop of `remove_one`.
unfoldable pub forget_row : PathTree → FilePath → FilePath → PathTree
unfolding Dict.retain_at
forget_row t path ancestor = record t {
  by_ancestor = Dict.retain_at ancestor (λ r. not (r.0 == path)) t.by_ancestor;
  by_parent = Dict.retain_at ancestor (λ d. not (d == path)) t.by_parent;
}

-- The loop, over the ancestors that the removed entry held.
unfoldable pub forget_rows : PathTree → FilePath → List Entry → PathTree
unfolding forget_row
forget_rows t path [] = t
forget_rows t path ((ancestor, _) ∷ rows) = forget_rows (forget_row t path ancestor) path rows

unfoldable pub remove_one : PathTree → FilePath → PathTree
unfolding Dict.lookup Dict.erase forget_rows
remove_one t path =
    let u =
      forget_rows (record t { by_descendant = Dict.erase path t.by_descendant }) path
        (or_nil (Dict.lookup path t.by_descendant)) in
    record u {
      by_ancestor = Dict.erase path u.by_ancestor;
      by_parent = Dict.erase path u.by_parent;
    }

-- `subtree.sort_by_key(|p| Reverse(p.components().count()))`
unfoldable pub deepest_first : List FilePath → List FilePath
unfolding sort_by component_count
deepest_first = sort_by (λ p q. leb (component_count q) (component_count p))

-- The removed paths, and the tree without them.
unfoldable pub remove : PathTree → FilePath → List FilePath × PathTree
unfolding contains subtree_paths deepest_first remove_one
remove t path =
    let subtree = deepest_first (subtree_paths t path) in
    if contains t path then (subtree, foldl remove_one t subtree) else ([], t)

rows_of : Dict FilePath (List Entry) → List (FilePath × Entry)
rows_of [] = []
rows_of ((ancestor, entries) ∷ d) = map (λ e. (ancestor, e)) entries ++ rows_of d

-- The closure table that `serialize` writes: ancestor, descendant, distance.
unfoldable pub rows : PathTree → List (FilePath × Entry)
unfolding rows_of
rows t = rows_of t.by_ancestor

-- `deserialize`
unfoldable pub from_rows : List (FilePath × Entry) → PathTree
unfolding insert_row
from_rows rows = foldl (λ t (a, (d, n)). insert_row t a d n) empty rows

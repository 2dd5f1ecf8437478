-- ===== src/Tests/Tree.antt =====
-- The closure table (PathTree.antt) on `/a` and `/a/b`.
use coding_agent_sandbox.Common.{
  ◌^◌, ◌<◌, ◌≡◌, refl, sym, ◌∙◌, true, [], ◌∷◌, nat_eq, pair_eq, arith, member,
}
use mathlib.Core.Path.{subst}
use coding_agent_sandbox.FilePath.{FilePath, path_eq, is_blank, depth}
use coding_agent_sandbox.FilePath.Laws.{under, under_antisymm, depth_of_under}
use coding_agent_sandbox.PathTree
use coding_agent_sandbox.PathTree.{
  PathTree, Entry, empty, from_paths, from_rows, rows, children_of, descendants_of, ancestors_of,
  subtree_paths, remove, contains,
}
use coding_agent_sandbox.PathTree.Represents.{PathSet, Represents}
use coding_agent_sandbox.PathTree.Insert.{with_ancestors, insert-Represents}
use coding_agent_sandbox.PathTree.FromPaths.{
  nothing, empty-Represents, covered, from_paths-Represents,
}
use coding_agent_sandbox.PathTree.Remove.{without_subtree, remove-Represents}
use coding_agent_sandbox.PathTree.Serial.{from_rows-Represents}
use coding_agent_sandbox.Server.Indexed.{Represents-IsTable}
use coding_agent_sandbox.Server.Renames.{moved_set, rebase_self, rename_paths-Represents, HasRoom}
use coding_agent_sandbox.Server.Entries.{rebase, rename_paths}

-- `/a`, `/a/b` and `/c`
abbrev pub path_a : FilePath
path_a = record { absolute = true; names = (97 ∷ []) ∷ [] }

abbrev pub path_ab : FilePath
path_ab = record { absolute = true; names = (98 ∷ []) ∷ (97 ∷ []) ∷ [] }

abbrev pub path_c : FilePath
path_c = record { absolute = true; names = (99 ∷ []) ∷ [] }

abbrev tree_a : PathTree
tree_a = PathTree.insert empty path_a

abbrev tree_ab : PathTree
tree_ab = PathTree.insert tree_a path_ab

abbrev set_a : PathSet
set_a = with_ancestors path_a nothing

abbrev set_ab : PathSet
set_ab = with_ancestors path_ab set_a

tree_a-Represents : Represents set_a tree_a
tree_a-Represents = insert-Represents nothing path_a empty-Represents (omega arith)

insert-Represents_example : Represents set_ab tree_ab
insert-Represents_example = insert-Represents set_a path_ab tree_a-Represents (omega arith)

pub tree_ab-Represents : Represents set_ab tree_ab
tree_ab-Represents = insert-Represents set_a path_ab tree_a-Represents (omega arith)

remove-Represents_example : Represents (without_subtree path_ab set_ab) (remove tree_ab path_ab).1
remove-Represents_example = remove-Represents tree_ab-Represents path_ab

shallow_ab : (p : FilePath) → member p (path_ab ∷ path_a ∷ []) ≡ true → depth p < 2 ^ 32
unfolding member
shallow_ab p h = ground arith

from_paths-Represents_example :
    Represents (covered (path_ab ∷ path_a ∷ [])) (from_paths (path_ab ∷ path_a ∷ []))
from_paths-Represents_example = from_paths-Represents (path_ab ∷ path_a ∷ []) shallow_ab

from_rows-Represents_example : Represents set_ab (from_rows (rows tree_ab))
from_rows-Represents_example = from_rows-Represents tree_ab-Represents

below_ab : (p : FilePath) → set_ab p ≡ true → under path_ab p ≡ true → path_ab ≡ p
below_ab p h k =
    under_antisymm path_ab p k
      (ground (arith, h, depth_of_under p path_a, depth_of_under p path_ab))

room : HasRoom path_ab path_c tree_ab
room p h k =
    subst (λ q. depth (rebase path_ab path_c q) < 2 ^ 32)
      (below_ab p (sym (tree_ab-Represents.present p) ∙ h) k)
      (rw (rebase_self path_ab path_c (unfold is_blank in refl)) (omega arith))

rename_paths-Represents_example :
    Represents (moved_set tree_ab path_ab path_c) (rename_paths tree_ab path_ab path_c)
rename_paths-Represents_example =
    rename_paths-Represents (Represents-IsTable set_ab tree_ab-Represents) path_ab path_c room

-- ===== src/PathTree/Represents.antt =====
-- What the closure table of PathTree.antt stands for: a set of paths, closed under ancestors.
use coding_agent_sandbox.Common.{
  ℕ, ◌^◌, ◌<◌, ◌≡◌, Bool, true, false, ◌&&◌, ◌==◌, nat_eq, pair_eq, count, bit, List,
}
use coding_agent_sandbox.Common.Dict
use mathlib.Core.Path.{subst, fun_ext}
use coding_agent_sandbox.Common.Dict.{or_nil, NodupKeys}
use coding_agent_sandbox.FilePath.{FilePath, path_eq, is_blank, depth}
use coding_agent_sandbox.FilePath.Laws.{under}
use coding_agent_sandbox.PathTree.{PathTree, Entry, contains, distance, children_of}

abbrev pub PathSet : Type 0
PathSet = FilePath → Bool

-- The rows that an index holds for a path.
unfoldable pub down : PathTree → FilePath → List Entry
down t a = or_nil (Dict.lookup a t.by_ancestor)

unfoldable pub up : PathTree → FilePath → List Entry
up t d = or_nil (Dict.lookup d t.by_descendant)

-- `n` is the distance from the prefix `a` to `d`.
unfoldable pub is_row : FilePath → FilePath → ℕ → Bool
is_row a d n = under a d && n == distance a d

-- Each index holds each row of the set's closure exactly once, and no other row.
pub record Represents (S : PathSet) (t : PathTree) : Type 0 where
  pub present : (d : FilePath) → contains t d ≡ S d
  pub downs : (a d : FilePath) (n : ℕ) → count (d, n) (down t a) ≡ bit (S d && is_row a d n)
  pub ups : (a d : FilePath) (n : ℕ) → count (a, n) (up t d) ≡ bit (S d && is_row a d n)
  pub kids : (p c : FilePath) → count c (children_of t p) ≡ bit (S c && is_row p c 1)
  pub closed : (a d : FilePath) → S d ≡ true → under a d ≡ true → S a ≡ true
  pub solid : (d : FilePath) → S d ≡ true → is_blank d ≡ false
  pub shallow : (d : FilePath) → S d ≡ true → depth d < 2 ^ 32
  pub distinct : NodupKeys t.by_ancestor

-- Equal sets, the same table.
pub Represents-ext :
    (S S' : PathSet) {t : PathTree}
    → ((d : FilePath) → S d ≡ S' d)
    → Represents S t
    → Represents S' t
Represents-ext S S' {t} e r = subst (λ (X : PathSet). Represents X t) (fun_ext e) r

-- ===== src/PathTree/FromPaths.antt =====
-- `from_paths` of PathTree.antt: the table of a list of paths.
use coding_agent_sandbox.Common.{
  ◌^◌, ◌<◌, ◌≡◌, refl, Bool, true, false, ◌||◌, List, [], ◌∷◌, nat_eq, pair_eq, arith, leb, member,
  sort_by, member-sort_by, Bool-ext, count-nil, Bool-cases, inl, inr,
}
use mathlib.Core.List.{foldl}
use coding_agent_sandbox.FilePath.{FilePath, path_eq, depth}
use coding_agent_sandbox.FilePath.Laws.{under}
use coding_agent_sandbox.PathTree.{PathTree, contains, children_of, insert, from_paths, empty}
use coding_agent_sandbox.PathTree.Represents.{PathSet, down, up, Represents, Represents-ext}
use coding_agent_sandbox.PathTree.Insert.{with_ancestors, insert-Represents}
use coding_agent_sandbox.PathTree.Rows.{entry}

abbrev shallower : FilePath → FilePath → Bool
shallower p q = leb (depth p) (depth q)

abbrev pub nothing : PathSet
nothing d = false

pub empty-Represents : Represents nothing empty
unfolding contains down up children_of
empty-Represents = record {
  present = λ d. refl;
  downs = λ a d n. count-nil (entry d n);
  ups = λ a d n. count-nil (entry a n);
  kids = λ p c. count-nil c;
  closed = λ a d h k. ground arith;
  solid = λ d h. ground arith;
  shallow = λ d h. ground arith;
  distinct = tt;
}

-- The paths and their prefixes.
pub covered : List FilePath → PathSet
covered [] d = false
covered (p ∷ ps) d = under d p || covered ps d

abbrev pub Shallow : List FilePath → Type 0
Shallow ps = (p : FilePath) → member p ps ≡ true → depth p < 2 ^ 32

pub insert_all-Represents :
    (S : PathSet) {t : PathTree} (ps : List FilePath)
    → Represents S t
    → Shallow ps
    → Represents (λ d. S d || covered ps d) (foldl insert t ps)
unfolding member covered
insert_all-Represents S [] r h = Represents-ext S (λ d. S d || false) (λ d. ground arith) r
insert_all-Represents S (p ∷ ps) r h =
    Represents-ext (λ d. with_ancestors p S d || covered ps d)
      (λ d. S d || (under d p || covered ps d)) (λ d. ground arith)
      (insert_all-Represents (with_ancestors p S) ps (insert-Represents S p r (h p (ground arith)))
        (λ q m. h q (ground arith)))

covered_iff :
    (ps : List FilePath) (d : FilePath)
    → covered ps d ≡ true
    → (p : FilePath) × (member p ps ≡ true) × (under d p ≡ true)
unfolding covered member
covered_iff [] d h = ground arith
covered_iff (p ∷ ps) d h = elim (Bool-cases (under d p)) [
  | inl here ↦ (p, ground arith, here)
  | inr later ↦ let (q, m, u) = covered_iff ps d (ground arith) in (q, ground arith, u)
]

pub covered_of_member :
    (ps : List FilePath) (p d : FilePath)
    → member p ps ≡ true
    → under d p ≡ true
    → covered ps d ≡ true
unfolding covered member
covered_of_member [] p d m u = ground arith
covered_of_member (q ∷ ps) p d m u = ground (arith, covered_of_member ps p d)

covered-sort_by :
    (le : FilePath → FilePath → Bool) (ps : List FilePath) (d : FilePath)
    → covered (sort_by le ps) d ≡ covered ps d
covered-sort_by le ps d =
    Bool-ext (covered (sort_by le ps) d) (covered ps d)
      (λ h.
        let (p, m, u) = covered_iff (sort_by le ps) d h in
        covered_of_member ps p d (ground (arith, member-sort_by p le ps)) u)
      (λ h.
        let (p, m, u) = covered_iff ps d h in
        covered_of_member (sort_by le ps) p d (ground (arith, member-sort_by p le ps)) u)

-- from_paths of paths of fewer than 2 ^ 32 components, in any order and with repetitions, makes
-- the closure table of the paths and their prefixes.
pub from_paths-Represents :
    (ps : List FilePath)
    → ((p : FilePath) → member p ps ≡ true → depth p < 2 ^ 32)
    → Represents (covered ps) (from_paths ps)
unfolding from_paths
from_paths-Represents ps h =
    Represents-ext (λ d. nothing d || covered (sort_by shallower ps) d) (covered ps)
      (λ d. covered-sort_by shallower ps d)
      (insert_all-Represents nothing (sort_by shallower ps) empty-Represents
        (λ p m. h p (ground (arith, member-sort_by p shallower ps))))

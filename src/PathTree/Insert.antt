-- ===== src/PathTree/Insert.antt =====
-- `insert` of PathTree.antt: the set gains the path and its ancestors.
use coding_agent_sandbox.Common.{
  ◌^◌, ◌<◌, ◌≡◌, refl, Bool, true, false, ◌||◌, List, [], ◌∷◌, ◌==◌, nat_eq, pair_eq, count, arith,
  length, is_empty, count-of_is_empty, Bool-cases, inl, inr, ◌≢◌,
}
use mathlib.Core.List.{foldl, foldl-append, reverse, reverse-cons}
use coding_agent_sandbox.FilePath.{Name, FilePath, path_eq, is_blank, depth}
use coding_agent_sandbox.FilePath.Laws.{under, under_refl, under-join, under_root, path}
use coding_agent_sandbox.PathTree.{
  PathTree, contains, distance, insert_rows, solid_ancestors, ancestors_with_distance,
  insert_prefix, insert,
}
use coding_agent_sandbox.PathTree.Represents.{PathSet, is_row, Represents, Represents-ext}
use coding_agent_sandbox.PathTree.Rows.{
  entry, count-down-insert_rows, count-up-insert_rows, count-children_of-insert_rows,
  contains-insert_rows, insert_rows-NodupKeys, count-ancestors_with_distance,
}

abbrev pub with_path : FilePath → PathSet → PathSet
with_path x S d = S d || d == x

module _ {S : PathSet} {t : PathTree} (r : Represents S t) (x : FilePath) where
  fresh_row : is_blank x ≡ false → is_empty (ancestors_with_distance x) ≡ false
  unfolding is_empty count is_row
  fresh_row solid = elim (Bool-cases (is_empty (ancestors_with_distance x))) [
    | inl none_left ↦ ground (
      arith,
      count-of_is_empty (entry x (distance x x)) (ancestors_with_distance x),
      count-ancestors_with_distance x x (distance x x),
      under_refl x solid,
    )
    | inr some_left ↦ some_left
  ]

  -- The loop's step, where the path is not there and all its proper prefixes are.
  insert_rows-Represents :
      S x ≡ false
      → is_blank x ≡ false
      → depth x < 2 ^ 32
      → ((a : FilePath) → under a x ≡ true → a ≢ x → S a ≡ true)
      → Represents (with_path x S) (insert_rows t x (ancestors_with_distance x))
  insert_rows-Represents new solid shallow rooted =
      let rows = ancestors_with_distance x in
      record {
        present =
            λ d. ground (arith, r.present d, contains-insert_rows x t rows d, fresh_row solid);
        downs = λ a d n. ground (
          arith,
          r.downs a d n,
          count-down-insert_rows x t rows a d n,
          count-ancestors_with_distance a d n,
        );
        ups = λ a d n. ground (
          arith,
          r.ups a d n,
          count-up-insert_rows x t rows a d n,
          count-ancestors_with_distance a d n,
        );
        kids = λ p c. ground (
          arith,
          r.kids p c,
          count-children_of-insert_rows x t rows p c,
          count-ancestors_with_distance p c 1,
        );
        closed = λ a d h k. ground (arith, r.closed a d, rooted a, x);
        solid = λ d h. ground (arith, r.solid d);
        shallow = λ d h. ground (arith, r.shallow d);
        distinct = insert_rows-NodupKeys x t rows r.distinct;
      }

  insert_prefix-Represents :
      is_blank x ≡ false
      → depth x < 2 ^ 32
      → ((a : FilePath) → under a x ≡ true → a ≢ x → S a ≡ true)
      → Represents (with_path x S) (insert_prefix t x)
  unfolding insert_prefix
  insert_prefix-Represents solid shallow rooted = elim (Bool-cases (contains t x)) [
    | inl old ↦ rw old (Represents-ext S (with_path x S) (λ d. ground (arith, r.present d, old)) r)
    | inr new ↦ rw new (insert_rows-Represents (ground (arith, r.present x)) solid shallow rooted)
  ]

solid_ancestors-join :
    (abs : Bool) (n : Name) (ns : List Name)
    → solid_ancestors (path abs (n ∷ ns)) ≡ path abs (n ∷ ns) ∷ solid_ancestors (path abs ns)
unfolding solid_ancestors
solid_ancestors-join abs n ns = refl

insert_lem :
    (t : PathTree) (p : FilePath) → insert t p ≡ foldl insert_prefix t (reverse (solid_ancestors p))
unfolding insert
insert_lem t p = refl

insert-join :
    (t : PathTree) (abs : Bool) (n : Name) (ns : List Name)
    → insert t (path abs (n ∷ ns)) ≡ insert_prefix (insert t (path abs ns)) (path abs (n ∷ ns))
insert-join t abs n ns =
    rw (insert_lem, solid_ancestors-join, reverse-cons, insert_lem)
      (foldl-append insert_prefix t (reverse (solid_ancestors (path abs ns)))
        (path abs (n ∷ ns) ∷ []))

insert-root : (t : PathTree) → insert t (path true []) ≡ insert_prefix t (path true [])
unfolding insert solid_ancestors
insert-root t = refl

insert-blank : (t : PathTree) → insert t (path false []) ≡ t
unfolding insert solid_ancestors
insert-blank t = refl

-- The set with a path and its prefixes.
abbrev pub with_ancestors : FilePath → PathSet → PathSet
with_ancestors p S d = S d || under d p

insert_names-Represents :
    (S : PathSet) {t : PathTree} (abs : Bool) (ns : List Name)
    → Represents S t
    → length ns < 2 ^ 32
    → Represents (with_ancestors (path abs ns) S) (insert t (path abs ns))
insert_names-Represents S {t} true [] r h = rw insert-root (
    Represents-ext (with_path (path true []) S) (with_ancestors (path true []) S)
      (λ d. ground (arith, under_root d true))
      (insert_prefix-Represents r (path true []) (unfold is_blank in refl) h
        (λ a k ne. ground (arith, under_root a true))))
insert_names-Represents S {t} false [] r h = rw insert-blank (
    Represents-ext S (with_ancestors (path false []) S) (λ d. ground (arith, under_root d false)) r)
insert_names-Represents S {t} abs (n ∷ ns) r h = rw insert-join (
    Represents-ext (with_path (path abs (n ∷ ns)) (with_ancestors (path abs ns) S))
      (with_ancestors (path abs (n ∷ ns)) S) (λ d. ground (arith, under-join d abs n ns))
      (insert_prefix-Represents (insert_names-Represents S abs ns r (omega arith))
        (path abs (n ∷ ns)) (unfold is_blank in refl) h
        (λ a k ne. ground (arith, under-join a abs n ns))))

-- On the closure table of a set, insert of a path of fewer than 2 ^ 32 components makes the table
-- of the set with the path and its prefixes, whether or not they were there.
pub insert-Represents :
    (S : PathSet) {t : PathTree} (p : FilePath)
    → Represents S t
    → depth p < 2 ^ 32
    → Represents (with_ancestors p S) (insert t p)
insert-Represents S p r h = insert_names-Represents S p.absolute p.names r h

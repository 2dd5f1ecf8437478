-- ===== src/PathTree/Remove.antt =====
-- `remove` of PathTree.antt: the set loses the path and all below it.
use coding_agent_sandbox.Common.{
  ℕ, ◌≡◌, refl, sym, Bool, true, false, not, ◌&&◌, ◌||◌, List, [], ◌∷◌, ◌==◌, nat_eq, pair_eq,
  count, member, bit, arith, inl, inr, if◌then◌else◌, leb, Bool-cases, count-retain, count-nil,
  member-count, member-sort_by, sort_by, sort_by-IsSorted, IsSorted, count-sort_by,
}
use coding_agent_sandbox.Common.Dict
use coding_agent_sandbox.Common.Dict.{or_nil, NodupKeys}
use coding_agent_sandbox.FilePath.{FilePath, path_eq}
use coding_agent_sandbox.FilePath.Laws.{under, under_trans, under_antisymm, absolute_of_under}
use coding_agent_sandbox.PathTree.{
  PathTree, Entry, contains, distance, children_of, subtree_paths, component_count, forget_row,
  forget_rows, remove_one, deepest_first, remove,
}
use coding_agent_sandbox.PathTree.Represents.{PathSet, down, up, is_row, Represents, Represents-ext}
use coding_agent_sandbox.PathTree.Queries.{count-subtree_paths}
use mathlib.Core.List.{foldl}

abbrev entry : FilePath → ℕ → Entry
entry a n = (a, n)

-- Some row names the path.
covers : FilePath → List Entry → Bool
covers a [] = false
covers a ((b, _) ∷ rows) = a == b || covers a rows

covers-count :
    (a : FilePath) (n : ℕ) (rows : List Entry) → covers a rows ≡ false → count (entry a n) rows ≡ 0
unfolding covers count
covers-count a n [] h = refl
covers-count a n ((b, m) ∷ rows) h = ground (arith, covers-count a n rows)

module _ (x : FilePath) where
  count-down-forget_rows :
      (t : PathTree) (rows : List Entry) (a d : FilePath) (n : ℕ)
      → count (d, n) (down (forget_rows t x rows) a)
        ≡ (if covers a rows && d == x then 0 else count (d, n) (down t a))
  unfolding forget_rows covers down
  count-down-forget_rows t [] a d n = refl
  count-down-forget_rows t ((b, m) ∷ rows) a d n = ground (
    arith,
    count-down-forget_rows (forget_row t x b) rows a d n,
    Dict.or_nil-retain_at a b (λ r. not (r.0 == x)) t.by_ancestor,
    count-retain (entry d n) (λ r. not (r.0 == x)) (down t b),
  )

  count-children_of-forget_rows :
      (t : PathTree) (rows : List Entry) (p c : FilePath)
      → count c (children_of (forget_rows t x rows) p)
        ≡ (if covers p rows && c == x then 0 else count c (children_of t p))
  unfolding forget_rows covers children_of
  count-children_of-forget_rows t [] p c = refl
  count-children_of-forget_rows t ((b, m) ∷ rows) p c = ground (
    arith,
    count-children_of-forget_rows (forget_row t x b) rows p c,
    Dict.or_nil-retain_at p b (λ d. not (d == x)) t.by_parent,
    count-retain c (λ d. not (d == x)) (children_of t b),
  )

  by_descendant-forget_rows :
      (t : PathTree) (rows : List Entry) → (forget_rows t x rows).by_descendant ≡ t.by_descendant
  unfolding forget_rows
  by_descendant-forget_rows t [] = refl
  by_descendant-forget_rows t ((b, m) ∷ rows) = by_descendant-forget_rows (forget_row t x b) rows

  forget_rows-NodupKeys :
      (t : PathTree) (rows : List Entry)
      → NodupKeys t.by_ancestor
      → NodupKeys (forget_rows t x rows).by_ancestor
  unfolding forget_rows
  forget_rows-NodupKeys t [] u = u
  forget_rows-NodupKeys t ((b, m) ∷ rows) u =
      forget_rows-NodupKeys (forget_row t x b) rows (Dict.retain_at-NodupKeys b _ t.by_ancestor u)

abbrev without : FilePath → PathSet → PathSet
without x S d = S d && not (d == x)

module _ {S : PathSet} {t : PathTree} (r : Represents S t) (x : FilePath) where
  abbrev held : List Entry
  held = up t x

  abbrev cut : PathTree
  cut = record t { by_descendant = Dict.erase x t.by_descendant }

  covers-held : (a : FilePath) → S x ≡ true → under a x ≡ true → covers a held ≡ true
  unfolding is_row
  covers-held a h k = ground (
    arith,
    covers-count a (distance a x) held,
    r.ups a x (distance a x),
    Bool-cases (covers a held),
  )

  count-down-remove_one :
      (a d : FilePath) (n : ℕ)
      → count (d, n) (down (remove_one t x) a)
        ≡ (if a == x then 0 else if covers a held && d == x then 0 else count (d, n) (down t a))
  unfolding remove_one down up
  count-down-remove_one a d n = ground (
    arith,
    Dict.lookup-erase a x (forget_rows cut x held).by_ancestor,
    count-down-forget_rows x cut held a d n,
    count-nil (entry d n),
  )

  count-up-remove_one :
      (a d : FilePath) (n : ℕ)
      → count (a, n) (up (remove_one t x) d) ≡ (if d == x then 0 else count (a, n) (up t d))
  unfolding remove_one up
  count-up-remove_one a d n = ground (
    arith,
    by_descendant-forget_rows x cut held,
    Dict.lookup-erase d x t.by_descendant,
    count-nil (entry a n),
  )

  count-children_of-remove_one :
      (p c : FilePath)
      → count c (children_of (remove_one t x) p)
        ≡ (if p == x then 0 else if covers p held && c == x then 0 else count c (children_of t p))
  unfolding remove_one children_of up
  count-children_of-remove_one p c = ground (
    arith,
    Dict.lookup-erase p x (forget_rows cut x held).by_parent,
    count-children_of-forget_rows x cut held p c,
    count-nil c,
  )

  contains-remove_one :
      (d : FilePath) → contains (remove_one t x) d ≡ (if d == x then false else contains t d)
  unfolding contains remove_one up
  contains-remove_one d =
      ground (arith, by_descendant-forget_rows x cut held, Dict.lookup-erase d x t.by_descendant)

  remove_one-NodupKeys : NodupKeys (remove_one t x).by_ancestor
  unfolding remove_one up
  remove_one-NodupKeys =
      Dict.erase-NodupKeys x (forget_rows cut x held).by_ancestor
        (forget_rows-NodupKeys x cut held r.distinct)

  -- Removing a path that has no other path of the set below it.
  remove_one-Represents :
      ((d : FilePath) → S d ≡ true → under x d ≡ true → d ≡ x)
      → Represents (without x S) (remove_one t x)
  unfolding is_row
  remove_one-Represents leaf = record {
    present = λ d. ground (arith, contains-remove_one d, r.present d);
    downs =
        λ a d n. ground (arith, count-down-remove_one a d n, r.downs a d n, covers-held a, leaf d);
    ups = λ a d n. ground (arith, count-up-remove_one a d n, r.ups a d n);
    kids =
        λ p c. ground (arith, count-children_of-remove_one p c, r.kids p c, covers-held p, leaf c);
    closed = λ a d h k. ground (arith, r.closed a d, leaf d);
    solid = λ d h. ground (arith, r.solid d);
    shallow = λ d h. ground (arith, r.shallow d);
    distinct = remove_one-NodupKeys;
  }

abbrev deeper : FilePath → FilePath → Bool
deeper p q = leb (component_count q) (component_count p)

-- Below a path, only the path itself has no more components.
bottom : (a d : FilePath) → under a d ≡ true → deeper a d ≡ true → d ≡ a
unfolding component_count
bottom a d h k = sym (under_antisymm a d h (ground (arith, absolute_of_under a d h)))

abbrev minus : List FilePath → PathSet → PathSet
minus vs S d = S d && not (member d vs)

-- The loop of `remove`, over the victims of a set that holds all that lies below them.
remove_all-Represents :
    (S : PathSet) {t : PathTree} (vs : List FilePath)
    → Represents S t
    → IsSorted deeper vs
    → ((v d : FilePath) → member v vs ≡ true → S d ≡ true → under v d ≡ true → member d vs ≡ true)
    → Represents (minus vs S) (foldl remove_one t vs)
unfolding member
remove_all-Represents S [] r _ _ = Represents-ext S (minus [] S) (λ d. ground arith) r
remove_all-Represents S (v ∷ vs) r (front, rest) full =
    Represents-ext (minus vs (without v S)) (minus (v ∷ vs) S) (λ d. ground arith)
      (remove_all-Represents (without v S) vs
        (remove_one-Represents r v (λ d h k. ground (arith, full v d, front d, bottom v d))) rest
        (λ w d m h k. ground (arith, full w d)))

-- The set without a path and what lies below it.
abbrev pub without_subtree : FilePath → PathSet → PathSet
without_subtree p S d = S d && not (under p d)

deeper_total : (p q : FilePath) → deeper p q ≡ false → deeper q p ≡ true
deeper_total p q h = ground arith

deeper_trans : (p q s : FilePath) → deeper p q ≡ true → deeper q s ≡ true → deeper p s ≡ true
deeper_trans p q s h k = ground arith

-- The two branches agree: the subtree of a path that is not there is empty.
remove_lem :
    (t : PathTree) (p : FilePath)
    → remove t p
      ≡ (deepest_first (subtree_paths t p), foldl remove_one t (deepest_first (subtree_paths t p)))
unfolding remove subtree_paths deepest_first sort_by
remove_lem t p = elim (Bool-cases (contains t p)) [ inl h ↦ rw h refl | inr h ↦ rw h refl ]

module _ {S : PathSet} {t : PathTree} (r : Represents S t) (p : FilePath) where
  -- On the closure table of a set, remove reports each path of the set that is the removed one or
  -- below it, once, and no other path.
  pub count-remove : (d : FilePath) → count d (remove t p).0 ≡ bit (S d && under p d)
  unfolding deepest_first
  count-remove d =
      rw remove_lem
        (ground (arith, count-sort_by d deeper (subtree_paths t p), count-subtree_paths r p d))

  member-remove : (d : FilePath) → member d (deepest_first (subtree_paths t p)) ≡ (S d && under p d)
  unfolding deepest_first
  member-remove d = ground (
    arith,
    member-sort_by d deeper (subtree_paths t p),
    member-count d (subtree_paths t p),
    count-subtree_paths r p d,
    Bool-cases (S d && under p d),
  )

  -- On the closure table of a set, remove leaves the table of the set without the path and all
  -- below it.
  pub remove-Represents : Represents (without_subtree p S) (remove t p).1
  remove-Represents =
      let victims = deepest_first (subtree_paths t p) in
      rw remove_lem (
        Represents-ext (minus victims S) (without_subtree p S)
          (λ d. ground (arith, member-remove d))
          (remove_all-Represents S victims r
            (unfold deepest_first in
              sort_by-IsSorted deeper deeper_total deeper_trans (subtree_paths t p))
            (λ v d m h k. ground (arith, member-remove v, member-remove d, under_trans p v d))))

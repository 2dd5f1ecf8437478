-- ===== src/PathTree/Rows.antt =====
-- What the rows that `insert` adds do to the three indexes of PathTree.antt.
use coding_agent_sandbox.Common.{
  ℕ, ◌+◌, ◌≡◌, true, not, ◌&&◌, List, [], ◌∷◌, ◌==◌, nat_eq, pair_eq, count, bit, arith,
  if◌then◌else◌, is_empty, count-append, count-retain, map, Bool-cases,
}
use coding_agent_sandbox.Common.Dict
use coding_agent_sandbox.Common.Dict.{or_nil, is_some, NodupKeys}
use coding_agent_sandbox.FilePath.{FilePath, path_eq, is_blank, ancestors}
use coding_agent_sandbox.FilePath.Laws.{under, not_blank_of_under, count-ancestors}
use coding_agent_sandbox.PathTree.{
  PathTree, Entry, contains, distance, children_of, insert_row, insert_rows, solid_ancestors,
  ancestors_with_distance,
}
use coding_agent_sandbox.PathTree.Represents.{down, up, is_row}

abbrev pub entry : FilePath → ℕ → Entry
entry a n = (a, n)

module _ (t : PathTree) (x : FilePath) (b : FilePath) (m : ℕ) where
  pub count-down-insert_row :
      (a d : FilePath) (n : ℕ)
      → count (d, n) (down (insert_row t b x m) a)
        ≡ count (d, n) (down t a) + (if d == x then bit (entry a n == entry b m) else 0)
  unfolding down insert_row count
  count-down-insert_row a d n = ground (
    arith,
    Dict.lookup-push a b (x, m) t.by_ancestor,
    count-append (d, n) (down t b) ((x, m) ∷ []),
  )

  pub count-up-insert_row :
      (a d : FilePath) (n : ℕ)
      → count (a, n) (up (insert_row t b x m) d)
        ≡ count (a, n) (up t d) + (if d == x then bit (entry a n == entry b m) else 0)
  unfolding up insert_row count
  count-up-insert_row a d n = ground (
    arith,
    Dict.lookup-push d x (b, m) t.by_descendant,
    count-append (a, n) (up t x) ((b, m) ∷ []),
  )

  pub count-children_of-insert_row :
      (p c : FilePath)
      → count c (children_of (insert_row t b x m) p)
        ≡ count c (children_of t p) + (if c == x then bit (entry p 1 == entry b m) else 0)
  unfolding children_of insert_row count
  count-children_of-insert_row p c =
      ground (arith, Dict.lookup-push p b x t.by_parent, count-append c (children_of t b) (x ∷ []))

  pub contains-insert_row :
      (d : FilePath) → contains (insert_row t b x m) d ≡ (if d == x then true else contains t d)
  unfolding contains insert_row
  contains-insert_row d = ground (arith, Dict.lookup-push d x (b, m) t.by_descendant)

module _ (x : FilePath) where
  pub count-down-insert_rows :
      (t : PathTree) (rows : List Entry) (a d : FilePath) (n : ℕ)
      → count (d, n) (down (insert_rows t x rows) a)
        ≡ count (d, n) (down t a) + (if d == x then count (a, n) rows else 0)
  unfolding insert_rows count
  count-down-insert_rows t [] a d n = ground arith
  count-down-insert_rows t ((b, m) ∷ rows) a d n = ground (
    arith,
    count-down-insert_rows (insert_row t b x m) rows a d n,
    count-down-insert_row t x b m a d n,
  )

  pub count-up-insert_rows :
      (t : PathTree) (rows : List Entry) (a d : FilePath) (n : ℕ)
      → count (a, n) (up (insert_rows t x rows) d)
        ≡ count (a, n) (up t d) + (if d == x then count (a, n) rows else 0)
  unfolding insert_rows count
  count-up-insert_rows t [] a d n = ground arith
  count-up-insert_rows t ((b, m) ∷ rows) a d n = ground (
    arith,
    count-up-insert_rows (insert_row t b x m) rows a d n,
    count-up-insert_row t x b m a d n,
  )

  pub count-children_of-insert_rows :
      (t : PathTree) (rows : List Entry) (p c : FilePath)
      → count c (children_of (insert_rows t x rows) p)
        ≡ count c (children_of t p) + (if c == x then count (p, 1) rows else 0)
  unfolding insert_rows count
  count-children_of-insert_rows t [] p c = ground arith
  count-children_of-insert_rows t ((b, m) ∷ rows) p c = ground (
    arith,
    count-children_of-insert_rows (insert_row t b x m) rows p c,
    count-children_of-insert_row t x b m p c,
  )

  pub contains-insert_rows :
      (t : PathTree) (rows : List Entry) (d : FilePath)
      → contains (insert_rows t x rows) d
        ≡ (if d == x && not (is_empty rows) then true else contains t d)
  unfolding insert_rows is_empty
  contains-insert_rows t [] d = ground arith
  contains-insert_rows t ((b, m) ∷ rows) d =
      ground
        (arith, contains-insert_rows (insert_row t b x m) rows d, contains-insert_row t x b m d)

  pub insert_rows-NodupKeys :
      (t : PathTree) (rows : List Entry)
      → NodupKeys t.by_ancestor
      → NodupKeys (insert_rows t x rows).by_ancestor
  unfolding insert_rows insert_row
  insert_rows-NodupKeys t [] u = u
  insert_rows-NodupKeys t ((b, m) ∷ rows) u =
      insert_rows-NodupKeys (insert_row t b x m) rows (Dict.push-NodupKeys b (x, m) t.by_ancestor u)

-- The rows of one path: each of its prefixes, once.
pub count-map-pair :
    (d : FilePath) (ps : List FilePath) (a : FilePath) (n : ℕ)
    → count (entry a n) (map (λ b. (b, distance b d)) ps)
      ≡ (if n == distance a d then count a ps else 0)
unfolding count
count-map-pair d [] a n = ground arith
count-map-pair d (b ∷ ps) a n = ground (arith, count-map-pair d ps a n)

pub count-solid_ancestors : (a d : FilePath) → count a (solid_ancestors d) ≡ bit (under a d)
unfolding solid_ancestors
count-solid_ancestors a d = ground (
  arith,
  count-retain a (λ b. not (is_blank b)) (ancestors d),
  count-ancestors a d,
  not_blank_of_under a d,
  Bool-cases (under a d),
)

pub count-ancestors_with_distance :
    (a d : FilePath) (n : ℕ) → count (a, n) (ancestors_with_distance d) ≡ bit (is_row a d n)
unfolding ancestors_with_distance is_row
count-ancestors_with_distance a d n =
    ground (arith, count-map-pair d (solid_ancestors d) a n, count-solid_ancestors a d)

-- ===== src/PathTree/Serial.antt =====
-- `serialize` and `deserialize` of PathTree.antt: the rows rebuild the table.
use coding_agent_sandbox.Common.{
  ℕ, ◌+◌, ◌<◌, ◌≡◌, Bool, true, false, ◌&&◌, ◌||◌, List, [], ◌∷◌, map, ◌==◌, nat_eq, pair_eq, count,
  bit, arith, if◌then◌else◌, Bool-cases, inl, inr, Bool-ext, count-append, count-nil,
}
use coding_agent_sandbox.Common.Dict
use coding_agent_sandbox.Common.Dict.{Dict, or_nil, is_some, NodupKeys}
use coding_agent_sandbox.FilePath.{FilePath, path_eq}
use coding_agent_sandbox.FilePath.Laws.{under_refl}
use coding_agent_sandbox.PathTree.{
  PathTree, Entry, contains, distance, children_of, empty, insert_row, rows_of, rows, from_rows,
}
use coding_agent_sandbox.PathTree.FromPaths.{empty-Represents}
use mathlib.Core.List.{foldl}
use coding_agent_sandbox.PathTree.Represents.{PathSet, down, up, is_row, Represents}
use coding_agent_sandbox.PathTree.Rows.{
  entry, count-down-insert_row, count-up-insert_row, count-children_of-insert_row,
  contains-insert_row,
}

abbrev Row : Type 0
Row = FilePath × Entry

abbrev row : FilePath → FilePath → ℕ → Row
row a d n = (a, (d, n))

count-row_pairs :
    (a b d : FilePath) (n : ℕ) (es : List Entry)
    → count (row a d n) (map (λ e. (b, e)) es) ≡ (if a == b then count (entry d n) es else 0)
unfolding count
count-row_pairs a b d n [] = ground arith
count-row_pairs a b d n ((x, m) ∷ es) = ground (arith, count-row_pairs a b d n es)

count-rows_of :
    (m : Dict FilePath (List Entry)) (a d : FilePath) (n : ℕ)
    → NodupKeys m
    → count (row a d n) (rows_of m) ≡ count (entry d n) (or_nil (Dict.lookup a m))
unfolding rows_of Dict.lookup
count-rows_of [] a d n _ = ground (arith, count-nil (row a d n), count-nil (entry d n))
count-rows_of ((b, es) ∷ m) a d n (fresh, u) = ground (
  arith,
  count-append (row a d n) (map (λ e. (b, e)) es) (rows_of m),
  count-row_pairs a b d n es,
  count-rows_of m a d n u,
  count-nil (entry d n),
)

mentions : FilePath → List Row → Bool
mentions d [] = false
mentions d ((_, (x, _)) ∷ rs) = d == x || mentions d rs

-- A row of the path, where one is there.
row_of_mentions :
    (d : FilePath) (rs : List Row)
    → mentions d rs ≡ true
    → (a : FilePath) × (n : ℕ) × (0 < count (row a d n) rs)
unfolding mentions count
row_of_mentions d [] h = ground arith
row_of_mentions d ((b, (x, m)) ∷ rs) h = elim (Bool-cases (d == x)) [
  | inl here ↦ (b, m, ground arith)
  | inr later ↦ let (a, n, c) = row_of_mentions d rs (ground arith) in (a, n, ground arith)
]

mentions_of_row :
    (a d : FilePath) (n : ℕ) (rs : List Row) → 0 < count (row a d n) rs → mentions d rs ≡ true
unfolding mentions count
mentions_of_row a d n [] h = ground arith
mentions_of_row a d n ((b, (x, m)) ∷ rs) h = ground (arith, mentions_of_row a d n rs)

abbrev replay : PathTree → List Row → PathTree
replay t rs = foldl (λ u (a, (d, n)). insert_row u a d n) t rs

count-down-replay :
    (t : PathTree) (rs : List Row) (a d : FilePath) (n : ℕ)
    → count (d, n) (down (replay t rs) a) ≡ count (d, n) (down t a) + count (row a d n) rs
unfolding count
count-down-replay t [] a d n = ground arith
count-down-replay t ((b, (x, m)) ∷ rs) a d n =
    ground
      (arith, count-down-replay (insert_row t b x m) rs a d n, count-down-insert_row t x b m a d n)

count-up-replay :
    (t : PathTree) (rs : List Row) (a d : FilePath) (n : ℕ)
    → count (a, n) (up (replay t rs) d) ≡ count (a, n) (up t d) + count (row a d n) rs
unfolding count
count-up-replay t [] a d n = ground arith
count-up-replay t ((b, (x, m)) ∷ rs) a d n =
    ground (arith, count-up-replay (insert_row t b x m) rs a d n, count-up-insert_row t x b m a d n)

count-children_of-replay :
    (t : PathTree) (rs : List Row) (p c : FilePath)
    → count c (children_of (replay t rs) p) ≡ count c (children_of t p) + count (row p c 1) rs
unfolding count
count-children_of-replay t [] p c = ground arith
count-children_of-replay t ((b, (x, m)) ∷ rs) p c = ground (
  arith,
  count-children_of-replay (insert_row t b x m) rs p c,
  count-children_of-insert_row t x b m p c,
)

contains-replay :
    (t : PathTree) (rs : List Row) (d : FilePath)
    → contains (replay t rs) d ≡ (contains t d || mentions d rs)
unfolding mentions
contains-replay t [] d = ground arith
contains-replay t ((b, (x, m)) ∷ rs) d =
    ground (arith, contains-replay (insert_row t b x m) rs d, contains-insert_row t x b m d)

replay-NodupKeys :
    (t : PathTree) (rs : List Row) → NodupKeys t.by_ancestor → NodupKeys (replay t rs).by_ancestor
unfolding insert_row
replay-NodupKeys t [] u = u
replay-NodupKeys t ((b, (x, m)) ∷ rs) u =
    replay-NodupKeys (insert_row t b x m) rs (Dict.push-NodupKeys b (x, m) t.by_ancestor u)

module _ {S : PathSet} {t : PathTree} (r : Represents S t) where
  -- The closure table as a list of rows.
  pub count-rows : (a d : FilePath) (n : ℕ) → count (a, (d, n)) (rows t) ≡ bit (S d && is_row a d n)
  unfolding rows down
  count-rows a d n = ground (arith, count-rows_of t.by_ancestor a d n r.distinct, r.downs a d n)

  mentions-rows : (d : FilePath) → mentions d (rows t) ≡ S d
  unfolding is_row
  mentions-rows d =
      Bool-ext (mentions d (rows t)) (S d)
        (λ h. let (a, n, c) = row_of_mentions d (rows t) h in ground (arith, count-rows a d n))
        (λ h.
          mentions_of_row d d (distance d d) (rows t)
            (ground (arith, count-rows d d (distance d d), under_refl d (r.solid d h))))

  -- What deserialize builds from the rows that serialize writes of the table of a set is a table
  -- of the same set.
  pub from_rows-Represents : Represents S (from_rows (rows t))
  unfolding from_rows
  from_rows-Represents =
      let e = empty-Represents in
      record {
        present =
            λ d. ground (arith, contains-replay empty (rows t) d, e.present d, mentions-rows d);
        downs = λ a d n.
            ground (arith, count-down-replay empty (rows t) a d n, e.downs a d n, count-rows a d n);
        ups = λ a d n.
            ground (arith, count-up-replay empty (rows t) a d n, e.ups a d n, count-rows a d n);
        kids = λ p c.
            ground
              (arith, count-children_of-replay empty (rows t) p c, e.kids p c, count-rows p c 1);
        closed = r.closed;
        solid = r.solid;
        shallow = r.shallow;
        distinct = replay-NodupKeys empty (rows t) tt;
      }

-- ===== src/PathTree/Queries.antt =====
-- What the queries of PathTree.antt return on the table of a set.
use coding_agent_sandbox.Common.{
  ℕ, ◌+◌, ◌-◌, ◌^◌, ◌<◌, ◌≡◌, ◌≢◌, refl, true, not, ◌&&◌, List, [], ◌∷◌, ◌==◌, nat_eq, pair_eq,
  count, bit, arith, if◌then◌else◌, ltb, Bool-cases,
}
use coding_agent_sandbox.FilePath.{FilePath, path_eq, depth}
use coding_agent_sandbox.FilePath.Laws.{under, under_refl, under_antisymm, depth_of_under}
use coding_agent_sandbox.PathTree.{
  PathTree, Entry, distance, children_of, proper, descendants_of, ancestors_of, subtree_paths,
}
use coding_agent_sandbox.PathTree.Represents.{PathSet, down, up, is_row, Represents}

abbrev entry : FilePath → ℕ → Entry
entry a n = (a, n)

count-proper :
    (d : FilePath) (k : ℕ) (rows : List Entry)
    → ((n : ℕ) → n ≢ k → count (entry d n) rows ≡ 0)
    → count d (proper rows) ≡ (if ltb 0 k then count (entry d k) rows else 0)
unfolding count proper
count-proper d k [] h = ground arith
count-proper d k ((b, m) ∷ rows) h =
    ground (arith, h m, count-proper d k rows (λ n ne. ground (arith, h n)))

distance_shallow : (a d : FilePath) → depth d < 2 ^ 32 → distance a d ≡ depth d - depth a
unfolding distance
distance_shallow a d h = omega arith

-- A path and a proper prefix of it lie at a positive distance.
apart : (a d : FilePath) → depth d < 2 ^ 32 → under a d ≡ true → ltb 0 (distance a d) ≡ not (d == a)
apart a d h k = ground (arith, distance_shallow a d h, depth_of_under a d k, under_antisymm a d k)

descendants_of_lem : (t : PathTree) (a : FilePath) → descendants_of t a ≡ proper (down t a)
unfolding descendants_of down
descendants_of_lem t a = refl

ancestors_of_lem : (t : PathTree) (d : FilePath) → ancestors_of t d ≡ proper (up t d)
unfolding ancestors_of up
ancestors_of_lem t d = refl

module _ {S : PathSet} {t : PathTree} (r : Represents S t) where
  -- On the closure table of a set, descendants_of lists each path of the set strictly below the
  -- path, once, and no other path.
  pub count-descendants_of :
      (a d : FilePath) → count d (descendants_of t a) ≡ bit (S d && under a d && not (d == a))
  unfolding is_row
  count-descendants_of a d = ground (
    arith,
    descendants_of_lem t a,
    count-proper d (distance a d) (down t a) (λ n ne. ground (arith, r.downs a d n)),
    r.downs a d (distance a d),
    r.shallow d,
    apart a d,
  )

  -- On the closure table of a set, ancestors_of lists each proper prefix of a path of the set,
  -- once, and no other path.
  pub count-ancestors_of :
      (a d : FilePath) → count a (ancestors_of t d) ≡ bit (S d && under a d && not (d == a))
  unfolding is_row
  count-ancestors_of a d = ground (
    arith,
    ancestors_of_lem t d,
    count-proper a (distance a d) (up t d) (λ n ne. ground (arith, r.ups a d n)),
    r.ups a d (distance a d),
    r.shallow d,
    apart a d,
  )

  -- On the closure table of a set, children_of lists each path of the set one level below the
  -- path, once, and no other path.
  pub count-children_of :
      (p c : FilePath)
      → count c (children_of t p) ≡ bit (S c && under p c && depth c == depth p + 1)
  unfolding is_row
  count-children_of p c =
      ground (arith, r.kids p c, r.shallow c, distance_shallow p c, depth_of_under p c)

  -- On the closure table of a set, subtree_paths lists each path of the set that is the path or
  -- below it, once, and no other path.
  pub count-subtree_paths : (p d : FilePath) → count d (subtree_paths t p) ≡ bit (S d && under p d)
  unfolding subtree_paths count
  count-subtree_paths p d = ground (
    arith,
    r.present p,
    count-descendants_of p d,
    r.closed p d,
    under_refl p,
    r.solid p,
    Bool-cases (under p d),
    Bool-cases (S d),
  )

  -- On the closure table of a set, each path of the set is listed once by descendants_of if it is
  -- strictly below the path, by children_of if it is one level below it and by subtree_paths if it
  -- is the path or below it, ancestors_of of a path of the set lists each of its proper prefixes
  -- once, and no other path is listed.
  pub queries_count :
      (p d : FilePath)
      → (count d (descendants_of t p) ≡ bit (S d && under p d && not (d == p)))
        × (count p (ancestors_of t d) ≡ bit (S d && under p d && not (d == p)))
        × (count d (children_of t p) ≡ bit (S d && under p d && depth d == depth p + 1))
        × (count d (subtree_paths t p) ≡ bit (S d && under p d))
  queries_count p d = (
    count-descendants_of p d,
    count-ancestors_of p d,
    count-children_of p d,
    count-subtree_paths p d,
  )

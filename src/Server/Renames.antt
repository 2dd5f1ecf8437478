-- ===== src/Server/Renames.antt =====
-- `RenameFile` and `RenameTree` keep the daemon's path tree in step with its map.
use coding_agent_sandbox.Common.{
  ◌^◌, ◌<◌, ◌≡◌, refl, Bool, true, false, ◌&&◌, ◌||◌, none, some, List, [], ◌∷◌, ◌++◌, ◌==◌, map,
  arith, if◌then◌else◌, member, member-count, Bool-cases, Option-cases, inl, inr,
}
use coding_agent_sandbox.Common.Dict
use coding_agent_sandbox.FilePath.{Name, FilePath, path_eq, is_blank, depth, push, strip_prefix}
use coding_agent_sandbox.FilePath.Laws.{under, under_refl, path, strip_prefix_self}
use coding_agent_sandbox.PathTree
use coding_agent_sandbox.PathTree.{PathTree, contains, subtree_paths}
use coding_agent_sandbox.PathTree.Represents.{PathSet, Represents}
use coding_agent_sandbox.PathTree.FromPaths.{covered, covered_of_member, insert_all-Represents}
use coding_agent_sandbox.PathTree.Queries.{count-subtree_paths}
use coding_agent_sandbox.PathTree.Remove.{without_subtree, remove-Represents}
use coding_agent_sandbox.Proto.{FuseEntry}
use coding_agent_sandbox.Disk.{FuseMap}
use coding_agent_sandbox.Server.State.{ServerState}
use coding_agent_sandbox.Server.Entries.{rebase, rename_paths, rename_file, rename_tree, move_entry}
use coding_agent_sandbox.Server.Indexed.{IsTable, IsIndexed, IsIndexed-intro, IsBare, Listed}
use mathlib.Core.List.{foldl}

solid_append :
    (a : Bool) (ns ms : List Name)
    → is_blank (path a ms) ≡ false
    → is_blank (path a (ns ++ ms)) ≡ false
unfolding is_blank
solid_append a [] ms h = h
solid_append a (n ∷ ns) ms h = refl

push-solid :
    (p q : FilePath) → is_blank p ≡ false → is_blank q ≡ false → is_blank (push p q) ≡ false
unfolding push
push-solid p q h k = ground (arith, solid_append p.absolute q.names p.names)

rebase_lem :
    (from to p : FilePath)
    → rebase from to p ≡ elim (strip_prefix p from) [
      | none ↦ to
      | some rel ↦ if is_blank rel then to else push to rel
    ]
unfolding rebase
rebase_lem from to p = refl

rebase-solid : (from to p : FilePath) → is_blank to ≡ false → is_blank (rebase from to p) ≡ false
rebase-solid from to p h = elim (Option-cases (strip_prefix p from)) [
  | inl gone ↦ rw (rebase_lem, gone) h
  | inr (rel, found) ↦
      rw (rebase_lem, found) (ground (arith, push-solid to rel h, Bool-cases (is_blank rel)))
]

pub rebase_self : (from to : FilePath) → is_blank from ≡ false → rebase from to from ≡ to
unfolding is_blank
rebase_self from to h = rw (rebase_lem, strip_prefix_self from h)

-- Every path that the rename makes is one that the table can hold.
abbrev pub HasRoom : FilePath → FilePath → PathTree → Type 0
HasRoom from to t =
    (p : FilePath) → contains t p ≡ true → under from p ≡ true → depth (rebase from to p) < 2 ^ 32

-- The set after a rename: what was not below `from`, and the new paths with their ancestors.
abbrev pub moved_set : PathTree → FilePath → FilePath → PathSet
moved_set t from to d =
    without_subtree from (contains t) d || covered (map (rebase from to) (subtree_paths t from)) d

foldl-insert :
    (f : FilePath → FilePath) (t : PathTree) (ps : List FilePath)
    → foldl (λ u p. PathTree.insert u (f p)) t ps ≡ foldl PathTree.insert t (map f ps)
foldl-insert f t [] = refl
foldl-insert f t (p ∷ ps) = foldl-insert f (PathTree.insert t (f p)) ps

member-map :
    (f : FilePath → FilePath) (q : FilePath) (ps : List FilePath)
    → member q (map f ps) ≡ true
    → (p : FilePath) × (member p ps ≡ true) × (q ≡ f p)
unfolding member
member-map f q [] h = ground arith
member-map f q (p ∷ ps) h = elim (path_eq.dec q (f p)) [
  | yes e ↦ (p, ground arith, e)
  | no ne ↦ let (r, m, e) = member-map f q ps (ground arith) in (r, ground arith, e)
]

member-map_of_member :
    (f : FilePath → FilePath) (p : FilePath) (ps : List FilePath)
    → member p ps ≡ true
    → member (f p) (map f ps) ≡ true
unfolding member
member-map_of_member f p [] h = ground arith
member-map_of_member f p (q ∷ ps) h = ground (arith, member-map_of_member f p ps)

module _ {t : PathTree} (r : IsTable t) (from to : FilePath) where
  member-subtree_paths :
      (p : FilePath) → member p (subtree_paths t from) ≡ (contains t p && under from p)
  member-subtree_paths p = ground (
    arith,
    member-count p (subtree_paths t from),
    count-subtree_paths r from p,
    Bool-cases (contains t p && under from p),
  )

  -- Renaming in an exact table, where the new paths are short enough, makes the table of the paths
  -- that were not below the old one, the moved paths and their prefixes.
  pub rename_paths-Represents :
      HasRoom from to t → Represents (moved_set t from to) (rename_paths t from to)
  unfolding rename_paths
  rename_paths-Represents room =
      let ps = subtree_paths t from in
      rw (foldl-insert (rebase from to) (PathTree.remove t from).1 ps) (
        insert_all-Represents (without_subtree from (contains t)) (map (rebase from to) ps)
          (remove-Represents r from)
          (λ q m.
            let (p, n, e) = member-map (rebase from to) q ps m in
            ground (arith, room p, member-subtree_paths p, Bool-cases (contains t p))))

  -- A path of the subtree lands in the new set.
  landed :
      is_blank to ≡ false
      → (p : FilePath) → member p (subtree_paths t from) ≡ true
      → moved_set t from to (rebase from to p) ≡ true
  landed solid p m = ground (
    arith,
    covered_of_member (map (rebase from to) (subtree_paths t from)) (rebase from to p)
        (rebase from to p) (member-map_of_member (rebase from to) p (subtree_paths t from) m)
        (under_refl (rebase from to p) (rebase-solid from to p solid)),
  )

pub move_entry_absent :
    (from to : FilePath) (m : FuseMap) (o : FilePath)
    → Dict.lookup o m ≡ none
    → move_entry from to m o ≡ m
unfolding move_entry
move_entry_absent from to m o gone = rw (gone, move_entry)

pub lookup-move_entry :
    (from to : FilePath) (m : FuseMap) (o p : FilePath) {x : FuseEntry}
    → Dict.lookup o m ≡ some x
    → Dict.lookup p (move_entry from to m o)
      ≡ (if p == rebase from to o then some x else if p == o then none else Dict.lookup p m)
unfolding move_entry
lookup-move_entry from to m o p {x} found =
    rw (found, move_entry)
      (ground (
        arith,
        Dict.lookup-insert p (rebase from to o) x (Dict.erase o m),
        Dict.lookup-erase p o m,
      ))

-- The loop of `RenameTree`: what is still to be moved may lie outside the new set.
move_entries-Listed :
    (S : PathSet) (from to : FilePath) (m : FuseMap) (olds : List FilePath)
    → ((p : FilePath) (e : FuseEntry) → Dict.lookup p m ≡ some e → (S p || member p olds) ≡ true)
    → ((p : FilePath) → member p olds ≡ true → S (rebase from to p) ≡ true)
    → Listed S (foldl (move_entry from to) m olds)
unfolding member
move_entries-Listed S from to m [] h k = λ p e f. ground (arith, h p e f)
move_entries-Listed S from to m (o ∷ olds) h k =
    move_entries-Listed S from to (move_entry from to m o) olds
      (λ p e f. elim (Option-cases (Dict.lookup o m)) [
        | inl gone ↦ ground (arith, h p e, move_entry_absent from to m o gone)
        | inr (x, found) ↦ ground (arith, h p e, lookup-move_entry from to m o p found, k o)
      ])
      (λ p n. k p (ground arith))

pub rename_tree-IsIndexed :
    (from to : FilePath) (s : ServerState)
    → is_blank to ≡ false
    → HasRoom from to s.path_tree
    → IsIndexed s
    → IsIndexed (rename_tree s from to)
unfolding rename_tree
rename_tree-IsIndexed from to s solid room i =
    let S = moved_set s.path_tree from to in
    let olds = subtree_paths s.path_tree from in
    IsIndexed-intro S (rename_tree s from to) (rename_paths-Represents i.table from to room) (
      move_entries-Listed S from to s.fuse_map olds
        (λ p e f. ground (
          arith,
          i.listed p e f,
          member-subtree_paths i.table from to p,
          Bool-cases (under from p),
        ))
        (landed i.table from to solid))

-- Of a file or a link alone: no entry of the map lies below `from`.
pub rename_file-IsIndexed :
    (from to : FilePath) (s : ServerState) (e : FuseEntry)
    → is_blank to ≡ false
    → HasRoom from to s.path_tree
    → IsBare from s.fuse_map
    → Dict.lookup from s.fuse_map ≡ some e
    → IsIndexed s
    → IsIndexed (rename_file s from to e)
unfolding rename_file
rename_file-IsIndexed from to s e solid room bare found i =
    let S = moved_set s.path_tree from to in
    IsIndexed-intro S (rename_file s from to e) (rename_paths-Represents i.table from to room)
      (λ p f h. ground (
        arith,
        Dict.lookup-insert p to e (Dict.erase from s.fuse_map),
        Dict.lookup-erase p from s.fuse_map,
        i.listed p f,
        i.listed from e,
        bare p f,
        Bool-cases (under from p),
        landed i.table from to solid from,
        member-subtree_paths i.table from to from,
        i.table.solid from,
        under_refl from,
        rebase_self from to,
      ))

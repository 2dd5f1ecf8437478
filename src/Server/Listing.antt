-- ===== src/Server/Listing.antt =====
-- What `ReadDirAll` and `ListWhiteoutUnder` answer.
use coding_agent_sandbox.Common.{
  ◌+◌, ◌≡◌, Bool, true, not, ◌&&◌, none, List, [], ◌∷◌, ◌==◌, nat_eq, arith, if◌then◌else◌, count,
  member, member-count, bit, count-retain, Option-cases, inl, inr,
}
use coding_agent_sandbox.Common.Dict
use coding_agent_sandbox.Common.Dict.{is_some, keys}
use coding_agent_sandbox.FilePath.{FilePath, path_eq, depth}
use coding_agent_sandbox.FilePath.Laws.{under}
use coding_agent_sandbox.PathTree.{children_of, descendants_of}
use coding_agent_sandbox.PathTree.Queries.{count-children_of, count-descendants_of}
use coding_agent_sandbox.Disk.{FuseMap}
use coding_agent_sandbox.Server.State.{ServerState}
use coding_agent_sandbox.Server.Entries.{
  present_entries, is_whited_out, whiteout_paths, read_dir_all, list_whiteout_under,
}
use coding_agent_sandbox.Server.Indexed.{IsIndexed}

count-present_entries :
    (m : FuseMap) (ps : List FilePath) (c : FilePath)
    → count c (keys (present_entries m ps)) ≡ (if is_some (Dict.lookup c m) then count c ps else 0)
unfolding present_entries keys count
count-present_entries m [] c = ground arith
count-present_entries m (p ∷ ps) c = elim (Option-cases (Dict.lookup p m)) [
  | inl gone ↦ rw (gone, present_entries) (ground (arith, count-present_entries m ps c))
  | inr (e, found) ↦ rw (found, present_entries) (ground (arith, count-present_entries m ps c))
]

lookup-present_entries :
    (m : FuseMap) (ps : List FilePath) (c : FilePath)
    → Dict.lookup c (present_entries m ps) ≡ (if member c ps then Dict.lookup c m else none)
unfolding present_entries member
lookup-present_entries m [] c = Dict.lookup-nil c
lookup-present_entries m (p ∷ ps) c = elim (Option-cases (Dict.lookup p m)) [
  | inl gone ↦ rw (gone, present_entries) (ground (arith, lookup-present_entries m ps c))
  | inr (e, found) ↦
      rw (found, present_entries)
        (ground
          (arith, Dict.lookup-cons c p e (present_entries m ps), lookup-present_entries m ps c))
]

-- `c` is a direct child of `p`.
abbrev pub is_child : FilePath → FilePath → Bool
is_child p c = under p c && depth c == depth p + 1

module _ {s : ServerState} (i : IsIndexed s) where
  -- Where the tree covers the map, ReadDirAll lists each path of the map that is a direct child of
  -- the directory, once, and no other path.
  pub count-read_dir_all :
      (p c : FilePath)
      → count c (keys (read_dir_all s p)) ≡ bit (is_some (Dict.lookup c s.fuse_map) && is_child p c)
  unfolding read_dir_all
  count-read_dir_all p c = elim (Option-cases (Dict.lookup c s.fuse_map)) [
    | inl gone ↦
        ground (arith, count-present_entries s.fuse_map (children_of s.path_tree p) c, gone)
    | inr (e, found) ↦ ground (
      arith,
      count-present_entries s.fuse_map (children_of s.path_tree p) c,
      count-children_of i.table p c,
      i.listed c e found,
    )
  ]

  -- Where the tree covers the map, the entry that ReadDirAll gives a direct child is the one that
  -- GetEntry answers for it, and it gives none where GetEntry has none.
  pub lookup-read_dir_all :
      (p c : FilePath)
      → is_child p c ≡ true
      → Dict.lookup c (read_dir_all s p) ≡ Dict.lookup c s.fuse_map
  unfolding read_dir_all
  lookup-read_dir_all p c h = elim (Option-cases (Dict.lookup c s.fuse_map)) [
    | inl gone ↦ ground (arith, lookup-present_entries s.fuse_map (children_of s.path_tree p) c)
    | inr (e, found) ↦ ground (
      arith,
      lookup-present_entries s.fuse_map (children_of s.path_tree p) c,
      member-count c (children_of s.path_tree p),
      count-children_of i.table p c,
      i.listed c e found,
    )
  ]

  -- Where the tree covers the map, ListWhiteoutUnder answers each whiteout strictly below the
  -- path, once, and no other path.
  pub count-list_whiteout_under :
      (p d : FilePath)
      → count d (list_whiteout_under s p)
        ≡ bit (is_whited_out s.fuse_map d && under p d && not (d == p))
  unfolding list_whiteout_under whiteout_paths
  count-list_whiteout_under p d = elim (Option-cases (Dict.lookup d s.fuse_map)) [
    | inl gone ↦
        ground
          (arith, count-retain d (is_whited_out s.fuse_map) (descendants_of s.path_tree p), gone)
    | inr (e, found) ↦ ground (
      arith,
      count-retain d (is_whited_out s.fuse_map) (descendants_of s.path_tree p),
      count-descendants_of i.table p d,
      i.listed d e found,
    )
  ]

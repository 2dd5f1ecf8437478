-- ===== src/Server/Entries.antt =====
-- Listing, renaming and deleting entries in src/syncing/server.rs.
use coding_agent_sandbox.Common.{Bool, false, none, some, List, [], ◌∷◌, if◌then◌else◌, retain}
use coding_agent_sandbox.Common.Dict
use coding_agent_sandbox.Common.Dict.{Dict, is_some}
use coding_agent_sandbox.FilePath.{FilePath, path_eq, is_blank, strip_prefix, push}
use coding_agent_sandbox.PathTree
use coding_agent_sandbox.PathTree.{PathTree, children_of, descendants_of, subtree_paths}
use coding_agent_sandbox.Disk.{FuseMap}
use coding_agent_sandbox.Proto.{FuseEntry, entry_type_eq, is_whiteout}
use mathlib.Core.List.{foldl}
use coding_agent_sandbox.Server.State.{ServerState}

-- The path of `p` once `from` is called `to`.
unfoldable pub rebase : FilePath → FilePath → FilePath → FilePath
rebase from to p = elim (strip_prefix p from) [
  | none ↦ to
  | some rel ↦ if is_blank rel then to else push to rel
]

-- `rename_tree`: the subtree goes, and each of its paths comes back below `to`.
unfoldable pub rename_paths : PathTree → FilePath → FilePath → PathTree
rename_paths t from to =
    foldl (λ u p. PathTree.insert u (rebase from to p)) (PathTree.remove t from).1
      (subtree_paths t from)

unfoldable pub present_entries : FuseMap → List FilePath → List (FilePath × FuseEntry)
present_entries m [] = []
present_entries m (p ∷ ps) =
    let rest = present_entries m ps in
    elim (Dict.lookup p m) [ none ↦ rest | some entry ↦ (p, entry) ∷ rest ]

unfoldable pub is_whited_out : FuseMap → FilePath → Bool
is_whited_out m p = elim (Dict.lookup p m) [ none ↦ false | some entry ↦ is_whiteout entry ]

unfoldable pub whiteout_paths : FuseMap → List FilePath → List FilePath
unfolding is_whited_out
whiteout_paths m ps = retain (is_whited_out m) ps

-- The requests whose answer only reads the state.
unfoldable pub read_dir_all : ServerState → FilePath → List (FilePath × FuseEntry)
read_dir_all s path = present_entries s.fuse_map (children_of s.path_tree path)

unfoldable pub list_whiteout_under : ServerState → FilePath → List FilePath
list_whiteout_under s path = whiteout_paths s.fuse_map (descendants_of s.path_tree path)

-- `RenameFile` of an entry that is there.
unfoldable pub rename_file : ServerState → FilePath → FilePath → FuseEntry → ServerState
rename_file s from to entry = record s {
  fuse_map = Dict.insert to entry (Dict.erase from s.fuse_map);
  path_tree = rename_paths s.path_tree from to;
}

-- One round of the loop of `RenameTree`.
unfoldable pub move_entry : FilePath → FilePath → FuseMap → FilePath → FuseMap
move_entry from to m old = elim (Dict.lookup old m) [
  | none ↦ m
  | some entry ↦ Dict.insert (rebase from to old) entry (Dict.erase old m)
]

unfoldable pub rename_tree : ServerState → FilePath → FilePath → ServerState
rename_tree s from to = record s {
  fuse_map = foldl (move_entry from to) s.fuse_map (subtree_paths s.path_tree from);
  path_tree = rename_paths s.path_tree from to;
}

unfoldable pub delete_file : ServerState → FilePath → ServerState
delete_file s path = record s {
  fuse_map = Dict.erase path s.fuse_map;
  path_tree = (PathTree.remove s.path_tree path).1;
}

-- The tree keeps the path.
unfoldable pub delete_whiteout : ServerState → FilePath → ServerState
delete_whiteout s path = elim (Dict.lookup path s.fuse_map) [
  | none ↦ s
  | some entry ↦ if is_whiteout entry then record s { fuse_map = Dict.erase path s.fuse_map } else s
]

-- ===== src/Fuse/Readdir.antt =====
-- src/fuse/decision.rs: which child of a directory is shown, and from where.
pub mod Overlay
use coding_agent_sandbox.Common.{
  Bool, true, false, not, ◌&&◌, ◌==◌, Option, none, some, List, [], ◌∷◌, nat_eq, list_eq,
}
use coding_agent_sandbox.Common.Dict
use coding_agent_sandbox.Common.Dict.{Dict, is_some}
use coding_agent_sandbox.FilePath.{FilePath, Name}
use coding_agent_sandbox.Proto.{EntryType, file, dir, symlink, whiteout, entry_type_eq}
use coding_agent_sandbox.Fuse.Policy.{AccessMode, passthrough, fuse_only, copy_on_write}
use coding_agent_sandbox.Fuse.State.{
  FileType, directory, regular_file, RealChild, FuseChild, ReaddirChildState, ReaddirState,
}

pub data ChildDecision : Type 0 where
  hide show_real show_fuse dont_care_collision : ChildDecision

pub record ReaddirDecision : Type 0 where
  pub per_child : Dict Name ChildDecision

decide_child_by_mode : AccessMode → Bool → Bool → ChildDecision
decide_child_by_mode passthrough false false = hide
decide_child_by_mode passthrough true false = show_real
decide_child_by_mode passthrough false true = show_fuse
decide_child_by_mode passthrough true true = dont_care_collision
decide_child_by_mode fuse_only _ true = show_fuse
decide_child_by_mode fuse_only _ false = hide
decide_child_by_mode copy_on_write _ true = show_fuse
decide_child_by_mode copy_on_write true false = show_real
decide_child_by_mode copy_on_write false false = hide

unfoldable pub decide_child : AccessMode → Bool → Bool → Bool → ChildDecision
unfolding decide_child_by_mode
decide_child mode has_real has_fuse true = hide
decide_child mode has_real has_fuse false = decide_child_by_mode mode has_real has_fuse

unfoldable pub fuse_is_whiteout : Option FuseChild → Bool
unfolding entry_type_eq
fuse_is_whiteout none = false
fuse_is_whiteout (some f) = f.entry_type == whiteout

-- The loop's body, on one child.
unfoldable pub decide_one : AccessMode → ReaddirChildState → ChildDecision
decide_one mode child =
    decide_child mode (is_some child.real) (is_some child.fuse) (fuse_is_whiteout child.fuse)

unfoldable pub decide_rows : AccessMode → Dict Name ReaddirChildState → Dict Name ChildDecision
decide_rows mode [] = []
decide_rows mode ((name, child) ∷ children) =
    (name, decide_one mode child) ∷ decide_rows mode children

-- The children are a map, so each insertion is of a name that is not there yet.
unfoldable pub decide_readdir : ReaddirState → ReaddirDecision
decide_readdir state = record { per_child = decide_rows state.access_mode state.children }

pub data ReaddirError : Type 0 where
  unknown_child show_real_without_real show_fuse_without_fuse : ReaddirError

-- The check of one row, `none` where it passes.
unfoldable pub validate_child : Option ReaddirChildState → ChildDecision → Option ReaddirError
validate_child none decision = some unknown_child
validate_child (some child) show_real = elim child.real [
  | none ↦ some show_real_without_real
  | some r ↦ none
]
validate_child (some child) show_fuse = elim child.fuse [
  | none ↦ some show_fuse_without_fuse
  | some f ↦ none
]
validate_child (some child) _ = none

unfoldable pub validate_rows :
    Dict Name ReaddirChildState → Dict Name ChildDecision → Option ReaddirError
validate_rows children [] = none
validate_rows children ((name, decision) ∷ rows) =
    elim (validate_child (Dict.lookup name children) decision) [
      | some err ↦ some err
      | none ↦ validate_rows children rows
    ]

-- The error that is returned, `none` for `Ok(())`.
unfoldable pub validate_readdir_decision : ReaddirState → ReaddirDecision → Option ReaddirError
validate_readdir_decision state decision = validate_rows state.children decision.per_child

unfoldable pub file_type_of : EntryType → Option FileType
file_type_of dir = some directory
file_type_of symlink = some FileType.symlink
file_type_of file = some regular_file
file_type_of whiteout = none

unfoldable pub visible_fuse : Option FuseChild → Option (FileType × FilePath)
visible_fuse none = none
visible_fuse (some f) = elim (file_type_of f.entry_type) [
  | none ↦ none
  | some kind ↦ some (kind, f.path)
]

unfoldable pub visible_real : Option RealChild → Option (FileType × FilePath)
visible_real none = none
visible_real (some r) = some (r.kind, r.path)

unfoldable pub visible : ReaddirChildState → ChildDecision → Option (FileType × FilePath)
visible child hide = none
visible child show_real = visible_real child.real
visible child show_fuse = visible_fuse child.fuse
visible child dont_care_collision = elim child.real [
  | some r ↦ some (r.kind, r.path)
  | none ↦ visible_fuse child.fuse
]

unfoldable pub choose_visible_child :
    ReaddirState → Name → ChildDecision → Option (FileType × FilePath)
choose_visible_child state name decision = elim (Dict.lookup name state.children) [
  | none ↦ none
  | some child ↦ visible child decision
]

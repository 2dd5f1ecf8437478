-- ===== src/Fuse/Decision.antt =====
-- src/fuse/decision.rs: what an operation on a path does, from the state that was loaded.
pub mod Open
pub mod Isolation
use coding_agent_sandbox.Common.{
  ℕ, Bool, true, false, not, ◌&&◌, ◌||◌, Option, none, some, List, [], ◌∷◌, ◌++◌, ◌==◌, Eq,
  if◌then◌else◌,
}
use coding_agent_sandbox.Common.Dict.{is_some}
use coding_agent_sandbox.Proto.{
  EntryType, file, dir, symlink, whiteout, FuseEntry, entry_type_eq, is_whiteout, is_dir,
}
use coding_agent_sandbox.Fuse.Policy.{AccessMode, passthrough, fuse_only, copy_on_write}
use coding_agent_sandbox.Fuse.State.{
  StatState, OpenState, CreateState, UnlinkState, RmdirState, MkdirState, RenameState, SetattrState,
  ReadlinkState,
}

pub data StatDecision : Type 0 where
  use_real use_fuse not_found : StatDecision

pub record OpenObject : Type 0 where
  pub existing_object_id : Option ℕ
  pub needs_ensure : Bool
  pub copy_up_from_real : Bool
  pub delete_whiteout : Bool

pub data OpenDecision : Type 0 where
  not_found error open_real : OpenDecision
  open_object : OpenObject → OpenDecision

pub data OpenTransitionStep : Type 0 where
  reject_whiteout open_real ensure_object copy_up_from_real : OpenTransitionStep
  delete_whiteout open_object error_missing_object_path : OpenTransitionStep

step_discrete : Discrete OpenTransitionStep
step_discrete = hlevel

instance unfoldable pub step_eq : Eq OpenTransitionStep
unfolding step_discrete
step_eq = record { dec = step_discrete }

unfoldable pub is_whiteout_entry : Option FuseEntry → Bool
unfolding entry_type_eq
is_whiteout_entry none = false
is_whiteout_entry (some e) = is_whiteout e

unfoldable pub entry_object : Option FuseEntry → Option ℕ
entry_object none = none
entry_object (some e) = e.object_id

abbrev pub Plan : Type 0
Plan = OpenDecision × List OpenTransitionStep

-- `if test { transitions.push(step) }`
unfoldable pub step_if : Bool → OpenTransitionStep → List OpenTransitionStep
step_if test step = if test then step ∷ [] else []

unfoldable pub open_fuse_only : Option ℕ → Bool → Plan
unfolding step_if
open_fuse_only object_id has_object_path =
    let needs_ensure = not (is_some object_id) || not has_object_path in
    (
      OpenDecision.open_object (record {
        existing_object_id = object_id;
        needs_ensure = needs_ensure;
        copy_up_from_real = false;
        delete_whiteout = false;
      }),
      step_if needs_ensure ensure_object ++ (OpenTransitionStep.open_object ∷ []),
    )

unfoldable pub open_cow_read : Option ℕ → Bool → Plan
open_cow_read (some id) true = (
  OpenDecision.open_object (record {
    existing_object_id = some id;
    needs_ensure = false;
    copy_up_from_real = false;
    delete_whiteout = false;
  }),
  OpenTransitionStep.open_object ∷ [],
)
open_cow_read (some id) false = (OpenDecision.error, error_missing_object_path ∷ [])
open_cow_read none _ = (OpenDecision.open_real, OpenTransitionStep.open_real ∷ [])

unfoldable pub open_cow_write : OpenState → Option ℕ → Bool → Plan
unfolding step_if
open_cow_write s object_id has_object_path =
    let needs_ensure = not (is_some object_id) || not has_object_path in
    let copy_up = not (is_some object_id) && not s.truncate_requested && s.real_exists in
    (
      OpenDecision.open_object (record {
        existing_object_id = object_id;
        needs_ensure = needs_ensure;
        copy_up_from_real = copy_up;
        delete_whiteout = true;
      }),
      step_if needs_ensure ensure_object
          ++ (step_if copy_up OpenTransitionStep.copy_up_from_real
              ++ (OpenTransitionStep.delete_whiteout ∷ OpenTransitionStep.open_object ∷ [])),
    )

unfoldable pub open_by_mode : AccessMode → OpenState → Option ℕ → Bool → Plan
open_by_mode passthrough s object_id has_object_path =
    (OpenDecision.open_real, OpenTransitionStep.open_real ∷ [])
open_by_mode fuse_only s object_id has_object_path = open_fuse_only object_id has_object_path
open_by_mode copy_on_write s object_id has_object_path =
    if s.need_write
    then open_cow_write s object_id has_object_path
    else open_cow_read object_id has_object_path

-- `compute_open_behavior` and `decide_open_with_transitions`
unfoldable pub compute_open_behavior : OpenState → OpenDecision × List OpenTransitionStep
compute_open_behavior s =
    if is_whiteout_entry s.fuse_entry
    then (OpenDecision.not_found, reject_whiteout ∷ [])
    else open_by_mode s.access_mode s (entry_object s.fuse_entry) (is_some s.object_path)

unfoldable pub decide_open : OpenState → OpenDecision
decide_open s = (compute_open_behavior s).0

unfoldable pub extract_open_transitions : OpenState → List OpenTransitionStep
extract_open_transitions s = (compute_open_behavior s).1

pub data CreateDecision : Type 0 where
  create_real create_object : CreateDecision

-- The decisions that the mode alone makes.
abbrev by_mode {ℓ} : {A : Type ℓ} → AccessMode → A → A → A
by_mode passthrough real fuse = real
by_mode fuse_only real fuse = fuse
by_mode copy_on_write real fuse = fuse

unfoldable pub decide_create : CreateState → CreateDecision
decide_create s = by_mode s.access_mode create_real create_object

pub data UnlinkDecision : Type 0 where
  remove_real whiteout_path : UnlinkDecision

unfoldable pub decide_unlink : UnlinkState → UnlinkDecision
decide_unlink s = by_mode s.access_mode remove_real whiteout_path

pub data RmdirDecision : Type 0 where
  remove_real whiteout_recursive : RmdirDecision

unfoldable pub decide_rmdir : RmdirState → RmdirDecision
decide_rmdir s = by_mode s.access_mode RmdirDecision.remove_real whiteout_recursive

pub data RenameDecision : Type 0 where
  rename_real rename_fuse_file_or_symlink rename_fuse_tree : RenameDecision

unfoldable pub is_dir_entry : Option FuseEntry → Bool
unfolding entry_type_eq
is_dir_entry none = false
is_dir_entry (some e) = is_dir e

unfoldable pub decide_rename : RenameState → RenameDecision
unfolding is_dir_entry
decide_rename s =
    by_mode s.access_mode rename_real
      (if is_dir_entry s.from_entry then rename_fuse_tree else rename_fuse_file_or_symlink)

pub data SetattrDecision : Type 0 where
  update_open_handle update_real_fs update_daemon_meta : SetattrDecision

unfoldable pub decide_setattr : SetattrState → SetattrDecision
decide_setattr s =
    if s.fh_present && s.has_open_handle
    then update_open_handle
    else by_mode s.access_mode update_real_fs update_daemon_meta

pub data ReadlinkDecision : Type 0 where
  use_fuse use_real not_found : ReadlinkDecision

-- The kind of the entry, if there is one.
readlink_by_kind : ReadlinkDecision → Option FuseEntry → ReadlinkDecision
readlink_by_kind other none = other
readlink_by_kind other (some e) = elim e.entry_type [
  | symlink ↦ ReadlinkDecision.use_fuse
  | whiteout ↦ ReadlinkDecision.not_found
  | _ ↦ other
]

unfoldable pub decide_readlink : ReadlinkState → ReadlinkDecision
unfolding readlink_by_kind
decide_readlink s = elim s.access_mode [
  | passthrough ↦ ReadlinkDecision.use_real
  | fuse_only ↦ readlink_by_kind ReadlinkDecision.not_found s.fuse_entry
  | copy_on_write ↦ readlink_by_kind ReadlinkDecision.use_real s.fuse_entry
]

pub data MkdirDecision : Type 0 where
  create_real create_daemon : MkdirDecision

unfoldable pub decide_mkdir : MkdirState → MkdirDecision
decide_mkdir s = by_mode s.access_mode MkdirDecision.create_real create_daemon

stat_real : Bool → StatDecision
stat_real real_exists = if real_exists then StatDecision.use_real else StatDecision.not_found

stat_entry : StatDecision → Option FuseEntry → StatDecision
unfolding entry_type_eq
stat_entry absent none = absent
stat_entry absent (some e) = if is_whiteout e then StatDecision.not_found else StatDecision.use_fuse

unfoldable pub decide_stat : StatState → StatDecision
unfolding stat_real stat_entry
decide_stat s = elim s.access_mode [
  | passthrough ↦ stat_real s.real_exists
  | fuse_only ↦ stat_entry StatDecision.not_found s.fuse_entry
  | copy_on_write ↦ stat_entry (stat_real s.real_exists) s.fuse_entry
]

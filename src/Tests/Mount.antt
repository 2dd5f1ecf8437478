-- ===== src/Tests/Mount.antt =====
-- The filesystem process (Fuse.antt): its decisions, listings and inode numbers.
use coding_agent_sandbox.Common.{
  ◌≡◌, ◌≢◌, refl, Bool, true, false, Option, none, some, [], ◌∷◌, arith, nat_eq, list_eq,
}
use coding_agent_sandbox.Common.Dict
use coding_agent_sandbox.Common.Dict.{Dict, NodupKeys, is_some}
use coding_agent_sandbox.FilePath.{FilePath, Name, path_eq}
use coding_agent_sandbox.Proto.{EntryType, FuseEntry, entry_type_eq}
use coding_agent_sandbox.Server.State.{file_entry, no_metadata}
use coding_agent_sandbox.Fuse.Policy.{AccessMode, passthrough, copy_on_write}
use coding_agent_sandbox.Fuse.State.{
  FileType, RealChild, ReaddirChildState, ReaddirState, StatState, OpenState,
}
use coding_agent_sandbox.Fuse.Decision.{
  OpenDecision, OpenObject, OpenTransitionStep, decide_open, extract_open_transitions, decide_stat,
  compute_open_behavior, open_by_mode, open_cow_read, open_cow_write, is_whiteout_entry,
  entry_object,
}
use coding_agent_sandbox.Fuse.Decision.Open.{IsOrdered, Fits, open-Fits}
use coding_agent_sandbox.Fuse.Decision.Isolation.{
  Change, is_real, is_passthrough, mode_of, change_isolated,
}
use coding_agent_sandbox.Fuse.Readdir.{decide_one, visible}
use coding_agent_sandbox.Fuse.Readdir.Overlay.{
  shown, overlay_at, shown-overlay, is_found, stat_agrees,
}
use coding_agent_sandbox.Fuse.Inode.{InodeTable, init, get_or_insert, get_path}
use coding_agent_sandbox.Fuse.Inode.Laws.{IsValid, init-IsValid, get_or_insert-IsValid}
use coding_agent_sandbox.Tests.Tree.{path_a, path_c}

-- An open of `/c`, which is a real file, with an entry or without.
abbrev open_c : AccessMode → Bool → Option FuseEntry → Option FilePath → OpenState
open_c mode write entry object = record {
  access_mode = mode;
  path = path_c;
  need_write = write;
  truncate_requested = false;
  real_exists = true;
  fuse_entry = entry;
  object_path = object;
}

-- The first write to a real file copies it.
first_write :
    extract_open_transitions (open_c copy_on_write true none none)
    ≡ OpenTransitionStep.ensure_object ∷ OpenTransitionStep.copy_up_from_real
      ∷ OpenTransitionStep.delete_whiteout ∷ OpenTransitionStep.open_object ∷ []
unfolding extract_open_transitions compute_open_behavior open_by_mode open_cow_write
    is_whiteout_entry entry_object
first_write = refl

open-Fits_example :
    IsOrdered 0 (extract_open_transitions (open_c copy_on_write true none none))
    × Fits
        (decide_open (open_c copy_on_write true none none))
        (extract_open_transitions (open_c copy_on_write true none none))
open-Fits_example = open-Fits (open_c copy_on_write true none none)

abbrev pub kept : FuseEntry
kept = file_entry 7 no_metadata

abbrev reopened : OpenState
reopened = open_c copy_on_write false (some kept) (some path_a)

abbrev object_7 : OpenObject
object_7 = record {
  existing_object_id = some 7;
  needs_ensure = false;
  copy_up_from_real = false;
  delete_whiteout = false;
}

reopened_object : decide_open reopened ≡ OpenDecision.open_object object_7
unfolding decide_open compute_open_behavior open_by_mode open_cow_read is_whiteout_entry
    entry_object entry_type_eq
reopened_object = refl

pub cow_differs : copy_on_write ≢ passthrough
cow_differs e = ground arith

abbrev unlink_c : Change
unlink_c = Change.unlink (record { access_mode = copy_on_write; path = path_c })

change_isolated_example : is_real unlink_c ≡ is_passthrough (mode_of unlink_c)
change_isolated_example = change_isolated unlink_c refl

-- A directory with a real file `x`, and a whiteout over a real file `y`.
abbrev pub name_x : Name
name_x = 120 ∷ []

abbrev name_y : Name
name_y = 121 ∷ []

abbrev real_file : RealChild
real_file = record { kind = FileType.regular_file; path = path_c }

abbrev child_x : ReaddirChildState
child_x = record { real = some real_file; fuse = none }

abbrev child_y : ReaddirChildState
child_y = record {
  real = some real_file;
  fuse = some (record { entry_type = EntryType.whiteout; path = path_c });
}

abbrev listing : ReaddirState
listing = record {
  access_mode = copy_on_write;
  children = (name_x, child_x) ∷ (name_y, child_y) ∷ [];
}

listing-NodupKeys : NodupKeys listing.children
unfolding Dict.lookup list_eq nat_eq
listing-NodupKeys = (refl, (refl, tt))

shown-overlay_example :
    shown listing name_y ≡ overlay_at copy_on_write (Dict.lookup name_y listing.children)
shown-overlay_example = shown-overlay listing name_y

abbrev stat_x : StatState
stat_x = record { access_mode = copy_on_write; real_exists = true; fuse_entry = none }

stat_agrees_example :
    is_found (decide_stat stat_x) ≡ is_some (visible child_x (decide_one copy_on_write child_x))
stat_agrees_example = stat_agrees stat_x child_x cow_differs refl refl

abbrev fresh : InodeTable
fresh = init path_a

get_or_insert-IsValid_example : IsValid (get_or_insert fresh path_c).1
unfolding init
get_or_insert-IsValid_example =
    get_or_insert-IsValid fresh path_c (omega arith) (init-IsValid path_a)

root_there : get_path fresh 1 ≡ some path_a
unfolding init get_path Dict.lookup nat_eq
root_there = refl

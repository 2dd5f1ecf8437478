-- ===== src/Tests/Filesystem.antt =====
-- The filesystem process against the daemon: `/a` holds the object store and one file `/a/b`, and
-- `/c` is a real file.
use coding_agent_sandbox.Common.{
  ltb, ◌==◌, Bool, if◌then◌else◌, ℕ, ◌≡◌, ◌≢◌, refl, true, false, none, some, List, [], ◌∷◌, arith,
  nat_eq, list_eq, option_eq, length, bool_eq,
}
use coding_agent_sandbox.Common.Dict
use coding_agent_sandbox.Common.Dict.{Dict}
use coding_agent_sandbox.FilePath.{
  FilePath, path_eq, file_name, join, is_blank, starts_with, strip_prefix,
}
use coding_agent_sandbox.FilePath.Laws.{under}
use coding_agent_sandbox.PathTree
use coding_agent_sandbox.PathTree.{children_of}
use coding_agent_sandbox.Proto.{EntryType, entry_type_eq}
use coding_agent_sandbox.Server.State.{put_entry, no_metadata}
use coding_agent_sandbox.Server.Entries.{read_dir_all, present_entries}
use coding_agent_sandbox.Server.Dispatch.{dispatch}
use coding_agent_sandbox.Host.{HostCall, Value}
use coding_agent_sandbox.Prog.{
  Result, ok, err, bind, ◌>>=◌, ◌>>◌, or_return, attempt, from_host, call, pure,
}
use coding_agent_sandbox.Prog.Safe.{Zone, inside}
use coding_agent_sandbox.Prog.Run.{Link, Oracle, over_link, respond, run}
use coding_agent_sandbox.Client.{send, decoded, dir_entries_found, entry_found}
use coding_agent_sandbox.Fuse.Policy.{Policy, copy_on_write, passthrough}
use coding_agent_sandbox.Fuse.State.{FileType, ReaddirState, RenameState}
use coding_agent_sandbox.Fuse.Decision.Isolation.{Change, is_real, is_passthrough}
use coding_agent_sandbox.Fuse.Readdir.{decide_readdir, validate_readdir_decision}
use coding_agent_sandbox.Fuse.StateLoader.{
  load_readdir_state, load_rename_state, load_stat_state, add_real, add_fuse, slot,
}
use coding_agent_sandbox.Fuse.StateLoader.Listing.{load_readdir_state_valid}
use coding_agent_sandbox.Fuse.StateLoader.Renaming.{load_rename_state_by_source}
use coding_agent_sandbox.Fuse.OpenFile.{OpenFile, passthrough_object, OpenAccMode, OpenFlags}
use coding_agent_sandbox.Fuse.Handler.{new}
use coding_agent_sandbox.Fuse.Handler.Contained.{AllContained}
use coding_agent_sandbox.Fuse.Fs.{Mount, Caller, DirRow}
use coding_agent_sandbox.Fuse.Fs.Contained.{Covers}
use coding_agent_sandbox.Fuse.Fs.Directory.Pages.{pages, pages_all}
use coding_agent_sandbox.Fuse.Walk.{items_of, push_directories, is_directory, paths_in}
use coding_agent_sandbox.Fuse.Walk.Ends.{Loop, ends, turns}
use coding_agent_sandbox.Fuse.Decision.{CreateDecision, StatDecision, UnlinkDecision, decide_stat}
use coding_agent_sandbox.Fuse.Executor.{execute_create, execute_unlink}
use coding_agent_sandbox.Fuse.Executor.Removed.{unlink-stat}
use coding_agent_sandbox.Fuse.Executor.Create.{execute_create_read_only}
use coding_agent_sandbox.Fuse.Fs.Serve.{Operation, serve_all}
use coding_agent_sandbox.Fuse.Fs.Serve.Isolated.{zone_of, serve_all-isolated}
use coding_agent_sandbox.Tests.Tree.{path_a, path_ab, path_c}
use coding_agent_sandbox.Tests.Storage.{codec}
use coding_agent_sandbox.Tests.Daemon.{world, all_succeed}
use coding_agent_sandbox.Tests.Mount.{name_x, cow_differs}

abbrev classify_all : Policy
classify_all = record { classify = λ p. copy_on_write; should_log = λ p. true }

-- Every listing has the file `x`, and every other call of the host fails.
abbrev lists_x : (h : HostCall) → Result ℕ (Value h)
lists_x (HostCall.read_dir p) = ok ((name_x, FileType.regular_file) ∷ [])
lists_x _ = err 5

abbrev quiet : Oracle
quiet = record {
  link = λ n. Link.delivered;
  io = λ n. all_succeed;
  answer = λ n. lists_x;
  updates = λ n. (path_c, none) ∷ [];
}

abbrev loaded : ReaddirState
loaded = record {
  access_mode = copy_on_write;
  children =
      (
        name_x,
        record {
          real = some (record {
            kind = FileType.regular_file;
            path = record { absolute = true; names = name_x ∷ (97 ∷ []) ∷ [] };
          });
          fuse = none;
        },
      )
      ∷ (
        98 ∷ [],
        record {
          real = none;
          fuse = some (record { entry_type = EntryType.file; path = path_ab });
        },
      )
      ∷ [];
}

loaded_listing : (run codec quiet 0 (load_readdir_state classify_all path_a) world).0 ≡ ok loaded
unfolding load_readdir_state add_real add_fuse slot Dict.lookup Dict.insert list_eq nat_eq file_name
    join run respond over_link bind or_return ◌>>=◌ attempt call from_host send decoded
    dir_entries_found dispatch read_dir_all present_entries children_of put_entry PathTree.insert
    path_eq
loaded_listing = refl

load_readdir_state_valid_example : validate_readdir_decision loaded (decide_readdir loaded) ≡ none
load_readdir_state_valid_example =
    load_readdir_state_valid codec quiet 0 world classify_all path_a loaded loaded_listing

-- A policy that passes `/c` through, by its first letter, and protects the rest.
abbrev mixed : Policy
mixed = record {
  classify = λ p. elim p.names [
    | [] ↦ copy_on_write
    | ◌∷◌ n _ ↦ elim n [
      | [] ↦ copy_on_write
      | ◌∷◌ k _ ↦ if ltb 98 k then passthrough else copy_on_write
    ]
  ];
  should_log = λ p. false;
}

abbrev rename_c : RenameState
rename_c = record { access_mode = passthrough; from = path_c; to = path_ab; from_entry = none }

rename_loaded : (run codec quiet 0 (load_rename_state mixed path_c path_ab) world).0 ≡ ok rename_c
unfolding load_rename_state run respond over_link bind or_return ◌>>=◌ send decoded entry_found
    dispatch Dict.lookup Dict.insert list_eq nat_eq path_eq put_entry
rename_loaded = refl

load_rename_state_by_source_example :
    is_real (Change.rename rename_c) ≡ is_passthrough (mixed.classify path_c)
load_rename_state_by_source_example =
    load_rename_state_by_source mixed path_c path_ab codec quiet 0 world rename_c rename_loaded

-- A process removes `/c`, makes `/d`, writes to it through the handle 1 and renames it.
abbrev mount : Mount
mount = record { policy = classify_all; is_utf8 = λ n. true; fits = λ rows row. true; fuel = 9 }

abbrev caller : Caller
caller = record { uid = 1000; gid = 1000; pid = 7 }

abbrev requests : List (Caller × Operation)
requests =
    (caller, Operation.unlink 1 (99 ∷ []))
    ∷ (
      caller,
      Operation.create 1 (100 ∷ []) 420
          (record { acc_mode = OpenAccMode.wronly; append = false; truncate = true }),
    )
    ∷ (caller, Operation.write 2 1 0 (1 ∷ 2 ∷ []))
    ∷ []

-- `/d` is given to the host, all other paths are copied on write.
abbrev path_d : FilePath
path_d = record { absolute = true; names = (100 ∷ []) ∷ [] }

abbrev mixed_mount : Mount
mixed_mount = record mount {
  policy = record {
    classify = λ p. if p == path_d then passthrough else copy_on_write;
    should_log = λ p. false;
  };
}

abbrev open_d : FilePath → Bool
open_d q = q == path_d

abbrev zone : Zone
zone = zone_of world open_d

covered : Covers zone mixed_mount.policy
unfolding inside
covered p e = ground (arith, e)

path_c-outside : inside zone path_c ≡ false
unfolding inside under is_blank starts_with strip_prefix list_eq nat_eq bool_eq put_entry path_eq
path_c-outside = refl

store_solid : is_blank path_a ≡ false
unfolding is_blank
store_solid = refl

nothing_open : AllContained zone (new 1000 1000)
unfolding AllContained new
nothing_open fh f h = ground (arith, Dict.lookup-nil {V = OpenFile} fh)

serve_all-isolated_example :
    (Dict.lookup path_c
        (run codec quiet 0 (serve_all mixed_mount requests [] (new 1000 1000)) world).1.files
      ≡ Dict.lookup path_c world.files)
    × AllContained zone
        (run codec quiet 0 (serve_all mixed_mount requests [] (new 1000 1000)) world).0.1
unfolding put_entry
serve_all-isolated_example =
    serve_all-isolated codec quiet 0 mixed_mount requests (new 1000 1000) world open_d path_c
      store_solid covered (tt, (tt, (tt, tt))) nothing_open path_c-outside

abbrev two_rows : List DirRow
two_rows =
    record { ino = 1; offset = 1; kind = FileType.directory; name = 46 ∷ [] }
    ∷ record { ino = 2; offset = 2; kind = FileType.regular_file; name = name_x }
    ∷ []

pages_all_example : pages mount two_rows 0 (length two_rows) ≡ two_rows
pages_all_example = pages_all mount (λ row. refl) two_rows

-- `O_RDONLY | O_CREAT`
abbrev read_only : OpenFlags
read_only = record { acc_mode = OpenAccMode.rdonly; append = false; truncate = false }

abbrev object_file : OpenFile
object_file = passthrough_object (record { path = path_ab; writable = false }) 1

execute_create_read_only_example :
    (run codec quiet 0
      (execute_create CreateDecision.create_object path_c read_only no_metadata)
      world).0
    ≢ ok object_file
execute_create_read_only_example =
    execute_create_read_only codec quiet 0 world CreateDecision.create_object path_c read_only
      no_metadata object_file refl refl

-- `/a` holds the one file `x`.
one_turn : Loop quiet 0 1 (path_a ∷ []) [] (join path_a name_x ∷ [])
unfolding items_of from_host push_directories is_directory paths_in
one_turn = turns ends

unlink-stat_example :
    (run codec quiet 0
      (execute_unlink UnlinkDecision.whiteout_path path_c
        >> (load_stat_state classify_all path_c >>= λ s. pure (decide_stat s)))
      world).0
    ≡ ok StatDecision.not_found
unlink-stat_example = unlink-stat codec quiet 0 world classify_all path_c (λ k. refl) cow_differs

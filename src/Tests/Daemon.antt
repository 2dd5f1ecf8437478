-- ===== src/Tests/Daemon.antt =====
-- The daemon (Server.antt) with one file at `/a/b` and a real file at `/c`.
use coding_agent_sandbox.Common.{
  ◌≡◌, ◌≢◌, refl, true, none, some, [], ◌∷◌, ◌&&◌, nat_eq, arith, count, bit,
}
use coding_agent_sandbox.Common.Dict
use coding_agent_sandbox.Common.Dict.{is_some, keys}
use coding_agent_sandbox.FilePath.{FilePath, path_eq, is_blank}
use coding_agent_sandbox.FilePath.Laws.{under_refl, under-join}
use coding_agent_sandbox.Files.{Files, written}
use coding_agent_sandbox.PathTree
use coding_agent_sandbox.PathTree.FromPaths.{nothing, empty-Represents}
use coding_agent_sandbox.ObjectStore.{
  ObjectStore, object_path, copied, put, put_copy_from, alloc_empty,
}
use coding_agent_sandbox.Proto.{Request, Response, FuseEntry, entry_type_eq}
use coding_agent_sandbox.Server.State.{ServerState, World, Io, put_entry, file_entry, no_metadata}
use coding_agent_sandbox.Server.Objects.{
  reusable, ensured, allocated, ensure_file_object, ensure_file_object_from_real,
}
use coding_agent_sandbox.Server.Entries.{read_dir_all}
use coding_agent_sandbox.Server.Dispatch.{dispatch}
use coding_agent_sandbox.Server.Indexed.{IsIndexed, IsIndexed-intro, IsPlain, put_entry-IsIndexed}
use coding_agent_sandbox.Server.Steps.{dispatch-IsIndexed}
use coding_agent_sandbox.Server.Listing.{is_child, count-read_dir_all, lookup-read_dir_all}
use coding_agent_sandbox.Server.Owned.{Owns, insert-Owns}
use coding_agent_sandbox.Server.Isolation.{IsOwned, dispatch-IsOwned}
use coding_agent_sandbox.Server.Private.{
  ensure_file_object_private, ensure_file_object_from_real_private, copy_up,
}
use coding_agent_sandbox.Tests.Tree.{path_a, path_ab, path_c}
use coding_agent_sandbox.Tests.Storage.{codec, both_written}

abbrev store : ObjectStore
store = record { dir = path_a; next_id = 5 }

abbrev new_server : ServerState
new_server = record {
  objects = store;
  fuse_map = [];
  path_tree = PathTree.empty;
  sandbox_dir = path_a;
  shm_name = [];
  abi_version = 3;
}

abbrev server : ServerState
server = put_entry path_ab (file_entry 1 no_metadata) new_server

abbrev real : Files
real = (path_c, 1 ∷ 2 ∷ []) ∷ []

abbrev pub world : World
world = record { server = server; files = real }

abbrev pub all_succeed : Io
all_succeed = record { write = written; copy = copied; flush = both_written }

new_server-IsIndexed : IsIndexed new_server
new_server-IsIndexed =
    IsIndexed-intro nothing new_server empty-Represents
      (λ p e h. ground (arith, Dict.lookup-nil {V = FuseEntry} p))

path_ab-IsPlain : IsPlain path_ab
path_ab-IsPlain = record { solid = unfold is_blank in refl; shallow = omega arith }

path_c-IsPlain : IsPlain path_c
path_c-IsPlain = record { solid = unfold is_blank in refl; shallow = omega arith }

server-IsIndexed : IsIndexed server
server-IsIndexed =
    put_entry-IsIndexed path_ab (file_entry 1 no_metadata) new_server path_ab-IsPlain
      new_server-IsIndexed

abbrev copy_up_c : Request
copy_up_c = Request.ensure_file_object_from_real path_c no_metadata

dispatch-IsIndexed_example : IsIndexed (dispatch codec copy_up_c all_succeed world).1.server
dispatch-IsIndexed_example =
    dispatch-IsIndexed codec copy_up_c all_succeed world path_c-IsPlain server-IsIndexed

nobody-Owns : Owns [] 5
nobody-Owns = record {
  below = λ p e id h k. ground (arith, Dict.lookup-nil {V = FuseEntry} p);
  unshared = λ p q e f id h k i j. ground (arith, Dict.lookup-nil {V = FuseEntry} p);
}

server-IsOwned : IsOwned server
unfolding put_entry
server-IsOwned =
    insert-Owns path_ab (file_entry 1 no_metadata) (omega arith)
      (λ id h. record {
        numbered = ground arith;
        alone = λ q f k l. ground (arith, Dict.lookup-nil {V = FuseEntry} q);
      })
      nobody-Owns

dispatch-IsOwned_example : IsOwned (dispatch codec copy_up_c all_succeed world).1.server
unfolding put_entry
dispatch-IsOwned_example =
    dispatch-IsOwned codec copy_up_c all_succeed world (omega arith) server-IsOwned

abbrev made : Response × World
made = ensure_file_object path_c no_metadata all_succeed world

abbrev copied_up : Response × World
copied_up = ensure_file_object_from_real path_c no_metadata all_succeed world

abbrev answer : Response
answer = Response.ensure_file_object 5 (object_path store 5)

apart : path_ab ≢ path_c
apart e = ground arith

made_answer : made.0 ≡ answer
unfolding ensure_file_object ensure_file_object_from_real reusable allocated ensured put_entry
    alloc_empty put put_copy_from Dict.lookup Dict.insert path_eq entry_type_eq object_path
made_answer = refl

made_keeps : Dict.lookup path_ab made.1.server.fuse_map ≡ some (file_entry 1 no_metadata)
unfolding ensure_file_object ensure_file_object_from_real reusable allocated ensured put_entry
    alloc_empty put put_copy_from Dict.lookup Dict.insert path_eq entry_type_eq object_path
made_keeps = refl

ensure_file_object_private_example :
    (Dict.lookup path_c made.1.server.fuse_map ≡ some (file_entry 5 no_metadata))
    × (object_path made.1.server.objects 1 ≢ object_path store 5)
unfolding put_entry
ensure_file_object_private_example =
    ensure_file_object_private path_c no_metadata all_succeed world (omega arith) server-IsOwned 5
      (object_path store 5) path_ab (file_entry 1 no_metadata) 1 made_answer made_keeps refl apart

copied_up_answer : copied_up.0 ≡ answer
unfolding ensure_file_object ensure_file_object_from_real reusable allocated ensured put_entry
    alloc_empty put put_copy_from Dict.lookup Dict.insert path_eq entry_type_eq object_path
copied_up_answer = refl

copied_up_keeps : Dict.lookup path_ab copied_up.1.server.fuse_map ≡ some (file_entry 1 no_metadata)
unfolding ensure_file_object ensure_file_object_from_real reusable allocated ensured put_entry
    alloc_empty put put_copy_from Dict.lookup Dict.insert path_eq entry_type_eq object_path
copied_up_keeps = refl

ensure_file_object_from_real_private_example :
    (Dict.lookup path_c copied_up.1.server.fuse_map ≡ some (file_entry 5 no_metadata))
    × (object_path copied_up.1.server.objects 1 ≢ object_path store 5)
unfolding put_entry
ensure_file_object_from_real_private_example =
    ensure_file_object_from_real_private path_c no_metadata all_succeed world (omega arith)
      server-IsOwned 5 (object_path store 5) path_ab (file_entry 1 no_metadata) 1 copied_up_answer
      copied_up_keeps refl apart

unused : reusable (Dict.lookup path_c server.fuse_map) ≡ none
unfolding put_entry reusable Dict.lookup Dict.insert path_eq
unused = refl

real_there : Dict.lookup path_c real ≡ some (1 ∷ 2 ∷ [])
unfolding Dict.lookup path_eq
real_there = refl

elsewhere : path_c ≢ object_path store 5
unfolding object_path
elsewhere e = ground arith

copy_up_example :
    (object : FilePath) × (copied_up.0 ≡ Response.ensure_file_object 5 object)
    × (Dict.lookup object copied_up.1.files ≡ some (1 ∷ 2 ∷ []))
    × (Dict.lookup path_c copied_up.1.files ≡ some (1 ∷ 2 ∷ []))
unfolding put_entry
copy_up_example = copy_up path_c no_metadata all_succeed world unused refl real_there elsewhere

count-read_dir_all_example :
    count path_ab (keys (read_dir_all server path_a))
    ≡ bit (is_some (Dict.lookup path_ab server.fuse_map) && is_child path_a path_ab)
count-read_dir_all_example = count-read_dir_all server-IsIndexed path_a path_ab

child : is_child path_a path_ab ≡ true
child = ground (
  arith,
  under-join path_a true (98 ∷ []) ((97 ∷ []) ∷ []),
  under_refl path_a (unfold is_blank in refl),
)

lookup-read_dir_all_example :
    Dict.lookup path_ab (read_dir_all server path_a) ≡ Dict.lookup path_ab server.fuse_map
lookup-read_dir_all_example = lookup-read_dir_all server-IsIndexed path_a path_ab child

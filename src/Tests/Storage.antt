-- ===== src/Tests/Storage.antt =====
-- Objects (ObjectStore.antt) and the two files of the daemon (Disk.antt).
use coding_agent_sandbox.Common.{ℕ, ◌≡◌, refl, true, Option, none, some, [], ◌∷◌, arith, codes}
use coding_agent_sandbox.Common.Dict
use mathlib.Core.Path.{subst}
use mathlib.Core.Option.{some-injective}
use coding_agent_sandbox.FilePath.{path_eq}
use coding_agent_sandbox.Files.{Files, Bytes, written, write_fails}
use coding_agent_sandbox.PathTree
use coding_agent_sandbox.PathTree.{from_rows, rows}
use coding_agent_sandbox.ObjectStore.{ObjectStore, object_path, put, put_copy_from, get, copy_fails}
use coding_agent_sandbox.ObjectStore.Paths.{object_path-injective}
use coding_agent_sandbox.ObjectStore.Laws.{get-put_ne, get-put_copy_from_ne}
use coding_agent_sandbox.Disk
use coding_agent_sandbox.Disk.{
  Codec, IsLawful, SandboxMeta, FuseMap, TreeRows, FlushOutcome, LoadFailure, flush, load,
  meta_path,
}
use coding_agent_sandbox.Disk.Laws.{readable, load-flush}
use coding_agent_sandbox.Tests.Tree.{path_a, path_c}

abbrev objects : ObjectStore
objects = record { dir = path_a; next_id = 258 }

-- Object 258 is `02/0000000000000102`.
object_path_258 :
    object_path objects 258
    ≡ record { absolute = true; names = codes "0000000000000102" ∷ codes "02" ∷ (97 ∷ []) ∷ [] }
unfolding object_path
object_path_258 = refl

abbrev seven : ℕ
seven = 7

object_path-injective_example : seven ≡ seven
object_path-injective_example =
    object_path-injective objects seven seven (omega arith) (omega arith) refl

abbrev real : Files
real = (path_c, 1 ∷ 2 ∷ []) ∷ []

real_there : Dict.lookup path_c real ≡ some (1 ∷ 2 ∷ [])
unfolding Dict.lookup path_eq
real_there = refl

get-put_ne_example :
    get
      (put objects (5 ∷ 6 ∷ []) (write_fails 28 1) real).1
      7
      none
      (put objects (5 ∷ 6 ∷ []) (write_fails 28 1) real).2
    ≡ get objects 7 none real
get-put_ne_example =
    get-put_ne objects 7 none real (omega arith) (omega arith) (λ e. omega arith) (5 ∷ 6 ∷ [])
      (write_fails 28 1)

get-put_copy_from_ne_example :
    get
      (put_copy_from objects path_c (copy_fails 28 (some [])) real).1
      7
      none
      (put_copy_from objects path_c (copy_fails 28 (some [])) real).2
    ≡ get objects 7 none real
get-put_copy_from_ne_example =
    get-put_copy_from_ne objects 7 none real (omega arith) (omega arith) (λ e. omega arith) path_c
      (copy_fails 28 (some []))

-- A codec of any metadata, and of the empty state.
encode_meta : SandboxMeta → Option Bytes
encode_meta m = some (m.next_id ∷ m.abi_version ∷ m.shm_name)

decode_meta : Bytes → Option SandboxMeta
decode_meta (n ∷ v ∷ name) = some (record { shm_name = name; abi_version = v; next_id = n })
decode_meta _ = none

encode_state : FuseMap → TreeRows → Option Bytes
encode_state [] [] = some []
encode_state _ _ = none

decode_state : Bytes → Option (FuseMap × TreeRows)
decode_state [] = some ([], [])
decode_state _ = none

decode_map : Bytes → Option FuseMap
decode_map b = none

pub codec : Codec
codec = record {
  encode_meta = encode_meta;
  decode_meta = decode_meta;
  encode_state = encode_state;
  decode_state = decode_state;
  decode_map = decode_map;
}

meta_back : (m : SandboxMeta) (b : Bytes) → encode_meta m ≡ some b → decode_meta b ≡ some m
unfolding encode_meta decode_meta
meta_back m b h = subst (λ c. decode_meta c ≡ some m) (some-injective _ _ h) refl

state_back :
    (m : FuseMap) (r : TreeRows) (b : Bytes)
    → encode_state m r ≡ some b
    → decode_state b ≡ some (m, r)
unfolding encode_state decode_state
state_back [] [] b h = subst (λ c. decode_state c ≡ some ([], [])) (some-injective _ _ h) refl
state_back [] (_ ∷ _) b h = ground arith
state_back (_ ∷ _) r b h = ground arith

codec-IsLawful : IsLawful codec
unfolding codec
codec-IsLawful = record { meta_back = meta_back; state_back = state_back }

abbrev meta : ℕ → SandboxMeta
meta v = record { shm_name = codes "shm"; abi_version = v; next_id = 9 }

abbrev pub both_written : FlushOutcome
both_written = record { meta_write = written; map_write = written }

flush_succeeds : (flush codec path_a (meta 3) [] PathTree.empty both_written real).0 ≡ none
unfolding flush codec encode_meta encode_state rows
flush_succeeds = refl

load-flush_example :
    load codec path_a readable (flush codec path_a (meta 3) [] PathTree.empty both_written real).1
    ≡ Disk.ok (meta 3, [], from_rows (rows PathTree.empty))
load-flush_example =
    load-flush codec path_a (meta 3) [] PathTree.empty both_written real codec-IsLawful refl
      flush_succeeds

abbrev old_files : Files
old_files = (meta_path path_a, 9 ∷ 2 ∷ codes "shm") ∷ []

old_there : Dict.lookup (meta_path path_a) old_files ≡ some (9 ∷ 2 ∷ codes "shm")
old_there = ground (
  arith,
  Dict.lookup-cons {V = Bytes} (meta_path path_a) (meta_path path_a) (9 ∷ 2 ∷ codes "shm") [],
)

old_meta : codec.decode_meta (9 ∷ 2 ∷ codes "shm") ≡ some (meta 2)
unfolding codec decode_meta
old_meta = refl

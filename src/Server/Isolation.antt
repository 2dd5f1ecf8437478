-- ===== src/Server/Isolation.antt =====
-- `dispatch` gives no two paths one object, and a new object harms no other.
use coding_agent_sandbox.Common.{
  ℕ, ◌+◌, ◌^◌, ◌<◌, ◌≤◌, ◌≡◌, refl, sym, Option, none, some, arith, Bool-cases, Option-cases, inl,
  inr,
}
use coding_agent_sandbox.Common.Dict
use mathlib.Core.Path.{subst}
use mathlib.Core.Option.{some-injective}
use coding_agent_sandbox.FilePath.{FilePath, path_eq}
use coding_agent_sandbox.Files.{Files, WriteOutcome}
use coding_agent_sandbox.PathTree.{subtree_paths}
use coding_agent_sandbox.ObjectStore
use coding_agent_sandbox.ObjectStore.{
  ObjectStore, CopyOutcome, copied, alloc, object_path, alloc_empty, put, put_copy_from,
}
use coding_agent_sandbox.ObjectStore.Laws.{store-put_copy_from}
use coding_agent_sandbox.Proto.{FileMetadata, FuseEntry, is_whiteout, Request}
use coding_agent_sandbox.Disk.{Codec, FuseMap}
use coding_agent_sandbox.Server.State.{ServerState, World, Io, put_entry, file_entry}
use coding_agent_sandbox.Server.Objects.{
  ensured, allocated, reusable, ensure_file_object, ensure_file_object_from_real,
}
use coding_agent_sandbox.Server.Entries.{rename_file, rename_tree, delete_file, delete_whiteout}
use coding_agent_sandbox.Server.Dispatch.{put_meta, renamed, dispatch}
use coding_agent_sandbox.Server.Owned.{
  Owns, Owns-weaken, Free, insert-Owns, erase-Owns, move-Owns, move_entries-Owns,
}

abbrev pub IsOwned : ServerState → Type 0
IsOwned s = Owns s.fuse_map s.objects.next_id

-- What a request must respect: object numbers are left, and a client names only an object that is
-- numbered and that no other path has.
abbrev pub IsHonest : Request → ServerState → Type 0
IsHonest (Request.ensure_file_object path _) s = s.objects.next_id + 1 < 2 ^ 64
IsHonest (Request.ensure_file_object_from_real path _) s = s.objects.next_id + 1 < 2 ^ 64
IsHonest (Request.upsert_file_entry path id _) s = Free s.fuse_map s.objects.next_id path id
IsHonest _ s = Unit

-- An allocation takes the next number or fails, and uses the number up.
pub record IsFresh (s : ObjectStore) (a : ObjectStore.Result ℕ × ObjectStore × Files) : Type 0 where
  pub numbered : (id : ℕ) → a.0 ≡ ObjectStore.ok id → id ≡ s.next_id
  pub used : a.1 ≡ alloc s

pub alloc_empty-IsFresh :
    (s : ObjectStore) (io : WriteOutcome) (files : Files) → IsFresh s (alloc_empty s io files)
unfolding alloc_empty
alloc_empty-IsFresh s io files = record { numbered = λ id h. ground arith; used = refl }

pub put_copy_from-IsFresh :
    (s : ObjectStore) (source : FilePath) (io : CopyOutcome) (files : Files)
    → IsFresh s (put_copy_from s source io files)
unfolding put_copy_from
put_copy_from-IsFresh s source io files = record {
  numbered = λ id h. ground arith;
  used = store-put_copy_from s source io files;
}

reusable-some :
    (o : Option FuseEntry) (id : ℕ)
    → reusable o ≡ some id
    → (e : FuseEntry) × (o ≡ some e) × (e.object_id ≡ some id)
unfolding reusable
reusable-some none id h = ground arith
reusable-some (some e) id h = (e, refl, ground arith)

-- The object of a path's own entry is free for the path.
Free-own :
    (s : ServerState) (path : FilePath) (id : ℕ)
    → reusable (Dict.lookup path s.fuse_map) ≡ some id
    → IsOwned s
    → Free s.fuse_map s.objects.next_id path id
Free-own s path id h o =
    let (e, found, owned) = reusable-some (Dict.lookup path s.fuse_map) id h in
    record {
      numbered = o.below path e id found owned;
      alone = λ q f k l. sym (o.unshared path q e f id found k owned l);
    }

-- The next number is free for any path.
Free-next :
    (s : ServerState) (path : FilePath)
    → IsOwned s
    → Free s.fuse_map (s.objects.next_id + 1) path s.objects.next_id
Free-next s path o = record {
  numbered = omega arith;
  alone = λ q f k l. absurd (omega (arith, o.below q f s.objects.next_id k l));
}

alloc_next : (s : ObjectStore) → s.next_id + 1 < 2 ^ 64 → (alloc s).next_id ≡ s.next_id + 1
unfolding alloc
alloc_next s h = omega arith

put_file-IsOwned :
    (path : FilePath) (meta : FileMetadata) (id : ℕ) (m : FuseMap) {n k : ℕ}
    → n ≤ k
    → Free m k path id
    → Owns m n
    → Owns (Dict.insert path (file_entry id meta) m) k
put_file-IsOwned path meta id m {n} {k} le free o =
    insert-Owns path (file_entry id meta) le
      (λ j h. subst (Free m k path) (some-injective id j h) free) o

ensured-IsOwned :
    (path : FilePath) (meta : FileMetadata) (id : ℕ) (w : World)
    → Free w.server.fuse_map w.server.objects.next_id path id
    → IsOwned w.server
    → IsOwned (ensured path meta id w).1.server
unfolding ensured put_entry
ensured-IsOwned path meta id w free o =
    put_file-IsOwned path meta id w.server.fuse_map (omega arith) free o

allocated-IsOwned :
    (path : FilePath) (meta : FileMetadata) (s : ServerState)
    (a : ObjectStore.Result ℕ × ObjectStore × Files)
    → IsFresh s.objects a
    → s.objects.next_id + 1 < 2 ^ 64
    → IsOwned s
    → IsOwned (allocated path meta s a).1.server
unfolding allocated ensured put_entry
allocated-IsOwned path meta s (ObjectStore.ok id, objects, files) fresh room o =
    let n : objects.next_id ≡ s.objects.next_id + 1 =
      ground (arith, fresh.used, alloc_next s.objects room) in
    rw (n, fresh.numbered id refl)
      (put_file-IsOwned path meta s.objects.next_id s.fuse_map (omega arith) (Free-next s path o) o)
allocated-IsOwned path meta s (ObjectStore.err e, objects, files) fresh room o =
    let n : objects.next_id ≡ s.objects.next_id + 1 =
      ground (arith, fresh.used, alloc_next s.objects room) in
    Owns-weaken (omega arith) o

pub ensure_file_object-IsOwned :
    (path : FilePath) (meta : FileMetadata) (io : Io) (w : World)
    → w.server.objects.next_id + 1 < 2 ^ 64
    → IsOwned w.server
    → IsOwned (ensure_file_object path meta io w).1.server
unfolding ensure_file_object
ensure_file_object-IsOwned path meta io w room o =
    elim (Option-cases (reusable (Dict.lookup path w.server.fuse_map))) [
      | inr (id, found) ↦
          rw (found, ensure_file_object)
            (ensured-IsOwned path meta id w (Free-own w.server path id found o) o)
      | inl gone ↦
          rw (gone, ensure_file_object)
            (allocated-IsOwned path meta w.server (alloc_empty w.server.objects io.write w.files)
              (alloc_empty-IsFresh w.server.objects io.write w.files) room o)
    ]

pub ensure_file_object_from_real-IsOwned :
    (path : FilePath) (meta : FileMetadata) (io : Io) (w : World)
    → w.server.objects.next_id + 1 < 2 ^ 64
    → IsOwned w.server
    → IsOwned (ensure_file_object_from_real path meta io w).1.server
unfolding ensure_file_object_from_real
ensure_file_object_from_real-IsOwned path meta io w room o =
    elim (Option-cases (reusable (Dict.lookup path w.server.fuse_map))) [
      | inr (id, found) ↦
          rw (found, ensure_file_object_from_real)
            (ensured-IsOwned path meta id w (Free-own w.server path id found o) o)
      | inl gone ↦
          rw (gone, ensure_file_object_from_real)
            (allocated-IsOwned path meta w.server
              (put_copy_from w.server.objects path io.copy w.files)
              (put_copy_from-IsFresh w.server.objects path io.copy w.files) room o)
    ]

put_meta-IsOwned :
    (path : FilePath) (meta : FileMetadata) (s : ServerState)
    → IsOwned s
    → IsOwned (put_meta path meta (Dict.lookup path s.fuse_map) s).1
unfolding put_meta
put_meta-IsOwned path meta s o = elim (Option-cases (Dict.lookup path s.fuse_map)) [
  | inl gone ↦ rw gone o
  | inr (e, found) ↦ rw found (
      insert-Owns path (record e { metadata = meta }) (omega arith)
        (λ id h. record {
          numbered = o.below path e id found h;
          alone = λ q f k l. sym (o.unshared path q e f id found k h l);
        })
        o)
]

delete_whiteout-IsOwned :
    (path : FilePath) (s : ServerState) → IsOwned s → IsOwned (delete_whiteout s path)
unfolding delete_whiteout
delete_whiteout-IsOwned p s o = elim (Option-cases (Dict.lookup p s.fuse_map)) [
  | inl gone ↦ rw (gone, delete_whiteout) o
  | inr (e, found) ↦ elim (Bool-cases (is_whiteout e)) [
    | inl whited ↦ rw (found, delete_whiteout, whited) (erase-Owns p o)
    | inr other ↦ rw (found, delete_whiteout, other) o
  ]
]

renamed-IsOwned :
    (from to : FilePath) (s : ServerState)
    → IsOwned s
    → IsOwned (renamed from to (Dict.lookup from s.fuse_map) s).1
unfolding renamed rename_file
renamed-IsOwned from to s o = elim (Option-cases (Dict.lookup from s.fuse_map)) [
  | inl gone ↦ rw gone o
  | inr (e, found) ↦ rw found (move-Owns from to e found o)
]

-- An entry without an object.
put_plain-IsOwned :
    (path : FilePath) (e : FuseEntry) (s : ServerState)
    → e.object_id ≡ none
    → IsOwned s
    → IsOwned (put_entry path e s)
unfolding put_entry
put_plain-IsOwned path e s h o = insert-Owns path e (omega arith) (λ id k. ground (arith, h, k)) o

module _ (C : Codec) where
  -- If no two paths of the map have one object, and every object is numbered below the next
  -- number, the same holds after any request that names no object of another path while numbers
  -- are left (IsHonest), whatever the kernel answers.
  pub dispatch-IsOwned :
      (r : Request) (io : Io) (w : World)
      → IsHonest r w.server
      → IsOwned w.server
      → IsOwned (dispatch C r io w).1.server
  unfolding dispatch rename_tree delete_file put_entry
  dispatch-IsOwned (Request.ensure_file_object path meta) io w h o =
      ensure_file_object-IsOwned path meta io w h o
  dispatch-IsOwned (Request.ensure_file_object_from_real path meta) io w h o =
      ensure_file_object_from_real-IsOwned path meta io w h o
  dispatch-IsOwned (Request.upsert_file_entry path id meta) io w h o =
      put_file-IsOwned path meta id w.server.fuse_map (omega arith) h o
  dispatch-IsOwned (Request.put_file_meta path meta) io w h o =
      put_meta-IsOwned path meta w.server o
  dispatch-IsOwned (Request.delete_file path) io w h o = erase-Owns path o
  dispatch-IsOwned (Request.rename_file from to) io w h o = renamed-IsOwned from to w.server o
  dispatch-IsOwned (Request.put_dir path meta) io w h o = put_plain-IsOwned path _ w.server refl o
  dispatch-IsOwned (Request.put_symlink path target meta) io w h o =
      put_plain-IsOwned path _ w.server refl o
  dispatch-IsOwned (Request.put_whiteout path) io w h o = put_plain-IsOwned path _ w.server refl o
  dispatch-IsOwned (Request.delete_whiteout path) io w h o = delete_whiteout-IsOwned path w.server o
  dispatch-IsOwned (Request.rename_tree from to) io w h o =
      move_entries-Owns w.server.fuse_map from to (subtree_paths w.server.path_tree from) o
  dispatch-IsOwned _ io w h o = o

-- ===== src/Server/Private.antt =====
-- What a client that is given an object may rely on: `EnsureFileObject` and
-- `EnsureFileObjectFromReal`.
use coding_agent_sandbox.Common.{
  ℕ, ◌+◌, ◌^◌, ◌<◌, ◌≡◌, ◌≢◌, ◌∙◌, refl, ap, none, some, arith, Option-cases, inl, inr,
}
use coding_agent_sandbox.Common.Dict
use coding_agent_sandbox.FilePath.{FilePath, path_eq}
use coding_agent_sandbox.Files.{Files, Bytes}
use coding_agent_sandbox.ObjectStore
use coding_agent_sandbox.ObjectStore.{
  ObjectStore, copied, alloc, object_path, alloc_empty, put_copy_from,
}
use coding_agent_sandbox.ObjectStore.Laws.{put_copy_from_present, object_path-alloc}
use coding_agent_sandbox.ObjectStore.Paths.{object_path-injective}
use coding_agent_sandbox.Proto.{FileMetadata, FuseEntry, Response}
use coding_agent_sandbox.Server.State.{ServerState, World, Io, put_entry, file_entry}
use coding_agent_sandbox.Server.Objects.{
  ensured, allocated, reusable, ensure_file_object, ensure_file_object_from_real,
}
use coding_agent_sandbox.Server.Isolation.{
  IsOwned, IsFresh, alloc_empty-IsFresh, put_copy_from-IsFresh, ensure_file_object-IsOwned,
  ensure_file_object_from_real-IsOwned,
}

-- The answer names the path's own object, and the path's entry says so.
pub record IsSettled (path : FilePath) (meta : FileMetadata) (id : ℕ) (object : FilePath)
    (s : ServerState) : Type 0 where
  pub entry_kept : Dict.lookup path s.fuse_map ≡ some (file_entry id meta)
  pub object_named : object ≡ object_path s.objects id
  pub in_range : s.objects.next_id < 2 ^ 64

-- Whatever object the answer names.
abbrev Settles : FilePath → FileMetadata → Response × World → Type 0
Settles path meta (response, w) =
    (id : ℕ) (object : FilePath)
    → response ≡ Response.ensure_file_object id object
    → IsSettled path meta id object w.server

ensured-Settles :
    (path : FilePath) (meta : FileMetadata) (k : ℕ) (w : World)
    → w.server.objects.next_id < 2 ^ 64
    → Settles path meta (ensured path meta k w)
unfolding ensured put_entry
ensured-Settles path meta k w room id object h = record {
  entry_kept = ground (arith, Dict.lookup-insert path path (file_entry k meta) w.server.fuse_map);
  object_named = ground arith;
  in_range = room;
}

allocated-Settles :
    (path : FilePath) (meta : FileMetadata) (s : ServerState)
    (a : ObjectStore.Result ℕ × ObjectStore × Files)
    → IsFresh s.objects a
    → Settles path meta (allocated path meta s a)
unfolding allocated alloc
allocated-Settles path meta s (ObjectStore.ok k, objects, files) fresh =
    ensured-Settles path meta k (record { server = record s { objects = objects }; files = files })
      (ground (arith, ap (λ (o : ObjectStore). o.next_id) fresh.used))
allocated-Settles path meta s (ObjectStore.err e, objects, files) fresh = λ id object h. cc

object_path_private :
    (path : FilePath) (meta : FileMetadata) (id : ℕ) (object : FilePath) (s : ServerState)
    (q : FilePath) (f : FuseEntry) (j : ℕ)
    → IsSettled path meta id object s
    → IsOwned s
    → Dict.lookup q s.fuse_map ≡ some f
    → f.object_id ≡ some j
    → q ≢ path
    → object_path s.objects j ≢ object
object_path_private path meta id object s q f j t o h k ne e =
    let below = o.below path (file_entry id meta) id t.entry_kept refl in
    let below' = o.below q f j h k in
    let range = t.in_range in
    let same =
      object_path-injective s.objects j id (omega arith) (omega arith) (e ∙ t.object_named) in
    ne (o.unshared q path f (file_entry id meta) id h t.entry_kept (k ∙ ap some same) refl)

module _ (path : FilePath) (meta : FileMetadata) (io : Io) (w : World)
    (room : w.server.objects.next_id + 1 < 2 ^ 64) where
  ensure_file_object-Settles : Settles path meta (ensure_file_object path meta io w)
  unfolding ensure_file_object
  ensure_file_object-Settles = elim (Option-cases (reusable (Dict.lookup path w.server.fuse_map))) [
    | inr (k, found) ↦ rw (found, ensure_file_object) (ensured-Settles path meta k w (omega arith))
    | inl gone ↦
        rw (gone, ensure_file_object)
          (allocated-Settles path meta w.server (alloc_empty w.server.objects io.write w.files)
            (alloc_empty-IsFresh w.server.objects io.write w.files))
  ]

  ensure_file_object_from_real-Settles :
      Settles path meta (ensure_file_object_from_real path meta io w)
  unfolding ensure_file_object_from_real
  ensure_file_object_from_real-Settles =
      elim (Option-cases (reusable (Dict.lookup path w.server.fuse_map))) [
        | inr (k, found) ↦
            rw (found, ensure_file_object_from_real) (ensured-Settles path meta k w (omega arith))
        | inl gone ↦
            rw (gone, ensure_file_object_from_real)
              (allocated-Settles path meta w.server
                (put_copy_from w.server.objects path io.copy w.files)
                (put_copy_from-IsFresh w.server.objects path io.copy w.files))
      ]

  module _ (owned : IsOwned w.server) (id : ℕ) (object q : FilePath) (f : FuseEntry) (j : ℕ) where
    -- Where objects are unshared and numbers are left: if EnsureFileObject answers an object, the
    -- entry of the path is a file entry with that object and the given metadata, and the object of
    -- any other path is another file.
    pub ensure_file_object_private :
        (ensure_file_object path meta io w).0 ≡ Response.ensure_file_object id object
        → Dict.lookup q (ensure_file_object path meta io w).1.server.fuse_map ≡ some f
        → f.object_id ≡ some j
        → q ≢ path
        → (Dict.lookup path (ensure_file_object path meta io w).1.server.fuse_map
            ≡ some (file_entry id meta))
          × (object_path (ensure_file_object path meta io w).1.server.objects j ≢ object)
    ensure_file_object_private h found held ne =
        let t = ensure_file_object-Settles id object h in
        (
          t.entry_kept,
          object_path_private path meta id object _ q f j t
              (ensure_file_object-IsOwned path meta io w room owned) found held ne,
        )

    -- Where objects are unshared and numbers are left: if EnsureFileObjectFromReal answers an
    -- object, the entry of the path is a file entry with that object and the given metadata, and
    -- the object of any other path is another file.
    pub ensure_file_object_from_real_private :
        (ensure_file_object_from_real path meta io w).0 ≡ Response.ensure_file_object id object
        → Dict.lookup q (ensure_file_object_from_real path meta io w).1.server.fuse_map ≡ some f
        → f.object_id ≡ some j
        → q ≢ path
        → (Dict.lookup path (ensure_file_object_from_real path meta io w).1.server.fuse_map
            ≡ some (file_entry id meta))
          × (object_path (ensure_file_object_from_real path meta io w).1.server.objects j ≢ object)
    ensure_file_object_from_real_private h found held ne =
        let t = ensure_file_object_from_real-Settles id object h in
        (
          t.entry_kept,
          object_path_private path meta id object _ q f j t
              (ensure_file_object_from_real-IsOwned path meta io w room owned) found held ne,
        )

-- A first copy-up, where the path has no object to reuse, the copy succeeds and the real file is
-- there and is not the new object's own file: the answer is an object with the bytes of the real
-- file, which keeps its bytes.
pub copy_up :
    (path : FilePath) (meta : FileMetadata) (io : Io) (w : World) {bytes : Bytes}
    → reusable (Dict.lookup path w.server.fuse_map) ≡ none
    → io.copy ≡ copied
    → Dict.lookup path w.files ≡ some bytes
    → path ≢ object_path w.server.objects w.server.objects.next_id
    → (object : FilePath) × ((ensure_file_object_from_real path meta io w).0
        ≡ Response.ensure_file_object w.server.objects.next_id object)
      × (Dict.lookup object (ensure_file_object_from_real path meta io w).1.files ≡ some bytes)
      × (Dict.lookup path (ensure_file_object_from_real path meta io w).1.files ≡ some bytes)
unfolding ensure_file_object_from_real allocated ensured
copy_up path meta io w {bytes} gone c real apart =
    let s = w.server.objects in
    let p = object_path s s.next_id in
    rw
      (
        gone,
        ensure_file_object_from_real,
        c,
        put_copy_from_present s path w.files real,
        object_path-alloc,
      )
      (
        p,
        refl,
        ground (arith, Dict.lookup-insert p p bytes w.files),
        ground (arith, Dict.lookup-insert path p bytes w.files),
      )

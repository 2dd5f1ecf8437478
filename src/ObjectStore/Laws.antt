-- ===== src/ObjectStore/Laws.antt =====
-- What the operations of ObjectStore.antt do to the objects.
use coding_agent_sandbox.Common.{
  ℕ, ◌^◌, ◌<◌, ◌≡◌, ◌≢◌, refl, Option, none, some, arith, Option-cases, inl, inr,
}
use coding_agent_sandbox.Common.Dict
use coding_agent_sandbox.FilePath.{FilePath, path_eq}
use coding_agent_sandbox.Files.{Bytes, Files, WriteOutcome, written}
use coding_agent_sandbox.Files.Laws.{lookup-write_file_ne}
use coding_agent_sandbox.ObjectStore.{
  ObjectStore, ok, object_path, alloc, put, put_copy_from, copy_source, get, CopyOutcome, copied,
  mkdir_fails, copy_fails,
}
use coding_agent_sandbox.ObjectStore.Paths.{object_path-injective}

abbrev path_of : ObjectStore → FilePath
path_of s = object_path s s.next_id

pub object_path-alloc : (s : ObjectStore) (id : ℕ) → object_path (alloc s) id ≡ object_path s id
unfolding object_path alloc
object_path-alloc s id = refl

pub put_copy_from_present :
    (s : ObjectStore) (source : FilePath) (files : Files) {bytes : Bytes}
    → Dict.lookup source files ≡ some bytes
    → put_copy_from s source copied files
      ≡ (ok s.next_id, alloc s, Dict.insert (path_of s) bytes files)
unfolding put_copy_from
put_copy_from_present s source files h = rw (h, copy_source)

-- After a put that succeeds, the new object reads as the bytes that were put.
pub get-put :
    (s : ObjectStore) (bytes : Bytes) (files : Files)
    → get (put s bytes written files).1 s.next_id none (put s bytes written files).2 ≡ ok bytes
unfolding get put
get-put s bytes files =
    ground
      (arith, Dict.lookup-insert (path_of s) (path_of s) bytes files, object_path-alloc s s.next_id)

-- After a put_copy_from of a file that is there, where the copy succeeds, the new object reads as
-- the bytes of the file.
pub get-put_copy_from :
    (s : ObjectStore) (source : FilePath) (files : Files) {bytes : Bytes}
    → Dict.lookup source files ≡ some bytes
    → get
        (put_copy_from s source copied files).1
        s.next_id
        none
        (put_copy_from s source copied files).2
      ≡ ok bytes
unfolding get put_copy_from
get-put_copy_from s source files {bytes} h =
    ground
      (arith, Dict.lookup-insert (path_of s) (path_of s) bytes files, object_path-alloc s s.next_id)

pub store-put_copy_from :
    (s : ObjectStore) (source : FilePath) (outcome : CopyOutcome) (files : Files)
    → (put_copy_from s source outcome files).1 ≡ alloc s
unfolding put_copy_from
store-put_copy_from s source copied files = ground arith
store-put_copy_from s source (mkdir_fails e) files = refl
store-put_copy_from s source (copy_fails e left) files = refl

get-alloc :
    (s : ObjectStore) (id : ℕ) (failure : Option ℕ) (files files' : Files)
    → Dict.lookup (object_path s id) files' ≡ Dict.lookup (object_path s id) files
    → get (alloc s) id failure files' ≡ get s id failure files
unfolding get
get-alloc s id failure files files' h = ground (arith, object_path-alloc s id)

module _ (s : ObjectStore) (q : FilePath) (away : q ≢ path_of s) where
  -- Whatever the outcome, a copy changes no file but its object's.
  pub lookup-put_copy_from :
      (source : FilePath) (outcome : CopyOutcome) (files : Files)
      → Dict.lookup q (put_copy_from s source outcome files).2 ≡ Dict.lookup q files
  unfolding put_copy_from
  lookup-put_copy_from source copied files = elim (Option-cases (Dict.lookup source files)) [
    | inl gone ↦ rw gone (ground (arith, Dict.lookup-erase q (path_of s) files))
    | inr (bytes, found) ↦ rw found (ground (arith, Dict.lookup-insert q (path_of s) bytes files))
  ]
  lookup-put_copy_from source (mkdir_fails e) files = refl
  lookup-put_copy_from source (copy_fails e none) files =
      ground (arith, Dict.lookup-erase q (path_of s) files)
  lookup-put_copy_from source (copy_fails e (some bytes)) files =
      ground (arith, Dict.lookup-insert q (path_of s) bytes files)

  pub lookup-put :
      (bytes : Bytes) (outcome : WriteOutcome) (files : Files)
      → Dict.lookup q (put s bytes outcome files).2 ≡ Dict.lookup q files
  unfolding put
  lookup-put bytes outcome files = lookup-write_file_ne (path_of s) q bytes outcome files away

module _ (s : ObjectStore) (id : ℕ) (failure : Option ℕ) (files : Files) (bounded : id < 2 ^ 64)
    (fresh : s.next_id < 2 ^ 64) (other : id ≢ s.next_id) where
  away : object_path s id ≢ path_of s
  away e = other (object_path-injective s id s.next_id bounded fresh e)

  -- A put, whether it succeeds or fails at any point, does not change what reading another object
  -- answers, for object numbers below 2 ^ 64.
  pub get-put_ne :
      (bytes : Bytes) (outcome : WriteOutcome)
      → get (put s bytes outcome files).1 id failure (put s bytes outcome files).2
        ≡ get s id failure files
  unfolding put
  get-put_ne bytes outcome =
      get-alloc s id failure files (put s bytes outcome files).2
        (lookup-put s (object_path s id) away bytes outcome files)

  -- A put_copy_from, whether it succeeds or fails at any point, does not change what reading
  -- another object answers, for object numbers below 2 ^ 64.
  pub get-put_copy_from_ne :
      (source : FilePath) (outcome : CopyOutcome)
      → get
          (put_copy_from s source outcome files).1
          id
          failure
          (put_copy_from s source outcome files).2
        ≡ get s id failure files
  get-put_copy_from_ne source outcome = rw store-put_copy_from (
      get-alloc s id failure files (put_copy_from s source outcome files).2
        (lookup-put_copy_from s (object_path s id) away source outcome files))

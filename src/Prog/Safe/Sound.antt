-- ===== src/Prog/Safe/Sound.antt =====
-- Soundness of the rule of Prog/Safe.antt: a safe run leaves every host file outside of the object
-- store as it was.
use coding_agent_sandbox.Common.{
  ℕ, suc, ◌≡◌, ◌≢◌, ◌∙◌, refl, Bool, true, false, Option, none, some, List, [], ◌∷◌, arith,
  if◌then◌else◌, Option-cases, inl, inr,
}
use coding_agent_sandbox.Common.Dict
use mathlib.Core.Path.{subst}
use coding_agent_sandbox.FilePath.{FilePath, path_eq, is_blank, join}
use coding_agent_sandbox.FilePath.Laws.{under, under_refl, under-join}
use coding_agent_sandbox.Files.{Files}
use coding_agent_sandbox.ObjectStore
use coding_agent_sandbox.ObjectStore.{
  ObjectStore, object_path, alloc, alloc_empty, put, put_copy_from, exists_object,
}
use coding_agent_sandbox.ObjectStore.Laws.{lookup-put, lookup-put_copy_from, store-put_copy_from}
use coding_agent_sandbox.Proto.{FileMetadata, FuseEntry, Request, Response}
use coding_agent_sandbox.Disk.{Codec}
use coding_agent_sandbox.Server.State.{ServerState, World, Io, put_entry}
use coding_agent_sandbox.Server.Objects.{
  ensured, allocated, reusable, ensure_file_object, ensure_file_object_from_real,
}
use coding_agent_sandbox.Server.Dispatch.{dispatch, put_meta, renamed}
use coding_agent_sandbox.Server.Entries.{rename_file, rename_tree, delete_file, delete_whiteout}
use coding_agent_sandbox.Host.{HostCall, touches}
use coding_agent_sandbox.Prog.{Call, Prog, done, step}
use coding_agent_sandbox.Prog.Run.{Link, Update, Oracle, update_files, over_link, respond, run}
use coding_agent_sandbox.Prog.Safe.{Zone, inside, keeps_meta, Allowed, NamesObject, Expected, Safe}

-- Every file outside of the zone has the same contents.
abbrev pub Kept : Zone → Files → Files → Type 0
Kept zone files files' =
    (q : FilePath) → inside zone q ≡ false → Dict.lookup q files' ≡ Dict.lookup q files

-- What a call leaves: the store where it was, and the files outside of it.
pub record Keeps (zone : Zone) (w w' : World) : Type 0 where
  pub dir_kept : w'.server.objects.dir ≡ zone.dir
  pub files_kept : Kept zone w.files w'.files

outside_store : (zone : Zone) (q : FilePath) → inside zone q ≡ false → under zone.dir q ≡ false
unfolding inside
outside_store zone q h = ground arith

under-join_name : (a p : FilePath) (n : List ℕ) → under a p ≡ true → under a (join p n) ≡ true
unfolding join
under-join_name a p n h = ground (arith, under-join a p.absolute n p.names)

pub under-object_path :
    (s : ObjectStore) (id : ℕ) → is_blank s.dir ≡ false → under s.dir (object_path s id) ≡ true
unfolding object_path
under-object_path s id h =
    under-join_name s.dir _ _ (under-join_name s.dir s.dir _ (under_refl s.dir h))

-- A path outside of the store is not that of an object.
outside-ne :
    (s : ObjectStore) (id : ℕ) (q : FilePath)
    → is_blank s.dir ≡ false
    → under s.dir q ≡ false
    → q ≢ object_path s id
outside-ne s id q h out e = ground (arith, under-object_path s id h)

module _ (zone : Zone) (solid : is_blank zone.dir ≡ false) where
  pub Keeps-refl : (w : World) → w.server.objects.dir ≡ zone.dir → Keeps zone w w
  Keeps-refl w h = record { dir_kept = h; files_kept = λ q out. refl }

  pub Keeps-trans : (u v w : World) → Keeps zone u v → Keeps zone v w → Keeps zone u w
  Keeps-trans u v w k l = record {
    dir_kept = l.dir_kept;
    files_kept = λ q out. l.files_kept q out ∙ k.files_kept q out;
  }

  update_files-Kept :
      (h : HostCall) (us : List Update) (files : Files)
      → ((q : FilePath) → touches h q ≡ true → inside zone q ≡ true)
      → Kept zone files (update_files h us files)
  unfolding update_files
  update_files-Kept h [] files allowed q out = refl
  update_files-Kept h ((p, none) ∷ us) files allowed q out = ground (
    arith,
    update_files-Kept h us files allowed q out,
    update_files-Kept h us (Dict.erase p files) allowed q out,
    Dict.lookup-erase q p files,
    allowed p,
  )
  update_files-Kept h ((p, some b) ∷ us) files allowed q out = ground (
    arith,
    update_files-Kept h us files allowed q out,
    update_files-Kept h us (Dict.insert p b files) allowed q out,
    Dict.lookup-insert q p b files,
    allowed p,
  )

  -- What a request that began at a world leaves, with what its response says.
  record Done (v : World) (x : Response × World) : Type 0 where
    pub named : NamesObject zone x.0
    pub kept : Keeps zone v x.1

  ensured-Done :
      (path : FilePath) (meta : FileMetadata) (id : ℕ) (v w : World)
      → Keeps zone v w
      → Done v (ensured path meta id w)
  unfolding ensured put_entry
  ensured-Done path meta id v w k = record {
    named = ground (arith, k.dir_kept, under-object_path w.server.objects id);
    kept = record { dir_kept = k.dir_kept; files_kept = k.files_kept };
  }

  allocated-Done :
      (path : FilePath) (meta : FileMetadata) (v : World)
      (a : ObjectStore.Result ℕ × ObjectStore × Files)
      → a.1.dir ≡ zone.dir
      → Kept zone v.files a.2
      → Done v (allocated path meta v.server a)
  unfolding allocated
  allocated-Done path meta v (ObjectStore.ok id, objects, files) d k =
      ensured-Done path meta id v
        (record { server = record v.server { objects = objects }; files = files })
        (record { dir_kept = d; files_kept = k })
  allocated-Done path meta v (ObjectStore.err e, objects, files) d k = record {
    named = tt;
    kept = record { dir_kept = d; files_kept = k };
  }

-- The two requests that write files, in the store of the world they begin at.
module _ (is_open : FilePath → Bool) (w : World)
    (solid : is_blank w.server.objects.dir ≡ false) where
  abbrev home : Zone
  home = record { dir = w.server.objects.dir; is_open = is_open }

  here : Keeps home w w
  here = Keeps-refl home solid w refl

  ensure_file_object-Done :
      (path : FilePath) (meta : FileMetadata) (io : Io)
      → Done home solid w (ensure_file_object path meta io w)
  unfolding ensure_file_object alloc_empty
  ensure_file_object-Done path meta io =
      elim (Option-cases (reusable (Dict.lookup path w.server.fuse_map))) [
        | inr (id, found) ↦
            rw (found, ensure_file_object) (ensured-Done home solid path meta id w w here)
        | inl gone ↦
            rw (gone, ensure_file_object)
              (allocated-Done home solid path meta w (alloc_empty w.server.objects io.write w.files)
                (unfold put alloc in refl)
                (λ q out.
                  lookup-put w.server.objects q
                    (outside-ne w.server.objects _ q solid (outside_store home q out)) [] io.write
                    w.files))
      ]

  ensure_file_object_from_real-Done :
      (path : FilePath) (meta : FileMetadata) (io : Io)
      → Done home solid w (ensure_file_object_from_real path meta io w)
  unfolding ensure_file_object_from_real
  ensure_file_object_from_real-Done path meta io =
      elim (Option-cases (reusable (Dict.lookup path w.server.fuse_map))) [
        | inr (id, found) ↦
            rw (found, ensure_file_object_from_real) (ensured-Done home solid path meta id w w here)
        | inl gone ↦
            rw (gone, ensure_file_object_from_real)
              (allocated-Done home solid path meta w
                (put_copy_from w.server.objects path io.copy w.files)
                (rw store-put_copy_from (unfold alloc in refl))
                (λ q out.
                  lookup-put_copy_from w.server.objects q
                    (outside-ne w.server.objects _ q solid (outside_store home q out)) path io.copy
                    w.files))
      ]

  same_files :
      (s : ServerState) (x : Response)
      → s.objects.dir ≡ home.dir
      → NamesObject home x
      → Done home solid w (x, record w { server = s })
  same_files s x d n = record {
    named = n;
    kept = record { dir_kept = d; files_kept = λ q out. refl };
  }

  named_object :
      (there : Bool) (id : ℕ)
      → NamesObject home (
          if there
          then Response.get_object_path (object_path w.server.objects id)
          else Response.not_found)
  named_object true id = under-object_path w.server.objects id solid
  named_object false id = tt

  put_meta-Done :
      (path : FilePath) (meta : FileMetadata) (e : Option FuseEntry)
      → Done home solid w (
        (put_meta path meta e w.server).0,
        record w { server = (put_meta path meta e w.server).1 },
      )
  unfolding put_meta
  put_meta-Done path meta none = same_files w.server _ refl tt
  put_meta-Done path meta (some e) = same_files _ _ refl tt

  renamed-Done :
      (from to : FilePath) (e : Option FuseEntry)
      → Done home solid w
          ((renamed from to e w.server).0, record w { server = (renamed from to e w.server).1 })
  unfolding renamed rename_file
  renamed-Done from to none = same_files w.server _ refl tt
  renamed-Done from to (some e) = same_files _ _ refl tt

  dir-delete_whiteout : (path : FilePath) → (delete_whiteout w.server path).objects.dir ≡ home.dir
  unfolding delete_whiteout
  dir-delete_whiteout path = ground arith

  dispatch-Done :
      (C : Codec) (r : Request) (io : Io)
      → keeps_meta r ≡ true
      → Done home solid w (dispatch C r io w)
  unfolding dispatch put_entry rename_tree delete_file
  dispatch-Done C (Request.ensure_file_object path meta) io h = ensure_file_object-Done path meta io
  dispatch-Done C (Request.ensure_file_object_from_real path meta) io h =
      ensure_file_object_from_real-Done path meta io
  dispatch-Done C (Request.get_object_path id) io h = record {
    named = named_object (exists_object w.server.objects id w.files) id;
    kept = here;
  }
  dispatch-Done C (Request.put_file_meta path meta) io h = put_meta-Done path meta _
  dispatch-Done C (Request.rename_file from to) io h = renamed-Done from to _
  dispatch-Done C (Request.delete_whiteout path) io h = same_files _ _ (dir-delete_whiteout path) tt
  dispatch-Done C Request.flush io h = ground arith
  dispatch-Done C _ io h = record {
    named = tt;
    kept = record { dir_kept = refl; files_kept = λ q out. refl };
  }

module _ (C : Codec) (o : Oracle) (is_open : FilePath → Bool) where
  abbrev zone_of : FilePath → Zone
  zone_of dir = record { dir = dir; is_open = is_open }

  over_link-Done :
      (r : Request) (l : Link) (w : World) (solid : is_blank w.server.objects.dir ≡ false)
      (x : Response × World)
      → Done (zone_of w.server.objects.dir) solid w x
      → Expected (zone_of w.server.objects.dir) (Call.request r) (over_link C o l x w).0
        × Keeps (zone_of w.server.objects.dir) w (over_link C o l x w).1
  unfolding over_link
  over_link-Done r Link.delivered w solid (a, w') d = (d.named, d.kept)
  over_link-Done r (Link.not_sent e) w solid (a, w') d = (tt, here is_open w solid)
  over_link-Done r (Link.answer_lost e) w solid (a, w') d = (tt, d.kept)

  respond-Done :
      (n : ℕ) (c : Call) (w : World)
      → is_blank w.server.objects.dir ≡ false
      → Allowed (zone_of w.server.objects.dir) c
      → Expected (zone_of w.server.objects.dir) c (respond C o n c w).0
        × Keeps (zone_of w.server.objects.dir) w (respond C o n c w).1
  unfolding respond
  respond-Done n (Call.host h) w solid allowed = (
    tt,
    record {
      dir_kept = refl;
      files_kept =
          update_files-Kept (zone_of w.server.objects.dir) solid h (o.updates n) w.files allowed;
    },
  )
  respond-Done n (Call.request r) w solid kept =
      over_link-Done r (o.link n) w solid (dispatch C r (o.io n) w)
        (dispatch-Done is_open w solid C r (o.io n) kept)

  -- A safe run ends in a result that meets the condition, and keeps the files outside the zone.
  pub run-Safe :
      {A : Type 0} (P : A → Type 0) (dir : FilePath) (n : ℕ) (p : Prog A) (w : World)
      → is_blank dir ≡ false
      → w.server.objects.dir ≡ dir
      → Safe (zone_of dir) P p
      → P (run C o n p w).0 × Keeps (zone_of dir) w (run C o n p w).1
  unfolding run Safe
  run-Safe P dir n (done a) w solid e s = (s, Keeps-refl (zone_of dir) solid w e)
  run-Safe P dir n (step c k) w solid e (allowed, s) =
      let (expected, kept) = respond_at dir n c w solid e allowed in
      let (result, kept') =
        run-Safe P dir (suc n) (k (respond C o n c w).0) (respond C o n c w).1 solid kept.dir_kept
          (s (respond C o n c w).0 expected) in
      (result, Keeps-trans (zone_of dir) solid w _ _ kept kept')
    where
      respond_at :
          (dir : FilePath) (n : ℕ) (c : Call) (w : World)
          → is_blank dir ≡ false
          → w.server.objects.dir ≡ dir
          → Allowed (zone_of dir) c
          → Expected (zone_of dir) c (respond C o n c w).0
            × Keeps (zone_of dir) w (respond C o n c w).1
      respond_at dir n c w solid e =
          subst
            (λ d.
              is_blank d ≡ false
              → Allowed (zone_of d) c
              → Expected (zone_of d) c (respond C o n c w).0
                × Keeps (zone_of d) w (respond C o n c w).1)
            e (respond-Done n c w) solid

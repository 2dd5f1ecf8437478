-- ===== src/Fuse/Fs/Serve/Isolated.antt =====
-- Any requests of the kernel (Fuse/Fs/Serve.antt), in a zone that has the object store and the paths
-- that the policy gives to the host.
use coding_agent_sandbox.Common.{ℕ, ◌≡◌, ◌≢◌, refl, Bool, true, false, List, [], ◌∷◌}
use coding_agent_sandbox.Common.Dict
use coding_agent_sandbox.FilePath.{FilePath, path_eq, is_blank}
use coding_agent_sandbox.Disk.{Codec}
use coding_agent_sandbox.Server.State.{World}
use coding_agent_sandbox.Prog.{Result, ok, err}
use coding_agent_sandbox.Prog.Run.{Oracle, run}
use coding_agent_sandbox.Prog.Safe.{Zone, inside, Safe, Safe-bind, Any}
use coding_agent_sandbox.Prog.Safe.Sound.{run-Safe}
use coding_agent_sandbox.Fuse.Policy.{passthrough}
use coding_agent_sandbox.Fuse.Handler.{Inner}
use coding_agent_sandbox.Fuse.Handler.Contained
use coding_agent_sandbox.Fuse.Handler.Contained.{AllContained, SafeHandler}
use coding_agent_sandbox.Fuse.Fs.{Mount, Caller, Reply}
use coding_agent_sandbox.Fuse.Fs.Attributes
use coding_agent_sandbox.Fuse.Fs.Entries
use coding_agent_sandbox.Fuse.Fs.Directory
use coding_agent_sandbox.Fuse.Fs.Locks
use coding_agent_sandbox.Fuse.Fs.Serve.{Operation, serve, serve_all}
use coding_agent_sandbox.Fuse.Fs.Contained.{
  Covers, SafeHandler-done, SafeHandler-lookup, SafeHandler-getattr, SafeHandler-setattr,
  SafeHandler-readlink, SafeHandler-statfs, SafeHandler-access, SafeHandler-fsyncdir,
}
use coding_agent_sandbox.Fuse.Fs.Contained.Entries.{
  SafeHandler-mkdir, SafeHandler-unlink, SafeHandler-rmdir, SafeHandler-rename, SafeHandler-symlink,
}
use coding_agent_sandbox.Fuse.Fs.Contained.Opening.{
  appends_as_writer, SafeHandler-open_path, SafeHandler-create, SafeHandler-release,
}
use coding_agent_sandbox.Fuse.Fs.Contained.Data.{
  SafeHandler-read, SafeHandler-write, SafeHandler-copy_file_range, SafeHandler-flush,
  SafeHandler-fsync, SafeHandler-lseek, SafeHandler-fallocate, SafeHandler-setlk, SafeHandler-getlk,
  SafeHandler-opendir, SafeHandler-readdir,
}

-- An open that asks to append asks for write access, and a rename is under a policy that gives no
-- path to the host.
abbrev pub IsOrdinary : Mount → Operation → Type 0
IsOrdinary M (Operation.open_path ino flags) = appends_as_writer flags ≡ true
IsOrdinary M (Operation.rename _ _ _ _) = (p : FilePath) → M.policy.classify p ≢ passthrough
IsOrdinary M _ = Unit

abbrev pub AllOrdinary : Mount → List (Caller × Operation) → Type 0
AllOrdinary M [] = Unit
AllOrdinary M ((caller, op) ∷ ops) = IsOrdinary M op × AllOrdinary M ops

-- The object store, and what is open to the host.
abbrev pub zone_of : World → (FilePath → Bool) → Zone
zone_of w is_open = record { dir = w.server.objects.dir; is_open = is_open }

module _ (zone : Zone) (M : Mount) (covers : Covers zone M.policy) where
  SafeHandler-serve :
      (caller : Caller) (op : Operation)
      → IsOrdinary M op
      → SafeHandler zone Any (serve M caller op)
  unfolding serve Attributes.getxattr Entries.link Directory.releasedir Locks.ioctl Locks.poll
  SafeHandler-serve caller (Operation.lookup parent name) h = SafeHandler-lookup zone M parent name
  SafeHandler-serve caller (Operation.getattr ino) h = SafeHandler-getattr zone M ino
  SafeHandler-serve caller Operation.getxattr h = SafeHandler-done zone _
  SafeHandler-serve caller (Operation.setattr ino c fh) h =
      SafeHandler-setattr zone M ino c fh covers
  SafeHandler-serve caller (Operation.readlink ino) h = SafeHandler-readlink zone M ino
  SafeHandler-serve caller (Operation.mkdir parent name mode) h =
      SafeHandler-mkdir zone M caller covers parent name mode
  SafeHandler-serve caller (Operation.unlink parent name) h =
      SafeHandler-unlink zone M caller covers parent name
  SafeHandler-serve caller (Operation.rmdir parent name) h =
      SafeHandler-rmdir zone M caller covers parent name
  SafeHandler-serve caller (Operation.rename parent name newparent newname) h =
      SafeHandler-rename zone M caller covers parent name newparent newname h
  SafeHandler-serve caller (Operation.symlink parent name target) h =
      SafeHandler-symlink zone M caller covers parent name target
  SafeHandler-serve caller Operation.link h = Contained.SafeHandler-fail zone Any _
  SafeHandler-serve caller (Operation.open_path ino flags) h =
      SafeHandler-open_path zone M covers caller ino flags h
  SafeHandler-serve caller (Operation.create parent name mode flags) h =
      SafeHandler-create zone M covers caller parent name mode flags
  SafeHandler-serve caller (Operation.read ino fh offset size) h =
      SafeHandler-read zone ino fh offset size
  SafeHandler-serve caller (Operation.write ino fh offset bytes) h =
      SafeHandler-write zone ino fh offset bytes
  SafeHandler-serve caller (Operation.copy_file_range i fh offset j gh to len) h =
      SafeHandler-copy_file_range zone i fh offset j gh to len
  SafeHandler-serve caller (Operation.flush fh) h = SafeHandler-flush zone fh
  SafeHandler-serve caller (Operation.fsync fh) h = SafeHandler-fsync zone fh
  SafeHandler-serve caller (Operation.release fh flushed) h = SafeHandler-release zone fh flushed
  SafeHandler-serve caller (Operation.lseek fh offset whence) h =
      SafeHandler-lseek zone fh offset whence
  SafeHandler-serve caller (Operation.opendir ino) h = SafeHandler-opendir zone ino
  SafeHandler-serve caller (Operation.readdir ino offset) h = SafeHandler-readdir zone M ino offset
  SafeHandler-serve caller Operation.releasedir h = SafeHandler-done zone _
  SafeHandler-serve caller Operation.statfs h = SafeHandler-statfs zone
  SafeHandler-serve caller (Operation.access ino) h = SafeHandler-access zone ino
  SafeHandler-serve caller Operation.ioctl h = Contained.SafeHandler-fail zone Any _
  SafeHandler-serve caller (Operation.fallocate fh offset len mode) h =
      SafeHandler-fallocate zone fh offset len mode
  SafeHandler-serve caller (Operation.fsyncdir ino) h = SafeHandler-fsyncdir zone ino
  SafeHandler-serve caller Operation.poll h = SafeHandler-done zone _
  SafeHandler-serve caller (Operation.setlk fh start end type sleep) h =
      SafeHandler-setlk zone fh start end type sleep
  SafeHandler-serve caller (Operation.getlk fh start end type pid) h =
      SafeHandler-getlk zone fh start end type pid

  still_contained : (r : Result ℕ Reply × Inner) → Contained.Ends zone Any r → AllContained zone r.1
  still_contained (ok a, s) (h, i) = i
  still_contained (err e, s) i = i

  Safe-serve_all :
      (ops : List (Caller × Operation)) (replies : List (Result ℕ Reply)) (s : Inner)
      → AllOrdinary M ops
      → AllContained zone s
      → Safe zone (λ (rs, s'). AllContained zone s') (serve_all M ops replies s)
  unfolding serve_all SafeHandler Safe
  Safe-serve_all [] replies s h i = i
  Safe-serve_all ((caller, op) ∷ ops) replies s (h, hs) i =
      Safe-bind zone (Contained.Ends zone Any) (λ (rs, s'). AllContained zone s') _ _
        (SafeHandler-serve caller op h s i)
        (λ (r, s') e. Safe-serve_all ops (r ∷ replies) s' hs (still_contained (r, s') e))

-- Take any set of paths besides those below the object store's directory, as a zone, such that
-- every path in mode passthrough is inside it. If every open that asks to append asks to write
-- too, a rename is requested only where no path is passthrough, every open handle that can write
-- leads into the zone, and the store's directory is not the empty path: after any requests of the
-- kernel, whatever the host answers and whether or not the daemon can be reached, every file of
-- the host outside of the zone has the contents that it had before, and every handle that can
-- write still leads into the zone.
pub serve_all-isolated :
    (C : Codec) (o : Oracle) (n : ℕ) (M : Mount) (ops : List (Caller × Operation)) (s : Inner)
    (w : World) (is_open : FilePath → Bool) (q : FilePath)
    → is_blank w.server.objects.dir ≡ false
    → Covers (zone_of w is_open) M.policy
    → AllOrdinary M ops
    → AllContained (zone_of w is_open) s
    → inside (zone_of w is_open) q ≡ false
    → (Dict.lookup q (run C o n (serve_all M ops [] s) w).1.files ≡ Dict.lookup q w.files)
      × AllContained (zone_of w is_open) (run C o n (serve_all M ops [] s) w).0.1
serve_all-isolated C o n M ops s w is_open q solid covers h i out =
    let (contained, kept) =
      run-Safe C o is_open (λ (rs, s'). AllContained (zone_of w is_open) s') w.server.objects.dir n
        (serve_all M ops [] s) w solid refl
        (Safe-serve_all (zone_of w is_open) M covers ops [] s h i) in
    (kept.files_kept q out, contained)

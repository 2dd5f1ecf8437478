-- ===== src/Shm/Region.antt =====
-- src/shm/region.rs, and how src/shm/state.rs makes and opens the shared state: the calls and what each
-- error path gives back.
pub mod Held
use coding_agent_sandbox.Common.{ℕ, Bool, true, false, List, ◌==◌, nat_eq, member, if◌then◌else◌}
use coding_agent_sandbox.FilePath.{Name}
use coding_agent_sandbox.Sys.{
  Errno, Result, ok, err, SysCall, Process, done, invoke, chain, Try, or_return, ◌>>=◌, pure,
}

pub data ShmError : Type 0 where
  open_err truncate mmap_err munmap unlink_err invalid_size close cstring : ℕ → ShmError

pub record ShmRegion : Type 0 where
  pub ptr : ℕ
  pub size : ℕ
  pub name : Name
  pub fd : ℕ

-- `CString::new(name)`
unfoldable pub cstring_of : Name → Result ShmError Name
cstring_of name = if member 0 name then err (ShmError.cstring 0) else ok name

abbrev pub Opens : Type 0
Opens = Try ShmError ShmRegion

-- `close(fd); return Err(e)`
unfoldable pub closed_with : ℕ → ShmError → Opens
closed_with fd e = invoke (SysCall.close fd) λ _. done (err e)

unfoldable pub on_mmap : Name → ℕ → ℕ → Result Errno ℕ → Opens
unfolding closed_with
on_mmap name size fd (ok ptr) = pure (record { ptr = ptr; size = size; name = name; fd = fd })
on_mmap name size fd (err e) = closed_with fd (ShmError.mmap_err e)

unfoldable pub map_region : Name → ℕ → ℕ → Opens
unfolding on_mmap
map_region name size fd = invoke (SysCall.mmap fd size) (on_mmap name size fd)

unfoldable pub on_truncate : Name → ℕ → ℕ → Result Errno (Unit {0}) → Opens
unfolding closed_with map_region
on_truncate name size fd (ok _) = map_region name size fd
on_truncate name size fd (err e) = closed_with fd (ShmError.truncate e)

-- After `shm_open`, to create or to open.
unfoldable pub on_open : Bool → Name → ℕ → Result Errno ℕ → Opens
unfolding on_truncate map_region
on_open create_new name size (err e) = done (err (ShmError.open_err e))
on_open true name size (ok fd) = invoke (SysCall.ftruncate fd size) (on_truncate name size fd)
on_open false name size (ok fd) = map_region name size fd

unfoldable pub on_cname : Bool → Name → ℕ → Result ShmError Name → Opens
unfolding on_open
on_cname create_new name size (err e) = done (err e)
on_cname create_new name size (ok cname) =
    invoke (SysCall.shm_open create_new cname) (on_open create_new name size)

unfoldable pub region_at : Bool → Name → ℕ → Opens
unfolding on_cname cstring_of
region_at create_new name size =
    if size == 0
    then done (err (ShmError.invalid_size size))
    else on_cname create_new name size (cstring_of name)

-- `ShmRegion::create` and `ShmRegion::open`
unfoldable pub create_region : Name → ℕ → Opens
unfolding region_at
create_region name size = region_at true name size

unfoldable pub open_region : Name → ℕ → Opens
unfolding region_at
open_region name size = region_at false name size

unfoldable pub unlinked : Result Errno (Unit {0}) → Try ShmError (Unit {0})
unlinked (ok _) = pure tt
unlinked (err e) = done (err (ShmError.unlink_err e))

unfoldable pub on_unlink_name : Result ShmError Name → Try ShmError (Unit {0})
unfolding unlinked
on_unlink_name (err e) = done (err e)
on_unlink_name (ok cname) = invoke (SysCall.shm_unlink cname) unlinked

unfoldable pub unlink : Name → Try ShmError (Unit {0})
unfolding on_unlink_name cstring_of
unlink name = on_unlink_name (cstring_of name)

-- The drop of a region, then an error.
unfoldable pub drop_with : ShmRegion → ShmError → Opens
drop_with region e =
    invoke (SysCall.munmap region.ptr) λ _. invoke (SysCall.close region.fd) λ _. done (err e)

abbrev pub shm_layout_size : ℕ
shm_layout_size = 64

unfoldable pub on_mutex_init : ShmRegion → ℕ → Opens
unfolding drop_with
on_mutex_init region r =
    invoke SysCall.mutexattr_destroy
      λ _. if r == 0 then pure region else drop_with region (ShmError.open_err r)

unfoldable pub on_pshared : ShmRegion → ℕ → Opens
unfolding drop_with on_mutex_init
on_pshared region r =
    if r == 0
    then invoke SysCall.mutex_init (on_mutex_init region)
    else invoke SysCall.mutexattr_destroy λ _. drop_with region (ShmError.open_err r)

unfoldable pub on_attr_init : ShmRegion → ℕ → Opens
unfolding drop_with on_pshared
on_attr_init region r =
    if r == 0
    then invoke SysCall.mutexattr_setpshared (on_pshared region)
    else drop_with region (ShmError.open_err r)

-- `ShmState::create`, by its region.
unfoldable pub create_state : Name → Opens
unfolding create_region on_attr_init
create_state name = create_region name shm_layout_size >>= λ region.
    invoke SysCall.mutexattr_init (on_attr_init region)

-- `ShmState::open`
unfoldable pub open_state : Name → Opens
unfolding open_region
open_state name = open_region name shm_layout_size

-- In `prepare_context` of src/cli/run.rs.
unfoldable pub or_create : Name → Result ShmError ShmRegion → Opens
unfolding create_state
or_create name (ok region) = pure region
or_create name (err e) = create_state name

unfoldable pub open_or_create : Name → Opens
unfolding open_state or_create
open_or_create name = chain (open_state name) (or_create name)

-- ===== src/Fuse/Fs/Locks.antt =====
-- src/fuse/fs.rs: the handlers that call the host with the descriptor of an open file, and report
-- the last error of the thread.
use coding_agent_sandbox.Common.{
  ℕ, ◌+◌, ◌-◌, ◌^◌, Bool, Option, none, some, ◌==◌, nat_eq, if◌then◌else◌,
}
use coding_agent_sandbox.Host.{HostCall, Value, Flock}
use coding_agent_sandbox.Prog.{Error, Result, ok, err, attempt, call}
use coding_agent_sandbox.Fuse.OpenFile.{OpenFile, file_of}
use coding_agent_sandbox.Fuse.Handler.{Handler, ◌>>=◌, reply, fail, lift, or_errno, open_file}
use coding_agent_sandbox.Fuse.Fs.{Reply}

-- `nix::errno::Errno::last_raw()`
unfoldable pub fail_last : Handler ℕ Reply
fail_last = or_errno (lift (call HostCall.last_errno)) >>= λ n. fail n

unfoldable pub reply_value : {A : Type 0} → (A → Reply) → Result Error A → Handler ℕ Reply
reply_value make (ok v) = reply (make v)
reply_value make (err e) = fail_last

-- The host's function on the descriptor, `-1` where the handle is not open.
unfoldable pub on_descriptor :
    Option OpenFile
    → (h : OpenFile → HostCall) → ((f : OpenFile) → Value (h f) → Reply)
    → Handler ℕ Reply
on_descriptor none h make = fail_last
on_descriptor (some f) h make = or_errno (lift (attempt (call (h f)))) >>= reply_value (make f)

unfoldable pub fallocate : ℕ → ℕ → ℕ → ℕ → Handler ℕ Reply
fallocate fh offset length mode = open_file fh >>= λ f.
    on_descriptor f (λ f. HostCall.fallocate (file_of f) mode offset length) (λ f v. Reply.done)

-- `0` is to the end of the file; `saturating_sub` stops at 0.
unfoldable pub flock_of : ℕ → ℕ → ℕ → ℕ → Flock
unfolding nat_eq
flock_of start end type pid = record {
  l_type = type;
  l_start = start;
  l_len = if end == 2 ^ 64 - 1 then 0 else (end - start) + 1;
  l_pid = pid;
}

unfoldable pub setlk : ℕ → ℕ → ℕ → ℕ → Bool → Handler ℕ Reply
setlk fh start end type sleep = open_file fh >>= λ f.
    on_descriptor f (λ f. HostCall.set_lock (file_of f) (flock_of start end type 0) sleep)
      (λ f v. Reply.done)

unfoldable pub getlk : ℕ → ℕ → ℕ → ℕ → ℕ → Handler ℕ Reply
getlk fh start end type pid = open_file fh >>= λ f.
    on_descriptor f (λ f. HostCall.get_lock (file_of f) (flock_of start end type pid))
      (λ f v. Reply.lock v)

-- `ENOTSUP`
unfoldable pub ioctl : Handler ℕ Reply
ioctl = fail 95

unfoldable pub poll : Handler ℕ Reply
poll = reply Reply.poll_in_out

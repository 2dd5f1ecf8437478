-- ===== src/Cli/Setup/Confined.antt =====
-- Proof: only a confined process becomes the command.
use coding_agent_sandbox.Common.{
  ℕ, zero, suc, ltb, ◌≡◌, refl, Bool-cases, inl, inr, Option, none, some, List, [], ◌∷◌, ◌++◌,
  nat_eq,
}
use coding_agent_sandbox.Common.Dict.{is_some}
use coding_agent_sandbox.FilePath.{FilePath, Name, parent}
use coding_agent_sandbox.Sys.{
  Errno, Result, ok, err, ForkResult, WaitStatus, SysCall, Process, Try, map_err,
}
use coding_agent_sandbox.Sys.Always.{Trace, Always, Always-chain, OnOk}
use coding_agent_sandbox.Isolate.Confines.{OnExec}
use coding_agent_sandbox.Isolate.Steps.{
  HasUserNs, mount_ns_calls, chroot_calls, filter_calls, create_user_ns-confines,
  create_mount_ns-Adds, prepare_chroot-Adds, drop_capabilities-Adds, apply_seccomp_filter-Adds,
}
use coding_agent_sandbox.Cli.{RunError}
use coding_agent_sandbox.Cli.Setup.Exec.{Any, exec_command-exec}
use coding_agent_sandbox.Cli.Setup.{
  SetupPayload, Ended, Wait, after_deadline, after_wait, is_mounted, wait_turns, parent_device,
  wait_for_fuse_ready, or_exit, ◌!!◌, or_unfinished, confine, run_setup_stage2, run_fuse_daemon,
  after_fork, run_setup_stage1,
}

module _ (from_name : Name → Option ℕ) (fuel : ℕ) (payload : SetupPayload) where
  -- Every step of the isolation has succeeded, in this order from the last, and none of its calls
  -- but these; the command is the given one.
  abbrev pub IsConfined : Trace → Name → List Name → Type 0
  IsConfined t program args =
      ((rest : List Name) × (payload.cmd_argv ≡ program ∷ rest))
      × (args ≡ payload.cmd_argv)
      × ((u : Trace) × HasUserNs u []
          × (t
              ≡ filter_calls from_name
                ++ (chroot_calls payload.rootfs payload.mountpoint payload.cwd payload.pty_slave
                    ++ (mount_ns_calls ++ u))))

  abbrev P : Trace → SysCall → Type 0
  P = OnExec IsConfined

  -- No call has been added.
  abbrev Unmoved : {A : Type 0} → Trace → Trace → A → Type 0
  Unmoved t u a = u ≡ t

  Always-!! :
      {E A : Type 0} (Q : Trace → A → Type 0) (t : Trace) (m : Try E A) (next : A → Process Ended)
      → Always P (OnOk Q) t m
      → ((u : Trace) (a : A) → Q u a → Always P Any u (next a))
      → Always P Any t (m !! next)
  unfolding ◌!!◌ Always
  Always-!! {E} {A} Q t m next m_ok next_ok = Always-chain P (OnOk Q) Any t m _ m_ok after
    where
      after : (u : Trace) (r : Result E A) → OnOk Q u r → Always P Any u (or_exit next r)
      after u (ok a) h = next_ok u a h
      after u (err e) h = tt

  after_deadline-wait :
      (deadline now : ℕ) (again : Wait) (t : Trace)
      → Always P (Unmoved t) t again
      → Always P (Unmoved t) t (after_deadline deadline now again)
  unfolding after_deadline Always
  after_deadline-wait deadline now again t h = elim (Bool-cases (ltb deadline now)) [
    | inl late ↦ rw late refl
    | inr early ↦ rw early (tt, λ _. h)
  ]

  after_wait-wait :
      (deadline : ℕ) (again : Wait) (status : Result Errno WaitStatus) (t : Trace)
      → Always P (Unmoved t) t again
      → Always P (Unmoved t) t (after_wait deadline again status)
  unfolding after_wait Always
  after_wait-wait deadline again (ok WaitStatus.still_alive) t h =
      (tt, λ now. after_deadline-wait deadline now again t h)
  after_wait-wait deadline again (ok (WaitStatus.exited _)) t h = refl
  after_wait-wait deadline again (ok (WaitStatus.signaled _)) t h = refl
  after_wait-wait deadline again (ok WaitStatus.other) t h = refl
  after_wait-wait deadline again (err _) t h = refl

  wait_turns-wait :
      (n : ℕ) (mountpoint : FilePath) (parent_dev deadline child : ℕ) (t : Trace)
      → Always P (Unmoved t) t (wait_turns n mountpoint parent_dev deadline child)
  unfolding wait_turns Always
  wait_turns-wait zero mountpoint parent_dev deadline child t = refl
  wait_turns-wait (suc n) mountpoint parent_dev deadline child t = (
    tt,
    λ dev. elim (Bool-cases (is_mounted parent_dev dev)) [
      | inl there ↦ rw there refl
      | inr missing ↦ rw missing (
        tt,
        λ status.
            after_wait-wait deadline _ status t
              (wait_turns-wait n mountpoint parent_dev deadline child t),
      )
    ],
  )

  parent_device-wait : (p : Option FilePath) (t : Trace) → Always P (Unmoved t) t (parent_device p)
  unfolding parent_device Always
  parent_device-wait none t = refl
  parent_device-wait (some p) t = (tt, λ dev. refl)

  wait-Unmoved :
      (mountpoint : FilePath) (child : ℕ) (t : Trace)
      → Always P (Unmoved t) t (wait_for_fuse_ready fuel mountpoint child)
  unfolding wait_for_fuse_ready Always
  wait-Unmoved mountpoint child t =
      Always-chain P (Unmoved t) (Unmoved t) t (parent_device (parent mountpoint)) _
        (parent_device-wait (parent mountpoint) t)
        λ u dev same. (tt, λ now. rw same (wait_turns-wait fuel mountpoint dev _ child t))

  confine-Confined :
      (u : Trace)
      → HasUserNs u []
      → Always P Any (mount_ns_calls ++ u) (confine from_name fuel payload)
  unfolding confine Always
  confine-Confined u h =
      let start = mount_ns_calls ++ u in
      let jail =
        chroot_calls payload.rootfs payload.mountpoint payload.cwd payload.pty_slave ++ start in
      Always-!! (λ v _. v ≡ jail) start _ _
        ((prepare_chroot-Adds IsConfined payload.rootfs payload.mountpoint payload.cwd
            payload.pty_slave).always
          start)
        λ v _ in_jail.
          Always-!! (λ w _. w ≡ filter_calls from_name ++ v) v _ _
            ((apply_seccomp_filter-Adds IsConfined from_name).always v)
            λ w _ filtered.
              Always-!! (λ x _. x ≡ w) w _ _ ((drop_capabilities-Adds IsConfined).always w)
                λ x _ kept.
                  Always-!! Any x _ _
                    (exec_command-exec IsConfined payload.cmd_argv (is_some payload.pty_slave) x
                      λ program rest given.
                        ((rest, given), refl, (u, h, rw (kept, filtered, in_jail) refl)))
                    λ _ _ _. tt

  stage2-Confined :
      (child : ℕ) (u : Trace)
      → HasUserNs u []
      → Always P Any (mount_ns_calls ++ u) (run_setup_stage2 from_name fuel payload child)
  unfolding run_setup_stage2 Always
  stage2-Confined child u h =
      Always-chain P (Unmoved (mount_ns_calls ++ u)) Any (mount_ns_calls ++ u)
        (wait_for_fuse_ready fuel payload.mountpoint child) _
        (wait-Unmoved payload.mountpoint child (mount_ns_calls ++ u)) go
    where
      go :
          (v : Trace) (r : Option (Result RunError (Unit {0})))
          → v ≡ mount_ns_calls ++ u
          → Always P Any v (or_unfinished (confine from_name fuel payload) r)
      go v none e = tt
      go v (some (err _)) e = tt
      go v (some (ok _)) e = rw e (confine-Confined u h)

  after_fork-Confined :
      (r : Result Errno ForkResult) (u : Trace)
      → HasUserNs u []
      → Always P Any (mount_ns_calls ++ u) (or_exit (after_fork from_name fuel payload) r)
  unfolding or_exit after_fork run_fuse_daemon Always
  after_fork-Confined (ok (ForkResult.parent child)) u h = stage2-Confined child u h
  after_fork-Confined (ok ForkResult.child) u h =
      Always-!! Any (mount_ns_calls ++ u) _ _ (tt, ran) λ _ _ _. tt
    where
      ran : (a : Result Errno (Unit {0})) → OnOk Any (mount_ns_calls ++ u) (map_err RunError.io a)
      ran (ok _) = tt
      ran (err _) = tt
  after_fork-Confined (err _) u h = tt

  -- Whatever the kernel answers, whenever the setup process asks to run a program, it is the given
  -- command with its arguments, and the calls of unshare, mount, chroot, chdir, file writes and
  -- filter rules that have succeeded before are exactly, in this order: those of a user namespace
  -- for a user and a group that are not 0, those of a mount namespace with a private root, those
  -- of the chroot with its mounts, and the rules and the load of a filter that allows the listed
  -- system calls.
  pub run_setup_stage1-Confined :
      Always (OnExec IsConfined) Any [] (run_setup_stage1 from_name fuel payload)
  unfolding run_setup_stage1 Always
  run_setup_stage1-Confined =
      Always-!! (λ u _. HasUserNs u []) [] _ _ (create_user_ns-confines IsConfined [])
        λ u _ h.
          Always-!! (λ v _. v ≡ mount_ns_calls ++ u) u _ _
            ((create_mount_ns-Adds IsConfined).always u)
            λ v _ e. rw e (tt, λ r. after_fork-Confined r u h)

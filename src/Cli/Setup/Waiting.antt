-- ===== src/Cli/Setup/Waiting.antt =====
-- Proof: the wait for the mount of the filesystem ends.
use coding_agent_sandbox.Common.{
  ℕ, zero, suc, ◌+◌, ◌*◌, ◌/◌, ◌<◌, ◌≤◌, ◌≡◌, refl, Bool, true, false, if◌then◌else◌, ltb, Option,
  none, some, List, ◌∷◌, arith,
}
use coding_agent_sandbox.Common.Dict.{is_some}
use coding_agent_sandbox.FilePath.{FilePath, parent}
use coding_agent_sandbox.Sys.{
  Errno, Result, ok, err, WaitStatus, SysCall, done, invoke, chain, Kernel, run,
}
use coding_agent_sandbox.Cli.Setup.{
  Wait, fuse_ready_timeout, fuse_poll_interval, after_deadline, after_wait, is_mounted, wait_turns,
  parent_device, wait_for_fuse_ready,
}

-- What is documented of `Instant::now` and `thread::sleep`, in nanoseconds: the clock does not go
-- back from call to call, and a sleep takes at least its time.
pub record IsTimely (k : Kernel) : Type 0 where
  pub kept : (h : List SysCall) (c : SysCall) → k h SysCall.now ≤ k (c ∷ h) SysCall.now
  pub slept : (h : List SysCall) (d : ℕ) → k h SysCall.now + d ≤ k (SysCall.sleep d ∷ h) SysCall.now

module _ (k : Kernel) (timely : IsTimely k) where
  abbrev Ends : List SysCall → Wait → Type 0
  Ends h m = is_some (run k h m) ≡ true

  if-Ends :
      (b : Bool) (h : List SysCall) (x y : Wait)
      → (b ≡ true → Ends h x)
      → (b ≡ false → Ends h y)
      → Ends h (if b then x else y)
  if-Ends true h x y f g = f refl
  if-Ends false h x y f g = g refl

  -- The next turn is after a reading of the clock and a sleep.
  abbrev next : List SysCall → List SysCall
  next h = SysCall.sleep fuse_poll_interval ∷ SysCall.now ∷ h

  after_wait-Ends :
      (deadline : ℕ) (h : List SysCall) (again : Wait) (status : Result Errno WaitStatus)
      → (k h SysCall.now ≤ deadline → Ends (next h) again)
      → Ends h (after_wait deadline again status)
  unfolding after_wait after_deadline run
  after_wait-Ends deadline h again (ok WaitStatus.still_alive) f =
      if-Ends (ltb deadline (k h SysCall.now)) (SysCall.now ∷ h) _ _ (λ _. refl)
        λ early. f (ground arith)
  after_wait-Ends deadline h again (ok (WaitStatus.exited _)) f = refl
  after_wait-Ends deadline h again (ok (WaitStatus.signaled _)) f = refl
  after_wait-Ends deadline h again (ok WaitStatus.other) f = refl
  after_wait-Ends deadline h again (err _) f = refl

  -- A turn reads the clock after these calls.
  abbrev tested : FilePath → ℕ → List SysCall → List SysCall
  tested mountpoint child h = SysCall.waitpid child true ∷ SysCall.device mountpoint ∷ h

  kept-tested :
      (mountpoint : FilePath) (child : ℕ) (h : List SysCall)
      → k h SysCall.now ≤ k (tested mountpoint child h) SysCall.now
  kept-tested mountpoint child h = omega (
    arith,
    timely.kept h (SysCall.device mountpoint),
    timely.kept (SysCall.device mountpoint ∷ h) (SysCall.waitpid child true),
  )

  -- A turn that goes on takes the poll interval.
  slept-next : (h : List SysCall) → k h SysCall.now + fuse_poll_interval ≤ k (next h) SysCall.now
  slept-next h =
      omega (arith, timely.kept h SysCall.now, timely.slept (SysCall.now ∷ h) fuse_poll_interval)

  turn-Ends :
      (h : List SysCall) (mountpoint : FilePath) (parent_dev deadline child : ℕ) (again : Wait)
      → (k (tested mountpoint child h) SysCall.now ≤ deadline
          → Ends (next (tested mountpoint child h)) again)
      → Ends h (
          invoke (SysCall.device mountpoint) λ dev.
            if is_mounted parent_dev dev
            then done (some (ok tt))
            else invoke (SysCall.waitpid child true) λ status. after_wait deadline again status)
  unfolding run
  turn-Ends h mountpoint parent_dev deadline child again f =
      if-Ends (is_mounted parent_dev (k h (SysCall.device mountpoint)))
        (SysCall.device mountpoint ∷ h) _ _ (λ _. refl)
        λ _.
          after_wait-Ends deadline (tested mountpoint child h) again
            (k (SysCall.device mountpoint ∷ h) (SysCall.waitpid child true)) f

  wait_turns-Ends :
      (fuel : ℕ) (h : List SysCall) (mountpoint : FilePath) (parent_dev deadline child : ℕ)
      → deadline < k h SysCall.now + fuse_poll_interval * fuel
      → Ends h (wait_turns (suc fuel) mountpoint parent_dev deadline child)
  unfolding wait_turns run
  wait_turns-Ends zero h mountpoint parent_dev deadline child room =
      turn-Ends h mountpoint parent_dev deadline child _
        λ early. absurd (omega (arith, kept-tested mountpoint child h, room, early))
  wait_turns-Ends (suc fuel) h mountpoint parent_dev deadline child room =
      turn-Ends h mountpoint parent_dev deadline child _ λ early.
        wait_turns-Ends fuel (next (tested mountpoint child h)) mountpoint parent_dev deadline child
          (omega
            (arith, kept-tested mountpoint child h, slept-next (tested mountpoint child h), room))

  started-Ends :
      (fuel : ℕ) (h : List SysCall) (mountpoint : FilePath) (parent_dev child : ℕ)
      → fuse_ready_timeout / fuse_poll_interval < fuel
      → Ends
          (SysCall.now ∷ h)
          (wait_turns (suc fuel) mountpoint parent_dev (k h SysCall.now + fuse_ready_timeout) child)
  started-Ends fuel h mountpoint parent_dev child room =
      wait_turns-Ends fuel (SysCall.now ∷ h) mountpoint parent_dev _ child
        (omega (arith, timely.kept h SysCall.now, room))

  -- If the clock never goes back from call to call, and a sleep takes at least its time
  -- (IsTimely), wait_for_fuse_ready returns with fuel for 202 turns or more, two above the number
  -- of sleeps in its timeout, whatever the kernel answers otherwise and has answered before.
  pub wait_for_fuse_ready-Ends :
      (fuel : ℕ) (h : List SysCall) (mountpoint : FilePath) (child : ℕ)
      → fuse_ready_timeout / fuse_poll_interval + 1 < fuel
      → Ends h (wait_for_fuse_ready fuel mountpoint child)
  unfolding wait_for_fuse_ready run parent_device chain
  wait_for_fuse_ready-Ends zero h mountpoint child room = absurd (omega (arith, room))
  wait_for_fuse_ready-Ends (suc fuel) h mountpoint child room = go (parent mountpoint)
    where
      go :
          (p : Option FilePath)
          → Ends h (
              chain (parent_device p) λ parent_dev. invoke SysCall.now λ start.
                wait_turns (suc fuel) mountpoint parent_dev (start + fuse_ready_timeout) child)
      go none = started-Ends fuel h mountpoint _ child (omega (arith, room))
      go (some p) =
          started-Ends fuel (SysCall.device p ∷ h) mountpoint _ child (omega (arith, room))

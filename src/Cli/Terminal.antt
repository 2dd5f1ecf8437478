-- ===== src/Cli/Terminal.antt =====
-- src/cli/sandbox.rs: the relay between the terminal and the command's pseudo terminal. What the system
-- answers in a turn of the loop is an argument, Turn.
pub mod Copies
use coding_agent_sandbox.Common.{
  ℕ, zero, suc, ◌+◌, Bool, true, false, not, ◌&&◌, Option, none, some, List, [], ◌∷◌, ◌++◌, take,
  drop, leb, codes, if◌then◌else◌,
}
use coding_agent_sandbox.Common.Dict.{is_some}
use coding_agent_sandbox.Files.{Bytes}
use coding_agent_sandbox.Sys.{Errno, Result, ok, err, WaitStatus}
use coding_agent_sandbox.Cli.{RunError}
use coding_agent_sandbox.Cli.Setup.{exit_code}

-- What `write` answers: the number of bytes that it took, or an error.
pub data WriteAnswer : Type 0 where
  accepted : ℕ → WriteAnswer
  interrupted : WriteAnswer
  failed : Errno → WriteAnswer

-- The bytes that were written and the result, none where the fuel ends.
abbrev pub Written : Type 0
Written = Bytes × Option (Result RunError (Unit {0}))

abbrev pub pty_error : RunError
pty_error = RunError.pty (codes "relay")

unfoldable pub before : Bytes → Written → Written
before bytes (more, r) = (bytes ++ more, r)

unfoldable pub on_write : WriteAnswer → Bytes → (Bytes → Written) → Written
unfolding before
on_write (accepted n) bytes next = before (take n bytes) (next (drop n bytes))
on_write interrupted bytes next = next bytes
on_write (failed e) bytes next = ([], some (err pty_error))

-- `write_all_fd`; `answers` by the number of the call.
unfoldable pub write_all_fd : ℕ → (ℕ → WriteAnswer) → ℕ → Bytes → Written
unfolding on_write
write_all_fd fuel answers n [] = ([], some (ok tt))
write_all_fd zero answers n (b ∷ bs) = ([], none)
write_all_fd (suc fuel) answers n (b ∷ bs) =
    on_write (answers n) (b ∷ bs) (write_all_fd fuel answers (n + 1))

-- A turn: the error of `poll`, the state of the child, what is read where there is input, whether the
-- size of the terminal has changed, and the clock, in milliseconds.
pub record Turn : Type 0 where
  pub poll_error : Option Errno
  pub status : Result Errno WaitStatus
  pub from_master : Option (Result Errno Bytes)
  pub from_stdin : Option (Result Errno Bytes)
  pub to_stdout : ℕ → WriteAnswer
  pub to_master : ℕ → WriteAnswer
  pub resized : Bool
  pub resize_error : Option Errno
  pub last_status : Result Errno WaitStatus
  pub at_exit : ℕ
  pub at_end : ℕ

-- The variables of the loop, with all that was written to the two sides.
pub record Relay : Type 0 where
  pub stdin_open : Bool
  pub child_exit : Option ℕ
  pub drain_deadline : Option ℕ
  pub stdout : Bytes
  pub master : Bytes

abbrev pub start : Relay
start = record {
  stdin_open = true;
  child_exit = none;
  drain_deadline = none;
  stdout = [];
  master = [];
}

-- The loop goes on, returns, or is within a write where the fuel ends.
pub data Outcome : Type 0 where
  goes_on : Relay → Outcome
  returns : Result RunError ℕ → Outcome
  writing : Outcome

abbrev pub Then : Type 0
Then = Relay → Outcome

unfoldable pub exited : ℕ → ℕ → Relay → Relay
exited code at_exit s = record s {
  child_exit = some code;
  drain_deadline = if is_some s.drain_deadline then s.drain_deadline else some (at_exit + 250);
  stdin_open = s.stdin_open && is_some s.drain_deadline;
}

unfoldable pub reap : Option ℕ → Result Errno WaitStatus → ℕ → Relay → Then → Outcome
unfolding exited
reap (some code) status at_exit s next = next s
reap none (ok (WaitStatus.exited code)) at_exit s next = next (exited code at_exit s)
reap none (ok (WaitStatus.signaled _)) at_exit s next = next (exited 1 at_exit s)
reap none (ok _) at_exit s next = next s
reap none (err e) at_exit s next = returns (err pty_error)

-- The first `poll` of a turn.
unfoldable pub polled : Option Errno → Outcome → Outcome
polled none next = next
polled (some e) next = returns (err pty_error)

-- `write_all_fd(..)?`, and where the bytes go.
unfoldable pub after_write : Written → (Bytes → Outcome) → Outcome
after_write (bytes, some (ok _)) next = next bytes
after_write (bytes, some (err e)) next = returns (err e)
after_write (bytes, none) next = writing

unfoldable pub code_or_wait : Option ℕ → Result Errno WaitStatus → ℕ
code_or_wait (some code) last = code
code_or_wait none last = exit_code last

module _ (fuel : ℕ) where
  unfoldable pub read_master : Turn → Option (Result Errno Bytes) → Relay → Then → Outcome
  unfolding after_write code_or_wait
  read_master t none s next = next s
  read_master t (some (err e)) s next = returns (err pty_error)
  read_master t (some (ok [])) s next = returns (ok (code_or_wait s.child_exit t.last_status))
  read_master t (some (ok (b ∷ bs))) s next =
      after_write (write_all_fd fuel t.to_stdout 0 (b ∷ bs))
        (λ written. next (record s { stdout = s.stdout ++ written }))

  -- `filtered` is all that was read.
  unfoldable pub read_stdin : Turn → Bool → Option (Result Errno Bytes) → Relay → Then → Outcome
  unfolding after_write
  read_stdin t false r s next = next s
  read_stdin t true none s next = next s
  read_stdin t true (some (err e)) s next = returns (err pty_error)
  read_stdin t true (some (ok [])) s next = next (record s { stdin_open = false })
  read_stdin t true (some (ok (b ∷ bs))) s next =
      after_write (write_all_fd fuel t.to_master 0 (b ∷ bs))
        (λ written. next (record s { master = s.master ++ written }))

  unfoldable pub resize : Bool → Option Errno → Outcome → Outcome
  resize true (some e) next = returns (err pty_error)
  resize _ _ next = next

  unfoldable pub drained : Option ℕ → Option ℕ → ℕ → Relay → Outcome
  drained none d now s = goes_on s
  drained (some code) none now s = returns (ok code)
  drained (some code) (some d) now s = if leb d now then returns (ok code) else goes_on s

  unfoldable pub turn : Turn → Relay → Outcome
  unfolding polled reap read_master read_stdin resize drained
  turn t s = polled t.poll_error (
      reap s.child_exit t.status t.at_exit s λ s₁. read_master t t.from_master s₁ λ s₂.
        read_stdin t s₂.stdin_open t.from_stdin s₂ λ s₃.
          resize t.resized t.resize_error (drained s₃.child_exit s₃.drain_deadline t.at_end s₃))

  unfoldable pub continue : Outcome → (Relay → Outcome) → Outcome
  continue (goes_on s) next = next s
  continue o next = o

  -- The loop of `relay_pty_io`, as far as the given turns.
  unfoldable pub relay : List Turn → Relay → Outcome
  unfolding turn continue
  relay [] s = goes_on s
  relay (t ∷ ts) s = continue (turn t s) (relay ts)

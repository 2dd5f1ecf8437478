-- ===== src/Cli/Terminal/Copies.antt =====
-- Proof: the relay copies what it reads, in order, and nothing from the terminal once the child has exited.
use coding_agent_sandbox.Common.{
  ℕ, zero, suc, ◌+◌, ◌<◌, ◌≡◌, refl, sym, ap, ◌∙◌, Bool, true, false, not, ◌&&◌, Option, none, some,
  List, [], ◌∷◌, ◌++◌, take, drop, leb, arith, Bool-cases, inl, inr, if◌then◌else◌,
}
use mathlib.Core.Path.{subst}
use mathlib.Core.List.{append-nil, append_assoc}
use coding_agent_sandbox.Common.Dict.{is_some}
use coding_agent_sandbox.Files.{Bytes}
use coding_agent_sandbox.Sys.{Errno, Result, ok, err, WaitStatus}
use coding_agent_sandbox.Cli.Terminal.{
  WriteAnswer, Written, before, on_write, write_all_fd, Turn, Relay, Outcome, Then, exited, reap,
  polled, after_write, read_master, read_stdin, resize, drained, turn, continue, relay,
}

take-drop : (n : ℕ) (xs : Bytes) → take n xs ++ drop n xs ≡ xs
take-drop zero xs = refl
take-drop (suc n) [] = refl
take-drop (suc n) (x ∷ xs) = ap (λ r. x ∷ r) (take-drop n xs)

on_write-whole :
    (a : WriteAnswer) (bytes : Bytes) (next : Bytes → Written)
    → ((rest : Bytes) → (next rest).1 ≡ some (ok tt) → (next rest).0 ≡ rest)
    → (on_write a bytes next).1 ≡ some (ok tt)
    → (on_write a bytes next).0 ≡ bytes
unfolding on_write before
on_write-whole (WriteAnswer.accepted k) bytes next whole h =
    ap (λ r. take k bytes ++ r) (whole (drop k bytes) h) ∙ take-drop k bytes
on_write-whole WriteAnswer.interrupted bytes next whole h = whole bytes h
on_write-whole (WriteAnswer.failed e) bytes next whole h = ground (arith, h)

-- Where the loop ends without an error, every byte has been written once, in order.
pub write_all_fd-whole :
    (fuel : ℕ) (answers : ℕ → WriteAnswer) (n : ℕ) (bytes : Bytes)
    → (write_all_fd fuel answers n bytes).1 ≡ some (ok tt)
    → (write_all_fd fuel answers n bytes).0 ≡ bytes
unfolding write_all_fd
write_all_fd-whole fuel answers n [] h = refl
write_all_fd-whole zero answers n (b ∷ bs) h = ground (arith, h)
write_all_fd-whole (suc fuel) answers n (b ∷ bs) h =
    on_write-whole (answers n) (b ∷ bs) _ (write_all_fd-whole fuel answers (n + 1)) h

-- A condition on the state with which the loop goes on.
abbrev pub OnGo : (Relay → Type 0) → Outcome → Type 0
OnGo Q (Outcome.goes_on s) = Q s
OnGo Q _ = Unit

-- The bytes that a read gives.
abbrev pub given : Option (Result Errno Bytes) → Bytes
given (some (ok bytes)) = bytes
given _ = []

abbrev pub all_given : List Turn → Bytes
all_given [] = []
all_given (t ∷ ts) = given t.from_master ++ all_given ts

-- The loop goes on after the child has exited only before the deadline.
abbrev pub InTime : Option ℕ → Option ℕ → ℕ → Type 0
InTime none d now = Unit
InTime (some code) none now = Unit
InTime (some code) (some d) now = now < d

-- Once the child has exited there is a deadline and the terminal is not read.
pub record IsDraining (s : Relay) : Type 0 where
  pub has_deadline : is_some s.drain_deadline ≡ is_some s.child_exit
  pub stdin_closed : is_some s.child_exit ≡ true → s.stdin_open ≡ false

pub record Copied (t : Turn) (s s' : Relay) : Type 0 where
  pub draining : IsDraining s'
  pub in_time : InTime s'.child_exit s'.drain_deadline t.at_end
  pub stdout_copied : s'.stdout ≡ s.stdout ++ given t.from_master
  pub master_copied :
      s'.master
      ≡ s.master ++ (if s.stdin_open && not (is_some s'.child_exit) then given t.from_stdin else [])

still_open :
    (s : Relay) → IsDraining s → s.stdin_open ≡ (s.stdin_open && not (is_some s.child_exit))
still_open s d = ground (arith, d.stdin_closed)

exited-IsDraining :
    (code at_exit : ℕ) (s : Relay)
    → none ≡ s.child_exit
    → IsDraining s
    → IsDraining (exited code at_exit s)
unfolding exited
exited-IsDraining code at_exit s e d = record {
  has_deadline = ground (arith, d.has_deadline, ap is_some e);
  stdin_closed = λ _. ground (arith, d.has_deadline, ap is_some e);
}

exited-closed :
    (s : Relay)
    → none ≡ s.child_exit
    → IsDraining s
    → (s.stdin_open && is_some s.drain_deadline) ≡ (s.stdin_open && false)
exited-closed s e d = ground (arith, d.has_deadline, ap is_some e)

module _ (Q : Relay → Type 0) where
  polled-OnGo : (e : Option Errno) (next : Outcome) → OnGo Q next → OnGo Q (polled e next)
  unfolding polled
  polled-OnGo none next h = h
  polled-OnGo (some e) next h = tt

  after_write-OnGo :
      (fuel : ℕ) (answers : ℕ → WriteAnswer) (bytes : Bytes) (next : Bytes → Outcome)
      → OnGo Q (next bytes)
      → OnGo Q (after_write (write_all_fd fuel answers 0 bytes) next)
  unfolding after_write
  after_write-OnGo fuel answers bytes next h =
      go (write_all_fd fuel answers 0 bytes) (write_all_fd-whole fuel answers 0 bytes)
    where
      go : (w : Written) → (w.1 ≡ some (ok tt) → w.0 ≡ bytes) → OnGo Q (after_write w next)
      go (written, some (ok _)) whole = rw (whole refl) h
      go (written, some (err e)) whole = tt
      go (written, none) whole = tt

  resize-OnGo :
      (fuel : ℕ) (resized : Bool) (e : Option Errno) (next : Outcome)
      → OnGo Q next
      → OnGo Q (resize fuel resized e next)
  unfolding resize
  resize-OnGo fuel true (some e) next h = tt
  resize-OnGo fuel true none next h = h
  resize-OnGo fuel false e next h = h

  drained-OnGo :
      (fuel : ℕ) (code d : Option ℕ) (now : ℕ) (s : Relay)
      → (InTime code d now → Q s)
      → OnGo Q (drained fuel code d now s)
  unfolding drained
  drained-OnGo fuel none d now s h = h tt
  drained-OnGo fuel (some code) none now s h = tt
  drained-OnGo fuel (some code) (some d) now s h = elim (Bool-cases (leb d now)) [
    | inl late ↦ rw late tt
    | inr early ↦ rw early (h (ground arith))
  ]

  -- What the reaping of the child leaves.
  reap-OnGo :
      (child : Option ℕ) (status : Result Errno WaitStatus) (at_exit : ℕ) (s : Relay) (next : Then)
      → child ≡ s.child_exit
      → IsDraining s
      → ((s' : Relay)
          → IsDraining s'
          → s'.stdout ≡ s.stdout
          → s'.master ≡ s.master
          → s'.stdin_open ≡ (s.stdin_open && not (is_some s'.child_exit))
          → OnGo Q (next s'))
      → OnGo Q (reap child status at_exit s next)
  unfolding reap exited
  reap-OnGo (some code) status at_exit s next e d h = h s d refl refl (still_open s d)
  reap-OnGo none (ok (WaitStatus.exited code)) at_exit s next e d h =
      h _ (exited-IsDraining code at_exit s e d) refl refl (exited-closed s e d)
  reap-OnGo none (ok (WaitStatus.signaled n)) at_exit s next e d h =
      h _ (exited-IsDraining 1 at_exit s e d) refl refl (exited-closed s e d)
  reap-OnGo none (ok WaitStatus.still_alive) at_exit s next e d h = h s d refl refl (still_open s d)
  reap-OnGo none (ok WaitStatus.other) at_exit s next e d h = h s d refl refl (still_open s d)
  reap-OnGo none (err x) at_exit s next e d h = tt

  read_master-OnGo :
      (fuel : ℕ) (t : Turn) (r : Option (Result Errno Bytes)) (s : Relay) (next : Then)
      → OnGo Q (next (record s { stdout = s.stdout ++ given r }))
      → OnGo Q (read_master fuel t r s next)
  unfolding read_master
  read_master-OnGo fuel t none s next h =
      subst (λ x. OnGo Q (next (record s { stdout = x }))) (append-nil s.stdout) h
  read_master-OnGo fuel t (some (err e)) s next h = tt
  read_master-OnGo fuel t (some (ok [])) s next h = tt
  read_master-OnGo fuel t (some (ok (b ∷ bs))) s next h =
      after_write-OnGo fuel t.to_stdout (b ∷ bs) _ h

  read_stdin-OnGo :
      (fuel : ℕ) (t : Turn) (was_open : Bool) (r : Option (Result Errno Bytes)) (s : Relay)
      (next : Then)
      → was_open ≡ s.stdin_open
      → ((is_open : Bool)
          → (s.stdin_open ≡ false → is_open ≡ false)
          → OnGo Q (
              next (record s {
                stdin_open = is_open;
                master = s.master ++ (if was_open then given r else []);
              })))
      → OnGo Q (read_stdin fuel t was_open r s next)
  unfolding read_stdin
  read_stdin-OnGo fuel t false r s next e h =
      subst (λ x. OnGo Q (next (record s { master = x }))) (append-nil s.master)
        (h s.stdin_open λ c. c)
  read_stdin-OnGo fuel t true none s next e h =
      subst (λ x. OnGo Q (next (record s { master = x }))) (append-nil s.master)
        (h s.stdin_open λ c. c)
  read_stdin-OnGo fuel t true (some (err x)) s next e h = tt
  read_stdin-OnGo fuel t true (some (ok [])) s next e h =
      subst (λ x. OnGo Q (next (record s { stdin_open = false; master = x }))) (append-nil s.master)
        (h false λ c. refl)
  read_stdin-OnGo fuel t true (some (ok (b ∷ bs))) s next e h =
      after_write-OnGo fuel t.to_master (b ∷ bs) _ (h s.stdin_open λ c. c)

module _ (fuel : ℕ) where
  -- If a child that has ended has a deadline and has closed the input, a turn of the relay after
  -- which it goes on has written all bytes that it read from the terminal to the output, in order
  -- and after the earlier ones, and has written all that it read from the input, if that was open
  -- and the child had not ended, to the terminal as it is, the palette replies in it included; it
  -- keeps that condition, and the deadline of a child that has ended has not passed at its end.
  pub turn-Copied : (t : Turn) (s : Relay) → IsDraining s → OnGo (Copied t s) (turn fuel t s)
  unfolding turn
  turn-Copied t s d = polled-OnGo Q t.poll_error _ (
      reap-OnGo Q s.child_exit t.status t.at_exit s _ refl d λ s₁ d₁ out same is_open.
        read_master-OnGo Q fuel t t.from_master s₁ _ (
          read_stdin-OnGo Q fuel t s₁.stdin_open t.from_stdin _ _ refl λ still closed.
            resize-OnGo Q fuel t.resized t.resize_error _ (
              drained-OnGo Q fuel s₁.child_exit s₁.drain_deadline t.at_end _ λ in_time. record {
                in_time = in_time;
                draining = record {
                  has_deadline = d₁.has_deadline;
                  stdin_closed = λ gone. closed (d₁.stdin_closed gone);
                };
                stdout_copied = ap (λ x. x ++ given t.from_master) out;
                master_copied = rw (same, is_open) refl;
              })))
    where
      Q : Relay → Type 0
      Q = Copied t s

  continue-OnGo :
      (P R : Relay → Type 0) (o : Outcome) (next : Relay → Outcome)
      → OnGo P o
      → ((s : Relay) → P s → OnGo R (next s))
      → OnGo R (continue fuel o next)
  unfolding continue
  continue-OnGo P R (Outcome.goes_on s) next h k = k s h
  continue-OnGo P R (Outcome.returns r) next h k = tt
  continue-OnGo P R Outcome.writing next h k = tt

  -- If a child that has ended has a deadline and has closed the input, then after any turns with
  -- which the relay goes on, the output is that of the start followed by every byte that the turns
  -- read from the terminal, in their order.
  pub relay-stdout :
      (ts : List Turn) (s : Relay)
      → IsDraining s
      → OnGo (λ s'. s'.stdout ≡ s.stdout ++ all_given ts) (relay fuel ts s)
  unfolding relay
  relay-stdout [] s d = sym (append-nil s.stdout)
  relay-stdout (t ∷ ts) s d =
      continue-OnGo (Copied t s) _ (turn fuel t s) _ (turn-Copied t s d) λ s' c.
        subst (λ x. OnGo (λ s''. s''.stdout ≡ x) (relay fuel ts s'))
          (ap (λ x. x ++ all_given ts) c.stdout_copied
            ∙ append_assoc s.stdout (given t.from_master) (all_given ts))
          (relay-stdout ts s' c.draining)

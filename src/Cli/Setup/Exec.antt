-- ===== src/Cli/Setup/Exec.antt =====
-- Proof: `exec_command` executes the given command, after the calls that have succeeded before it.
use coding_agent_sandbox.Common.{
  ℕ, ◌≡◌, refl, ◌∙◌, Bool, true, false, Bool-cases, inl, inr, List, [], ◌∷◌, nat_eq, member, codes,
}
use coding_agent_sandbox.FilePath.{Name}
use coding_agent_sandbox.Sys.{Errno, Result, ok, err, SysCall, Try, or_return, ◌>>=◌, ◌>>◌, map_err}
use coding_agent_sandbox.Sys.Always.{Trace, Always, Always-chain, OnOk}
use coding_agent_sandbox.Isolate.Confines.{OnExec}
use coding_agent_sandbox.Cli.{RunError}
use coding_agent_sandbox.Cli.Setup.{
  cstring, cstrings, close_after, or_close, dup_each, with_tty, take_tty, stdio, exec_command,
}

abbrev pub Any : {A : Type 0} → Trace → A → Type 0
Any t a = Unit

abbrev pub Same : {E A : Type 0} → Trace → Trace → Result E A → Type 0
Same t = OnOk (λ u _. u ≡ t)

module _ (R : Trace → Name → List Name → Type 0) where
  abbrev P : Trace → SysCall → Type 0
  P = OnExec R

  pub Always-then :
      {E A B : Type 0} (Q : Trace → A → Type 0) (S : Trace → B → Type 0) (t : Trace) (m : Try E A)
      (k : A → Try E B)
      → Always P (OnOk Q) t m
      → ((u : Trace) (a : A) → Q u a → Always P (OnOk S) u (k a))
      → Always P (OnOk S) t (m >>= k)
  unfolding ◌>>=◌ or_return Always
  Always-then {E} {A} {B} Q S t m k m_ok k_ok = Always-chain P (OnOk Q) (OnOk S) t m _ m_ok after
    where
      after : (u : Trace) (r : Result E A) → OnOk Q u r → Always P (OnOk S) u (or_return k r)
      after u (ok a) h = k_ok u a h
      after u (err e) h = tt

  close_after-Same :
      (fd : ℕ) (r : Result RunError (Unit {0})) (t : Trace) → Always P (Same t) t (close_after fd r)
  unfolding close_after Always
  close_after-Same fd (ok _) t = (tt, λ a. refl)
  close_after-Same fd (err _) t = (tt, λ a. tt)

  or_close-Same :
      (fd : ℕ) (what : Name) (next : Try RunError (Unit {0})) (r : Result Errno (Unit {0}))
      (t : Trace)
      → Always P (Same t) t next
      → Always P (Same t) t (or_close fd what next r)
  unfolding or_close
  or_close-Same fd what next (ok _) t h = h
  or_close-Same fd what next (err _) t h = close_after-Same fd _ t

  dup_each-Same : (slave : ℕ) (fds : List ℕ) (t : Trace) → Always P (Same t) t (dup_each slave fds)
  unfolding dup_each Always
  dup_each-Same slave [] t = close_after-Same slave (ok tt) t
  dup_each-Same slave (fd ∷ fds) t =
      (tt, λ a. or_close-Same slave _ (dup_each slave fds) a t (dup_each-Same slave fds t))

  with_tty-Same : (r : Result Errno ℕ) (t : Trace) → Always P (Same t) t (with_tty r)
  unfolding with_tty Always
  with_tty-Same (ok fd) t = (
    tt,
    λ a. or_close-Same fd (codes "TIOCSCTTY") (dup_each fd stdio) a t (dup_each-Same fd stdio t),
  )
  with_tty-Same (err e) t = tt

  setsid-Same :
      (t : Trace) (a : Result Errno (Unit {0})) (e : Errno → RunError) → Same t t (map_err e a)
  setsid-Same t (ok _) e = refl
  setsid-Same t (err _) e = tt

  take_tty-Same : (use_pty : Bool) (t : Trace) → Always P (Same t) t (take_tty use_pty)
  unfolding take_tty Always ◌>>◌
  take_tty-Same false t = refl
  take_tty-Same true t =
      Always-then (λ u _. u ≡ t) (λ u _. u ≡ t) t _ _ (tt, λ a. setsid-Same t a _)
        λ u _ h. rw h (tt, λ r. with_tty-Same r t)

  cstring-same : (s : Name) (t : Trace) → OnOk (λ u c. (u ≡ t) × (c ≡ s)) t (cstring s)
  unfolding cstring
  cstring-same s t = elim (Bool-cases (member 0 s)) [
    | inl nul ↦ rw nul tt
    | inr clean ↦ rw clean (refl, refl)
  ]

  cstrings-same :
      (args : List Name) (t : Trace)
      → Always P (OnOk (λ u cs. (u ≡ t) × (cs ≡ args))) t (cstrings args)
  unfolding cstrings Always
  cstrings-same [] t = (refl, refl)
  cstrings-same (arg ∷ args) t =
      Always-then (λ u c. (u ≡ t) × (c ≡ arg)) (λ u cs. (u ≡ t) × (cs ≡ arg ∷ args)) t _ _
        (cstring-same arg t)
        λ u c h.
          Always-then (λ v cs. (v ≡ u) × (cs ≡ args)) (λ u cs. (u ≡ t) × (cs ≡ arg ∷ args)) u _ _
            (cstrings-same args u) λ v cs g. (g.0 ∙ h.0, cc)

  -- The command that is executed is the given one.
  pub exec_command-exec :
      (argv : List Name) (use_pty : Bool) (t : Trace)
      → ((program : Name) (rest : List Name) → argv ≡ program ∷ rest → R t program argv)
      → Always P (OnOk Any) t (exec_command argv use_pty)
  unfolding exec_command Always ◌>>◌
  exec_command-exec [] use_pty t h = tt
  exec_command-exec (program ∷ rest) use_pty t h =
      Always-then (λ u _. u ≡ t) Any t _ _ (take_tty-Same use_pty t)
        λ u _ same.
          Always-then (λ v c. (v ≡ u) × (c ≡ program)) Any u _ _ (cstring-same program u)
            λ v c g.
              Always-then (λ w cs. (w ≡ v) × (cs ≡ program ∷ rest)) Any v _ _
                (cstrings-same (program ∷ rest) v)
                λ w cs f. (rw (f.1, f.0, g.1, g.0, same) (h program rest refl), ended)
    where
      ended : (a : Result Errno (Unit {0})) → OnOk Any t (map_err RunError.io a)
      ended (ok _) = tt
      ended (err _) = tt

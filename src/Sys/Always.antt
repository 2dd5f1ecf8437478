-- ===== src/Sys/Always.antt =====
-- A rule for trees of calls: every call that is reached meets a condition on the calls that have
-- succeeded before it, and so does every result, whatever the answers.
use coding_agent_sandbox.Common.{List, ◌∷◌}
use coding_agent_sandbox.Sys.{Result, ok, err, SysCall, Answer, Process, done, invoke, chain}

abbrev pub Trace : Type 0
Trace = List SysCall

abbrev pub if_ok : {E A : Type 0} → SysCall → Result E A → Trace → Trace
if_ok c (ok a) t = c ∷ t
if_ok c (err e) t = t

-- The calls that confine a process, newest first, where they succeed.
abbrev pub noted : (c : SysCall) → Answer c → Trace → Trace
noted (SysCall.unshare n) a t = if_ok (SysCall.unshare n) a t
noted (SysCall.write_file p x) a t = if_ok (SysCall.write_file p x) a t
noted (SysCall.mount m) a t = if_ok (SysCall.mount m) a t
noted (SysCall.chroot p) a t = if_ok (SysCall.chroot p) a t
noted (SysCall.chdir p) a t = if_ok (SysCall.chdir p) a t
noted (SysCall.filter_add_rule n) a t = if_ok (SysCall.filter_add_rule n) a t
noted SysCall.filter_load a t = if_ok SysCall.filter_load a t
noted _ a t = t

module _ (P : Trace → SysCall → Type 0) where
  unfoldable pub Always : {A : Type 0} → (Trace → A → Type 0) → Trace → Process A → Type 0
  Always Q t (done a) = Q t a
  Always Q t (invoke c k) = P t c × ((a : Answer c) → Always Q (noted c a t) (k a))

  pub Always-chain :
      {A B : Type 0} (Q : Trace → A → Type 0) (R : Trace → B → Type 0) (t : Trace) (m : Process A)
      (f : A → Process B)
      → Always Q t m
      → ((u : Trace) (a : A) → Q u a → Always R u (f a))
      → Always R t (chain m f)
  unfolding Always chain
  Always-chain Q R t (done a) f m_ok f_ok = f_ok t a m_ok
  Always-chain Q R t (invoke c k) f (allowed, m_ok) f_ok =
      (allowed, λ a. Always-chain Q R (noted c a t) (k a) f (m_ok a) f_ok)

  pub Always-weaken :
      {A : Type 0} (Q R : Trace → A → Type 0) (t : Trace) (m : Process A)
      → ((u : Trace) (a : A) → Q u a → R u a)
      → Always Q t m
      → Always R t m
  unfolding Always
  Always-weaken Q R t (done a) f h = f t a h
  Always-weaken Q R t (invoke c k) f (allowed, h) =
      (allowed, λ a. Always-weaken Q R (noted c a t) (k a) f (h a))

-- A condition on a successful result.
abbrev pub OnOk : {E A : Type 0} → (Trace → A → Type 0) → Trace → Result E A → Type 0
OnOk Q t (ok a) = Q t a
OnOk Q t (err e) = Unit

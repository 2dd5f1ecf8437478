-- ===== src/Isolate/Confines.antt =====
-- Proof: the calls that have succeeded where a step of the isolation has succeeded. A result `Adds es`
-- says that they are `es`, newest first, before those of the start.
use coding_agent_sandbox.Common.{ℕ, ◌≡◌, refl, List, [], ◌∷◌, ◌++◌}
use mathlib.Core.List.{append_assoc}
use coding_agent_sandbox.FilePath.{FilePath, Name}
use coding_agent_sandbox.Sys.{
  Errno, Result, ok, err, Namespace, SysCall, Mount, Try, or_return, ◌>>=◌, ◌>>◌, pure, map_err,
  call,
}
use coding_agent_sandbox.Sys.Always.{Trace, if_ok, Always, Always-chain, OnOk}

-- At the exec of a command, `R` holds of the calls that have succeeded.
abbrev pub OnExec : (Trace → Name → List Name → Type 0) → Trace → SysCall → Type 0
OnExec R t (SysCall.execvp program args) = R t program args
OnExec R t _ = Unit

module _ (R : Trace → Name → List Name → Type 0) where
  pub record Adds {E A : Type 0} (es : List SysCall) (m : Try E A) : Type 0 where
    pub always : (t : Trace) → Always (OnExec R) (OnOk (λ u _. u ≡ es ++ t)) t m

  pub Adds-then :
      {E B : Type 0} {es fs : List SysCall} {m : Try E (Unit {0})} {k : Try E B}
      → Adds es m
      → Adds fs k
      → Adds (fs ++ es) (m >> k)
  unfolding Always ◌>>◌ ◌>>=◌ or_return
  Adds-then {E} {B} {es} {fs} {m} {k} m_ok k_ok = record {
    always = λ t.
        Always-chain (OnExec R) (OnOk (λ u _. u ≡ es ++ t)) (OnOk (λ u _. u ≡ (fs ++ es) ++ t)) t m
          _ (m_ok.always t) (after t);
  }
    where
      after :
          (t u : Trace) (r : Result E (Unit {0}))
          → OnOk (λ u _. u ≡ es ++ t) u r
          → Always (OnExec R) (OnOk (λ u _. u ≡ (fs ++ es) ++ t)) u (or_return (λ _. k) r)
      after t u (ok _) h = rw (h, append_assoc fs es t) (k_ok.always (es ++ t))
      after t u (err e) h = tt

  pub done-Adds : (E : Type 0) {A : Type 0} (a : A) → Adds {E = E} [] (pure a)
  unfolding Always
  done-Adds E a = record { always = λ t. refl }

  module _ {E : Type 0} (e : Errno → E) where
    if_ok-map_err :
        (c : SysCall) (t : Trace) (a : Result Errno (Unit {0}))
        → OnOk (λ u _. u ≡ c ∷ t) (if_ok c a t) (map_err e a)
    if_ok-map_err c t (ok _) = refl
    if_ok-map_err c t (err _) = tt

    same-map_err : (t : Trace) (a : Result Errno (Unit {0})) → OnOk (λ u _. u ≡ t) t (map_err e a)
    same-map_err t (ok _) = refl
    same-map_err t (err _) = tt

    pub unshare-Adds :
        (n : Namespace) → Adds (SysCall.unshare n ∷ []) (call (SysCall.unshare n) (map_err e))
    unfolding Always
    unshare-Adds n = record { always = λ t. (tt, if_ok-map_err (SysCall.unshare n) t) }

    pub mount-Adds : (m : Mount) → Adds (SysCall.mount m ∷ []) (call (SysCall.mount m) (map_err e))
    unfolding Always
    mount-Adds m = record { always = λ t. (tt, if_ok-map_err (SysCall.mount m) t) }

    pub chroot-Adds :
        (p : FilePath) → Adds (SysCall.chroot p ∷ []) (call (SysCall.chroot p) (map_err e))
    unfolding Always
    chroot-Adds p = record { always = λ t. (tt, if_ok-map_err (SysCall.chroot p) t) }

    pub chdir-Adds :
        (p : FilePath) → Adds (SysCall.chdir p ∷ []) (call (SysCall.chdir p) (map_err e))
    unfolding Always
    chdir-Adds p = record { always = λ t. (tt, if_ok-map_err (SysCall.chdir p) t) }

    pub filter_add_rule-Adds :
        (n : ℕ)
        → Adds (SysCall.filter_add_rule n ∷ []) (call (SysCall.filter_add_rule n) (map_err e))
    unfolding Always
    filter_add_rule-Adds n = record {
      always = λ t. (tt, if_ok-map_err (SysCall.filter_add_rule n) t);
    }

    pub write_file-Adds :
        (p : FilePath) (x : Name)
        → Adds (SysCall.write_file p x ∷ []) (call (SysCall.write_file p x) (map_err e))
    unfolding Always
    write_file-Adds p x = record { always = λ t. (tt, if_ok-map_err (SysCall.write_file p x) t) }

    pub filter_load-Adds : Adds (SysCall.filter_load ∷ []) (call SysCall.filter_load (map_err e))
    unfolding Always
    filter_load-Adds = record { always = λ t. (tt, if_ok-map_err SysCall.filter_load t) }

    pub filter_new-Adds : Adds [] (call SysCall.filter_new (map_err e))
    unfolding Always
    filter_new-Adds = record { always = λ t. (tt, same-map_err t) }

    pub create_dir_all-Adds : (p : FilePath) → Adds [] (call (SysCall.create_dir_all p) (map_err e))
    unfolding Always
    create_dir_all-Adds p = record { always = λ t. (tt, same-map_err t) }

    pub create_file-Adds : (p : FilePath) → Adds [] (call (SysCall.create_file p) (map_err e))
    unfolding Always
    create_file-Adds p = record { always = λ t. (tt, same-map_err t) }

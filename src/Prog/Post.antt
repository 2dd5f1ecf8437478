-- ===== src/Prog/Post.antt =====
-- A condition that every result of a tree meets, whatever the answers.
use coding_agent_sandbox.Common.{ℕ, suc, ◌≡◌}
use mathlib.Core.Path.{subst}
use coding_agent_sandbox.Disk.{Codec}
use coding_agent_sandbox.Server.State.{World}
use coding_agent_sandbox.Prog.{
  Error, Result, ok, err, Answer, Prog, done, step, bind, Try, or_return, ◌>>=◌, ◌>>◌, OnOk,
}
use coding_agent_sandbox.Prog.Run.{Oracle, respond, run}

unfoldable pub Post : {A : Type 0} → (A → Type 0) → Prog A → Type 0
Post P (done a) = P a
Post P (step c k) = (a : Answer c) → Post P (k a)

Post-bind :
    {A B : Type 0} (P : A → Type 0) (Q : B → Type 0) (m : Prog A) (f : A → Prog B)
    → Post P m
    → ((a : A) → P a → Post Q (f a))
    → Post Q (bind m f)
unfolding Post bind
Post-bind P Q (done a) f s t = t a s
Post-bind P Q (step c k) f s t = λ a. Post-bind P Q (k a) f (s a) t

-- Of a tree that may fail.
abbrev pub PostTry : {A : Type 0} → (A → Type 0) → Try A → Type 0
PostTry P m = Post (OnOk P) m

or_return-Post :
    {A B : Type 0} (P : A → Type 0) (Q : B → Type 0) (f : A → Try B)
    → ((a : A) → P a → PostTry Q (f a))
    → (r : Result Error A) → OnOk P r
    → PostTry Q (or_return f r)
unfolding or_return Post
or_return-Post P Q f t (ok a) h = t a h
or_return-Post P Q f t (err e) h = tt

pub PostTry->>= :
    {A B : Type 0} (P : A → Type 0) (Q : B → Type 0) (m : Try A) (f : A → Try B)
    → PostTry P m
    → ((a : A) → P a → PostTry Q (f a))
    → PostTry Q (m >>= f)
unfolding ◌>>=◌
PostTry->>= P Q m f s t = Post-bind (OnOk P) (OnOk Q) m (or_return f) s (or_return-Post P Q f t)

abbrev pub Any : {A : Type 0} → A → Type 0
Any a = Unit

-- With no condition on the first result.
pub PostTry-Any : {A : Type 0} (m : Try A) → PostTry Any m
unfolding Post
PostTry-Any (done (ok a)) = tt
PostTry-Any (done (err e)) = tt
PostTry-Any (step c k) = λ a. PostTry-Any (k a)

pub PostTry-after :
    {A B : Type 0} (Q : B → Type 0) (m : Try A) (f : A → Try B)
    → ((a : A) → PostTry Q (f a))
    → PostTry Q (m >>= f)
PostTry-after Q m f t = PostTry->>= Any Q m f (PostTry-Any m) (λ a _. t a)

pub PostTry-then :
    {B : Type 0} (Q : B → Type 0) (m : Try (Unit {0})) (k : Try B)
    → PostTry Q k
    → PostTry Q (m >> k)
unfolding ◌>>◌
PostTry-then Q m k t = PostTry-after Q m (λ _. k) (λ _. t)

module _ (C : Codec) (o : Oracle) where
  pub run-Post :
      {A : Type 0} (P : A → Type 0) (n : ℕ) (p : Prog A) (w : World)
      → Post P p
      → P (run C o n p w).0
  unfolding run Post
  run-Post P n (done a) w s = s
  run-Post P n (step c k) w s =
      run-Post P (suc n) (k (respond C o n c w).0) (respond C o n c w).1 (s (respond C o n c w).0)

  -- In the form of a statement about one result.
  pub run-PostTry :
      {A : Type 0} (P : A → Type 0) (n : ℕ) (p : Try A) (w : World) (a : A)
      → PostTry P p
      → (run C o n p w).0 ≡ ok a
      → P a
  run-PostTry P n p w a s h = subst (OnOk P) h (run-Post (OnOk P) n p w s)

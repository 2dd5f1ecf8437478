-- ===== src/Fuse/Handler/Contained.antt =====
-- A rule for handlers (Fuse/Handler.antt), over that of Prog/Safe.antt: every call that is reached is
-- allowed, and every open file that may be written lies in the object store, before and after.
use coding_agent_sandbox.Common.{
  ℕ, ◌≡◌, refl, Bool, true, not, ◌||◌, Option, none, some, nat_eq, arith,
}
use coding_agent_sandbox.Common.Dict
use coding_agent_sandbox.Common.Dict.{Dict}
use coding_agent_sandbox.FilePath.{FilePath}
use coding_agent_sandbox.Host.{File}
use coding_agent_sandbox.Prog.{Error, Result, ok, err, done, Try, OnOk}
use coding_agent_sandbox.Prog.Safe.{Zone, inside, Safe, Safe-bind, SafeTry, Any}
use coding_agent_sandbox.Fuse.OpenFile.{OpenFile, file_of}
use coding_agent_sandbox.Fuse.Handler.{
  Inner, Handler, continue, ◌>>=◌, ◌>>◌, reply, fail, lift, replied, or_errno, outcome, path_of,
  get_or_insert, alloc_fh, open_file, insert_file, remove_file,
}

module _ (zone : Zone) where
  -- The file is opened for reading, or lies in the object store.
  abbrev pub is_contained : File → Bool
  is_contained f = not f.writable || inside zone f.path

  abbrev pub ContainedFile : File → Type 0
  ContainedFile f = is_contained f ≡ true

  abbrev pub Contained : OpenFile → Type 0
  Contained f = is_contained (file_of f) ≡ true

  -- Every open file is.
  unfoldable pub AllContained : Inner → Type 0
  AllContained s = (fh : ℕ) (f : OpenFile) → Dict.lookup fh s.open_files ≡ some f → Contained f

  abbrev pub Ends : {E A : Type 0} → (A → Type 0) → Result E A × Inner → Type 0
  Ends P (ok a, s) = P a × AllContained s
  Ends P (err e, s) = AllContained s

  unfoldable pub SafeHandler : {E A : Type 0} → (A → Type 0) → Handler E A → Type 0
  SafeHandler P m = (s : Inner) → AllContained s → Safe zone (Ends P) (m s)

  continue-Safe :
      {E A B : Type 0} (P : A → Type 0) (Q : B → Type 0) (f : A → Handler E B)
      → ((a : A) → P a → SafeHandler Q (f a))
      → (r : Result E A × Inner) → Ends P r
      → Safe zone (Ends Q) (continue f r)
  unfolding continue SafeHandler Safe
  continue-Safe P Q f t (ok a, s) (h, i) = t a h s i
  continue-Safe P Q f t (err e, s) i = i

  pub SafeHandler->>= :
      {E A B : Type 0} (P : A → Type 0) (Q : B → Type 0) (m : Handler E A) (f : A → Handler E B)
      → SafeHandler P m
      → ((a : A) → P a → SafeHandler Q (f a))
      → SafeHandler Q (m >>= f)
  unfolding ◌>>=◌ SafeHandler
  SafeHandler->>= P Q m f h t s i =
      Safe-bind zone (Ends P) (Ends Q) (m s) (continue f) (h s i) (continue-Safe P Q f t)

  -- With no condition on the first result.
  pub SafeHandler-after :
      {E A B : Type 0} (Q : B → Type 0) (m : Handler E A) (f : A → Handler E B)
      → SafeHandler Any m
      → ((a : A) → SafeHandler Q (f a))
      → SafeHandler Q (m >>= f)
  SafeHandler-after Q m f h t = SafeHandler->>= Any Q m f h (λ a _. t a)

  pub SafeHandler->> :
      {E B : Type 0} (Q : B → Type 0) (m : Handler E (Unit {0})) (k : Handler E B)
      → SafeHandler Any m
      → SafeHandler Q k
      → SafeHandler Q (m >> k)
  unfolding ◌>>◌
  SafeHandler->> Q m k h t = SafeHandler-after Q m (λ _. k) h (λ _. t)

  pub SafeHandler-reply :
      (E : Type 0) {A : Type 0} (P : A → Type 0) (a : A) → P a → SafeHandler {E = E} P (reply a)
  unfolding SafeHandler reply Safe
  SafeHandler-reply E P a h s i = (h, i)

  pub SafeHandler-fail : {E A : Type 0} (P : A → Type 0) (e : E) → SafeHandler P (fail e)
  unfolding SafeHandler fail Safe
  SafeHandler-fail P e s i = i

  ended :
      {A : Type 0} (P : A → Type 0) (s : Inner)
      → AllContained s
      → (r : Result Error A) → OnOk P r
      → Ends P (r, s)
  ended P s i (ok a) h = (h, i)
  ended P s i (err e) h = i

  pub SafeHandler-lift :
      {A : Type 0} (P : A → Type 0) (m : Try A) → SafeTry zone P m → SafeHandler P (lift m)
  unfolding SafeHandler lift Safe
  SafeHandler-lift P m h s i = Safe-bind zone (OnOk P) (Ends P) m (λ r. done (r, s)) h (ended P s i)

  errno_ended :
      {A : Type 0} (P : A → Type 0) (r : Result Error A × Inner)
      → Ends P r
      → Ends P (replied r.0, r.1)
  errno_ended P (ok a, s) h = h
  errno_ended P (err e, s) h = h

  pub SafeHandler-or_errno :
      {A : Type 0} (P : A → Type 0) (m : Handler Error A)
      → SafeHandler P m
      → SafeHandler P (or_errno m)
  unfolding SafeHandler or_errno Safe
  SafeHandler-or_errno P m h s i = Safe-bind zone (Ends P) (Ends P) (m s) _ (h s i) (errno_ended P)

  outcome_ended :
      {A : Type 0} (r : Result Error A × Inner) → Ends Any r → Ends {E = ℕ} Any (ok r.0, r.1)
  outcome_ended (ok a, s) (h, i) = (tt, i)
  outcome_ended (err e, s) i = (tt, i)

  pub SafeHandler-outcome :
      {A : Type 0} (m : Handler Error A) → SafeHandler Any m → SafeHandler Any (outcome m)
  unfolding SafeHandler outcome Safe
  SafeHandler-outcome m h s i = Safe-bind zone (Ends Any) (Ends Any) (m s) _ (h s i) outcome_ended

  pub SafeHandler-path_of : (E : Type 0) (ino : ℕ) → SafeHandler {E = E} Any (path_of ino)
  unfolding SafeHandler path_of Safe
  SafeHandler-path_of E ino s i = (tt, i)

  pub SafeHandler-get_or_insert :
      (E : Type 0) (path : FilePath) → SafeHandler {E = E} Any (get_or_insert path)
  unfolding SafeHandler get_or_insert Safe AllContained
  SafeHandler-get_or_insert E path s i = (tt, i)

  pub SafeHandler-alloc_fh : (E : Type 0) → SafeHandler {E = E} Any alloc_fh
  unfolding SafeHandler alloc_fh Safe AllContained
  SafeHandler-alloc_fh E s i = (tt, i)

  -- An open file that is found is contained.
  unfoldable pub ContainedOption : Option OpenFile → Type 0
  ContainedOption none = Unit
  ContainedOption (some f) = Contained f

  looked_up :
      (s : Inner)
      → AllContained s
      → (fh : ℕ) (o : Option OpenFile) → Dict.lookup fh s.open_files ≡ o
      → ContainedOption o
  unfolding AllContained ContainedOption
  looked_up s i fh none h = tt
  looked_up s i fh (some f) h = i fh f h

  pub SafeHandler-open_file :
      (E : Type 0) (fh : ℕ) → SafeHandler {E = E} ContainedOption (open_file fh)
  unfolding SafeHandler open_file Safe
  SafeHandler-open_file E fh s i = (looked_up s i fh _ refl, i)

  pub SafeHandler-insert_file :
      (E : Type 0) (fh : ℕ) (f : OpenFile)
      → Contained f
      → SafeHandler {E = E} Any (insert_file fh f)
  unfolding SafeHandler insert_file Safe AllContained
  SafeHandler-insert_file E fh f c s i =
      (tt, λ gh g found. ground (arith, Dict.lookup-insert gh fh f s.open_files, i gh g))

  pub SafeHandler-remove_file : (E : Type 0) (fh : ℕ) → SafeHandler {E = E} Any (remove_file fh)
  unfolding SafeHandler remove_file Safe AllContained
  SafeHandler-remove_file E fh s i =
      (tt, λ gh g found. ground (arith, Dict.lookup-erase gh fh s.open_files, i gh g))

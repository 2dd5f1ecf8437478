-- ===== src/Prog/Safe.antt =====
-- A rule for trees: every call that is reached is allowed, and every result meets a condition,
-- whatever the answers, if the objects that the daemon names lie in the object store. Its soundness
-- for runs is in Prog/Safe/Sound.antt.
pub mod Sound
use coding_agent_sandbox.Common.{
  ℕ, ◌≡◌, refl, Bool, true, false, ◌||◌, Option, none, some, arith, if◌then◌else◌, Bool-cases, inl,
  inr,
}
use coding_agent_sandbox.FilePath.{FilePath}
use coding_agent_sandbox.FilePath.Laws.{under}
use coding_agent_sandbox.Proto.{FileMetadata, Request, Response}
use coding_agent_sandbox.Host.{HostCall, Value, touches}
use coding_agent_sandbox.Prog.{
  ClientError, Error, Result, ok, err, Call, Answer, Prog, done, step, bind, Try, or_return, ◌>>=◌,
  ◌>>◌, attempt, ignore, when, from_host, call, OnOk,
}
use coding_agent_sandbox.Client
use coding_agent_sandbox.Client.{Decoder, decoded, send, ensured, refused, object_path_found}

-- The request writes no file but in the object store.
abbrev pub keeps_meta : Request → Bool
keeps_meta Request.flush = false
keeps_meta _ = true

abbrev pub Any : {A : Type 0} → A → Type 0
Any a = Unit

-- Where files may change: below the object store, and what is open to the host.
pub record Zone : Type 0 where
  pub dir : FilePath
  pub is_open : FilePath → Bool

unfoldable pub inside : Zone → FilePath → Bool
inside zone q = under zone.dir q || zone.is_open q

pub stored-inside : (zone : Zone) (q : FilePath) → under zone.dir q ≡ true → inside zone q ≡ true
unfolding inside
stored-inside zone q h = ground arith

pub open-inside : (zone : Zone) (q : FilePath) → zone.is_open q ≡ true → inside zone q ≡ true
unfolding inside
open-inside zone q h = ground arith

module _ (zone : Zone) where
  abbrev pub Allowed : Call → Type 0
  Allowed (Call.request r) = keeps_meta r ≡ true
  Allowed (Call.host h) = (q : FilePath) → touches h q ≡ true → inside zone q ≡ true

  -- An object that a response names lies in the store.
  abbrev pub NamesObject : Response → Type 0
  NamesObject (Response.ensure_file_object id p) = under zone.dir p ≡ true
  NamesObject (Response.get_object_path p) = under zone.dir p ≡ true
  NamesObject _ = Unit

  abbrev pub Expected : (c : Call) → Answer c → Type 0
  Expected (Call.request r) (ok a) = NamesObject a
  Expected (Call.request r) (err e) = Unit
  Expected (Call.host h) a = Unit

  unfoldable pub Safe : {A : Type 0} → (A → Type 0) → Prog A → Type 0
  Safe P (done a) = P a
  Safe P (step c k) = Allowed c × ((a : Answer c) → Expected c a → Safe P (k a))

  pub Safe-bind :
      {A B : Type 0} (P : A → Type 0) (Q : B → Type 0) (m : Prog A) (f : A → Prog B)
      → Safe P m
      → ((a : A) → P a → Safe Q (f a))
      → Safe Q (bind m f)
  unfolding Safe bind
  Safe-bind P Q (done a) f s t = t a s
  Safe-bind P Q (step c k) f (allowed, s) t = (allowed, λ a e. Safe-bind P Q (k a) f (s a e) t)

  -- Of a tree that may fail: the condition is on its successful results.
  abbrev pub SafeTry : {A : Type 0} → (A → Type 0) → Try A → Type 0
  SafeTry P m = Safe (OnOk P) m

  or_return-Safe :
      {A B : Type 0} (P : A → Type 0) (Q : B → Type 0) (f : A → Try B)
      → ((a : A) → P a → SafeTry Q (f a))
      → (r : Result Error A) → OnOk P r
      → SafeTry Q (or_return f r)
  unfolding or_return Safe
  or_return-Safe P Q f t (ok a) h = t a h
  or_return-Safe P Q f t (err e) h = tt

  pub OnOk-Any : {A : Type 0} (x : Result Error A) → OnOk Any x
  OnOk-Any (ok a) = tt
  OnOk-Any (err e) = tt

  pub SafeTry->>= :
      {A B : Type 0} (P : A → Type 0) (Q : B → Type 0) (m : Try A) (f : A → Try B)
      → SafeTry P m
      → ((a : A) → P a → SafeTry Q (f a))
      → SafeTry Q (m >>= f)
  unfolding ◌>>=◌
  SafeTry->>= P Q m f s t = Safe-bind (OnOk P) (OnOk Q) m (or_return f) s (or_return-Safe P Q f t)

  pub SafeTry->> :
      {B : Type 0} (Q : B → Type 0) (m : Try (Unit {0})) (k : Try B)
      → SafeTry Any m
      → SafeTry Q k
      → SafeTry Q (m >> k)
  unfolding ◌>>◌
  SafeTry->> Q m k s t = SafeTry->>= Any Q m (λ _. k) s (λ _ _. t)

  pub SafeTry-ignore :
      {A : Type 0} (P : A → Type 0) (m : Try A) → SafeTry P m → SafeTry Any (ignore m)
  unfolding ignore Safe
  SafeTry-ignore P m s = Safe-bind (OnOk P) (OnOk Any) m _ s (λ r _. tt)

  pub SafeTry-attempt :
      {A : Type 0} (P : A → Type 0) (m : Try A) → SafeTry P m → SafeTry (OnOk P) (attempt m)
  unfolding attempt Safe
  SafeTry-attempt P m s = Safe-bind (OnOk P) (OnOk (OnOk P)) m _ s (λ r h. h)

  pub SafeTry-attempt-Any : {A : Type 0} (m : Try A) → SafeTry Any m → SafeTry Any (attempt m)
  unfolding attempt Safe
  SafeTry-attempt-Any m s = Safe-bind (OnOk Any) (OnOk Any) m _ s (λ r h. tt)

  pub SafeTry-when : (test : Bool) (m : Try (Unit {0})) → SafeTry Any m → SafeTry Any (when test m)
  unfolding when Safe
  SafeTry-when true m s = s
  SafeTry-when false m s = tt

  pub SafeTry-call :
      (h : HostCall)
      → ((q : FilePath) → touches h q ≡ true → inside zone q ≡ true)
      → SafeTry Any (call h)
  unfolding call Safe
  SafeTry-call h allowed = (allowed, λ a e. OnOk-Any (from_host a))

  -- A call that changes no regular file.
  pub SafeTry-call_pure :
      (h : HostCall) → ((q : FilePath) → touches h q ≡ false) → SafeTry Any (call h)
  SafeTry-call_pure h none_touched = SafeTry-call h (λ q t. ground (arith, none_touched q))

  pub SafeTry-send :
      {A : Type 0} (r : Request) (decode : Decoder A)
      → keeps_meta r ≡ true
      → SafeTry Any (send r decode)
  unfolding send Safe
  SafeTry-send r decode kept = (kept, λ a e. OnOk-Any (decoded decode a))

  -- The client's answer for an object, from an expected response.
  abbrev pub StoresObject : ℕ × FilePath → Type 0
  StoresObject (id, p) = under zone.dir p ≡ true

  abbrev pub InStore : FilePath → Type 0
  InStore p = under zone.dir p ≡ true

  decoded-ensured :
      (r : Request) (a : Result ClientError Response)
      → Expected (Call.request r) a
      → OnOk StoresObject (decoded ensured a)
  unfolding decoded ensured refused
  decoded-ensured r (err e) h = tt
  decoded-ensured r (ok (Response.ensure_file_object id p)) h = h
  decoded-ensured r (ok (Response.error m)) h = tt
  decoded-ensured r (ok _) h = tt

  decoded-object_path_found :
      (r : Request) (a : Result ClientError Response)
      → Expected (Call.request r) a
      → OnOk InStore (decoded object_path_found a)
  unfolding decoded object_path_found refused
  decoded-object_path_found r (err e) h = tt
  decoded-object_path_found r (ok (Response.get_object_path p)) h = h
  decoded-object_path_found r (ok (Response.error m)) h = tt
  decoded-object_path_found r (ok _) h = tt

  pub SafeTry-ensured : (r : Request) → keeps_meta r ≡ true → SafeTry StoresObject (send r ensured)
  unfolding send Safe
  SafeTry-ensured r kept = (kept, λ a e. decoded-ensured r a e)

  pub SafeTry-get_object_path : (id : ℕ) → SafeTry InStore (Client.get_object_path id)
  unfolding send Safe
  SafeTry-get_object_path id =
      (refl, λ a e. decoded-object_path_found (Request.get_object_path id) a e)

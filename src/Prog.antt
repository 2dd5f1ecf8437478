-- ===== src/Prog.antt =====
-- A run of the filesystem process as a tree: requests to the daemon and calls of the host, each with
-- one branch for every answer. src/error.rs is the error type.
pub mod Run
pub mod Post
pub mod Safe
use coding_agent_sandbox.Common.{ℕ, Bool, true, false, Option, none, some, List, if◌then◌else◌}
use coding_agent_sandbox.Files.{IoError}
use coding_agent_sandbox.Proto.{Request, Response, Message}
use coding_agent_sandbox.Host.{HostCall, Value}

-- `ClientError` of src/syncing/client.rs
pub data ClientError : Type 0 where
  io : IoError → ClientError
  serialize : ClientError
  server : Message → ClientError
  unexpected_response : ClientError
  not_found : ClientError

-- src/error.rs; an `io` error that carries a text in place of a number has none.
pub data Error : Type 0 where
  syncing_client : ClientError → Error
  io : Option IoError → Error

pub data Result (E A : Type 0) : Type 0 where
  ok : A → Result E A
  err : E → Result E A

pub data Call : Type 0 where
  request : Request → Call
  host : HostCall → Call

abbrev pub Answer : Call → Type 0
Answer (Call.request r) = Result ClientError Response
Answer (Call.host h) = Result IoError (Value h)

pub data Prog (A : Type 0) : Type 0 where
  done : A → Prog A
  step : (c : Call) → (Answer c → Prog A) → Prog A

unfoldable pub bind : {A B : Type 0} → Prog A → (A → Prog B) → Prog B
bind (done a) f = f a
bind (step c k) f = step c (λ a. bind (k a) f)

-- `Result<A>` of a function that makes calls.
abbrev pub Try : Type 0 → Type 0
Try A = Prog (Result Error A)

unfoldable pub or_return : {A B : Type 0} → (A → Try B) → Result Error A → Try B
or_return f (ok a) = f a
or_return f (err e) = done (err e)

-- `?`
infixl 5 ◌>>=◌ ◌>>◌
unfoldable pub ◌>>=◌ : {A B : Type 0} → Try A → (A → Try B) → Try B
m >>= f = bind m (or_return f)

unfoldable pub ◌>>◌ : {B : Type 0} → Try (Unit {0}) → Try B → Try B
m >> k = m >>= λ _. k

abbrev pub pure : {A : Type 0} → A → Try A
pure a = done (ok a)

abbrev pub throw : {A : Type 0} → Error → Try A
throw e = done (err e)

-- The result as a value: `match e`, `if let Ok(..) = e` and `let _ = e`
unfoldable pub attempt : {A : Type 0} → Try A → Try (Result Error A)
attempt m = bind m (λ r. done (ok r))

unfoldable pub ignore : {A : Type 0} → Try A → Try (Unit {0})
ignore m = bind m (λ r. done (ok tt))

-- `.ok()` and `.is_ok()`
abbrev pub to_option : {A : Type 0} → Result Error A → Option A
to_option (ok a) = some a
to_option (err e) = none

abbrev pub is_ok : {A : Type 0} → Result Error A → Bool
is_ok (ok a) = true
is_ok (err e) = false

-- A condition on a result where there is one.
abbrev pub OnOk : {A : Type 0} → (A → Type 0) → Result Error A → Type 0
OnOk P (ok a) = P a
OnOk P (err e) = Unit

-- `if test { e; }`
unfoldable pub when : Bool → Try (Unit {0}) → Try (Unit {0})
when test m = if test then m else pure tt

unfoldable pub from_host : {A : Type 0} → Result IoError A → Result Error A
from_host (ok a) = ok a
from_host (err e) = err (Error.io (some e))

-- A call of the host, `map_err(Error::from)`
unfoldable pub call : (h : HostCall) → Try (Value h)
call h = step (Call.host h) (λ a. done (from_host a))

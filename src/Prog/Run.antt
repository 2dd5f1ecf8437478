-- ===== src/Prog/Run.antt =====
-- A run of a tree against the daemon of Server.antt and the host's files.
use coding_agent_sandbox.Common.{ℕ, suc, Option, none, some, List, [], ◌∷◌, if◌then◌else◌}
use coding_agent_sandbox.Common.Dict
use coding_agent_sandbox.FilePath.{FilePath, path_eq}
use coding_agent_sandbox.Files.{Bytes, Files, IoError}
use coding_agent_sandbox.Proto.{Response}
use coding_agent_sandbox.Disk.{Codec}
use coding_agent_sandbox.Server.State.{World, Io}
use coding_agent_sandbox.Server.Dispatch.{dispatch}
use coding_agent_sandbox.Host.{HostCall, Value, touches}
use coding_agent_sandbox.Prog.{ClientError, Result, ok, err, Call, Answer, Prog, done, step}

-- What becomes of a request on its way to the daemon and back.
pub data Link : Type 0 where
  delivered : Link
  not_sent answer_lost : ClientError → Link

-- A file that a call changes: its new contents, or none where it is gone.
abbrev pub Update : Type 0
Update = FilePath × Option Bytes

-- The surroundings of a run, at each of its calls by number.
pub record Oracle : Type 0 where
  pub link : ℕ → Link
  pub io : ℕ → Io
  pub answer : ℕ → (h : HostCall) → Result IoError (Value h)
  pub updates : ℕ → List Update

-- Updates outside of what the call may touch are no part of it.
unfoldable pub update_files : HostCall → List Update → Files → Files
update_files h [] files = files
update_files h ((p, content) ∷ us) files = update_files h us (
    if touches h p
    then elim content [ none ↦ Dict.erase p files | some b ↦ Dict.insert p b files ]
    else files)

module _ (C : Codec) (o : Oracle) where
  unfoldable pub over_link : Link → Response × World → World → Result ClientError Response × World
  over_link Link.delivered (r, w') w = (ok r, w')
  over_link (Link.not_sent e) _ w = (err e, w)
  over_link (Link.answer_lost e) (r, w') w = (err e, w')

  unfoldable pub respond : ℕ → (c : Call) → World → Answer c × World
  respond n (Call.request r) w = over_link (o.link n) (dispatch C r (o.io n) w) w
  respond n (Call.host h) w =
      (o.answer n h, record w { files = update_files h (o.updates n) w.files })

  -- The result, the world after the run, and the number of the next call.
  unfoldable pub run : {A : Type 0} → ℕ → Prog A → World → A × World × ℕ
  run n (done a) w = (a, w, n)
  run n (step c k) w = let (a, w') = respond n c w in run (suc n) (k a) w'

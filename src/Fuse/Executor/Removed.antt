-- ===== src/Fuse/Executor/Removed.antt =====
-- An unlink that is not made on the host (src/fuse/executor.rs), against the daemon, and the stat of
-- the same path after it (src/fuse/state_loader.rs, src/fuse/decision.rs).
use coding_agent_sandbox.Common.{
  ℕ, suc, ◌≡◌, ◌≢◌, ◌∙◌, ap, refl, Bool, Option, some, arith, ==_refl,
}
use coding_agent_sandbox.Common.Dict
use coding_agent_sandbox.FilePath.{FilePath, path_eq}
use coding_agent_sandbox.Disk.{Codec, FuseMap}
use coding_agent_sandbox.Proto.{FuseEntry, Request, Response, entry_type_eq}
use coding_agent_sandbox.Server.State.{World, put_entry, whiteout_entry}
use coding_agent_sandbox.Server.Dispatch.{dispatch}
use coding_agent_sandbox.Host.{HostCall}
use coding_agent_sandbox.Prog.{
  ClientError, Call, Answer, Prog, done, step, Result, ok, bind, ◌>>=◌, ◌>>◌, or_return, attempt,
  ignore, call, pure,
}
use coding_agent_sandbox.Prog.Run.{Link, Oracle, over_link, respond, run, update_files}
use coding_agent_sandbox.Client.{send, decoded, only, entry_found, refused}
use coding_agent_sandbox.Fuse.Policy.{AccessMode, Policy, passthrough}
use coding_agent_sandbox.Fuse.Decision.{StatDecision, UnlinkDecision, decide_stat}
use coding_agent_sandbox.Fuse.StateLoader.{load_stat_state}
use coding_agent_sandbox.Fuse.Executor.{execute_unlink}

whited_out :
    (mode : AccessMode) (real : Bool) (e : Option FuseEntry)
    → mode ≢ passthrough
    → e ≡ some whiteout_entry
    → decide_stat (record { access_mode = mode; real_exists = real; fuse_entry = e })
      ≡ StatDecision.not_found
unfolding decide_stat entry_type_eq
whited_out mode real e h w = ground (arith, h, w)

inserted :
    (path : FilePath) (e : FuseEntry) (d : FuseMap)
    → Dict.lookup path (Dict.insert path e d) ≡ some e
inserted path e d = ground (arith, Dict.lookup-insert path path e d, ==_refl path)

module _ (C : Codec) (o : Oracle) {A : Type 0} where
  run-delivered :
      (n : ℕ)
      → o.link n ≡ Link.delivered
      → (r : Request) (k : Result ClientError Response → Prog A) (w : World)
      → (run C o n (step (Call.request r) k) w).0
        ≡ (run C o (suc n) (k (ok (dispatch C r (o.io n) w).0)) (dispatch C r (o.io n) w).1).0
  unfolding run respond over_link
  run-delivered n h r k w = rw (h, over_link, run) refl

  run-host :
      (n : ℕ) (h : HostCall) (k : Answer (Call.host h) → Prog A) (w : World)
      → (run C o n (step (Call.host h) k) w).0
        ≡ (run C o
            (suc n)
            (k (o.answer n h))
            (record w { files = update_files h (o.updates n) w.files })).0
  unfolding run respond
  run-host n h k w = refl

  run-done : (n : ℕ) (a : A) (w : World) → (run C o n (done a) w).0 ≡ a
  unfolding run
  run-done n a w = refl

-- Where the daemon is reached and the mode of the path is not passthrough, a stat of a path after
-- the unlink that puts a whiteout on it is decided to find nothing, whatever the real path holds
-- and the daemon had for it.
pub unlink-stat :
    (C : Codec) (o : Oracle) (n : ℕ) (w : World) (policy : Policy) (path : FilePath)
    → ((k : ℕ) → o.link k ≡ Link.delivered)
    → policy.classify path ≢ passthrough
    → (run C o n
        (execute_unlink UnlinkDecision.whiteout_path path
          >> (load_stat_state policy path >>= λ s. pure (decide_stat s)))
        w).0
      ≡ ok StatDecision.not_found
unfolding execute_unlink load_stat_state bind ◌>>=◌ ◌>>◌ or_return attempt ignore call send decoded
    only entry_found refused dispatch put_entry
unlink-stat C o n w policy path d h =
    run-delivered C o n (d n) (Request.delete_file path) _ w
    ∙ run-delivered C o _ (d (suc n)) (Request.put_whiteout path) _ _
    ∙ run-host C o _ (HostCall.symlink_metadata path) _ _
    ∙ run-delivered C o _ (d (suc (suc (suc n)))) (Request.get_entry path) _ _
    ∙ run-done C o _ _ _
    ∙ ap ok (whited_out (policy.classify path) _ _ h (inserted path whiteout_entry _))

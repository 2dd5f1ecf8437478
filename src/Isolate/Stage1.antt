-- ===== src/Isolate/Stage1.antt =====
-- src/isolate/stage1.rs: the user namespace and its identity map.
use coding_agent_sandbox.Common.{
  ℕ, zero, suc, ◌+◌, ◌/◌, ◌%◌, true, [], ◌∷◌, ◌++◌, codes, ltb, ◌==◌, nat_eq, if◌then◌else◌,
}
use coding_agent_sandbox.FilePath.{FilePath, Name}
use coding_agent_sandbox.Sys.{
  Errno, err, Namespace, SysCall, done, invoke, Try, ◌>>◌, pure, map_err, call,
}

pub data Stage1Error : Type 0 where
  get_uid get_gid : Stage1Error
  create_user_ns_err write_uid_map write_gid_map set_uid_map set_gid_map : Errno → Stage1Error

-- `Display` of a number below 10 ^ `places`.
unfoldable pub decimal : ℕ → ℕ → Name
decimal zero n = []
decimal (suc places) n =
    let front = decimal places (n / 10) in
    if ltb n 10 then (48 + n) ∷ [] else front ++ (48 + n % 10) ∷ []

-- A `u32` has at most ten digits.
unfoldable pub id_map : ℕ → Name
unfolding decimal
id_map id = decimal 10 id ++ 32 ∷ decimal 10 id ++ codes " 1\n"

pub record UserNs : Type 0 where
  pub uid : ℕ
  pub gid : ℕ

abbrev pub proc_self : Name → FilePath
proc_self name = record { absolute = true; names = name ∷ codes "self" ∷ codes "proc" ∷ [] }

unfoldable pub write_id_map : Name → Name → (Errno → Stage1Error) → Try Stage1Error (Unit {0})
write_id_map name content e = call (SysCall.write_file (proc_self name) content) (map_err e)

-- After the tests of `UserNs::new`.
unfoldable pub enter : ℕ → ℕ → Try Stage1Error UserNs
unfolding write_id_map id_map
enter uid gid = do
  call (SysCall.unshare Namespace.user) (map_err Stage1Error.create_user_ns_err)
  write_id_map (codes "setgroups") (codes "deny\n") Stage1Error.write_gid_map
  write_id_map (codes "uid_map") (id_map uid) Stage1Error.write_uid_map
  write_id_map (codes "gid_map") (id_map gid) Stage1Error.write_gid_map
  pure (record { uid = uid; gid = gid })

-- `UserNs::new`
unfoldable pub create_user_ns : Try Stage1Error UserNs
unfolding enter
create_user_ns = invoke SysCall.getuid λ uid. invoke SysCall.getgid λ gid.
    if uid == 0
    then done (err Stage1Error.get_uid)
    else if gid == 0
    then done (err Stage1Error.get_gid)
    else enter uid gid

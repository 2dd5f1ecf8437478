-- ===== src/Fuse/Fs/Directory.antt =====
-- src/fuse/fs.rs: the handlers that list directories.
pub mod Pages
use coding_agent_sandbox.Common.{
  ℕ, zero, suc, ◌+◌, Bool, true, false, ◌||◌, ◌&&◌, Option, none, some, List, [], ◌∷◌, ◌++◌, ◌==◌,
  nat_eq, list_eq, ltb, drop, if◌then◌else◌,
}
use coding_agent_sandbox.Common.Dict.{Dict}
use coding_agent_sandbox.FilePath.{FilePath, Name, pop}
use coding_agent_sandbox.Prog.{Error}
use coding_agent_sandbox.Fuse.State.{FileType, directory, ReaddirState}
use coding_agent_sandbox.Fuse.Readdir.{
  ChildDecision, ReaddirError, decide_readdir, validate_readdir_decision, choose_visible_child,
}
use coding_agent_sandbox.Fuse.StateLoader.{load_readdir_state}
use coding_agent_sandbox.Fuse.Executor.{eio}
use coding_agent_sandbox.Fuse.Handler.{
  Handler, ◌>>=◌, ◌>>◌, reply, fail, lift, or_errno, get_or_insert,
}
use coding_agent_sandbox.Fuse.Fs.{Mount, DirRow, Reply, get_path, connect}

abbrev pub Items : Type 0
Items = Dict Name (FileType × FilePath)

-- The order of byte strings.
unfoldable pub name_ltb : Name → Name → Bool
unfolding nat_eq
name_ltb _ [] = false
name_ltb [] (c ∷ m) = true
name_ltb (b ∷ n) (c ∷ m) = ltb b c || (b == c && name_ltb n m)

-- `BTreeMap::insert`: the keys stay in order.
unfoldable pub insert_item : Name → FileType × FilePath → Items → Items
unfolding list_eq nat_eq name_ltb
insert_item name v [] = (name, v) ∷ []
insert_item name v ((m, u) ∷ items) =
    let rest = insert_item name v items in
    if name == m
    then (name, v) ∷ items
    else if name_ltb name m
    then (name, v) ∷ ((m, u) ∷ items)
    else (m, u) ∷ rest

-- The loop over the decisions, which puts the visible children in order of their names.
unfoldable pub visible_items : ReaddirState → Dict Name ChildDecision → Items → Items
visible_items state [] items = items
visible_items state ((name, decision) ∷ decisions) items =
    visible_items state decisions (elim (choose_visible_child state name decision) [
      | none ↦ items
      | some v ↦ insert_item name v items
    ])

-- The entries of the loop, each child with its inode, the first at an offset.
unfoldable pub number_rows : ℕ → Items → Handler ℕ (List DirRow)
number_rows i [] = reply []
number_rows i ((name, (kind, full)) ∷ items) = do
  ino ← get_or_insert full
  rest ← number_rows (suc i) items
  reply (record { ino = ino; offset = i; kind = kind; name = name } ∷ rest)

-- `path.parent().unwrap_or("/")`
unfoldable pub parent_or_root : FilePath → FilePath
parent_or_root path = elim path.names [
  | [] ↦ record { absolute = true; names = [] }
  | ◌∷◌ _ _ ↦ pop path
]

-- The errors of the check carry a text.
unfoldable pub check_decision : Option ReaddirError → Handler ℕ (Unit {0})
check_decision none = reply tt
check_decision (some e) = fail eio

unfoldable pub opendir : ℕ → Handler ℕ Reply
opendir ino = get_path ino >>= λ path. reply (Reply.opened ino false false)

unfoldable pub releasedir : Handler ℕ Reply
releasedir = reply Reply.done

module _ (M : Mount) where
  -- `reply.add` answers whether the buffer is full, in which case the row is not added; the loop
  -- goes on where it answers `true`.
  unfoldable pub add_rows : List DirRow → List DirRow → List DirRow
  add_rows buffer [] = buffer
  add_rows buffer (row ∷ rows) =
      let rest = add_rows buffer rows in if M.fits buffer row then buffer ++ (row ∷ []) else rest

  unfoldable pub readdir : ℕ → ℕ → Handler ℕ Reply
  readdir ino offset = do
    path ← get_path ino
    connect
    state ← or_errno (lift (load_readdir_state M.policy path))
    check_decision (validate_readdir_decision state (decide_readdir state))
    pino ← get_or_insert (parent_or_root path)
    rows ← number_rows 3 (visible_items state (decide_readdir state).per_child [])
    reply (
        Reply.rows (
          add_rows [] (
            drop offset (
              record { ino = ino; offset = 1; kind = directory; name = 46 ∷ [] }
              ∷ (record { ino = pino; offset = 2; kind = directory; name = 46 ∷ 46 ∷ [] }
                  ∷ rows)))))

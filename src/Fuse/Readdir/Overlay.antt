-- ===== src/Fuse/Readdir/Overlay.antt =====
-- The listing of a directory (Fuse/Readdir.antt) as an overlay of two layers.
use coding_agent_sandbox.Common.{
  Bool, true, false, Option, none, some, [], ◌∷◌, ◌≡◌, ◌≢◌, refl, arith, nat_eq, list_eq,
  if◌then◌else◌, Option-cases, inl, inr,
}
use coding_agent_sandbox.Common.Dict
use coding_agent_sandbox.Common.Dict.{Dict, NodupKeys, is_some}
use coding_agent_sandbox.FilePath.{FilePath, Name}
use coding_agent_sandbox.Proto.{EntryType, FuseEntry, entry_type_eq}
use coding_agent_sandbox.Fuse.Policy.{AccessMode, passthrough, fuse_only, copy_on_write}
use coding_agent_sandbox.Fuse.State.{
  FileType, FuseChild, ReaddirChildState, ReaddirState, StatState,
}
use coding_agent_sandbox.Fuse.Decision.{StatDecision, decide_stat}
use coding_agent_sandbox.Fuse.Readdir.{
  ChildDecision, decide_child, decide_one, fuse_is_whiteout, decide_rows, decide_readdir,
  validate_child, validate_rows, validate_readdir_decision, file_type_of, visible_fuse,
  visible_real, visible, choose_visible_child,
}

abbrev pub Shown : Type 0
Shown = Option (FileType × FilePath)

unfoldable or_else : Shown → Shown → Shown
or_else none other = other
or_else (some x) other = some x

-- The two layers of a directory, and which of them is on top; a whiteout hides the name.
unfoldable pub overlay : AccessMode → ReaddirChildState → Shown
unfolding or_else
overlay passthrough c =
    if fuse_is_whiteout c.fuse then none else or_else (visible_real c.real) (visible_fuse c.fuse)
overlay fuse_only c = visible_fuse c.fuse
overlay copy_on_write c =
    if fuse_is_whiteout c.fuse then none else or_else (visible_fuse c.fuse) (visible_real c.real)

visible-decide_one :
    (mode : AccessMode) (c : ReaddirChildState) → visible c (decide_one mode c) ≡ overlay mode c
unfolding decide_one decide_child fuse_is_whiteout file_type_of visible_fuse visible_real visible
    overlay or_else entry_type_eq
visible-decide_one mode c = ground arith

-- The row of a name in the listing, chosen as the handler chooses it.
unfoldable pub shown : ReaddirState → Name → Shown
shown s name = elim (Dict.lookup name (decide_readdir s).per_child) [
  | none ↦ none
  | some decision ↦ choose_visible_child s name decision
]

unfoldable pub overlay_at : AccessMode → Option ReaddirChildState → Shown
overlay_at mode none = none
overlay_at mode (some c) = overlay mode c

abbrev decided : AccessMode → Option ReaddirChildState → Option ChildDecision
decided mode none = none
decided mode (some c) = some (decide_one mode c)

lookup-decide_rows :
    (mode : AccessMode) (name : Name) (children : Dict Name ReaddirChildState)
    → Dict.lookup name (decide_rows mode children) ≡ decided mode (Dict.lookup name children)
unfolding decide_rows
lookup-decide_rows mode name [] =
    ground (
      arith,
      Dict.lookup-nil {V = ChildDecision} name,
      Dict.lookup-nil {V = ReaddirChildState} name,
    )
lookup-decide_rows mode name ((j, c) ∷ children) = ground (
  arith,
  lookup-decide_rows mode name children,
  Dict.lookup-cons name j c children,
  Dict.lookup-cons name j (decide_one mode c) (decide_rows mode children),
)

-- In every mode, what a listing shows for a name is the overlay of the two layers: passthrough
-- puts the real child on top, copy_on_write the entry, fuse_only shows entries alone, and a
-- whiteout hides the name.
pub shown-overlay :
    (s : ReaddirState) (name : Name)
    → shown s name ≡ overlay_at s.access_mode (Dict.lookup name s.children)
unfolding shown decide_readdir choose_visible_child overlay_at
shown-overlay s name = elim (Option-cases (Dict.lookup name s.children)) [
  | inl gone ↦ ground (arith, lookup-decide_rows s.access_mode name s.children)
  | inr (c, found) ↦
      ground (
        arith,
        lookup-decide_rows s.access_mode name s.children,
        visible-decide_one s.access_mode c,
      )
]

validate_child-decide_one :
    (mode : AccessMode) (c : ReaddirChildState) → validate_child (some c) (decide_one mode c) ≡ none
unfolding decide_one decide_child validate_child fuse_is_whiteout
validate_child-decide_one mode c = ground arith

validate_rows-decide_rows :
    (mode : AccessMode) (all children : Dict Name ReaddirChildState)
    → NodupKeys children
    → ((name : Name) (c : ReaddirChildState)
        → Dict.lookup name children ≡ some c
        → Dict.lookup name all ≡ some c)
    → validate_rows all (decide_rows mode children) ≡ none
unfolding validate_rows decide_rows
validate_rows-decide_rows mode all [] u sub = refl
validate_rows-decide_rows mode all ((name, c) ∷ children) (fresh, u) sub =
    rw
      (
        sub name c (ground (arith, Dict.lookup-cons name name c children)),
        validate_child-decide_one mode c,
        validate_rows,
        decide_rows,
      )
      (validate_rows-decide_rows mode all children u
        (λ n d h. sub n d (ground (arith, Dict.lookup-cons n name c children))))

-- The decision that is computed from a listing whose names are distinct passes the check against
-- that listing.
pub validate-decide_readdir :
    (s : ReaddirState)
    → NodupKeys s.children
    → validate_readdir_decision s (decide_readdir s) ≡ none
unfolding validate_readdir_decision decide_readdir
validate-decide_readdir s u =
    validate_rows-decide_rows s.access_mode s.children s.children u (λ name c h. h)

-- The same path as `stat` sees it.
abbrev pub is_found : StatDecision → Bool
is_found StatDecision.not_found = false
is_found _ = true

abbrev pub kind_of_entry : Option FuseEntry → Option EntryType
kind_of_entry none = none
kind_of_entry (some e) = some e.entry_type

abbrev pub kind_of_child : Option FuseChild → Option EntryType
kind_of_child none = none
kind_of_child (some f) = some f.entry_type

-- Where the mode is not passthrough, and the stat of a path and the row of the path in a listing
-- have the same kind of entry and the same real existence, stat finds the path exactly when the
-- listing shows it.
pub stat_agrees :
    (s : StatState) (c : ReaddirChildState)
    → s.access_mode ≢ passthrough
    → kind_of_entry s.fuse_entry ≡ kind_of_child c.fuse
    → s.real_exists ≡ is_some c.real
    → is_found (decide_stat s) ≡ is_some (visible c (decide_one s.access_mode c))
unfolding decide_stat decide_one decide_child fuse_is_whiteout file_type_of visible_fuse
    visible_real visible entry_type_eq
stat_agrees s c mode same_fuse same_real = ground arith

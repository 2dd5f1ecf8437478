-- ===== src/FilePath/Laws.antt =====
-- The prefix order on paths: `under a d` is `d.starts_with(a)` for an `a` that is not empty.
use coding_agent_sandbox.Common.{
  ◌≤◌, ◌≡◌, ap, sym, Bool, true, false, not, ◌&&◌, ◌||◌, some, List, [], ◌∷◌, ◌++◌, map, arith,
  length, length-append, Eq, ◌==◌, bool_eq, nat_eq, list_eq, if◌then◌else◌, bit, count,
  Option-cases, inl, inr, Bool-cases,
}
use coding_agent_sandbox.FilePath.{
  Name, FilePath, path_eq, is_blank, strip, strip_prefix, starts_with, depth, tails, ancestors,
}
use mathlib.Core.List.{append_assoc}

abbrev same : Discrete (List Name)
same = Eq.dec list_eq

strip_sound : (a d r : List Name) → strip a d ≡ some r → d ≡ r ++ a
unfolding strip
strip_sound a [] r h = ground arith
strip_sound a (n ∷ d) r h = elim (same a (n ∷ d)) [
  | yes p ↦ ground arith
  | no p ↦ elim (Option-cases (strip a d)) [
    | inl gone ↦ ground arith
    | inr (s, found) ↦ ground (arith, strip_sound a d s)
  ]
]

strip-append : (a r : List Name) → strip a (r ++ a) ≡ some r
unfolding strip
strip-append [] [] = ground arith
strip-append (n ∷ a) [] = ground arith
strip-append a (n ∷ r) = elim (same a (n ∷ (r ++ a))) [
  | yes p ↦ absurd (longer (ap length p))
  | no p ↦ ground (arith, strip-append a r)
]
  where
    longer : length a ≡ length (n ∷ (r ++ a)) → ⊥
    longer e = omega (arith, length-append r a, e)

-- The test that the ancestor index is held to.
unfoldable pub under : FilePath → FilePath → Bool
unfolding is_blank starts_with
under a d = not (is_blank a) && starts_with d a

abbrev below : FilePath → List Name → FilePath
below a r = record a { names = r ++ a.names }

under_below : (a : FilePath) (r : List Name) → is_blank a ≡ false → under a (below a r) ≡ true
unfolding under
under_below a r h = ground (arith, strip-append a.names r)

below_of_under :
    (a d : FilePath) → under a d ≡ true → (is_blank a ≡ false) × ((r : List Name) × (d ≡ below a r))
unfolding under
below_of_under a d h = elim (Option-cases (strip a.names d.names)) [
  | inl gone ↦ ground arith
  | inr (r, found) ↦ (ground arith, (r, ground (arith, strip_sound a.names d.names r found)))
]

pub under_refl : (a : FilePath) → is_blank a ≡ false → under a a ≡ true
under_refl a h = under_below a [] h

pub not_blank_of_under : (a d : FilePath) → under a d ≡ true → is_blank a ≡ false
not_blank_of_under a d h = (below_of_under a d h).0

pub under_trans : (a b c : FilePath) → under a b ≡ true → under b c ≡ true → under a c ≡ true
under_trans a b c h k =
    let (solid, (r, e)) = below_of_under a b h in
    let (_, (s, f)) = below_of_under b c k in
    let g : c ≡ below a (s ++ r) = ground (arith, append_assoc s r a.names, e, f) in
    rw g (under_below a (s ++ r) solid)

pub depth_of_under : (a d : FilePath) → under a d ≡ true → depth a ≤ depth d
depth_of_under a d h =
    let (_, (r, e)) = below_of_under a d h in omega (arith, length-append r a.names, ap depth e)

pub under_antisymm : (a d : FilePath) → under a d ≡ true → depth d ≤ depth a → a ≡ d
under_antisymm a d h le = let (_, (r, e)) = below_of_under a d h in go r e
  where
    go : (r : List Name) → d ≡ below a r → a ≡ d
    go [] e = sym e
    go (n ∷ r) e = absurd (omega (arith, length-append r a.names, ap depth e))

pub absolute_of_under : (a d : FilePath) → under a d ≡ true → a.absolute ≡ d.absolute
unfolding under
absolute_of_under a d h = ground arith

abbrev pub path : Bool → List Name → FilePath
path abs ns = record { absolute = abs; names = ns }

under_nil :
    (a : FilePath) (abs : Bool) → is_blank a ≡ false → (a == path abs []) ≡ under a (path abs [])
unfolding under strip
under_nil a abs h = ground arith

under_cons :
    (a : FilePath) (abs : Bool) (n : Name) (ns : List Name)
    → is_blank a ≡ false
    → under a (path abs (n ∷ ns)) ≡ (if a == path abs (n ∷ ns) then true else under a (path abs ns))
unfolding under strip
under_cons a abs n ns h = ground arith

not_under_tail :
    (a : FilePath) (abs : Bool) (n : Name) (ns : List Name)
    → a ≡ path abs (n ∷ ns)
    → under a (path abs ns) ≡ false
not_under_tail a abs n ns e = elim (Bool-cases (under a (path abs ns))) [
  | inl h ↦ absurd (omega (arith, depth_of_under a (path abs ns) h, ap depth e))
  | inr h ↦ h
]

-- An ancestor list names each prefix of the path once.
count-ancestors-tails :
    (a : FilePath) (abs : Bool) (ns : List Name)
    → is_blank a ≡ false
    → count a (map (path abs) (tails ns)) ≡ bit (under a (path abs ns))
unfolding count tails
count-ancestors-tails a abs [] h = ground (arith, under_nil a abs h)
count-ancestors-tails a abs (n ∷ ns) h =
    ground
      (arith, under_cons a abs n ns h, not_under_tail a abs n ns, count-ancestors-tails a abs ns h)

pub count-ancestors :
    (a d : FilePath) → is_blank a ≡ false → count a (ancestors d) ≡ bit (under a d)
unfolding ancestors
count-ancestors a d h = count-ancestors-tails a d.absolute d.names h

-- A path's prefixes are itself and those of its parent.
pub under-join :
    (a : FilePath) (abs : Bool) (n : Name) (ns : List Name)
    → under a (path abs (n ∷ ns)) ≡ (a == path abs (n ∷ ns) || under a (path abs ns))
unfolding is_blank
under-join a abs n ns = ground (
  arith,
  under_cons a abs n ns,
  not_blank_of_under a (path abs (n ∷ ns)),
  not_blank_of_under a (path abs ns),
  Bool-cases (under a (path abs (n ∷ ns))),
  Bool-cases (under a (path abs ns)),
)

pub under_root : (a : FilePath) (abs : Bool) → under a (path abs []) ≡ (a == path abs [] && abs)
unfolding is_blank
under_root a abs =
    ground (
      arith,
      under_nil a abs,
      not_blank_of_under a (path abs []),
      Bool-cases (under a (path abs [])),
    )

pub strip_prefix_self :
    (p : FilePath) → is_blank p ≡ false → strip_prefix p p ≡ some (path false [])
unfolding strip_prefix
strip_prefix_self p h = ground (arith, strip-append p.names [])

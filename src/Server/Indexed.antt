-- ===== src/Server/Indexed.antt =====
-- The daemon's path tree covers its map: what every request that respects it keeps.
use coding_agent_sandbox.Common.{
  ◌^◌, ◌<◌, ◌≡◌, ◌∙◌, sym, true, false, some, arith, Bool-cases, Option-cases, inl, inr,
}
use coding_agent_sandbox.Common.Dict
use coding_agent_sandbox.FilePath.{FilePath, path_eq, is_blank, depth}
use coding_agent_sandbox.FilePath.Laws.{under, under_refl}
use coding_agent_sandbox.PathTree.{PathTree, contains}
use coding_agent_sandbox.PathTree.Represents.{PathSet, Represents, Represents-ext}
use coding_agent_sandbox.PathTree.Insert.{with_ancestors, insert-Represents}
use coding_agent_sandbox.PathTree.Remove.{without_subtree, remove-Represents}
use coding_agent_sandbox.Proto.{FuseEntry, is_whiteout}
use coding_agent_sandbox.Disk.{FuseMap}
use coding_agent_sandbox.Server.State.{ServerState, put_entry}
use coding_agent_sandbox.Server.Entries.{delete_file, delete_whiteout}

-- The table is that of the paths that it contains.
abbrev pub IsTable : PathTree → Type 0
IsTable t = Represents (contains t) t

pub Represents-IsTable : (S : PathSet) {t : PathTree} → Represents S t → IsTable t
Represents-IsTable S {t} r = Represents-ext S (contains t) (λ d. sym (r.present d)) r

-- Every path of the map is in the table.
abbrev pub Listed : PathSet → FuseMap → Type 0
Listed S m = (p : FilePath) (e : FuseEntry) → Dict.lookup p m ≡ some e → S p ≡ true

pub record IsIndexed (s : ServerState) : Type 0 where
  pub table : IsTable s.path_tree
  pub listed : Listed (contains s.path_tree) s.fuse_map

-- A path that the table can hold: not the empty one, and of fewer than 2 ^ 32 components.
pub record IsPlain (p : FilePath) : Type 0 where
  pub solid : is_blank p ≡ false
  pub shallow : depth p < 2 ^ 32

-- From any set that the tree represents and that covers the map.
pub IsIndexed-intro :
    (S : PathSet) (s : ServerState) → Represents S s.path_tree → Listed S s.fuse_map → IsIndexed s
IsIndexed-intro S s r h = record {
  table = Represents-IsTable S r;
  listed = λ p e k. r.present p ∙ h p e k;
}

pub put_entry-IsIndexed :
    (p : FilePath) (e : FuseEntry) (s : ServerState)
    → IsPlain p
    → IsIndexed s
    → IsIndexed (put_entry p e s)
unfolding put_entry
put_entry-IsIndexed p e s plain i =
    IsIndexed-intro (with_ancestors p (contains s.path_tree)) (put_entry p e s)
      (insert-Represents (contains s.path_tree) p i.table plain.shallow)
      (λ q f h.
        ground (arith, Dict.lookup-insert q p e s.fuse_map, i.listed q f, under_refl p plain.solid))

-- The map has nothing strictly below the path.
abbrev pub IsBare : FilePath → FuseMap → Type 0
IsBare p m = (q : FilePath) (e : FuseEntry) → Dict.lookup q m ≡ some e → under p q ≡ true → q ≡ p

pub delete_file-IsIndexed :
    (p : FilePath) (s : ServerState)
    → IsBare p s.fuse_map
    → IsIndexed s
    → IsIndexed (delete_file s p)
unfolding delete_file
delete_file-IsIndexed p s bare i =
    IsIndexed-intro (without_subtree p (contains s.path_tree)) (delete_file s p)
      (remove-Represents i.table p)
      (λ q f h.
        ground
          (arith, Dict.lookup-erase q p s.fuse_map, i.listed q f, bare q f, Bool-cases (under p q)))

-- Whatever is taken out of the map, the tree still covers it.
pub delete_whiteout-IsIndexed :
    (p : FilePath) (s : ServerState) → IsIndexed s → IsIndexed (delete_whiteout s p)
unfolding delete_whiteout
delete_whiteout-IsIndexed p s i = elim (Option-cases (Dict.lookup p s.fuse_map)) [
  | inl gone ↦ rw (gone, delete_whiteout) i
  | inr (e, found) ↦ elim (Bool-cases (is_whiteout e)) [
    | inl whited ↦
        rw (found, delete_whiteout, whited)
          (record {
            table = i.table;
            listed = λ q f h. ground (arith, Dict.lookup-erase q p s.fuse_map, i.listed q f);
          })
    | inr other ↦ rw (found, delete_whiteout, other) i
  ]
]

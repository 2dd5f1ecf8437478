-- ===== src/Server/Owned.antt =====
-- No two paths of the daemon's map share an object.
use coding_agent_sandbox.Common.{
  ℕ, ◌<◌, ◌≤◌, ◌≡◌, some, List, [], ◌∷◌, arith, Option-cases, inl, inr,
}
use coding_agent_sandbox.Common.Dict
use coding_agent_sandbox.FilePath.{FilePath, path_eq}
use coding_agent_sandbox.Proto.{FuseEntry}
use coding_agent_sandbox.Disk.{FuseMap}
use coding_agent_sandbox.Server.Entries.{rebase, move_entry}
use mathlib.Core.List.{foldl}

-- The path's entry has the object.
abbrev pub Holds : FuseMap → FilePath → ℕ → Type 0
Holds m p id = (e : FuseEntry) × (Dict.lookup p m ≡ some e) × (e.object_id ≡ some id)

-- Every object of the map has a number below `n`, and belongs to one path.
pub record Owns (m : FuseMap) (n : ℕ) : Type 0 where
  pub below :
      (p : FilePath) (e : FuseEntry) (id : ℕ)
      → Dict.lookup p m ≡ some e
      → e.object_id ≡ some id
      → id < n
  pub unshared :
      (p q : FilePath) (e f : FuseEntry) (id : ℕ)
      → Dict.lookup p m ≡ some e
      → Dict.lookup q m ≡ some f
      → e.object_id ≡ some id
      → f.object_id ≡ some id
      → p ≡ q

pub Owns-weaken : {m : FuseMap} {n k : ℕ} → n ≤ k → Owns m n → Owns m k
Owns-weaken {m} {n} {k} le o = record {
  below = λ p e id h j. let b = o.below p e id h j in omega arith;
  unshared = o.unshared;
}

-- The object is numbered below `n`, and no path but `p` has it.
pub record Free (m : FuseMap) (n : ℕ) (p : FilePath) (id : ℕ) : Type 0 where
  pub numbered : id < n
  pub alone :
      (q : FilePath) (f : FuseEntry) → Dict.lookup q m ≡ some f → f.object_id ≡ some id → q ≡ p

pub insert-Owns :
    {m : FuseMap} {n k : ℕ} (p : FilePath) (e : FuseEntry)
    → n ≤ k
    → ((id : ℕ) → e.object_id ≡ some id → Free m k p id)
    → Owns m n
    → Owns (Dict.insert p e m) k
insert-Owns {m} {n} {k} p e le free o = record {
  below = λ q f id h j. elim (path_eq.dec q p) [
    | yes same ↦ let fr = free id (ground (arith, Dict.lookup-insert q p e m)) in fr.numbered
    | no other ↦
        let b = o.below q f id (ground (arith, Dict.lookup-insert q p e m)) j in omega arith
  ];
  unshared = λ q r f g id h h' j j'. elim (path_eq.dec q p) [
    | yes same ↦
        let fr = free id (ground (arith, Dict.lookup-insert q p e m)) in
        ground (arith, fr.alone r g, Dict.lookup-insert r p e m)
    | no other ↦ elim (path_eq.dec r p) [
      | yes same ↦
          let fr = free id (ground (arith, Dict.lookup-insert r p e m)) in
          ground (arith, fr.alone q f, Dict.lookup-insert q p e m)
      | no neither ↦
          ground
            (arith, o.unshared q r f g id, Dict.lookup-insert q p e m, Dict.lookup-insert r p e m)
    ]
  ];
}

pub erase-Owns : {m : FuseMap} {n : ℕ} (p : FilePath) → Owns m n → Owns (Dict.erase p m) n
erase-Owns {m} {n} p o = record {
  below = λ q f id h j. ground (arith, o.below q f id, Dict.lookup-erase q p m);
  unshared = λ q r f g id h h' j j'.
      ground (arith, o.unshared q r f g id, Dict.lookup-erase q p m, Dict.lookup-erase r p m);
}

-- Once `p` is taken out, its object is free for another path.
Free-erase :
    {m : FuseMap} {n : ℕ} (p to : FilePath) (e : FuseEntry) (id : ℕ)
    → Dict.lookup p m ≡ some e
    → Owns m n
    → e.object_id ≡ some id
    → Free (Dict.erase p m) n to id
Free-erase {m} p to e id h o j = record {
  numbered = o.below p e id h j;
  alone = λ q f k l. ground (arith, o.unshared p q e f id, Dict.lookup-erase q p m);
}

pub move-Owns :
    {m : FuseMap} {n : ℕ} (p to : FilePath) (e : FuseEntry)
    → Dict.lookup p m ≡ some e
    → Owns m n
    → Owns (Dict.insert to e (Dict.erase p m)) n
move-Owns p to e h o =
    insert-Owns to e (omega arith) (λ id. Free-erase p to e id h o) (erase-Owns p o)

move_entry-Owns :
    {m : FuseMap} {n : ℕ} (from to : FilePath) (old : FilePath)
    → Owns m n
    → Owns (move_entry from to m old) n
unfolding move_entry
move_entry-Owns {m} from to old o = elim (Option-cases (Dict.lookup old m)) [
  | inl gone ↦ rw (gone, move_entry) o
  | inr (e, found) ↦ rw (found, move_entry) (move-Owns old (rebase from to old) e found o)
]

pub move_entries-Owns :
    (m : FuseMap) {n : ℕ} (from to : FilePath) (olds : List FilePath)
    → Owns m n
    → Owns (foldl (move_entry from to) m olds) n
move_entries-Owns m from to [] o = o
move_entries-Owns m from to (old ∷ olds) o =
    move_entries-Owns (move_entry from to m old) from to olds (move_entry-Owns from to old o)

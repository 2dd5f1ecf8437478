-- ===== src/Fuse/Inode/Laws.antt =====
-- Fuse/Inode.antt: the two maps are inverse, so a path has one number and a number one path.
use coding_agent_sandbox.Common.{
  ℕ, ◌+◌, ◌^◌, ◌<◌, ◌≡◌, some, [], nat_eq, arith, Option-cases, inl, inr,
}
use coding_agent_sandbox.Common.Dict
use coding_agent_sandbox.FilePath.{FilePath, path_eq}
use coding_agent_sandbox.Fuse.Inode.{InodeTable, init, get_or_insert, get_path, get_ino}

pub record IsValid (t : InodeTable) : Type 0 where
  pub forth : (p : FilePath) (n : ℕ) → get_ino t p ≡ some n → get_path t n ≡ some p
  pub back : (p : FilePath) (n : ℕ) → get_path t n ≡ some p → get_ino t p ≡ some n
  pub numbered : (n : ℕ) (p : FilePath) → get_path t n ≡ some p → n < t.next_ino

pub init-IsValid : (root : FilePath) → IsValid (init root)
unfolding init get_path get_ino
init-IsValid root = record {
  forth = λ p n h. ground (
    arith,
    Dict.lookup-cons {V = ℕ} p root 1 [],
    Dict.lookup-cons {V = FilePath} n 1 root [],
    Dict.lookup-nil {V = ℕ} p,
  );
  back = λ p n h. ground (
    arith,
    Dict.lookup-cons {V = ℕ} p root 1 [],
    Dict.lookup-cons {V = FilePath} n 1 root [],
    Dict.lookup-nil {V = FilePath} n,
  );
  numbered = λ n p h.
      ground (arith, Dict.lookup-cons {V = FilePath} n 1 root [], Dict.lookup-nil {V = FilePath} n);
}

module _ (t : InodeTable) (path : FilePath) (room : t.next_ino + 1 < 2 ^ 64) (v : IsValid t) where
  -- While numbers are left, get_or_insert keeps the two maps inverse to each other, and every
  -- number that was given out below the next one.
  pub get_or_insert-IsValid : IsValid (get_or_insert t path).1
  unfolding get_or_insert get_path get_ino
  get_or_insert-IsValid = elim (Option-cases (Dict.lookup path t.path_to_ino)) [
    | inr (ino, found) ↦ rw (found, get_or_insert) v
    | inl gone ↦
        rw (gone, get_or_insert)
          (record {
            forth = λ p n h. ground (
              arith,
              gone,
              Dict.lookup-insert p path t.next_ino t.path_to_ino,
              Dict.lookup-insert n t.next_ino path t.ino_to_path,
              v.forth p n,
              v.numbered n p,
            );
            back = λ p n h. ground (
              arith,
              gone,
              Dict.lookup-insert p path t.next_ino t.path_to_ino,
              Dict.lookup-insert n t.next_ino path t.ino_to_path,
              v.back p n,
            );
            numbered = λ n p h.
                ground (arith, Dict.lookup-insert n t.next_ino path t.ino_to_path, v.numbered n p);
          })
  ]

  -- While numbers are left, the number that get_or_insert returns leads back to its path, and a
  -- number that led to a path before still leads to it.
  pub get_path-get_or_insert :
      (n : ℕ) (p : FilePath)
      → get_path t n ≡ some p
      → (get_path (get_or_insert t path).1 (get_or_insert t path).0 ≡ some path)
        × (get_path (get_or_insert t path).1 n ≡ some p)
  unfolding get_or_insert get_path get_ino
  get_path-get_or_insert n p h = elim (Option-cases (Dict.lookup path t.path_to_ino)) [
    | inr (ino, found) ↦ rw (found, get_or_insert) (v.forth path ino found, h)
    | inl gone ↦
        rw (gone, get_or_insert)
          (
            ground (arith, Dict.lookup-insert t.next_ino t.next_ino path t.ino_to_path),
            ground (arith, Dict.lookup-insert n t.next_ino path t.ino_to_path, v.numbered n p h),
          )
  ]

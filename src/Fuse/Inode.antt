-- ===== src/Fuse/Inode.antt =====
-- src/fuse/inode.rs: inode numbers and paths, both ways. One call is one step.
pub mod Laws
use coding_agent_sandbox.Common.{ℕ, ◌+◌, ◌%◌, ◌^◌, Option, none, some, [], ◌∷◌, nat_eq}
use coding_agent_sandbox.Common.Dict
use coding_agent_sandbox.Common.Dict.{Dict}
use coding_agent_sandbox.FilePath.{FilePath, path_eq}

pub record InodeTable : Type 0 where
  pub ino_to_path : Dict ℕ FilePath
  pub path_to_ino : Dict FilePath ℕ
  pub next_ino : ℕ

-- `InodeTable::new`
unfoldable pub init : FilePath → InodeTable
init root = record { ino_to_path = (1, root) ∷ []; path_to_ino = (root, 1) ∷ []; next_ino = 2 }

-- `fetch_add` on an `AtomicU64`.
unfoldable pub get_or_insert : InodeTable → FilePath → ℕ × InodeTable
get_or_insert t path = elim (Dict.lookup path t.path_to_ino) [
  | some ino ↦ (ino, t)
  | none ↦ (
    t.next_ino,
    record {
      ino_to_path = Dict.insert t.next_ino path t.ino_to_path;
      path_to_ino = Dict.insert path t.next_ino t.path_to_ino;
      next_ino = (t.next_ino + 1) % 2 ^ 64;
    },
  )
]

unfoldable pub get_path : InodeTable → ℕ → Option FilePath
get_path t ino = Dict.lookup ino t.ino_to_path

unfoldable pub get_ino : InodeTable → FilePath → Option ℕ
get_ino t path = Dict.lookup path t.path_to_ino

-- ===== src/Files.antt =====
-- The real filesystem as the daemon uses it (src/syncing/object.rs, src/syncing/disk.rs): the
-- contents of the regular files by path. What the kernel answers to a write is an argument.
pub mod Laws
use coding_agent_sandbox.Common.{ℕ, Option, none, some, List, take}
use coding_agent_sandbox.Common.Dict
use coding_agent_sandbox.Common.Dict.{Dict}
use coding_agent_sandbox.FilePath.{FilePath, path_eq}

abbrev pub Bytes : Type 0
Bytes = List ℕ

abbrev pub Files : Type 0
Files = Dict FilePath Bytes

-- `std::io::Error`, by its number.
abbrev pub IoError : Type 0
IoError = ℕ

-- What becomes of `File::create(path)?; file.write_all(data)?; file.sync_all()?`.
pub data WriteOutcome : Type 0 where
  written : WriteOutcome
  create_fails : IoError → WriteOutcome
  -- the number of bytes that were written before the error
  write_fails : IoError → ℕ → WriteOutcome
  sync_fails : IoError → WriteOutcome

-- The error, if there is one, and the files.
unfoldable pub write_file : FilePath → Bytes → WriteOutcome → Files → Option IoError × Files
unfolding Dict.insert
write_file path bytes written files = (none, Dict.insert path bytes files)
write_file path bytes (create_fails e) files = (some e, files)
write_file path bytes (write_fails e n) files = (some e, Dict.insert path (take n bytes) files)
write_file path bytes (sync_fails e) files = (some e, Dict.insert path bytes files)

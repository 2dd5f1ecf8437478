-- ===== src/Files/Laws.antt =====
-- A write of one file leaves every other file alone.
use coding_agent_sandbox.Common.{◌≡◌, ◌≢◌, arith, take}
use coding_agent_sandbox.Common.Dict
use coding_agent_sandbox.FilePath.{FilePath, path_eq}
use coding_agent_sandbox.Files.{
  Bytes, Files, WriteOutcome, written, create_fails, write_fails, sync_fails, write_file,
}

pub lookup-write_file_ne :
    (p q : FilePath) (bytes : Bytes) (io : WriteOutcome) (files : Files)
    → q ≢ p
    → Dict.lookup q (write_file p bytes io files).1 ≡ Dict.lookup q files
unfolding write_file
lookup-write_file_ne p q bytes written files h = ground (arith, Dict.lookup-insert q p bytes files)
lookup-write_file_ne p q bytes (create_fails e) files h = ground arith
lookup-write_file_ne p q bytes (write_fails e n) files h =
    ground (arith, Dict.lookup-insert q p (take n bytes) files)
lookup-write_file_ne p q bytes (sync_fails e) files h =
    ground (arith, Dict.lookup-insert q p bytes files)

-- ===== src/Lib.antt =====
-- A model of coding-agent-sandbox: a copy-on-write sandbox for a coding agent. A process mounts the
-- host's filesystem through FUSE, decides by a policy whether an operation on a path goes to the
-- real file or to an overlay, and keeps the overlay in a daemon that it talks to over a socket.
--
-- The parts, and the files that model them:
--   Common        shared names, equality as an instance, list and map lemmas
--   FilePath      std::path::Path on paths of normal components, deepest component first
--   PathTree      src/syncing/closure.rs, the closure table with its three indexes. The abstract
--                 view is a set of paths closed under prefixes (PathTree/Represents); the other
--                 children are named for what they prove: Insert, FromPaths, Queries, Remove, Serial
--   Files         the contents of the host's regular files, by path, as the daemon changes them
--   ObjectStore   src/syncing/object.rs: put, put_copy_from, get, get_range, exists
--   Proto         src/syncing/proto.rs: requests, responses, entries
--   Disk          src/syncing/disk.rs: load, flush, init_sandbox
--   Server        src/syncing/server.rs: State, Objects and Entries are what dispatch calls, Dispatch
--                 is dispatch and build_server_state; Indexed, Renames, Steps, Listing, Owned,
--                 Isolation and Private are proofs. Connection is handle_connection, with the framing of
--                 src/syncing/client.rs (send_request)
--   Pool          src/syncing/pool.rs: the state under the mutex. Threads is checkout and drop as steps of
--                 threads that interleave; Invariant and Balance are proofs
--   Shm           src/shm/state.rs and mutex.rs: the two words. Region is region.rs, create and open of
--                 state.rs and their use in src/cli/run.rs; Region/Held is a proof
--   Sys           calls of the kernel by the set-up of the sandbox, and a process as a tree of them;
--                 Always is a rule for such trees
--   Isolate       src/isolate: Stage1, Stage2 and Seccomp are the files of these names, Syscalls is the
--                 table of seccomp.rs; Confines and Steps are proofs
--   Cli           src/cli/run.rs and sandbox.rs: Setup is the setup process to its exec, Lifecycle the
--                 runs and daemons of one sandbox as a step relation (enter_run_lifecycle, fork_and_run,
--                 wait_for_daemon_ready, poll_shutdown, the end of run_async; the steps are in
--                 Lifecycle/Steps), Terminal is relay_pty_io. Setup/Waiting, Setup/Exec, Setup/Confined,
--                 Lifecycle/Invariant, Lifecycle/Races and Terminal/Copies are proofs
--   Config        src/config/policy.rs: the policy of a configuration
--   Host          the calls of the host's filesystem (std::fs, nix, libc), and the files each may change
--   Prog          a run of the filesystem process as a tree of requests and host calls; src/error.rs.
--                 Run is its run against the daemon, Post and Safe are rules for trees
--   Client        src/syncing/client.rs: the methods of SyncClient
--   Fuse          src/fuse: Policy, State, StateLoader, Decision, Readdir, Inode, Attr, OpenFile and
--                 Executor are the files of these names. Handler and Inner are inner.rs; Fs is fs.rs:
--                 the handlers in Attributes, Entries, Opening, Data, Locks and Directory, and Serve,
--                 which gives each request of the kernel to its handler. Walk is
--                 recursive_real_descendants. Modules named Contained, Isolated, Laws, Overlay, Open,
--                 Isolation, Listing, Renaming, Create, Removed, Pages and Ends are proofs
--   Tests         runs on concrete inputs
--
-- How they interact: a request of the kernel is given to its handler, which loads what it needs,
-- decides, and executes: a tree of calls (Prog). A run (Prog/Run) takes the tree through the calls in
-- order. A call of the host is answered by an argument of the run (Oracle), which may also change any
-- file that the call may touch; a file is named by the path that it was opened at. A Request may be
-- lost on its way or its answer on the way back; else dispatch takes the daemon's state to
-- the next, with what the kernel answers to its file operations (Io) as an argument, so that every
-- failure is a branch. One request is one step: the daemon serves connections concurrently over
-- concurrent maps, and interleavings inside a request are not modelled. The
-- pool and the lifecycle are step relations instead: there each section under a mutex is a step, and
-- the steps of threads or processes interleave in any order.
--
-- Bounds: a distance in the closure table is a u32, so its theorems are about paths of fewer than
-- 2 ^ 32 components; object and inode numbers are u64 and wrap, so a theorem about a new number
-- assumes that one is left. The walk of rmdir reads a tree of the host's directories that the model
-- does not bound, so it has fuel (Mount), and replies unfinished where the fuel ends; a loop that ends
-- needs as much fuel as it has turns (Fuse/Walk/Ends). The wait for the mount has fuel, of which 202
-- turns are enough: each turn sleeps, and the timeout is 200 sleeps. The loop of a connection has
-- fuel, of which one more than the number of requests is enough. A write to a terminal has fuel for
-- its calls of write, which may take nothing, and the relay takes the list of what the host answers
-- in its turns. All other recursion is on lists and trees.
--
-- Parameters: the encoding of postcard (Disk, Codec), with its documented round trip as a
-- hypothesis (IsLawful); globset, with what it documents of two patterns (Config/Policy, IsFaithful),
-- and the home directory; the answers of the kernel (Oracle, Io, Kernel), with what Instant::now and
-- thread::sleep document as a hypothesis (Cli/Setup/Waiting, IsTimely); libseccomp's numbers of names;
-- the encoding of a message on the socket (Wire), with its round trip as a hypothesis; whether a name
-- is UTF-8, and whether a row fits in the buffer of a listing (Mount). Maps are association lists
-- with one value under a key; no property depends on the order of iteration of a hash map. Requests of the kernel are served
-- one after another: interleavings of handlers are not modelled. What the kernel reads and writes
-- through a backing file without asking is not seen by the process and not modelled.
--
-- Not modelled: src/fuse/mount.rs and the capabilities of init in src/fuse/fs.rs (set-up of a
-- library); src/config/config.rs (TOML parsing); src/cli/clean.rs, purge.rs and init.rs, src/log.rs and
-- src/main.rs (arguments, messages, removing directories); in src/cli/sandbox.rs the opening of the
-- terminal and its raw mode; in src/syncing/server.rs bind_listener and the accept loop, of which the
-- poll is a step of Cli/Lifecycle; adopt_mutex_after_fork of src/shm/mutex.rs, which nothing calls;
-- AccessLog of src/syncing/disk.rs. Processes that are killed, and mutexes that a panic has poisoned,
-- are not modelled.
pub mod Common
pub mod FilePath
pub mod PathTree
pub mod Files
pub mod ObjectStore
pub mod Proto
pub mod Disk
pub mod Server
pub mod Host
pub mod Prog
pub mod Client
pub mod Pool
pub mod Shm
pub mod Sys
pub mod Isolate
pub mod Cli
pub mod Fuse
pub mod Config
mod Tests

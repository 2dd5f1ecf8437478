-- ===== src/Fuse/Walk/Ends.antt =====
-- The walk of Fuse/Walk.antt against the loop of `recursive_real_descendants` without fuel.
use coding_agent_sandbox.Common.{ℕ, zero, suc, ◌≤◌, ◌≡◌, refl, some, List, [], ◌∷◌, ◌++◌, arith}
use coding_agent_sandbox.FilePath.{FilePath, Name}
use coding_agent_sandbox.Disk.{Codec}
use coding_agent_sandbox.Server.State.{World}
use coding_agent_sandbox.Host.{HostCall}
use coding_agent_sandbox.Prog.{ok, bind, ◌>>=◌, or_return, attempt, call, from_host}
use coding_agent_sandbox.Prog.Run.{Oracle, respond, run}
use coding_agent_sandbox.Fuse.State.{FileType}
use coding_agent_sandbox.Fuse.Walk.{items_of, push_directories, paths_in, walk}

module _ (o : Oracle) where
  -- What the call with a number reads of a directory.
  abbrev items_at : ℕ → FilePath → List (Name × FileType)
  items_at n path = items_of (from_host (o.answer n (HostCall.read_dir path)))

  -- The loop, from a stack and what it found so far, ends with a list after a number of turns.
  pub data Loop : ℕ → ℕ → List FilePath → List FilePath → List FilePath → Type 0 where
    ends : {n : ℕ} {out : List FilePath} → Loop n 0 [] out out
    turns :
        {n k : ℕ} {path : FilePath} {stack out found : List FilePath}
        → Loop
            (suc n)
            k
            (push_directories path (items_at n path) stack)
            (out ++ paths_in path (items_at n path))
            found
        → Loop n (suc k) (path ∷ stack) out found

  -- If the loop of recursive_real_descendants ends after a number of turns, from its stack and
  -- what it found so far, then the walk with at least that fuel returns what the loop found.
  pub walk-Loop :
      (C : Codec) (n k fuel : ℕ) (stack out found : List FilePath) (w : World)
      → Loop n k stack out found
      → k ≤ fuel
      → (run C o n (walk fuel stack out) w).0 ≡ ok (some found)
  unfolding walk run bind ◌>>=◌ or_return attempt call respond
  walk-Loop C n k fuel stack out found w ends h = refl
  walk-Loop C n k zero stack out found w (turns l) h = absurd (omega (arith, h))
  walk-Loop C n k (suc fuel) stack out found w (turns l) h =
      walk-Loop C (suc n) _ fuel _ _ found _ l (omega (arith, h))

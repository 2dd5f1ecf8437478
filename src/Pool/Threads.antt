-- ===== src/Pool/Threads.antt =====
-- The threads that use a pool, interleaved in any order. The condition variable wakes at most one
-- of the threads that wait, any of them, and may wake one without cause.
use coding_agent_sandbox.Common.{ℕ, ◌≡◌, List, [], ◌∷◌, ◌++◌, sum}
use coding_agent_sandbox.Pool.{
  SyncClient, PoolState, new, max_size_of, Turn, checkout_turn, rollback, give_back,
}

-- A thread and the clients that it holds: it works, is at the head of the loop of `checkout`, has a
-- place and connects, or waits in `Condvar::wait`.
pub data Thread : Type 0 where
  working : List SyncClient → Thread
  checking : List SyncClient → Thread
  connecting : List SyncClient → Thread
  waiting : List SyncClient → Thread

abbrev pub waits : Thread → ℕ
waits (Thread.waiting _) = 1
waits _ = 0

pub record System : Type 0 where
  pub pool : PoolState
  pub threads : List Thread

unfoldable pub after : Turn → List SyncClient → Thread
after (Turn.popped client) held = Thread.working (client ∷ held)
after Turn.reserved held = Thread.connecting held
after Turn.full held = Thread.waiting held

-- `notify_one`
pub data Notified : List Thread → List Thread → Type 0 where
  nobody : (ts : List Thread) → sum waits ts ≡ 0 → Notified ts ts
  woken :
      (us vs : List Thread) (held : List SyncClient)
      → Notified (us ++ Thread.waiting held ∷ vs) (us ++ Thread.checking held ∷ vs)

-- One thread moves; `us` and `vs` are the others. The list has the client that was connected.
pub data Step (max_size : ℕ) : List SyncClient → System → System → Type 0 where
  enter :
      (p : PoolState) (us vs : List Thread) (held : List SyncClient)
      → Step max_size []
          (record { pool = p; threads = us ++ Thread.working held ∷ vs })
          (record { pool = p; threads = us ++ Thread.checking held ∷ vs })
  turn :
      (p : PoolState) (us vs : List Thread) (held : List SyncClient)
      → Step max_size []
          (record { pool = p; threads = us ++ Thread.checking held ∷ vs })
          (record {
            pool = (checkout_turn max_size p).1;
            threads = us ++ after (checkout_turn max_size p).0 held ∷ vs;
          })
  connected :
      (client : SyncClient) (p : PoolState) (us vs : List Thread) (held : List SyncClient)
      → Step max_size
          (client ∷ [])
          (record { pool = p; threads = us ++ Thread.connecting held ∷ vs })
          (record { pool = p; threads = us ++ Thread.working (client ∷ held) ∷ vs })
  refused :
      (p : PoolState) (us vs ts : List Thread) (held : List SyncClient)
      → Notified (us ++ Thread.working held ∷ vs) ts
      → Step max_size []
          (record { pool = p; threads = us ++ Thread.connecting held ∷ vs })
          (record { pool = rollback p; threads = ts })
  dropped :
      (client : SyncClient) (p : PoolState) (us vs ts : List Thread) (front back : List SyncClient)
      → Notified (us ++ Thread.working (front ++ back) ∷ vs) ts
      → Step max_size []
          (record { pool = p; threads = us ++ Thread.working (front ++ client ∷ back) ∷ vs })
          (record { pool = give_back client p; threads = ts })
  woken_without_cause :
      (p : PoolState) (us vs : List Thread) (held : List SyncClient)
      → Step max_size []
          (record { pool = p; threads = us ++ Thread.waiting held ∷ vs })
          (record { pool = p; threads = us ++ Thread.checking held ∷ vs })

-- No thread has called `checkout`.
abbrev pub IsStart : List Thread → Type 0
IsStart [] = Unit
IsStart (t ∷ ts) = (t ≡ Thread.working []) × IsStart ts

-- The states of a pool made with `max_size`, with the clients that have been connected.
pub data Reach (max_size : ℕ) : List SyncClient → System → Type 0 where
  start : (ts : List Thread) → IsStart ts → Reach max_size [] (record { pool = new; threads = ts })
  later :
      (opened fresh : List SyncClient) (s t : System)
      → Reach max_size opened s
      → Step (max_size_of max_size) fresh s t
      → Reach max_size (fresh ++ opened) t

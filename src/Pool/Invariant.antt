-- ===== src/Pool/Invariant.antt =====
-- Proof: the places of a pool are never more than its size, each is in use or idle, and no
-- notification is lost.
use coding_agent_sandbox.Common.{
  ℕ, suc, ◌+◌, ◌-◌, ◌≤◌, ◌<◌, ◌≡◌, refl, ap, List, [], ◌∷◌, ◌++◌, length, arith, length-append, sum,
  sum-at, ltb, ◌⊎◌, inl, inr, Bool-cases,
}
use coding_agent_sandbox.Pool.{
  SyncClient, PoolState, max_size_of, turn_at, checkout_turn, rollback, give_back,
}
use coding_agent_sandbox.Pool.Threads.{Thread, waits, System, after, Notified, Step, IsStart, Reach}

-- The places that a thread has: a client that it holds, or the one that it connects.
abbrev pub places : Thread → ℕ
places (Thread.working held) = length held
places (Thread.checking held) = length held
places (Thread.connecting held) = suc (length held)
places (Thread.waiting held) = length held

abbrev pub checks : Thread → ℕ
checks (Thread.checking _) = 1
checks _ = 0

-- Every place is idle or with a thread, there are at most `max_size`, and where a thread waits,
-- there is a thread on its way to the lock for every place that is free.
pub record IsBalanced (max_size : ℕ) (s : System) : Type 0 where
  pub placed : length s.pool.idle + sum places s.threads ≡ s.pool.total
  pub bounded : s.pool.total ≤ max_size
  pub notified :
      0 < sum waits s.threads
      → length s.pool.idle + (max_size - s.pool.total) ≤ sum checks s.threads

-- Nobody waits, or one thread less.
abbrev IsWake : List Thread → List Thread → Type 0
IsWake ts us =
    (sum waits ts ≡ 0) × (sum waits us ≡ 0)
    ⊎ (sum checks us ≡ sum checks ts + 1) × (sum waits us + 1 ≡ sum waits ts)

places-Notified : {ts us : List Thread} → Notified ts us → sum places us ≡ sum places ts
places-Notified (Notified.nobody ts _) = refl
places-Notified (Notified.woken us vs held) =
    ground
      (arith, sum-at places us vs (Thread.waiting held), sum-at places us vs (Thread.checking held))

Notified-IsWake : {ts us : List Thread} → Notified ts us → IsWake ts us
Notified-IsWake (Notified.nobody ts none) = inl (none, none)
Notified-IsWake (Notified.woken us vs held) = inr (
  ground (
    arith,
    sum-at checks us vs (Thread.waiting held),
    sum-at checks us vs (Thread.checking held),
  ),
  ground
      (arith, sum-at waits us vs (Thread.waiting held), sum-at waits us vs (Thread.checking held)),
)

module _ (us vs : List Thread) (t u : Thread) where
  record Counts : Type 0 where
    placed : sum places (us ++ u ∷ vs) + places t ≡ sum places (us ++ t ∷ vs) + places u
    waiting : sum waits (us ++ u ∷ vs) + waits t ≡ sum waits (us ++ t ∷ vs) + waits u
    checking : sum checks (us ++ u ∷ vs) + checks t ≡ sum checks (us ++ t ∷ vs) + checks u

  -- The sums before and after a thread moves from `t` to `u`.
  moved : Counts
  moved = record {
    placed = omega (arith, sum-at places us vs t, sum-at places us vs u);
    waiting = omega (arith, sum-at waits us vs t, sum-at waits us vs u);
    checking = omega (arith, sum-at checks us vs t, sum-at checks us vs u);
  }

turn_at-IsBalanced :
    (max_size n : ℕ) (idle : List SyncClient) (us vs : List Thread) (held : List SyncClient)
    → IsBalanced max_size (record {
      pool = record { idle = idle; total = n };
      threads = us ++ Thread.checking held ∷ vs;
    })
    → IsBalanced max_size (record {
      pool = (turn_at max_size n idle).1;
      threads = us ++ after (turn_at max_size n idle).0 held ∷ vs;
    })
unfolding turn_at after
turn_at-IsBalanced max_size n (client ∷ idle) us vs held b =
    let m = moved us vs (Thread.checking held) (Thread.working (client ∷ held)) in
    record {
      placed = ground (arith, m.placed, b.placed);
      bounded = b.bounded;
      notified = λ some. ground (arith, m.waiting, m.checking, some, b.notified);
    }
turn_at-IsBalanced max_size n [] us vs held b = elim (Bool-cases (ltb n max_size)) [
  | inl room ↦
      let m = moved us vs (Thread.checking held) (Thread.connecting held) in
      rw (room, turn_at)
        record {
          placed = ground (arith, m.placed, b.placed);
          bounded = ground arith;
          notified = λ some. ground (arith, m.waiting, m.checking, some, b.notified);
        }
  | inr none ↦
      let m = moved us vs (Thread.checking held) (Thread.waiting held) in
      rw (none, turn_at)
        record {
          placed = ground (arith, m.placed, b.placed);
          bounded = b.bounded;
          notified = λ some. ground (arith);
        }
]

turn-IsBalanced :
    (max_size : ℕ) (p : PoolState) (us vs : List Thread) (held : List SyncClient)
    → IsBalanced max_size (record { pool = p; threads = us ++ Thread.checking held ∷ vs })
    → IsBalanced max_size (record {
      pool = (checkout_turn max_size p).1;
      threads = us ++ after (checkout_turn max_size p).0 held ∷ vs;
    })
unfolding checkout_turn
turn-IsBalanced max_size p us vs held b = turn_at-IsBalanced max_size p.total p.idle us vs held b

freed-IsBalanced :
    (max_size : ℕ) (p q : PoolState) (us vs ts : List Thread) (t u : Thread)
    → q.total ≤ p.total
    → length q.idle + places u + p.total ≡ length p.idle + places t + q.total
    → length q.idle + (p.total - q.total) ≤ suc (length p.idle)
    → waits u ≡ waits t
    → checks u ≡ checks t
    → Notified (us ++ u ∷ vs) ts
    → IsBalanced max_size (record { pool = p; threads = us ++ t ∷ vs })
    → IsBalanced max_size (record { pool = q; threads = ts })
freed-IsBalanced max_size p q us vs ts t u less even one wait check n b =
    let m = moved us vs t u in
    record {
      placed = omega (arith, m.placed, b.placed, even, places-Notified n);
      bounded = omega (arith, b.bounded, less);
      notified = λ some. elim (Notified-IsWake n) [
        | inl (_, nobody) ↦ absurd (omega (arith, nobody, some))
        | inr (check_one, wait_one) ↦ ground (
          arith, m.waiting, m.checking, some, b.notified, b.bounded, less, one, wait, check,
          check_one, wait_one,
        )
      ];
    }

pub Step-IsBalanced :
    {max_size : ℕ} {fresh : List SyncClient} {s t : System}
    → Step max_size fresh s t
    → IsBalanced max_size s
    → IsBalanced max_size t
unfolding rollback give_back
Step-IsBalanced (Step.enter p us vs held) b =
    let m = moved us vs (Thread.working held) (Thread.checking held) in
    record {
      placed = ground (arith, m.placed, b.placed);
      bounded = b.bounded;
      notified = λ some. ground (arith, m.waiting, m.checking, some, b.notified);
    }
Step-IsBalanced {max_size} (Step.turn p us vs held) b = turn-IsBalanced max_size p us vs held b
Step-IsBalanced (Step.connected client p us vs held) b =
    let m = moved us vs (Thread.connecting held) (Thread.working (client ∷ held)) in
    record {
      placed = ground (arith, m.placed, b.placed);
      bounded = b.bounded;
      notified = λ some. ground (arith, m.waiting, m.checking, some, b.notified);
    }
Step-IsBalanced {max_size} (Step.refused p us vs ts held n) b =
    freed-IsBalanced max_size p (rollback p) us vs ts (Thread.connecting held) (Thread.working held)
      (omega arith) (ground (arith, b.placed, sum-at places us vs (Thread.connecting held)))
      (omega arith) refl refl n b
Step-IsBalanced {max_size} (Step.dropped client p us vs ts front back n) b =
    freed-IsBalanced max_size p (give_back client p) us vs ts
      (Thread.working (front ++ client ∷ back)) (Thread.working (front ++ back)) (omega arith)
      (ground (arith, length-append front back, length-append front (client ∷ back))) (ground arith)
      refl refl n b
Step-IsBalanced (Step.woken_without_cause p us vs held) b =
    let m = moved us vs (Thread.waiting held) (Thread.checking held) in
    record {
      placed = ground (arith, m.placed, b.placed);
      bounded = b.bounded;
      notified = λ some. ground (arith, m.waiting, m.checking, some, b.notified);
    }

pub IsStart-sum :
    (f : Thread → ℕ) (ts : List Thread) → f (Thread.working []) ≡ 0 → IsStart ts → sum f ts ≡ 0
unfolding sum
IsStart-sum f [] zero_at _ = refl
IsStart-sum f (t ∷ ts) zero_at (eq, rest) = ground (arith, ap f eq, IsStart-sum f ts zero_at rest)

-- In every state that threads reach by checking out clients and giving them back, in any order,
-- with any connection failing: total counts the idle clients, the held ones and the connections
-- being made, it is at most the size of the pool, and where a thread waits, at least as many
-- threads are on their way to check the pool as it has places that are free.
pub Reach-IsBalanced :
    {max_size : ℕ} {opened : List SyncClient} {s : System}
    → Reach max_size opened s
    → IsBalanced (max_size_of max_size) s
Reach-IsBalanced (Reach.start ts init) = record {
  placed = ground (arith, IsStart-sum places ts refl init);
  bounded = omega arith;
  notified = λ some. absurd (omega (arith, IsStart-sum waits ts refl init, some));
}
Reach-IsBalanced (Reach.later opened fresh s t r m) = Step-IsBalanced m (Reach-IsBalanced r)

-- The clients that a thread holds while it waits.
abbrev pub held_waiting : Thread → ℕ
held_waiting (Thread.waiting held) = length held
held_waiting _ = 0

-- A thread that can go on, and that checks, connects or holds a client.
abbrev pub serves : Thread → ℕ
serves (Thread.working []) = 0
serves (Thread.waiting _) = 0
serves _ = 1

-- ===== src/Pool/Balance.antt =====
-- Proof: every client that was connected is in one place.
use coding_agent_sandbox.Common.{
  ℕ, ◌+◌, ◌≡◌, refl, List, [], ◌∷◌, ◌++◌, count, count-append, sum, sum-at, arith, Bool-cases, inl,
  inr, ltb, nat_eq,
}
use coding_agent_sandbox.Pool.{
  SyncClient, client_eq, PoolState, turn_at, checkout_turn, rollback, give_back,
}
use coding_agent_sandbox.Pool.Threads.{Thread, System, after, Notified, Step, Reach}
use coding_agent_sandbox.Pool.Invariant.{IsStart-sum}

abbrev pub held : Thread → List SyncClient
held (Thread.working cs) = cs
held (Thread.checking cs) = cs
held (Thread.connecting cs) = cs
held (Thread.waiting cs) = cs

-- How often a client is idle or held.
unfoldable pub copies : SyncClient → System → ℕ
copies c s = count c s.pool.idle + sum (λ t. count c (held t)) s.threads

module _ (c : SyncClient) where
  abbrev of : Thread → ℕ
  of t = count c (held t)

  Notified-sum : {ts us : List Thread} → Notified ts us → sum of us ≡ sum of ts
  Notified-sum (Notified.nobody ts _) = refl
  Notified-sum (Notified.woken us vs cs) =
      ground (arith, sum-at of us vs (Thread.waiting cs), sum-at of us vs (Thread.checking cs))

  turn_at-copies :
      (max_size n : ℕ) (idle : List SyncClient) (cs : List SyncClient)
      → count c (turn_at max_size n idle).1.idle + of (after (turn_at max_size n idle).0 cs)
        ≡ count c idle + count c cs
  unfolding turn_at after count
  turn_at-copies max_size n (d ∷ idle) cs = omega arith
  turn_at-copies max_size n [] cs = elim (Bool-cases (ltb n max_size)) [
    | inl room ↦ rw (room, turn_at) refl
    | inr none ↦ rw (none, turn_at) refl
  ]

  moved :
      (p q : PoolState) (us vs ts : List Thread) (t u : Thread) (fresh : List SyncClient)
      → count c q.idle + of u ≡ count c fresh + count c p.idle + of t
      → sum of ts ≡ sum of (us ++ u ∷ vs)
      → copies c (record { pool = q; threads = ts })
        ≡ count c fresh + copies c (record { pool = p; threads = us ++ t ∷ vs })
  unfolding copies
  moved p q us vs ts t u fresh even same =
      omega (arith, even, same, sum-at of us vs t, sum-at of us vs u)

  Step-copies :
      {max_size : ℕ} {fresh : List SyncClient} {s t : System}
      → Step max_size fresh s t
      → copies c t ≡ count c fresh + copies c s
  unfolding count rollback give_back checkout_turn
  Step-copies (Step.enter p us vs cs) =
      moved p p us vs _ (Thread.working cs) (Thread.checking cs) [] (omega arith) refl
  Step-copies {max_size} (Step.turn p us vs cs) =
      moved p (checkout_turn max_size p).1 us vs _ (Thread.checking cs)
        (after (checkout_turn max_size p).0 cs) []
        (omega (arith, turn_at-copies max_size p.total p.idle cs)) refl
  Step-copies (Step.connected client p us vs cs) =
      moved p p us vs _ (Thread.connecting cs) (Thread.working (client ∷ cs)) (client ∷ [])
        (omega arith) refl
  Step-copies (Step.refused p us vs ts cs n) =
      moved p (rollback p) us vs ts (Thread.connecting cs) (Thread.working cs) [] (omega arith)
        (Notified-sum n)
  Step-copies (Step.dropped client p us vs ts front back n) =
      moved p (give_back client p) us vs ts (Thread.working (front ++ client ∷ back))
        (Thread.working (front ++ back)) []
        (omega (arith, count-append c front back, count-append c front (client ∷ back)))
        (Notified-sum n)
  Step-copies (Step.woken_without_cause p us vs cs) =
      moved p p us vs _ (Thread.waiting cs) (Thread.checking cs) [] (omega arith) refl

  -- In every such state, each client stands in the pool and with the threads as often as it was
  -- opened: no client is lost, and one that was opened once is never with two threads.
  pub Reach-copies :
      {max_size : ℕ} {opened : List SyncClient} {s : System}
      → Reach max_size opened s
      → copies c s ≡ count c opened
  unfolding copies count
  Reach-copies (Reach.start ts init) = ground (arith, IsStart-sum of ts refl init)
  Reach-copies (Reach.later opened fresh s t r m) =
      omega (arith, Step-copies m, Reach-copies r, count-append c fresh opened)

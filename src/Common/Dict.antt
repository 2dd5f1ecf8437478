-- ===== src/Common/Dict.antt =====
-- `DashMap`, `HashMap` and `BTreeMap` as association lists. Proofs go by the laws of `lookup`.
use coding_agent_sandbox.Common.Equality.{Eq, ◌==◌, if◌then◌else◌, Option-cases}
use coding_agent_sandbox.Common.Lists.{member, retain, is_empty, retain-nil}
use mathlib.Core.Logic.{inl, inr}
use mathlib.Core.Path.{◌≡◌, refl, ap}
use mathlib.Core.Bool.{Bool, true, false}
use mathlib.Core.Option.{Option, none, some}
use mathlib.Core.List.{List, [], ◌∷◌, ◌++◌}
use native.Mathlib.Omega.{arith}

abbrev pub Dict {ℓ κ} : Type ℓ → Type κ → Type (ℓ ⊔ κ)
Dict K V = List (K × V)

-- `contains_key` and `is_some`, on the answer of a lookup.
abbrev pub is_some {ℓ} : {A : Type ℓ} → Option A → Bool
is_some none = false
is_some (some _) = true

abbrev pub or_nil {ℓ} : {A : Type ℓ} → Option (List A) → List A
or_nil none = []
or_nil (some xs) = xs

module _ {ℓ κ} {K : Type ℓ} {V : Type κ} where
  unfoldable pub keys : Dict K V → List K
  keys [] = []
  keys ((k, _) ∷ d) = k ∷ keys d

module _ {ℓ κ} {K : Type ℓ} {V : Type κ} ⦃e : Eq K⦄ where
  unfoldable pub lookup : K → Dict K V → Option V
  lookup k [] = none
  lookup k ((j, v) ∷ d) = if k == j then some v else lookup k d

  -- `map.insert(k, v)`
  unfoldable pub insert : K → V → Dict K V → Dict K V
  insert k v [] = (k, v) ∷ []
  insert k v ((j, w) ∷ d) = if k == j then (k, v) ∷ d else (j, w) ∷ insert k v d

  -- `map.remove(k)`
  unfoldable pub erase : K → Dict K V → Dict K V
  erase k [] = []
  erase k ((j, w) ∷ d) = let rest = erase k d in if k == j then rest else (j, w) ∷ rest

  -- No key has two values, as in every map of the program.
  abbrev pub NodupKeys : Dict K V → Type 0
  NodupKeys [] = Unit
  NodupKeys ((k, _) ∷ d) = (is_some (lookup k d) ≡ false) × NodupKeys d

  pub lookup-nil : (k : K) → lookup k [] ≡ none
  unfolding lookup
  lookup-nil k = refl

  pub lookup-cons :
      (j k : K) (v : V) (d : Dict K V)
      → lookup j ((k, v) ∷ d) ≡ (if j == k then some v else lookup j d)
  unfolding lookup
  lookup-cons j k v d = refl

  pub lookup-insert :
      (j k : K) (v : V) (d : Dict K V)
      → lookup j (insert k v d) ≡ (if j == k then some v else lookup j d)
  unfolding insert lookup
  lookup-insert j k v [] = ground arith
  lookup-insert j k v (_ ∷ d) = ground (arith, lookup-insert j k v d)

  pub lookup-erase :
      (j k : K) (d : Dict K V) → lookup j (erase k d) ≡ (if j == k then none else lookup j d)
  unfolding erase lookup
  lookup-erase j k [] = ground arith
  lookup-erase j k (_ ∷ d) = ground (arith, lookup-erase j k d)

  pub insert-NodupKeys : (k : K) (v : V) (d : Dict K V) → NodupKeys d → NodupKeys (insert k v d)
  unfolding insert
  insert-NodupKeys k v [] _ = (ap is_some (lookup-nil k), tt)
  insert-NodupKeys k v ((j, _) ∷ d) (fresh, u) =
      ground (arith, insert-NodupKeys k v d u, lookup-insert j k v d)

  pub erase-NodupKeys : (k : K) (d : Dict K V) → NodupKeys d → NodupKeys (erase k d)
  unfolding erase
  erase-NodupKeys k [] _ = tt
  erase-NodupKeys k ((j, _) ∷ d) (fresh, u) =
      ground (arith, erase-NodupKeys k d u, lookup-erase j k d)

  pub member-keys : (k : K) (d : Dict K V) → member k (keys d) ≡ is_some (lookup k d)
  unfolding keys lookup member
  member-keys k [] = refl
  member-keys k (_ ∷ d) = ground (arith, member-keys k d)

module _ {ℓ κ} {K : Type ℓ} {V : Type κ} ⦃e : Eq K⦄ where
  -- `map.entry(k).or_insert_with(Vec::new).push(v)`
  unfoldable pub push : K → V → Dict K (List V) → Dict K (List V)
  unfolding lookup insert
  push k v d = insert k (or_nil (lookup k d) ++ (v ∷ [])) d

  pub push-NodupKeys : (k : K) (v : V) (d : Dict K (List V)) → NodupKeys d → NodupKeys (push k v d)
  unfolding push
  push-NodupKeys k v d u = insert-NodupKeys k _ d u

  pub lookup-push :
      (j k : K) (v : V) (d : Dict K (List V))
      → lookup j (push k v d)
        ≡ (if j == k then some (or_nil (lookup k d) ++ (v ∷ [])) else lookup j d)
  unfolding push
  lookup-push j k v d = lookup-insert j k _ d

-- `if let Some(mut xs) = map.get_mut(k) { xs.retain(p); if xs.is_empty() { map.remove(k) } }`
module _ {ℓ κ} {K : Type ℓ} {V : Type κ} ⦃e : Eq K⦄ where
  unfoldable pub retain_at : K → (V → Bool) → Dict K (List V) → Dict K (List V)
  unfolding lookup insert erase retain is_empty
  retain_at k p d = elim (lookup k d) [
    | none ↦ d
    | some xs ↦
        if is_empty (retain p xs)
        then erase k (insert k (retain p xs) d)
        else insert k (retain p xs) d
  ]

  pub or_nil-retain_at :
      (j k : K) (p : V → Bool) (d : Dict K (List V))
      → or_nil (lookup j (retain_at k p d))
        ≡ (if j == k then retain p (or_nil (lookup k d)) else or_nil (lookup j d))
  unfolding retain_at is_empty
  or_nil-retain_at j k p d = elim (Option-cases (lookup k d)) [
    | inl gone ↦ rw (gone, retain_at) (ground (arith, retain-nil p))
    | inr (xs, found) ↦
        rw (found, retain_at)
          (ground
            (arith, lookup-erase j k (insert k (retain p xs) d), lookup-insert j k (retain p xs) d))
  ]

  pub retain_at-NodupKeys :
      (k : K) (p : V → Bool) (d : Dict K (List V)) → NodupKeys d → NodupKeys (retain_at k p d)
  unfolding retain_at
  retain_at-NodupKeys k p d u = elim (Option-cases (lookup k d)) [
    | inl gone ↦ rw (gone, retain_at) u
    | inr (xs, found) ↦
        rw (found, retain_at)
          (let v = insert-NodupKeys k (retain p xs) d u in
            let w = erase-NodupKeys k (insert k (retain p xs) d) v in ground arith)
  ]

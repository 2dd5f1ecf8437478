-- ===== src/Common/Lists.antt =====
-- Lists measured, searched and sorted the way the source does, over the native numbers.
use Prim.Native.Nat.{ℕ, zero, suc, ◌+◌}
use mathlib.Core.Path.{◌≡◌, refl}
use mathlib.Core.Logic.{inl, inr}
use mathlib.Core.Bool.{Bool, true, false, ◌||◌}
use mathlib.Core.List.{List, [], ◌∷◌, ◌++◌}
use native.Mathlib.Omega.{arith}
use coding_agent_sandbox.Common.Equality.{Eq, ◌==◌, if◌then◌else◌, ltb, Bool-cases}

module _ {ℓ} {A : Type ℓ} where
  abbrev pub length : List A → ℕ
  length [] = 0
  length (x ∷ xs) = suc (length xs)

  abbrev pub take : ℕ → List A → List A
  take zero xs = []
  take (suc n) [] = []
  take (suc n) (x ∷ xs) = x ∷ take n xs

  abbrev pub drop : ℕ → List A → List A
  drop zero xs = xs
  drop (suc n) [] = []
  drop (suc n) (x ∷ xs) = drop n xs

  unfoldable pub is_empty : List A → Bool
  is_empty [] = true
  is_empty (x ∷ xs) = false

  -- `Vec::retain`
  unfoldable pub retain : (A → Bool) → List A → List A
  retain p [] = []
  retain p (x ∷ xs) = let rest = retain p xs in if p x then x ∷ rest else rest

  pub retain-nil : (p : A → Bool) → retain p [] ≡ []
  unfolding retain
  retain-nil p = refl

  -- A stable sort, by insertion.
  unfoldable pub insert_by : (A → A → Bool) → A → List A → List A
  insert_by le x [] = x ∷ []
  insert_by le x (y ∷ ys) = let rest = insert_by le x ys in if le x y then x ∷ y ∷ ys else y ∷ rest

  unfoldable pub sort_by : (A → A → Bool) → List A → List A
  unfolding insert_by
  sort_by le [] = []
  sort_by le (x ∷ xs) = insert_by le x (sort_by le xs)

  pub length-append : (xs ys : List A) → length (xs ++ ys) ≡ length xs + length ys
  length-append [] ys = omega arith
  length-append (x ∷ xs) ys = omega (arith, length-append xs ys)

  unfoldable pub sum : (A → ℕ) → List A → ℕ
  sum f [] = 0
  sum f (x ∷ xs) = f x + sum f xs

  pub sum-append : (f : A → ℕ) (xs ys : List A) → sum f (xs ++ ys) ≡ sum f xs + sum f ys
  unfolding sum
  sum-append f [] ys = omega arith
  sum-append f (x ∷ xs) ys = omega (arith, sum-append f xs ys)

  pub sum-at :
      (f : A → ℕ) (xs ys : List A) (x : A) → sum f (xs ++ x ∷ ys) ≡ sum f xs + f x + sum f ys
  unfolding sum
  sum-at f xs ys x = omega (arith, sum-append f xs (x ∷ ys))

abbrev pub bit : Bool → ℕ
bit true = 1
bit false = 0

module _ {ℓ} {A : Type ℓ} ⦃e : Eq A⦄ where
  unfoldable pub count : A → List A → ℕ
  count a [] = 0
  count a (x ∷ xs) = bit (a == x) + count a xs

  unfoldable pub member : A → List A → Bool
  member a [] = false
  member a (x ∷ xs) = a == x || member a xs

  pub member-count : (a : A) (xs : List A) → member a xs ≡ ltb 0 (count a xs)
  unfolding member count
  member-count a [] = refl
  member-count a (x ∷ xs) = ground (arith, member-count a xs)

  pub count-nil : (a : A) → count a [] ≡ 0
  unfolding count
  count-nil a = refl

  pub count-of_is_empty : (a : A) (xs : List A) → is_empty xs ≡ true → count a xs ≡ 0
  unfolding count is_empty
  count-of_is_empty a [] h = refl
  count-of_is_empty a (x ∷ xs) h = ground arith

  pub count-cons : (a x : A) (xs : List A) → count a (x ∷ xs) ≡ bit (a == x) + count a xs
  unfolding count
  count-cons a x xs = refl

  pub count-append : (a : A) (xs ys : List A) → count a (xs ++ ys) ≡ count a xs + count a ys
  unfolding count
  count-append a [] ys = omega arith
  count-append a (x ∷ xs) ys = omega (arith, count-append a xs ys)

  pub count-retain :
      (a : A) (p : A → Bool) (xs : List A) → count a (retain p xs) ≡ (if p a then count a xs else 0)
  unfolding count retain
  count-retain a p [] = ground arith
  count-retain a p (x ∷ xs) = ground (arith, count-retain a p xs)

  count-insert_by :
      (a : A) (le : A → A → Bool) (x : A) (xs : List A)
      → count a (insert_by le x xs) ≡ bit (a == x) + count a xs
  unfolding count insert_by
  count-insert_by a le x [] = refl
  count-insert_by a le x (y ∷ ys) = ground (arith, count-insert_by a le x ys)

  pub count-sort_by :
      (a : A) (le : A → A → Bool) (xs : List A) → count a (sort_by le xs) ≡ count a xs
  unfolding count sort_by
  count-sort_by a le [] = refl
  count-sort_by a le (x ∷ xs) =
      ground (arith, count-insert_by a le x (sort_by le xs), count-sort_by a le xs)

  member-insert_by :
      (a : A) (le : A → A → Bool) (x : A) (xs : List A)
      → member a (insert_by le x xs) ≡ (a == x || member a xs)
  unfolding member insert_by
  member-insert_by a le x [] = refl
  member-insert_by a le x (y ∷ ys) = ground (arith, member-insert_by a le x ys)

  -- Each element is `le` all those behind it.
  abbrev pub IsSorted : (A → A → Bool) → List A → Type ℓ
  IsSorted le [] = Unit
  IsSorted le (x ∷ xs) = ((a : A) → member a xs ≡ true → le x a ≡ true) × IsSorted le xs

  module _ (le : A → A → Bool) (le_total : (a b : A) → le a b ≡ false → le b a ≡ true)
      (le_trans : (a b c : A) → le a b ≡ true → le b c ≡ true → le a c ≡ true) where
    insert_by-IsSorted : (x : A) (xs : List A) → IsSorted le xs → IsSorted le (insert_by le x xs)
    unfolding insert_by member
    insert_by-IsSorted x [] _ = (λ a h. cc, tt)
    insert_by-IsSorted x (y ∷ ys) (front, rest) = elim (Bool-cases (le x y)) [
      | inl before ↦
          rw (before, insert_by) (λ a h. ground (arith, front a, le_trans x y a), (front, rest))
      | inr behind ↦
          rw (behind, insert_by)
            (
              λ a h. ground (arith, front a, le_total x y, member-insert_by a le x ys),
              insert_by-IsSorted x ys rest,
            )
    ]

    pub sort_by-IsSorted : (xs : List A) → IsSorted le (sort_by le xs)
    unfolding sort_by
    sort_by-IsSorted [] = tt
    sort_by-IsSorted (x ∷ xs) = insert_by-IsSorted x (sort_by le xs) (sort_by-IsSorted xs)

  pub member-sort_by :
      (a : A) (le : A → A → Bool) (xs : List A) → member a (sort_by le xs) ≡ member a xs
  member-sort_by a le xs =
      ground (arith, member-count a (sort_by le xs), member-count a xs, count-sort_by a le xs)

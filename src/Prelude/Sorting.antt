-- ===== src/Prelude/Sorting.antt =====
-- `xs.sort(compare)`, which is stable: `before x y` stands for `compare(x, y) < 0`.
use Prim.Native.Nat.{ℕ, zero, suc}
use mathlib.Core.Bool.{Bool}
use mathlib.Core.List.{List, [], ◌∷◌}
use mathlib.Core.Option.{Option, none, some, some-injective}
use mathlib.Core.Path.{◌≡◌, subst}
use mathlib.Core.Logic.{inl, inr}
use native.Mathlib.Omega.{arith}
use cucoudle.Prelude.Tests.{if◌then◌else◌, Bool-cases}
use cucoudle.Prelude.Lists.{All}

module _ {ℓ} {A : Type ℓ} where
  -- An entry put in before the first of those that it stands before.
  unfoldable pub insert_by : (A → A → Bool) → A → List A → List A
  insert_by before x [] = x ∷ []
  insert_by before x (y ∷ ys) =
      let rest = insert_by before x ys in if before x y then x ∷ y ∷ ys else y ∷ rest

  -- The entries of the second list put in, one after the other, among the sorted first.
  unfoldable pub sort_onto : (A → A → Bool) → List A → List A → List A
  sort_onto before sorted [] = sorted
  sort_onto before sorted (x ∷ xs) = sort_onto before (insert_by before x sorted) xs

  unfoldable pub sort_by : (A → A → Bool) → List A → List A
  sort_by before xs = sort_onto before [] xs

  -- xs[i], or `undefined`
  unfoldable pub at : ℕ → List A → Option A
  at i [] = none
  at zero (x ∷ xs) = some x
  at (suc i) (x ∷ xs) = at i xs

module _ {ℓ κ} {A : Type ℓ} (P : A → Type κ) (before : A → A → Bool) where
  All-insert_by : (x : A) (ys : List A) → P x → All P ys → All P (insert_by before x ys)
  unfolding insert_by
  All-insert_by x [] h a = (h, tt)
  All-insert_by x (y ∷ ys) h a = elim (Bool-cases (before x y)) [
    | inl e ↦ rw (e, insert_by) (h, a)
    | inr e ↦ rw (e, insert_by) (a.0, All-insert_by x ys h a.1)
  ]

  All-sort_onto :
      (sorted xs : List A) → All P sorted → All P xs → All P (sort_onto before sorted xs)
  unfolding sort_onto
  All-sort_onto sorted [] s a = s
  All-sort_onto sorted (x ∷ xs) s a =
      All-sort_onto (insert_by before x sorted) xs (All-insert_by x sorted a.0 s) a.1

  pub All-sort_by : (xs : List A) → All P xs → All P (sort_by before xs)
  unfolding sort_by
  All-sort_by xs a = All-sort_onto [] xs tt a

module _ {ℓ κ} {A : Type ℓ} (P : A → Type κ) where
  pub All-at : (i : ℕ) (xs : List A) (x : A) → at i xs ≡ some x → All P xs → P x
  unfolding at
  All-at i [] x h a = absurd (ground arith)
  All-at zero (y ∷ xs) x h a = subst P (some-injective y x h) a.0
  All-at (suc i) (y ∷ xs) x h a = All-at i xs x h a.1

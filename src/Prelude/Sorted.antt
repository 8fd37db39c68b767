-- ===== src/Prelude/Sorted.antt =====
-- What `sort` gives where its comparison is transitive and asymmetric.
use Prim.Native.Nat.{◌+◌}
use mathlib.Core.Bool.{Bool, true, false}
use mathlib.Core.List.{List, [], ◌∷◌}
use mathlib.Core.Path.{◌≡◌, refl}
use mathlib.Core.Logic.{inl, inr}
use native.Mathlib.Omega.{arith}
use cucoudle.Prelude.Tests.{Bool-cases}
use cucoudle.Prelude.Lists.{All, count}
use cucoudle.Prelude.Sorting.{insert_by, sort_onto, sort_by}

module _ {ℓ} {A : Type ℓ} (before : A → A → Bool) where
  -- No entry stands before an earlier one.
  abbrev pub IsSorted : List A → Type 0
  IsSorted [] = Unit
  IsSorted (x ∷ xs) = All (λ y. before y x ≡ false) xs × IsSorted xs

  count-insert_by :
      (p : A → Bool) (x : A) (ys : List A) → count p (insert_by before x ys) ≡ count p (x ∷ ys)
  unfolding insert_by
  count-insert_by p x [] = refl
  count-insert_by p x (y ∷ ys) = ground (arith, count-insert_by p x ys)

  count-sort_onto :
      (p : A → Bool) (sorted xs : List A)
      → count p (sort_onto before sorted xs) ≡ count p sorted + count p xs
  unfolding sort_onto
  count-sort_onto p sorted [] = omega arith
  count-sort_onto p sorted (x ∷ xs) =
      ground (arith, count-sort_onto p (insert_by before x sorted) xs, count-insert_by p x sorted)

  -- Sorting keeps how often each entry occurs.
  pub count-sort_by : (p : A → Bool) (xs : List A) → count p (sort_by before xs) ≡ count p xs
  unfolding sort_by
  count-sort_by p xs = omega (arith, count-sort_onto p [] xs)

  module _ (trans : (x y z : A) → before x y ≡ true → before y z ≡ true → before x z ≡ true)
      (asym : (x y : A) → before x y ≡ true → before y x ≡ false) where
    All-before :
        (x y : A) (ys : List A)
        → before x y ≡ true
        → All (λ z. before z y ≡ false) ys
        → All (λ z. before z x ≡ false) ys
    All-before x y [] h a = tt
    All-before x y (z ∷ ys) h a = (ground (arith, trans z x y, h, a.0), All-before x y ys h a.1)

    All-insert_lem :
        (e x : A) (ys : List A)
        → before x e ≡ false
        → All (λ y. before y e ≡ false) ys
        → All (λ y. before y e ≡ false) (insert_by before x ys)
    unfolding insert_by
    All-insert_lem e x [] h a = (h, tt)
    All-insert_lem e x (y ∷ ys) h a = elim (Bool-cases (before x y)) [
      | inl b ↦ rw (b, insert_by) (h, a)
      | inr b ↦ rw (b, insert_by) (a.0, All-insert_lem e x ys h a.1)
    ]

    insert_by-IsSorted : (x : A) (ys : List A) → IsSorted ys → IsSorted (insert_by before x ys)
    unfolding insert_by
    insert_by-IsSorted x [] s = (tt, tt)
    insert_by-IsSorted x (y ∷ ys) s = elim (Bool-cases (before x y)) [
      | inl b ↦ rw (b, insert_by) ((asym x y b, All-before x y ys b s.0), s)
      | inr b ↦ rw (b, insert_by) (All-insert_lem y x ys b s.0, insert_by-IsSorted x ys s.1)
    ]

    sort_onto-IsSorted :
        (sorted xs : List A) → IsSorted sorted → IsSorted (sort_onto before sorted xs)
    unfolding sort_onto
    sort_onto-IsSorted sorted [] s = s
    sort_onto-IsSorted sorted (x ∷ xs) s =
        sort_onto-IsSorted (insert_by before x sorted) xs (insert_by-IsSorted x sorted s)

    pub sort_by-IsSorted : (xs : List A) → IsSorted (sort_by before xs)
    unfolding sort_by
    sort_by-IsSorted xs = sort_onto-IsSorted [] xs tt

-- ===== src/Prelude/Sorting.antt =====
-- Python's `sorted(xs, key=...)` with keys that are texts: stable, in the order of code points.
use Prim.Native.Nat.{ℕ, Ordering, compare as compare_ℕ}
use Prim.Native.Char.{code}
use Prim.Native.String.compare
use Prim.Native.String.{String, compare, [] as empty, ◌∷◌ as ◌∷ₛ◌}
use mathlib.Core.Path.{◌≡◌, ◌∙◌}
use mathlib.Core.Bool.{Bool, true, false}
use mathlib.Core.Logic.{inl, inr}
use mathlib.Core.List.{List, [], ◌∷◌, Perm}
use mathlib.Core.List.Perm
use native.Mathlib.Omega.{arith}
use openeo_geopyspark_driver.Prelude.Tests.{if◌then◌else◌, Bool-cases}

-- s < t
abbrev pub before : String → String → Bool
before s t = elim (compare s t) [ Ordering.lt ↦ true | _ ↦ false ]

compare_ℕ_asym : (m n : ℕ) → compare_ℕ m n ≡ Ordering.lt → compare_ℕ n m ≡ Ordering.gt
compare_ℕ_asym m n h = ground arith

compare_ℕ_same : (m n : ℕ) → compare_ℕ m n ≡ Ordering.eq → compare_ℕ n m ≡ Ordering.eq
compare_ℕ_same m n h = ground arith

compare_asym : (s t : String) → compare s t ≡ Ordering.lt → compare t s ≡ Ordering.gt
compare_asym empty empty h = ground arith
compare_asym empty (d ∷ₛ t) h = compare.cons-nil d t
compare_asym (c ∷ₛ s) empty h = ground (arith, compare.cons-nil c s)
compare_asym (c ∷ₛ s) (d ∷ₛ t) h =
    compare.cons-cons d c t s
    ∙ ground (
      arith,
      compare.cons-cons c d s t,
      compare_ℕ_asym (code c) (code d),
      compare_ℕ_same (code c) (code d),
      compare_asym s t,
    )

before_asym : (s t : String) → before s t ≡ true → before t s ≡ false
before_asym s t h = ground (arith, compare_asym s t)

module _ {ℓ} {A : Type ℓ} (key : A → String) where
  -- In front of the first element with a key that is not smaller.
  abbrev pub insert_by : A → List A → List A
  insert_by x [] = x ∷ []
  insert_by x (y ∷ ys) = if before (key y) (key x) then y ∷ insert_by x ys else x ∷ y ∷ ys

  abbrev pub sort_by : List A → List A
  sort_by [] = []
  sort_by (x ∷ xs) = insert_by x (sort_by xs)

  -- No key is smaller than the one before it.
  abbrev pub IsSorted : List A → Type 0
  IsSorted [] = Unit
  IsSorted (x ∷ []) = Unit
  IsSorted (x ∷ y ∷ ys) = (before (key y) (key x) ≡ false) × IsSorted (y ∷ ys)

  insert_by-IsSorted : (x : A) (ys : List A) → IsSorted ys → IsSorted (insert_by x ys)
  insert_by-IsSorted x [] h = tt
  insert_by-IsSorted x (y ∷ []) h = ground (arith, before_asym (key y) (key x))
  insert_by-IsSorted x (y ∷ z ∷ zs) h =
      ground (arith, before_asym (key y) (key x), insert_by-IsSorted x (z ∷ zs))

  pub sort_by-IsSorted : (xs : List A) → IsSorted (sort_by xs)
  sort_by-IsSorted [] = tt
  sort_by-IsSorted (x ∷ xs) = insert_by-IsSorted x (sort_by xs) (sort_by-IsSorted xs)

  insert_by-Perm : (x : A) (ys : List A) → Perm (insert_by x ys) (x ∷ ys)
  insert_by-Perm x [] = Perm.refl (x ∷ [])
  insert_by-Perm x (y ∷ ys) = elim (Bool-cases (before (key y) (key x))) [
    | inl e ↦ rw e (Perm.trans (Perm.cons y (insert_by-Perm x ys)) (Perm.swap x y ys))
    | inr e ↦ rw e (Perm.refl (x ∷ y ∷ ys))
  ]

  pub sort_by-Perm : (xs : List A) → Perm (sort_by xs) xs
  sort_by-Perm [] = Perm.refl []
  sort_by-Perm (x ∷ xs) = Perm.trans (insert_by-Perm x (sort_by xs)) (Perm.cons x (sort_by-Perm xs))

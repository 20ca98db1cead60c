-- ===== src/Registry/Memory/Pages.antt =====
-- The pages of `list_user_jobs` of `InMemoryJobRegistry`, read one after the other.
use native.Mathlib.Decide.{dec_lt}
use openeo_geopyspark_driver.Prelude.{
  ℕ, zero, suc, ◌+◌, ◌*◌, ◌≤◌, ◌<◌, String, ◌≡◌, refl, sym, ap, ◌∙◌, none, some, List, [], ◌∷◌,
  ◌++◌, arith, length, take, drop, lt→ltb, le→ltb, pos→eqb,
}
use openeo_geopyspark_driver.Floats.{Floats}
use openeo_geopyspark_driver.Registry.Memory.{JobDict, Db, NextPage, jobs_of, list_user_jobs}

module _ {ℓ} {A : Type ℓ} where
  take-append-drop : (n : ℕ) (xs : List A) → take n xs ++ drop n xs ≡ xs
  take-append-drop zero xs = refl
  take-append-drop (suc n) [] = refl
  take-append-drop (suc n) (x ∷ xs) = ap (λ ys. x ∷ ys) (take-append-drop n xs)

  drop-nil : (n : ℕ) → drop {A = A} n [] ≡ []
  drop-nil zero = refl
  drop-nil (suc n) = refl

  drop-suc : (x : A) (xs : List A) (k j : ℕ) → j ≡ suc k → drop k xs ≡ drop j (x ∷ xs)
  drop-suc x xs k j h = rw h refl

  drop-drop : (m n : ℕ) (xs : List A) → drop n (drop m xs) ≡ drop (m + n) xs
  drop-drop zero n xs = ap (λ k. drop k xs) (omega arith)
  drop-drop (suc m) n [] = drop-nil n ∙ sym (drop-nil (suc m + n))
  drop-drop (suc m) n (x ∷ xs) = drop-drop m n xs ∙ drop-suc x xs (m + n) (suc m + n) (omega arith)

  take_all : (n : ℕ) (xs : List A) → length xs ≤ n → take n xs ≡ xs
  take_all zero [] h = refl
  take_all zero (x ∷ xs) h = absurd (omega arith)
  take_all (suc n) [] h = refl
  take_all (suc n) (x ∷ xs) h = ap (λ ys. x ∷ ys) (take_all n xs (omega arith))

  drop_all : (n : ℕ) (xs : List A) → length xs ≤ n → drop n xs ≡ []
  drop_all zero [] h = refl
  drop_all zero (x ∷ xs) h = absurd (omega arith)
  drop_all (suc n) [] h = refl
  drop_all (suc n) (x ∷ xs) h = drop_all n xs (omega arith)

  length-drop_le : (n k : ℕ) (xs : List A) → length xs ≤ n + k → length (drop n xs) ≤ k
  length-drop_le zero k xs h = omega arith
  length-drop_le (suc n) k [] h = omega arith
  length-drop_le (suc n) k (x ∷ xs) h = length-drop_le n k xs (omega arith)

module _ (R : Floats) where
  abbrev join_page : List (JobDict R) × NextPage → (ℕ → ℕ → List (JobDict R)) → List (JobDict R)
  join_page (found, none) rest = found
  join_page (found, some (limit, page)) rest = found ++ rest limit page

  -- A client that asks for the next page until there is none, and joins the pages.
  pub walk : ℕ → ℕ → ℕ → String → Db R → List (JobDict R)
  walk zero limit page user db = []
  walk (suc fuel) limit page user db =
      join_page (list_user_jobs R (some limit) page user db) (λ l p. walk fuel l p user db)

  page-more :
      (limit page : ℕ) (user : String) (db : Db R)
      → 0 < limit
      → (page + 1) * limit < length (jobs_of R user db)
      → list_user_jobs R (some limit) page user db
        ≡ (take limit (drop (page * limit) (jobs_of R user db)), some (limit, page + 1))
  unfolding list_user_jobs
  page-more limit page user db l h = rw (pos→eqb limit l, lt→ltb _ _ h) refl

  page-last :
      (limit page : ℕ) (user : String) (db : Db R)
      → 0 < limit
      → length (jobs_of R user db) ≤ (page + 1) * limit
      → list_user_jobs R (some limit) page user db
        ≡ (take limit (drop (page * limit) (jobs_of R user db)), none)
  unfolding list_user_jobs
  page-last limit page user db l h = rw (pos→eqb limit l, le→ltb _ _ h) refl

  walk_from :
      (fuel limit page : ℕ) (user : String) (db : Db R)
      → 0 < limit
      → length (jobs_of R user db) < fuel + page * limit
      → walk fuel limit page user db ≡ drop (page * limit) (jobs_of R user db)
  unfolding walk
  walk_from zero limit page user db l h =
      sym (drop_all (page * limit) (jobs_of R user db) (omega arith))
  walk_from (suc fuel) limit page user db l h =
      elim (dec_lt ((page + 1) * limit) (length (jobs_of R user db))) [
        | yes more ↦
            rw
              (
                page-more limit page user db l more,
                walk_from fuel limit (page + 1) user db l (grind arith),
              )
              (ap (λ ys. take limit (drop (page * limit) (jobs_of R user db)) ++ ys)
                  (ap (λ k. drop k (jobs_of R user db)) (grind arith)
                    ∙ sym (drop-drop (page * limit) limit (jobs_of R user db)))
                ∙ take-append-drop limit (drop (page * limit) (jobs_of R user db)))
        | no last ↦ rw (page-last limit page user db l (grind arith)) (
            take_all limit (drop (page * limit) (jobs_of R user db))
              (length-drop_le (page * limit) limit (jobs_of R user db) (grind arith)))
      ]

  -- Reading page after page of a user's jobs from the first on, as many pages as the user has
  -- jobs and one more, gives every job of the user once, in order, for any page size but zero.
  pub walk_lem :
      (limit : ℕ) (user : String) (db : Db R)
      → 0 < limit
      → walk (suc (length (jobs_of R user db))) limit 0 user db ≡ jobs_of R user db
  walk_lem limit user db l =
      let none_skipped : 0 * limit ≡ 0 = omega arith in
      walk_from (suc (length (jobs_of R user db))) limit 0 user db l (omega arith)
      ∙ ap (λ k. drop k (jobs_of R user db)) none_skipped

-- ===== src/Json/Laws.antt =====
-- How the dict operations are read back.
use openeo_geopyspark_driver.Prelude.{
  String, ◌==◌, ◌≡◌, refl, Option, none, some, arith, eq_iff, if◌then◌else◌,
}
use openeo_geopyspark_driver.Json.{Json, Fields, end, field, get, put, remove, update}

-- The first option that holds a value.
abbrev pub or_else {ℓ} : {A : Type ℓ} → Option A → Option A → Option A
or_else none o = o
or_else (some a) o = some a

module _ {F : Type 0} where
  pub get-put :
      (k j : String) (v : Json F) (d : Fields F)
      → get j (put k v d) ≡ (if k == j then some v else get j d)
  get-put k j v end = refl
  get-put k j v (field i w d) = ground (arith, eq_iff k j, eq_iff i k, eq_iff i j, get-put k j v d)

  pub get-remove :
      (k j : String) (d : Fields F) → get j (remove k d) ≡ (if k == j then none else get j d)
  get-remove k j end = ground arith
  get-remove k j (field i w d) =
      ground (arith, eq_iff k j, eq_iff i k, eq_iff i j, get-remove k j d)

  pub get-update : (k : String) (a b : Fields F) → get k (update a b) ≡ or_else (get k b) (get k a)
  get-update k a end = refl
  get-update k a (field j v b) = ground (arith, get-put j k v (update a b), get-update k a b)

pub ruleset dict_laws = (get-put, get-remove, get-update)

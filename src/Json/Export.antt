-- ===== src/Json/Export.antt =====
-- `to_jsonable` of openeogeotrellis/utils.py: floats that JSON lacks become texts. The keys of a dict
-- are texts here and stay as they are.
use openeo_geopyspark_driver.Prelude.{
  ◌≡◌, refl, ap₂, and_left, and_right, Bool, true, ◌&&◌, arith, if◌then◌else◌,
}
use openeo_geopyspark_driver.Floats.{Floats}
use openeo_geopyspark_driver.Json.{
  Json, null, bool, num, str, arr, obj, Items, nil, cons, Fields, end, field,
}

module _ (R : Floats) where
  -- `to_jsonable_float`
  pub to_jsonable_float : R.Float → Json R.Float
  to_jsonable_float x = if R.is_finite x then num x else str (R.to_string x)

  unfoldable mutual
    pub to_jsonable : Json R.Float → Json R.Float
    to_jsonable null = null
    to_jsonable (bool b) = bool b
    to_jsonable (num x) = to_jsonable_float x
    to_jsonable (str s) = str s
    to_jsonable (arr xs) = arr (to_jsonable_items xs)
    to_jsonable (obj d) = obj (to_jsonable_fields d)

    pub to_jsonable_items : Items R.Float → Items R.Float
    to_jsonable_items nil = nil
    to_jsonable_items (cons x xs) = cons (to_jsonable x) (to_jsonable_items xs)

    pub to_jsonable_fields : Fields R.Float → Fields R.Float
    to_jsonable_fields end = end
    to_jsonable_fields (field k v d) = field k (to_jsonable v) (to_jsonable_fields d)

  -- Every number in the value is finite, at any depth: `json.dumps` writes it as JSON.
  unfoldable mutual
    pub all_finite : Json R.Float → Bool
    all_finite (num x) = R.is_finite x
    all_finite (arr xs) = all_finite_items xs
    all_finite (obj d) = all_finite_fields d
    all_finite _ = true

    pub all_finite_items : Items R.Float → Bool
    all_finite_items nil = true
    all_finite_items (cons x xs) = all_finite x && all_finite_items xs

    pub all_finite_fields : Fields R.Float → Bool
    all_finite_fields end = true
    all_finite_fields (field k v d) = all_finite v && all_finite_fields d

  mutual
    unfolding to_jsonable to_jsonable_float all_finite

    finite_lem : (v : Json R.Float) → all_finite (to_jsonable v) ≡ true
    finite_lem null = refl
    finite_lem (bool b) = refl
    finite_lem (num x) = ground arith
    finite_lem (str s) = refl
    finite_lem (arr xs) = finite_items xs
    finite_lem (obj d) = finite_fields d

    finite_items : (xs : Items R.Float) → all_finite_items (to_jsonable_items xs) ≡ true
    finite_items nil = refl
    finite_items (cons x xs) = rw (finite_lem x, finite_items xs) refl

    finite_fields : (d : Fields R.Float) → all_finite_fields (to_jsonable_fields d) ≡ true
    finite_fields end = refl
    finite_fields (field k v d) = rw (finite_lem v, finite_fields d) refl

  mutual
    unfolding to_jsonable to_jsonable_float all_finite

    fixed_lem : (v : Json R.Float) → all_finite v ≡ true → to_jsonable v ≡ v
    fixed_lem null h = refl
    fixed_lem (bool b) h = refl
    fixed_lem (num x) h = ground arith
    fixed_lem (str s) h = refl
    fixed_lem (arr xs) h = ground (arith, fixed_items xs)
    fixed_lem (obj d) h = ground (arith, fixed_fields d)

    fixed_items : (xs : Items R.Float) → all_finite_items xs ≡ true → to_jsonable_items xs ≡ xs
    fixed_items nil h = refl
    fixed_items (cons x xs) h =
        ap₂ cons (fixed_lem x (and_left _ _ h)) (fixed_items xs (and_right _ _ h))

    fixed_fields : (d : Fields R.Float) → all_finite_fields d ≡ true → to_jsonable_fields d ≡ d
    fixed_fields end h = refl
    fixed_fields (field k v d) h =
        ap₂ (field k) (fixed_lem v (and_left _ _ h)) (fixed_fields d (and_right _ _ h))

  -- What is exported has finite numbers only, at any depth, and exporting it again changes nothing;
  -- a value whose numbers are finite is exported as it is.
  pub to_jsonable_lem :
      (v w : Json R.Float)
      → all_finite w ≡ true
      → (all_finite (to_jsonable v) ≡ true)
        × (to_jsonable (to_jsonable v) ≡ to_jsonable v)
        × (to_jsonable w ≡ w)
  to_jsonable_lem v w h = (finite_lem v, fixed_lem (to_jsonable v) (finite_lem v), fixed_lem w h)

-- ===== src/Json/Merge.antt =====
-- Python's `==` on JSON-like values, and `dict_merge_recursive` of openeogeotrellis/utils.py.
pub mod Laws
use openeo_geopyspark_driver.Prelude.{
  ℕ, suc, String, ◌==◌, ◌≡◌, eq_refl, Bool, true, false, ◌&&◌, none, some, eqb, if◌then◌else◌,
}
use openeo_geopyspark_driver.Outcome.{Result, ok, err, value_error}
use openeo_geopyspark_driver.Floats.{Floats}
use openeo_geopyspark_driver.Json.{
  Json, null, bool, num, str, arr, obj, Items, nil, cons, Fields, end, field, get, put,
}

-- len(d)
abbrev pub size : {F : Type 0} → Fields F → ℕ
size end = 0
size (field k v d) = suc (size d)

module _ (R : Floats) where
  -- `True` equals 1, and `False` 0.
  abbrev bit : Bool → R.Float
  bit true = R.of_int 1
  bit false = R.of_int 0

  abbrev same_bool : Bool → Bool → Bool
  same_bool true c = c
  same_bool false true = false
  same_bool false false = true

  unfoldable mutual
    -- a == b
    pub equal : Json R.Float → Json R.Float → Bool
    equal null null = true
    equal (bool b) (bool c) = same_bool b c
    equal (bool b) (num y) = R.eq (bit b) y
    equal (num x) (num y) = R.eq x y
    equal (num x) (bool c) = R.eq x (bit c)
    equal (str s) (str t) = s == t
    equal (arr xs) (arr ys) = equal_items xs ys
    equal (obj a) (obj b) = eqb (size a) (size b) && equal_fields a b
    equal _ _ = false

    pub equal_items : Items R.Float → Items R.Float → Bool
    equal_items nil nil = true
    equal_items (cons x xs) (cons y ys) = equal x y && equal_items xs ys
    equal_items _ _ = false

    -- Each field of the first dict is in the second one.
    pub equal_fields : Fields R.Float → Fields R.Float → Bool
    equal_fields end b = true
    equal_fields (field k v a) b =
        (elim (get k b) [ none ↦ false | some w ↦ equal v w ]) && equal_fields a b

  -- The merge of the dicts, and that of a value with the one that has its key.
  unfoldable mutual
    pub dict_merge_recursive : Bool → Fields R.Float → Fields R.Float → Result (Fields R.Float)
    dict_merge_recursive overwrite a end = ok a
    dict_merge_recursive overwrite a (field k v b) = elim (get k a) [
      | none ↦ dict_merge_recursive overwrite (put k v a) b
      | some w ↦ elim (merge_value overwrite w v) [
        | err e ↦ err e
        | ok m ↦ dict_merge_recursive overwrite (put k m a) b
      ]
    ]

    pub merge_value : Bool → Json R.Float → Json R.Float → Result (Json R.Float)
    merge_value overwrite (obj a) (obj b) = elim (dict_merge_recursive overwrite a b) [
      | err e ↦ err e
      | ok m ↦ ok (obj m)
    ]
    merge_value true w v = ok v
    merge_value false w v = if equal w v then ok w else err value_error

  -- A text equals itself.
  pub equal-text : (s : String) → equal (str s) (str s) ≡ true
  unfolding equal
  equal-text s = eq_refl s

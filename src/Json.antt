-- ===== src/Json.antt =====
-- JSON-like values of Python: `None`, `bool`, numbers, `str`, `list` and `dict` with text keys.
-- A dict is its fields; no modelled code depends on the order of keys, which is not kept. A key that
-- stood there twice would be read at its first place.
pub mod Laws
pub mod Merge
pub mod Export
use openeo_geopyspark_driver.Prelude.{
  String, ◌==◌, Bool, true, false, not, Option, none, some, List, [], ◌∷◌, if◌then◌else◌, is_some,
}
use openeo_geopyspark_driver.Floats.{Floats}

mutual
  pub data Json (F : Type 0) : Type 0 where
    null : Json F
    bool : Bool → Json F
    num : F → Json F
    str : String → Json F
    arr : Items F → Json F
    obj : Fields F → Json F

  pub data Items (F : Type 0) : Type 0 where
    nil : Items F
    cons : Json F → Items F → Items F

  pub data Fields (F : Type 0) : Type 0 where
    end : Fields F
    field : String → Json F → Fields F → Fields F

module _ {F : Type 0} where
  -- d.get(k)
  abbrev pub get : String → Fields F → Option (Json F)
  get k end = none
  get k (field j v d) = if j == k then some v else get k d

  -- `k in d`
  abbrev pub has : String → Fields F → Bool
  has k d = is_some (get k d)

  -- d.get(k), as a value: `None` where the key is missing
  abbrev pub get_or_null : String → Fields F → Json F
  get_or_null k d = elim (get k d) [ none ↦ null | some v ↦ v ]

  -- d[k] = v
  abbrev pub put : String → Json F → Fields F → Fields F
  put k v end = field k v end
  put k v (field j w d) = if j == k then field j v d else field j w (put k v d)

  -- d.pop(k, None), del d[k]
  abbrev pub remove : String → Fields F → Fields F
  remove k end = end
  remove k (field j w d) = let rest = remove k d in if j == k then rest else field j w rest

  -- {**a, **b}, a.update(b)
  abbrev pub update : Fields F → Fields F → Fields F
  update a end = a
  update a (field k v b) = put k v (update a b)

  abbrev pub to_list : Items F → List (Json F)
  to_list nil = []
  to_list (cons x xs) = x ∷ to_list xs

-- `bool(value)`
module _ (R : Floats) where
  abbrev pub truthy : Json R.Float → Bool
  truthy null = false
  truthy (bool b) = b
  truthy (num x) = not (R.eq x (R.of_int 0))
  truthy (str s) = not (s == "")
  truthy (arr nil) = false
  truthy (arr (cons _ _)) = true
  truthy (obj end) = false
  truthy (obj (field _ _ _)) = true

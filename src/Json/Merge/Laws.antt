-- ===== src/Json/Merge/Laws.antt =====
-- `dict_merge_recursive` of openeogeotrellis/utils.py, with and without overwriting.
use mathlib.Core.Option.{some-injective}
use openeo_geopyspark_driver.Prelude.{
  String, ◌≡◌, refl, sym, subst, true, false, Option, none, some, List, [], ◌∷◌, arith, eq_iff,
  Option-cases, inl, inr,
}
use openeo_geopyspark_driver.Outcome.{ok, Result-cases}
use openeo_geopyspark_driver.Floats.{Floats}
use openeo_geopyspark_driver.Json.{
  Json, null, bool, num, str, arr, obj, Fields, end, field, get, put,
}
use openeo_geopyspark_driver.Json.Laws.{get-put}
use openeo_geopyspark_driver.Json.Merge.{dict_merge_recursive, merge_value}

-- The value at a path of keys through nested dicts.
abbrev pub value_at : {F : Type 0} → List String → Json F → Option (Json F)
value_at [] v = some v
value_at (k ∷ path) (obj d) = elim (get k d) [ none ↦ none | some v ↦ value_at path v ]
value_at (k ∷ path) _ = none

abbrev pub IsPlain : {F : Type 0} → Json F → Type 0
IsPlain (obj d) = ⊥
IsPlain _ = Unit

module _ {F : Type 0} where
  value_at-put_new :
      (path : List String) (k : String) (v u : Json F) (d : Fields F)
      → get k d ≡ none
      → IsPlain u
      → value_at path (obj d) ≡ some u
      → value_at path (obj (put k v d)) ≡ some u
  value_at-put_new [] k v u d free plain h =
      absurd (subst IsPlain (sym (some-injective (obj d) u h)) plain)
  value_at-put_new (j ∷ path) k v u d free plain h = ground (arith, get-put k j v d, eq_iff k j)

  value_at-put_old :
      (path : List String) (k : String) (w m u : Json F) (d : Fields F)
      → get k d ≡ some w
      → IsPlain u
      → ((q : List String) → value_at q w ≡ some u → value_at q m ≡ some u)
      → value_at path (obj d) ≡ some u
      → value_at path (obj (put k m d)) ≡ some u
  value_at-put_old [] k w m u d at plain below h =
      absurd (subst IsPlain (sym (some-injective (obj d) u h)) plain)
  value_at-put_old (j ∷ path) k w m u d at plain below h =
      ground (arith, get-put k j m d, eq_iff k j, below path)

module _ (R : Floats) where
  mutual
    unfolding dict_merge_recursive

    merge_keeps :
        (b a : Fields R.Float) (path : List String) (u : Json R.Float) {r : Fields R.Float}
        → IsPlain u
        → value_at path (obj a) ≡ some u
        → dict_merge_recursive R false a b ≡ ok r
        → value_at path (obj r) ≡ some u
    merge_keeps end a path u plain h e = ground arith
    merge_keeps (field k v b) a path u plain h e = elim (Option-cases (get k a)) [
      | inl new ↦
          merge_keeps b (put k v a) path u plain (value_at-put_new path k v u a new plain h)
            (ground arith)
      | inr (w, old) ↦ elim (Result-cases (merge_value R false w v)) [
        | inl (m, merged) ↦
            merge_keeps b (put k m a) path u plain
              (value_at-put_old path k w m u a old plain (λ q i. value_keeps v w q u plain i merged)
                h)
              (ground arith)
        | inr (x, failed) ↦ ground arith
      ]
    ]

    value_keeps :
        (v w : Json R.Float) (path : List String) (u : Json R.Float) {m : Json R.Float}
        → IsPlain u
        → value_at path w ≡ some u
        → merge_value R false w v ≡ ok m
        → value_at path m ≡ some u
    value_keeps (obj b) (obj a) path u plain h e =
        elim (Result-cases (dict_merge_recursive R false a b)) [
          | inl (r, merged) ↦ ground (arith, merge_keeps b a path u plain h merged)
          | inr (x, failed) ↦ ground arith
        ]
    value_keeps v w path u plain h e = ground arith

  -- A merge that does not overwrite, and does not raise, keeps every value that the first dict has at
  -- a path of keys, at any depth, unless that value is itself a dict.
  pub dict_merge_recursive_keeps :
      (a b r : Fields R.Float) (path : List String) (u : Json R.Float)
      → dict_merge_recursive R false a b ≡ ok r
      → value_at path (obj a) ≡ some u
      → IsPlain u
      → value_at path (obj r) ≡ some u
  dict_merge_recursive_keeps a b r path u e h plain = merge_keeps b a path u plain h e

  plain_merge : (v w : Json R.Float) → IsPlain v → merge_value R true w v ≡ ok v
  unfolding dict_merge_recursive
  plain_merge (obj b) w plain = absurd plain
  plain_merge null w plain = ground arith
  plain_merge (bool b) w plain = ground arith
  plain_merge (num x) w plain = ground arith
  plain_merge (str s) w plain = ground arith
  plain_merge (arr xs) w plain = ground arith

  mutual
    unfolding dict_merge_recursive

    merge_total :
        (b a : Fields R.Float) → (r : Fields R.Float) × (dict_merge_recursive R true a b ≡ ok r)
    merge_total end a = (a, refl)
    merge_total (field k v b) a = elim (Option-cases (get k a)) [
      | inl new ↦ rw (new, dict_merge_recursive) (merge_total b (put k v a))
      | inr (w, old) ↦
          let (m, merged) = value_total v w in
          rw (old, dict_merge_recursive, merged) (merge_total b (put k m a))
    ]

    value_total : (v w : Json R.Float) → (m : Json R.Float) × (merge_value R true w v ≡ ok m)
    value_total (obj b) (obj a) =
        let (r, merged) = merge_total b a in (obj r, rw (merged, merge_value) refl)
    value_total (obj b) null = (obj b, refl)
    value_total (obj b) (bool c) = (obj b, refl)
    value_total (obj b) (num y) = (obj b, refl)
    value_total (obj b) (str t) = (obj b, refl)
    value_total (obj b) (arr ys) = (obj b, refl)
    value_total null w = (null, plain_merge null w tt)
    value_total (bool c) w = (bool c, plain_merge (bool c) w tt)
    value_total (num x) w = (num x, plain_merge (num x) w tt)
    value_total (str t) w = (str t, plain_merge (str t) w tt)
    value_total (arr xs) w = (arr xs, plain_merge (arr xs) w tt)

  -- A merge that overwrites never raises.
  pub dict_merge_recursive_total :
      (a b : Fields R.Float) → (r : Fields R.Float) × (dict_merge_recursive R true a b ≡ ok r)
  dict_merge_recursive_total a b = merge_total b a

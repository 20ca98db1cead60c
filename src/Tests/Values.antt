-- ===== src/Tests/Values.antt =====
-- Merged and exported dicts, and the tables of application states.
use openeo_geopyspark_driver.Prelude.{ℕ, ◌==◌, ◌||◌, ◌≡◌, refl, true, false, some, [], ◌∷◌}
use openeo_geopyspark_driver.Outcome.{ok}
use openeo_geopyspark_driver.Json.{Json, null, num, str, arr, obj, nil, cons, Fields, end, field}
use openeo_geopyspark_driver.Json.Merge.{dict_merge_recursive}
use openeo_geopyspark_driver.Json.Merge.Laws.{
  value_at, dict_merge_recursive_keeps, dict_merge_recursive_total,
}
use openeo_geopyspark_driver.Json.Export.{to_jsonable, all_finite, to_jsonable_lem}
use openeo_geopyspark_driver.JobStatus.{is_final}
use openeo_geopyspark_driver.Tracker.States.{
  k8s_state_to_openeo_job_status, k8s_state_to_etl_state, k8s_final_agrees,
  yarn_state_to_openeo_job_status, yarn_final_agrees,
}
use openeo_geopyspark_driver.Tests.Data.{numbers}

abbrev usage : Fields ℕ
usage = field "cpu" (obj (field "value" (num 7) end)) end

abbrev more : Fields ℕ
more = field "cpu" (obj (field "unit" (str "s") end)) (field "memory" (num 5) end)

abbrev merged : Fields ℕ
merged =
    field "cpu" (obj (field "value" (num 7) (field "unit" (str "s") end)))
      (field "memory" (num 5) end)

merges : dict_merge_recursive numbers false usage more ≡ ok merged
unfolding dict_merge_recursive
merges = refl

dict_merge_recursive_keeps_example : value_at ("cpu" ∷ "value" ∷ []) (obj merged) ≡ some (num 7)
dict_merge_recursive_keeps_example =
    dict_merge_recursive_keeps numbers usage more merged ("cpu" ∷ "value" ∷ []) (num 7) merges refl
      tt

dict_merge_recursive_total_example :
    (r : Fields ℕ) × (dict_merge_recursive numbers true usage more ≡ ok r)
dict_merge_recursive_total_example = dict_merge_recursive_total numbers usage more

abbrev infinite : Json ℕ
infinite = arr (cons (num 5000) (cons null nil))

abbrev bounded : Json ℕ
bounded = arr (cons (num 5) nil)

is_bounded : all_finite numbers bounded ≡ true
unfolding all_finite
is_bounded = refl

to_jsonable_lem_example :
    (all_finite numbers (to_jsonable numbers infinite) ≡ true)
    × (to_jsonable numbers (to_jsonable numbers infinite) ≡ to_jsonable numbers infinite)
    × (to_jsonable numbers bounded ≡ bounded)
to_jsonable_lem_example = to_jsonable_lem numbers infinite bounded is_bounded

k8s_final_agrees_example : is_final (k8s_state_to_openeo_job_status "COMPLETED") ≡ (
    k8s_state_to_etl_state "COMPLETED" == "FINISHED"
    || k8s_state_to_etl_state "COMPLETED" == "FAILED")
k8s_final_agrees_example = k8s_final_agrees "COMPLETED"

yarn_final_agrees_example : is_final (yarn_state_to_openeo_job_status "RUNNING" "UNDEFINED") ≡ false
yarn_final_agrees_example = yarn_final_agrees "RUNNING" "UNDEFINED" refl

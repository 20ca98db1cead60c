-- ===== src/Costs/Calculator/Laws.antt =====
-- Which requests the calculation of a job's costs sends to the ETL API.
use mathlib.Core.List.{append-nil, append_assoc}
use openeo_geopyspark_driver.Prelude.{
  String, ◌≡◌, refl, sym, ◌∙◌, ap, some, List, [], ◌∷◌, ◌++◌, keep, map, Bool-cases, inl, inr,
  if◌then◌else◌,
}
use openeo_geopyspark_driver.Outcome.{ok}
use openeo_geopyspark_driver.Floats.{Floats}
use openeo_geopyspark_driver.Costs.Api.{
  Request, EtlApi, ResourceUsage, Sent, log_resource_usage, log_added_value-billable,
  log_added_value-free, post_added_value_lem, is_billable, added_value_request, sum,
}
use openeo_geopyspark_driver.Costs.Calculator.{
  CostsDetails, usage_of, sum_added_value, calculate_costs,
}

module _ (R : Floats) (api : EtlApi R) (token : String) (costs : Request R → List R.Float) where
  abbrev pub added_request : ResourceUsage R → R.Float → String → Request R
  added_request u area process_id = added_value_request R api u process_id token area

  -- The costs of the added values: a process that is not billable costs nothing.
  abbrev pub added_costs : ResourceUsage R → R.Float → R.Float → List String → R.Float
  added_costs u area total [] = total
  added_costs u area total (id ∷ ids) =
      added_costs u area
        (R.add total
          (if is_billable R api id then sum R (costs (added_request u area id)) else R.of_int 0))
        ids

  module _ (granted : api.get_access_token ≡ ok token)
      (accepted : (r : Request R) → api.post r ≡ ok (costs r)) where
    sum_added_value_lem :
        (u : ResourceUsage R) (area total : R.Float) (ids : List String) (sent : Sent R api)
        → sum_added_value R api u area total ids sent ≡ (
          ok (added_costs u area total ids),
          sent ++ map (added_request u area) (keep (is_billable R api) ids),
        )
    sum_added_value_lem u area total [] sent = ap (λ xs. (ok total, xs)) (sym (append-nil sent))
    sum_added_value_lem u area total (id ∷ ids) sent = elim (Bool-cases (is_billable R api id)) [
      | inl billable ↦
          rw
            (
              log_added_value-billable R api u id area sent billable,
              post_added_value_lem R api u id token area (costs (added_request u area id)) sent
                  granted (accepted (added_request u area id)),
              billable,
            )
            (sum_added_value_lem u area (R.add total (sum R (costs (added_request u area id)))) ids
                (sent ++ (added_request u area id ∷ []))
              ∙ ap
                  (λ xs. (
                    ok (
                        added_costs u area (R.add total (sum R (costs (added_request u area id))))
                          ids),
                    xs,
                  ))
                  (append_assoc sent (added_request u area id ∷ [])
                    (map (added_request u area) (keep (is_billable R api) ids))))
      | inr free ↦
          rw (log_added_value-free R api u id area sent free, free)
            (sum_added_value_lem u area (R.add total (R.of_int 0)) ids sent)
    ]

    -- Where the ETL API grants a token and accepts every request, and the usage of resources has
    -- been reported: the calculation of the costs of a job with an area then sends exactly one request
    -- per billable process, in the order of the processes, and none for another process. It returns
    -- the costs of the resources plus those that were answered for the processes.
    pub calculate_costs_lem :
        (d : CostsDetails R) (area resource_costs : R.Float) (sent sent' : Sent R api)
        → d.area_square_meters ≡ some area
        → log_resource_usage R api (usage_of R d) sent ≡ (ok resource_costs, sent')
        → calculate_costs R api d sent ≡ (
          ok (
              R.add resource_costs
                (added_costs (usage_of R d) area (R.of_int 0) d.unique_process_ids)),
          sent'
              ++ map
                  (added_request (usage_of R d) area)
                  (keep (is_billable R api) d.unique_process_ids),
        )
    unfolding calculate_costs
    calculate_costs_lem d area resource_costs sent sent' has_area reported =
        rw
          (
            calculate_costs,
            reported,
            has_area,
            sum_added_value_lem (usage_of R d) area (R.of_int 0) d.unique_process_ids sent',
          )
          refl

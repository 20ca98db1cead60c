-- ===== src/Costs/Api.antt =====
-- `EtlApi` of openeogeotrellis/integrations/etl_api.py: the requests that report the usage of resources
-- and the added value of processes, and the costs that are answered.
use openeo_geopyspark_driver.Prelude.{
  ℕ, String, ◌<>◌, ◌≡◌, refl, ◌∙◌, Bool, true, false, not, Option, none, some, List, [], ◌∷◌, ◌++◌,
  contains, eqb, if◌then◌else◌,
}
use openeo_geopyspark_driver.Outcome.{Result, ok, err, Exec, pure, lift, continue, ◌>>=◌}
use openeo_geopyspark_driver.Floats.{Floats}
use openeo_geopyspark_driver.Json.{Json, null, num, str, obj, Fields, end, field, put, truthy}

module _ (R : Floats) where
  -- A POST request: the path below the endpoint, the bearer token and the JSON body.
  pub record Request : Type 0 where
    pub path : String
    pub token : String
    pub body : Fields R.Float

  -- An `EtlApi`, and what it calls: the token helper, and the server, which answers with the costs of
  -- resources or with an HTTP error. `to_int` is `int(...)`.
  pub record EtlApi : Type 0 where
    pub source_id : String
    pub get_access_token : Result String
    pub post : Request → Result (List R.Float)
    pub to_int : Json R.Float → Result (Json R.Float)
    pub show_int : ℕ → String

  -- The arguments of `log_resource_usage`.
  pub record ResourceUsage : Type 0 where
    pub batch_job_id : String
    pub title : Json R.Float
    pub execution_id : String
    pub user_id : String
    pub started_ms : Option R.Float
    pub finished_ms : Option R.Float
    pub state : String
    pub status : String
    pub cpu_seconds : Json R.Float
    pub mb_seconds : Json R.Float
    pub duration_ms : Option R.Float
    pub sentinel_hub_processing_units : Option R.Float
    pub additional_credits_cost : Option R.Float
    pub organization_id : Json R.Float

  abbrev pub optional_number : Option R.Float → Json R.Float
  optional_number none = null
  optional_number (some x) = num x

  abbrev pub metric : Json R.Float → String → Json R.Float
  metric value unit = obj (field "value" value (field "unit" (str unit) end))

  -- metrics[key] = {"value": value, "unit": unit}, if the value is not `None`
  abbrev pub add_metric : String → Json R.Float → String → Fields R.Float → Fields R.Float
  add_metric key null unit metrics = metrics
  add_metric key value unit metrics = put key (metric value unit) metrics

  -- sum(...)
  abbrev pub sum_from : R.Float → List R.Float → R.Float
  sum_from total [] = total
  sum_from total (x ∷ xs) = sum_from (R.add total x) xs

  abbrev pub sum : List R.Float → R.Float
  sum xs = sum_from (R.of_int 0) xs

  module _ (api : EtlApi) where
    -- The requests that have been sent, in their order.
    abbrev pub Sent : Type 0
    Sent = List Request

    -- A request is sent, and its costs are summed or an HTTP error is raised.
    abbrev pub post : Request → Exec Sent R.Float
    post r sent = elim (api.post r) [
      | err e ↦ (err e, sent ++ (r ∷ []))
      | ok costs ↦ (ok (sum costs), sent ++ (r ∷ []))
    ]

    -- `_idempotency_key_generator`, at the call of this number
    unfoldable pub idempotency_key : String → ℕ → String
    idempotency_key key_base n = key_base <> (if eqb n 0 then "" else "_" <> api.show_int n)

    abbrev pub with_organization : Json R.Float → Fields R.Float → Result (Fields R.Float)
    with_organization organization_id d =
        if truthy R organization_id
        then elim (api.to_int organization_id) [ err e ↦ err e | ok id ↦ ok (put "orgId" id d) ]
        else ok d

    -- `data` in `_log_metrics`
    abbrev pub resource_data : ResourceUsage → ℕ → Fields R.Float → Result (Fields R.Float)
    resource_data u n metrics = with_organization u.organization_id (
        field "jobId" (str u.batch_job_id) (
          field "jobName" u.title (
            field "executionId" (str u.execution_id) (
              field "userId" (str u.user_id) (
                field "sourceId" (str api.source_id) (
                  field "orchestrator" (str "openeo") (
                    field "jobStart" (optional_number u.started_ms) (
                      field "jobFinish" (optional_number u.finished_ms) (
                        field "idempotencyKey" (str (idempotency_key u.execution_id n)) (
                          field "state" (str u.state) (
                            field "status" (str u.status)
                              (field "metrics" (obj metrics) end))))))))))))

    -- `_log_metrics`, at the call of this number
    abbrev pub log_metrics : ResourceUsage → String → ℕ → Fields R.Float → Exec Sent R.Float
    log_metrics u token n metrics = do
      body ← lift (resource_data u n metrics)
      post (record { path = "/resources"; token = token; body = body })

    abbrev pub base_metrics : ResourceUsage → Fields R.Float
    base_metrics u = add_metric "time" (optional_number u.duration_ms) "milliseconds" (
        add_metric "memory" u.mb_seconds "mb-seconds"
          (add_metric "cpu" u.cpu_seconds "cpu-seconds" end))

    abbrev pub processing : R.Float → String → Fields R.Float → Fields R.Float
    processing x unit metrics = put "processing" (metric (num x) unit) metrics

    -- The requests for processing units and credits, which are never in one request.
    abbrev pub log_usage :
        ResourceUsage → String → Option R.Float → Option R.Float → Exec Sent R.Float
    log_usage u token (some units) (some credits) = do
      credits_cost ← log_metrics u token 0 (processing credits "credits" end)
      base_cost ← log_metrics u token 1 (processing units "shpu" (base_metrics u))
      pure (R.add (R.add (R.of_int 0) credits_cost) base_cost)
    log_usage u token (some units) none = do
      base_cost ← log_metrics u token 0 (processing units "shpu" (base_metrics u))
      pure (R.add (R.of_int 0) base_cost)
    log_usage u token none (some credits) = do
      base_cost ← log_metrics u token 0 (processing credits "credits" (base_metrics u))
      pure (R.add (R.of_int 0) base_cost)
    log_usage u token none none = do
      base_cost ← log_metrics u token 0 (base_metrics u)
      pure (R.add (R.of_int 0) base_cost)

    -- `log_resource_usage`
    unfoldable pub log_resource_usage : ResourceUsage → Exec Sent R.Float
    log_resource_usage u = do
      token ← lift api.get_access_token
      log_usage u token u.sentinel_hub_processing_units u.additional_credits_cost

    abbrev pub not_billable : List String
    not_billable =
        "fahrenheit_to_celsius" ∷ "mask_polygon" ∷ "mask_scl_dilation" ∷ "filter_bbox" ∷ "mean"
        ∷ "aggregate_spatial" ∷ "discard_result" ∷ "filter_temporal" ∷ "load_collection"
        ∷ "reduce_dimension" ∷ "apply_dimension" ∷ "not" ∷ "max" ∷ "or" ∷ "and" ∷ "run_udf"
        ∷ "save_result" ∷ "mask" ∷ "array_element" ∷ "add_dimension" ∷ "multiply" ∷ "subtract"
        ∷ "divide" ∷ "filter_spatial" ∷ "merge_cubes" ∷ "median" ∷ "filter_bands" ∷ []

    abbrev pub is_billable : String → Bool
    is_billable process_id = not (contains not_billable process_id)

    -- `data` in `log_added_value`
    abbrev pub added_value_data : ResourceUsage → String → R.Float → Fields R.Float
    added_value_data u process_id square_meters = field "jobId" (str u.batch_job_id) (
        field "jobName" u.title (
          field "executionId" (str u.execution_id) (
            field "userId" (str u.user_id) (
              field "sourceId" (str api.source_id) (
                field "orchestrator" (str "openeo") (
                  field "jobStart" (optional_number u.started_ms) (
                    field "jobFinish" (optional_number u.finished_ms) (
                      field "idempotencyKey" (str u.execution_id) (
                        field "service" (str process_id) (
                          field "area"
                            (obj (
                              field "value" (num square_meters)
                                (field "unit" (str "square_meter") end)))
                            end))))))))))

    abbrev pub added_value_request : ResourceUsage → String → String → R.Float → Request
    added_value_request u process_id token square_meters = record {
      path = "/addedvalue";
      token = token;
      body = added_value_data u process_id square_meters;
    }

    abbrev pub post_added_value : ResourceUsage → String → R.Float → Exec Sent R.Float
    post_added_value u process_id square_meters = do
      token ← lift api.get_access_token
      post (added_value_request u process_id token square_meters)

    -- `log_added_value`, whose arguments but the last two are among those of `log_resource_usage`
    pub log_added_value : ResourceUsage → String → R.Float → Exec Sent R.Float
    log_added_value u process_id square_meters =
        if is_billable process_id
        then post_added_value u process_id square_meters
        else pure (R.of_int 0)

    pub log_added_value-billable :
        (u : ResourceUsage) (process_id : String) (area : R.Float) (sent : Sent)
        → is_billable process_id ≡ true
        → log_added_value u process_id area sent ≡ post_added_value u process_id area sent
    unfolding log_added_value
    log_added_value-billable u process_id area sent billable = rw (log_added_value, billable) refl

    pub log_added_value-free :
        (u : ResourceUsage) (process_id : String) (area : R.Float) (sent : Sent)
        → is_billable process_id ≡ false
        → log_added_value u process_id area sent ≡ (ok (R.of_int 0), sent)
    unfolding log_added_value
    log_added_value-free u process_id area sent free = rw (log_added_value, free) refl

    post_accepted :
        (r : Request) (costs : List R.Float) (sent : Sent)
        → api.post r ≡ ok costs
        → post r sent ≡ (ok (sum costs), sent ++ (r ∷ []))
    post_accepted r costs sent accepted = rw (accepted, post) refl

    with_token :
        (t : Result String) (token : String) (f : String → Exec Sent R.Float) (sent : Sent)
        → t ≡ ok token
        → continue t f sent ≡ f token sent
    with_token t token f sent granted = rw granted refl

    -- A token that is granted and a request that is accepted.
    pub post_added_value_lem :
        (u : ResourceUsage) (process_id token : String) (area : R.Float) (costs : List R.Float)
        (sent : Sent)
        → api.get_access_token ≡ ok token
        → api.post (added_value_request u process_id token area) ≡ ok costs
        → post_added_value u process_id area sent
          ≡ (ok (sum costs), sent ++ (added_value_request u process_id token area ∷ []))
    post_added_value_lem u process_id token area costs sent granted accepted =
        with_token api.get_access_token token (λ t. post (added_value_request u process_id t area))
          sent granted
        ∙ post_accepted (added_value_request u process_id token area) costs sent accepted

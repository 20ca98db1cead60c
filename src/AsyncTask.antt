-- ===== src/AsyncTask.antt =====
-- The tasks that are sent to the handler of asynchronous tasks: `schedule_await_job_dependencies`,
-- `schedule_delete_batch_process_dependency_sources`, `_schedule_task` and `_redact` of
-- openeogeotrellis/async_task.py.
use openeo_geopyspark_driver.Prelude.{
  String, ◌==◌, Bool, ◌||◌, Option, none, some, List, [], ◌∷◌, if◌then◌else◌,
}
use openeo_geopyspark_driver.Outcome.{Exec}
use openeo_geopyspark_driver.Json.{
  Json, null, bool, num, str, arr, obj, Items, nil, cons, Fields, end, field,
}
use openeo_geopyspark_driver.Registry.Info.{optional}

-- Kafka's producer, which sends a message with its headers, and its topic. `lower` is Python's
-- `str.lower`, `is_in` its `in` on texts, `dumps` is `json.dumps`.
pub record Kafka (F : Type 0) : Type 1 where
  pub State : Type 0
  pub environment : Option String
  pub lower : String → String
  pub is_in : String → String → Bool
  pub dumps : Json F → String
  pub send : String → String → Option (List (String × String)) → Exec State (Unit {0})

abbrev pub texts : {F : Type 0} → List String → Items F
texts [] = nil
texts (s ∷ ss) = cons (str s) (texts ss)

abbrev pub delete_task : {F : Type 0} → String → String → List String → Json F
delete_task job user dependency_sources = obj (
    field "task_id" (str "delete_batch_process_dependency_sources") (
      field "arguments"
        (obj (
          field "batch_job_id" (str job) (
            field "user_id" (str user)
              (field "dependency_sources" (arr (texts dependency_sources)) end))))
        end))

abbrev pub await_task : {F : Type 0} → String → String → String → Option String → Json F
await_task job user sentinel_hub_client_alias vault_token = obj (
    field "task_id" (str "await_dependencies") (
      field "arguments"
        (obj (
          field "batch_job_id" (str job) (
            field "user_id" (str user) (
              field "sentinel_hub_client_alias" (str sentinel_hub_client_alias)
                (field "vault_token" (optional vault_token) end)))))
        end))

module _ {F : Type 0} (K : Kafka F) where
  abbrev pub is_sensitive : String → Bool
  is_sensitive prop = K.is_in "secret" (K.lower prop) || K.is_in "token" (K.lower prop)

  -- `redact` in `_redact`: the whole has no name, and lists are not looked into.
  unfoldable mutual
    pub redact : Json F → Json F
    redact (obj d) = obj (redact_fields d)
    redact null = null
    redact (bool b) = bool b
    redact (num x) = num x
    redact (str s) = str s
    redact (arr xs) = arr xs

    pub redact_fields : Fields F → Fields F
    redact_fields end = end
    redact_fields (field prop value d) =
        let inner = redact value in
        let rest = redact_fields d in
        field prop (if is_sensitive prop then str "(redacted)" else inner) rest

  -- The headers of a task, where there is an environment.
  abbrev pub headers : Option String → Option (List (String × String))
  headers none = none
  headers (some env) = if env == "" then none else some (("env", env) ∷ [])

  abbrev pub schedule_task : Json F → Exec K.State (Unit {0})
  schedule_task task = K.send "openeo-async-tasks" (K.dumps task) (headers K.environment)

-- ===== src/Batch/Start.antt =====
-- `GpsBatchJobs.start_job` and `_start_job` of openeogeotrellis/backend.py, on YARN. Job infos are
-- read once, at the beginning.
pub mod Setup
pub mod Dependencies
pub mod Arguments
pub mod Laws
use openeo_geopyspark_driver.Prelude.{
  ℕ, String, ◌==◌, ◌<>◌, Bool, true, false, not, ◌&&◌, ◌||◌, Option, none, some, List, [], ◌∷◌,
  contains, if◌then◌else◌,
}
use openeo_geopyspark_driver.Outcome.{
  Error, Result, ok, err, Exec, pure, raise, lift, reads, ◌>>=◌, ◌>>◌, when, key_error, type_error,
  other_error,
}
use openeo_geopyspark_driver.Outcome.Try
use openeo_geopyspark_driver.Floats.{Floats}
use openeo_geopyspark_driver.Json.{
  Json, null, str, arr, obj, Items, nil, cons, Fields, end, field, get, get_or_null, has, truthy,
}
use openeo_geopyspark_driver.Codec.{JsonCodec}
use openeo_geopyspark_driver.JobStatus.{created, queued, running}
use openeo_geopyspark_driver.DependencyStatus as DependencyStatus
use openeo_geopyspark_driver.Registry.Info.{required, require_str, parse_specification_or}
use openeo_geopyspark_driver.Batch.{BatchRegistry}
use openeo_geopyspark_driver.Batch.World.{
  Services, World, Run, on_registry, on_hub, on_tasks, on_cluster, on_kubernetes,
}
use openeo_geopyspark_driver.Batch.Options.{Builtins, Defaults, attribute_error}
use openeo_geopyspark_driver.Batch.Start.Setup.{Deployment, Specification, Prepared}
use openeo_geopyspark_driver.Batch.Start.Arguments.{prepare, arguments, text}

-- `except CalledProcessError: raise InternalException`
abbrev pub as_internal : Error → Error
as_internal (other_error s) =
    if s == "CalledProcessError" then other_error "InternalException" else other_error s
as_internal e = e

-- The text of a value that is one.
abbrev pub text_is : {F : Type 0} → List String → Json F → Bool
text_is xs (str s) = contains xs s
text_is xs _ = false

module _ (R : Floats) (C : JsonCodec R.Float) (J : BatchRegistry R.Float) (X : Services R J)
    (P : Builtins R) (D : Defaults R) (Y : Deployment R) where
  -- The options, which are a dict unless they have been given as something else.
  abbrev pub options_dict : Json R.Float → Result (Fields R.Float)
  options_dict (obj d) = ok d
  options_dict _ = err attribute_error

  -- job_info["process"]["process_graph"]
  abbrev pub graph_at : Json R.Float → Result (Json R.Float)
  graph_at (obj process) = required "process_graph" process
  graph_at _ = err type_error

  -- job_info.get("job_options") or {}
  abbrev pub options_or_empty : Fields R.Float → Result (Fields R.Float)
  options_or_empty info =
      let v = get_or_null "job_options" info in if truthy R v then options_dict v else ok end

  abbrev pub new_specification : Fields R.Float → Result (Specification R)
  new_specification info = Try.◌>>=◌ (required "process" info) λ process.
      Try.◌>>=◌ (graph_at process) λ graph. Try.◌>>=◌ (options_or_empty info) λ options.
        ok (record {
          process_graph = graph;
          job_options = options;
          json =
              C.dumps (obj (field "process_graph" graph (field "job_options" (obj options) end)));
        })

  abbrev pub old_specification : Fields R.Float → Result (Specification R)
  old_specification info = Try.◌>>=◌ (require_str "specification" info) λ json.
      Try.◌>>=◌ (parse_specification_or R C (obj end) info) λ parsed.
        Try.◌>>=◌ (options_dict parsed.1)
          λ options. ok (record { process_graph = parsed.0; job_options = options; json = json })

  unfoldable pub specification_of : Fields R.Float → Result (Specification R)
  specification_of info =
      if has "specification" info then old_specification info else new_specification info

  abbrev pub reset : String → String → String → Exec (World R J X) Bool
  reset now job user = do
    on_registry R J X (J.mark_ongoing job user)
    on_registry R J X (J.set_application_id job user none)
    on_registry R J X (J.set_status now job user created)
    pure true

  -- The job is made ready to be started again: whether to go on.
  pub restart : String → String → String → Fields R.Float → Exec (World R J X) Bool
  restart now job user info = do
    status ← lift (required "status" info)
    (if text_is (queued ∷ running ∷ []) status
        then pure false
        else (if text_is (created ∷ []) status then pure true else reset now job user))

  abbrev pub is_waiting : Fields R.Float → Bool
  is_waiting info =
      text_is
        (DependencyStatus.awaiting ∷ DependencyStatus.awaiting_retry ∷ DependencyStatus.available
          ∷ [])
        (get_or_null "dependency_status" info)

  -- Sentinel Hub's token, which is not asked for with the default credentials.
  abbrev pub token_for : (String → Result (Option String)) → String → Result (Option String)
  token_for get_vault_token alias = if alias == "default" then ok none else get_vault_token alias

  -- The dependencies of a job that has some, and the task that waits for them.
  pub await_dependencies :
      String
      → String
      → String
      → String
      → (String → Result (Option String))
      → Items R.Float
      → Run R J X
  await_dependencies now job user alias get_vault_token dependencies = do
    on_registry R J X (J.set_dependencies job user (arr dependencies))
    token ← lift (token_for get_vault_token alias)
    on_tasks R J X (X.schedule_await job user alias token)
    on_registry R J X (J.set_dependency_status job user DependencyStatus.awaiting)
    on_registry R J X (J.set_status now job user queued)

  -- The submission to YARN.
  abbrev pub submitted : Result String → Result String
  submitted (ok output) = ok output
  submitted (err e) = err (as_internal e)

  abbrev pub submit : List String → Exec X.Cluster String
  submit args s = (submitted (X.submit args s).0, (X.submit args s).1)

  pub submit_to_yarn :
      String
      → String
      → String
      → (String → Result (Option String))
      → Option (Items R.Float)
      → Option String
      → Fields R.Float
      → Specification R
      → String
      → Prepared R.Float
      → Run R J X
  submit_to_yarn now job user get_vault_token dependencies proxy_user info specification alias
        prepared =
      do
        args ← lift (
            arguments R C P D Y job user (token_for get_vault_token alias) alias dependencies
              proxy_user info specification prepared)
        output ← on_cluster R J X (submit args)
        elim (X.search_application_id output) [
          | none ↦ raise (other_error "CalledProcessError")
          | some id ↦ do
            on_registry R J X (J.set_application_id job user (some id))
            on_registry R J X (J.set_status now job user queued)
        ]

  abbrev pub is_missing : Option (Items R.Float) → Bool
  is_missing none = true
  is_missing (some _) = false

  abbrev pub is_empty_list : Items R.Float → Bool
  is_empty_list nil = true
  is_empty_list (cons _ _) = false

  abbrev pub client_alias : Fields R.Float → Result String
  client_alias options =
      text (X.deep_get ("sentinel-hub" ∷ "client-alias" ∷ []) (str "default") options)

  abbrev pub launch :
      String
      → String
      → String
      → (String → Result (Option String))
      → Option (Items R.Float)
      → Option String
      → Fields R.Float
      → Specification R
      → String
      → Run R J X
  launch now job user get_vault_token dependencies proxy_user info specification alias = do
    prepared ← lift (prepare R C P D Y specification.job_options)
    (if D.is_kube_deploy
        then on_kubernetes R J X (X.start_on_kubernetes job user specification.job_options)
        else submit_to_yarn now job user get_vault_token dependencies proxy_user info specification
            alias prepared)

  -- What follows the restart logic.
  pub launch_or_await :
      String
      → String
      → String
      → (String → Result (Option String))
      → Option (Items R.Float)
      → Option String
      → Fields R.Float
      → Run R J X
  launch_or_await now job user get_vault_token dependencies proxy_user info = do
    specification ← lift (specification_of info)
    alias ← lift (client_alias specification.job_options)
    scheduled ←
        (if is_missing dependencies && not (is_waiting info)
          then on_hub R J X (
              X.schedule_and_get_dependencies specification.process_graph job user
                specification.job_options)
          else pure nil)
    (if is_empty_list scheduled
        then launch now job user get_vault_token dependencies proxy_user info specification alias
        else await_dependencies now job user alias get_vault_token scheduled)

  -- `_start_job`
  pub start_with :
      String
      → String
      → String
      → (String → Result (Option String))
      → Option (Items R.Float)
      → Option String
      → Run R J X
  start_with now job user get_vault_token dependencies proxy_user = do
    info ← on_registry R J X (reads (J.get_job job user))
    proceed ← (if is_missing dependencies then restart now job user info else pure true)
    when proceed (launch_or_await now job user get_vault_token dependencies proxy_user info)

  -- `start_job`, by a user with this proxy user
  abbrev pub remember_proxy_user : String → String → Option String → Run R J X
  remember_proxy_user job user none = pure tt
  remember_proxy_user job user (some proxy) =
      when (not (proxy == "")) (on_registry R J X (J.set_proxy_user job user proxy))

  pub start_job :
      String → String → String → (String → Result (Option String)) → Option String → Run R J X
  start_job now job user get_vault_token proxy_user = do
    remember_proxy_user job user proxy_user
    start_with now job user get_vault_token none proxy_user

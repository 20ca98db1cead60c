-- ===== src/Batch/Cancel.antt =====
-- `GpsBatchJobs.cancel_job` of openeogeotrellis/backend.py, and the name of a job's secret, from
-- openeogeotrellis/integrations/kubernetes.py.
pub mod Exceptions
pub mod Laws
pub mod Registries
use openeo_geopyspark_driver.Prelude.{
  String, ◌<>◌, Bool, true, false, Option, none, some, List, [], ◌∷◌, if◌then◌else◌,
}
use openeo_geopyspark_driver.Prelude.Int.{ℤ}
use openeo_geopyspark_driver.Outcome.{
  Error, Result, ok, err, Exec, pure, lift, reads, ◌>>=◌, ◌>>◌, when, type_error,
}
use openeo_geopyspark_driver.Floats.{Floats}
use openeo_geopyspark_driver.Json.{Json, str, Fields, truthy}
use openeo_geopyspark_driver.JobStatus.{created, finished, error, canceled}
use openeo_geopyspark_driver.Registry.Info.{required}
use openeo_geopyspark_driver.Batch.{BatchRegistry}
use openeo_geopyspark_driver.Batch.World.{Services, World, on_registry, on_cluster}
use openeo_geopyspark_driver.Batch.Start.{text_is}

-- What stops an application: the `PUT` of its state to YARN by curl, and the deletions of the
-- Kubernetes API, with the configuration. `called_process_error` gives the return code and the output
-- of a `CalledProcessError`; `is_api_exception` tells an `ApiException` of Kubernetes.
pub record Control (Cluster : Type 0) : Type 0 where
  pub is_kube_deploy : Bool
  pub fuse_mount_batchjob_s3_bucket : Bool
  pub provide_s3_profiles_and_tokens : Bool
  pub kill : String → Exec Cluster (Unit {0})
  pub delete_spark_application : String → Exec Cluster (Unit {0})
  pub delete_persistent_volume : String → Exec Cluster (Unit {0})
  pub delete_persistent_volume_claim : String → Exec Cluster (Unit {0})
  pub delete_secret : String → Exec Cluster (Unit {0})
  pub called_process_error : Error → Option (ℤ × String)
  pub is_api_exception : Error → Bool

-- `try: m; except ...: pass`
abbrev pub ignored : {A : Type 0} → (Error → Bool) → A → Result A → Result A
ignored caught a (ok b) = ok b
ignored caught a (err e) = if caught e then ok a else err e

abbrev pub ignoring : {S : Type 0} → (Error → Bool) → Exec S (Unit {0}) → Exec S (Unit {0})
ignoring caught m s = (ignored caught tt (m s).0, (m s).1)

-- `try: m; finally: n`, where an exception of n takes the place of one of m.
abbrev pub after : {A : Type 0} → Result A → Result A → Result A
after r (ok _) = r
after r (err e) = err e

abbrev pub finally : {S : Type 0} → Exec S (Unit {0}) → Exec S (Unit {0}) → Exec S (Unit {0})
finally m n s = (after (m s).0 (n (m s).1).0, (n (m s).1).1)

abbrev pub k8s_get_batch_job_cfg_secret_name : String → String
k8s_get_batch_job_cfg_secret_name spark_app_name = "cfg-" <> spark_app_name

-- The statuses in which there is nothing to cancel.
abbrev pub inactive : List String
inactive = created ∷ finished ∷ error ∷ canceled ∷ []

module _ (R : Floats) (J : BatchRegistry R.Float) (X : Services R J) (K : Control X.Cluster) where
  abbrev pub is_called_process_error : Error → Bool
  is_called_process_error e = elim (K.called_process_error e) [ none ↦ false | some _ ↦ true ]

  unfoldable pub stop_on_kubernetes : String → Exec X.Cluster (Unit {0})
  stop_on_kubernetes app = do
    ignoring K.is_api_exception (K.delete_spark_application app)
    when K.fuse_mount_batchjob_s3_bucket (
        ignoring K.is_api_exception
          (K.delete_persistent_volume app >> K.delete_persistent_volume_claim app))
    when K.provide_s3_profiles_and_tokens
        (ignoring K.is_api_exception (K.delete_secret (k8s_get_batch_job_cfg_secret_name app)))

  abbrev pub set_canceled : String → String → String → Exec (World R J X) (Unit {0})
  set_canceled now job user = on_registry R J X (J.set_status now job user canceled)

  unfoldable pub cancel_application :
      String → String → String → String → Exec (World R J X) (Unit {0})
  cancel_application now job user app =
      if K.is_kube_deploy
      then on_cluster R J X (stop_on_kubernetes app) >> set_canceled now job user
      else finally (on_cluster R J X (ignoring is_called_process_error (K.kill app)))
          (set_canceled now job user)

  -- An application id is a text, where there is one.
  abbrev pub application : Json R.Float → Result String
  application (str app) = ok app
  application v = err type_error

  -- A job without an application waits for its dependencies.
  abbrev pub release : String → String → String → Exec (World R J X) (Unit {0})
  release now job user =
      on_registry R J X (J.remove_dependencies job user) >> set_canceled now job user

  abbrev pub cancel_with : String → String → String → Json R.Float → Exec (World R J X) (Unit {0})
  cancel_with now job user application_id =
      if truthy R application_id
      then lift (application application_id) >>= cancel_application now job user
      else release now job user

  unfoldable pub cancel_active :
      String → String → String → Fields R.Float → Exec (World R J X) (Unit {0})
  cancel_active now job user info =
      lift (required "application_id" info) >>= cancel_with now job user

  abbrev pub cancel_unless :
      String → String → String → Fields R.Float → Json R.Float → Exec (World R J X) (Unit {0})
  cancel_unless now job user job_info status =
      if text_is inactive status then pure tt else cancel_active now job user job_info

  unfoldable pub cancel_job : String → String → String → Exec (World R J X) (Unit {0})
  cancel_job now job user = do
    job_info ← reads (λ w. J.get_job job user w.registry)
    lift (required "status" job_info) >>= cancel_unless now job user job_info

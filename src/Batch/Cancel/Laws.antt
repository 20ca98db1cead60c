-- ===== src/Batch/Cancel/Laws.antt =====
-- What `cancel_job` does to the status of a job.
use openeo_geopyspark_driver.Prelude.{
  String, ◌==◌, ◌≡◌, refl, true, false, some, contains, if◌then◌else◌, arith, inl, inr, Bool-cases,
}
use openeo_geopyspark_driver.Outcome.{Result, ok, ◌>>◌, when}
use openeo_geopyspark_driver.Floats.{Floats}
use openeo_geopyspark_driver.Json.{Json, str, Fields, get}
use openeo_geopyspark_driver.JobStatus.{canceled}
use openeo_geopyspark_driver.Registry.Info.{required}
use openeo_geopyspark_driver.Batch.{BatchRegistry}
use openeo_geopyspark_driver.Batch.World.{Services, World}
use openeo_geopyspark_driver.Batch.Cancel.{
  Control, inactive, ignored, ignoring, k8s_get_batch_job_cfg_secret_name, is_called_process_error,
  stop_on_kubernetes, cancel_application, cancel_active, cancel_job,
}
use openeo_geopyspark_driver.Batch.Cancel.Exceptions.{
  RaisesOnly, ignoring-ok, then-RaisesOnly, then-ok, when-ok,
}

required-found :
    {F : Type 0} (k : String) (d : Fields F) (v : Json F) → get k d ≡ some v → required k d ≡ ok v
required-found k d v e = ground arith

module _ (R : Floats) (J : BatchRegistry R.Float) (X : Services R J) (K : Control X.Cluster) where
  -- The Kubernetes API raises only its own exception.
  pub record IsExpected : Type 0 where
    pub application :
        (app : String) → RaisesOnly K.is_api_exception (K.delete_spark_application app)
    pub volume : (app : String) → RaisesOnly K.is_api_exception (K.delete_persistent_volume app)
    pub claim :
        (app : String) → RaisesOnly K.is_api_exception (K.delete_persistent_volume_claim app)
    pub secret : (app : String) → RaisesOnly K.is_api_exception (K.delete_secret app)

  stop_on_kubernetes-ok :
      IsExpected → (app : String) (c : X.Cluster) → (stop_on_kubernetes R J X K app c).0 ≡ ok tt
  unfolding stop_on_kubernetes
  stop_on_kubernetes-ok H app c =
      let application = ignoring K.is_api_exception (K.delete_spark_application app) in
      let storage = K.delete_persistent_volume app >> K.delete_persistent_volume_claim app in
      let volumes = ignoring K.is_api_exception storage in
      let name = k8s_get_batch_job_cfg_secret_name app in
      let secret = ignoring K.is_api_exception (K.delete_secret name) in
      let volumes_raise =
        then-RaisesOnly K.is_api_exception (K.delete_persistent_volume app)
          (K.delete_persistent_volume_claim app) (H.volume app) (H.claim app) in
      then-ok application _ c
        (ignoring-ok K.is_api_exception (K.delete_spark_application app) c (H.application app))
        λ c1.
          then-ok (when K.fuse_mount_batchjob_s3_bucket volumes) _ c1
            (when-ok K.fuse_mount_batchjob_s3_bucket volumes c1
              (ignoring-ok K.is_api_exception storage c1 volumes_raise))
            λ c2.
              when-ok K.provide_s3_profiles_and_tokens secret c2
                (ignoring-ok K.is_api_exception (K.delete_secret name) c2 (H.secret name))

  -- How the end of the application leaves the cluster, and what it raises: `CalledProcessError` on
  -- YARN is not raised again, any other exception is.
  abbrev pub killed : String → X.Cluster → Result (Unit {0})
  killed app c =
      if K.is_kube_deploy
      then ok tt
      else ignored (is_called_process_error R J X K) tt (K.kill app c).0

  abbrev pub cluster_after : String → X.Cluster → X.Cluster
  cluster_after app c =
      if K.is_kube_deploy then (stop_on_kubernetes R J X K app c).1 else (K.kill app c).1

  module _ (now job user : String) (H : K.is_kube_deploy ≡ true → IsExpected) where
    cancel_application_lem :
        (app : String) (w : World R J X) (after : J.State)
        → J.set_status now job user canceled w.registry ≡ (ok tt, after)
        → cancel_application R J X K now job user app w ≡ (
          killed app w.cluster,
          record w { registry = after; cluster = cluster_after app w.cluster },
        )
    unfolding cancel_application stop_on_kubernetes
    cancel_application_lem app w after runs = elim (Bool-cases K.is_kube_deploy) [
      | inl kube ↦
          let stopped = stop_on_kubernetes-ok (H kube) app w.cluster in
          rw (kube, stopped, runs) refl
      | inr yarn ↦ rw (yarn, runs) refl
    ]

    -- A job that is active and has an application.
    pub cancel_job_lem :
        (status app : String) (info : Fields R.Float) (w : World R J X) (after : J.State)
        → J.get_job job user w.registry ≡ ok info
        → get "status" info ≡ some (str status)
        → contains inactive status ≡ false
        → get "application_id" info ≡ some (str app)
        → (app == "") ≡ false
        → J.set_status now job user canceled w.registry ≡ (ok tt, after)
        → cancel_job R J X K now job user w ≡ (
          killed app w.cluster,
          record w { registry = after; cluster = cluster_after app w.cluster },
        )
    unfolding cancel_job cancel_active
    cancel_job_lem status app info w after here has active id given runs =
        let found = required-found "status" info (str status) has in
        let found_id = required-found "application_id" info (str app) id in
        rw (here, found, active, cancel_active, found_id, given)
          (cancel_application_lem app w after runs)

-- ===== src/Batch/Cancel/Registries.antt =====
-- `cancel_job` over `DoubleJobRegistry` with both registries.
use openeo_geopyspark_driver.Prelude.{ℕ, String, ◌==◌, ◌≡◌, ◌≢◌, true, false, none, some, contains}
use openeo_geopyspark_driver.Outcome.{ok, err, no_node}
use openeo_geopyspark_driver.Floats.{Floats}
use openeo_geopyspark_driver.Json.{str, Fields, get}
use openeo_geopyspark_driver.Codec.{JsonCodec, IsFaithful}
use openeo_geopyspark_driver.JobStatus.{canceled}
use openeo_geopyspark_driver.Zookeeper.{ZkPath, ZkClient, IsLeaf, IsLawful}
use openeo_geopyspark_driver.Registry.Info.{JobInfo}
use openeo_geopyspark_driver.Registry.Interface.{JobRegistry, IsLawfulRegistry}
use openeo_geopyspark_driver.Registry.Zk.Paths.{job_path}
use openeo_geopyspark_driver.Registry.Zk.Laws.{Holds, IsOwn}
use openeo_geopyspark_driver.Registry.Zk.Move.{Others}
use openeo_geopyspark_driver.Registry.Double.Laws.{both_present, set_status_agrees}
use openeo_geopyspark_driver.Batch.{BatchRegistry, batch_double}
use openeo_geopyspark_driver.Batch.World.{Services, World}
use openeo_geopyspark_driver.Batch.Cancel.{Control, inactive, cancel_job}
use openeo_geopyspark_driver.Batch.Cancel.Laws.{IsExpected, killed, cluster_after, cancel_job_lem}

module _ (R : Floats) (C : JsonCodec R.Float) (Z : ZkClient C.Bytes) (top : String) (base : ZkPath)
    (E : JobRegistry R.Float) where
  abbrev pub J : BatchRegistry R.Float
  J = batch_double R C Z top base E both_present

  module _ (X : Services R J) (K : Control X.Cluster) (L : IsLawful Z) (faithful : IsFaithful C)
      (LE : IsLawfulRegistry E none none) where
    -- Over both registries, cancelling a job that is read with an application id, and with a status
    -- other than created, finished, error and canceled, where the job is ongoing in ZooKeeper with an
    -- info that names the job and the user, its node has no children, it has no node among the done
    -- ones, and the other registry knows it for the user: afterwards the job is among the done ones in
    -- ZooKeeper, its status is "canceled" in both registries, and no node of another job has changed.
    -- On YARN this is so whatever the kill of the application raises, and `cancel_job` raises what the
    -- kill has raised unless that is `CalledProcessError`; on Kubernetes, where the API raises only
    -- `ApiException`, it succeeds. The ids are not empty; the client and the other registry are lawful,
    -- and the codec reads back what it writes.
    pub cancel_job_agrees :
        (now job user status app : String) (info : Fields R.Float) (w : World R J X)
        (zk_old : JobInfo R C) (version : ℕ) {ejr_old : Fields R.Float}
        → job ≢ ""
        → user ≢ ""
        → (K.is_kube_deploy ≡ true → IsExpected R J X K)
        → J.get_job job user w.registry ≡ ok info
        → get "status" info ≡ some (str status)
        → contains inactive status ≡ false
        → get "application_id" info ≡ some (str app)
        → (app == "") ≡ false
        → Holds R C Z (job_path top base "ongoing" user job) zk_old version w.registry.0
        → IsOwn R C Z job user zk_old
        → IsLeaf Z (job_path top base "ongoing" user job) w.registry.0
        → Z.get (job_path top base "done" user job) w.registry.0 ≡ err no_node
        → E.get_job job (some user) w.registry.1 ≡ ok ejr_old
        → (zk_info : JobInfo R C) × (ejr_info : Fields R.Float) × (version' : ℕ) × (z' : Z.State)
          × (e' : E.State) × (cancel_job R J X K now job user w ≡ (
            killed R J X K app w.cluster,
            record w { registry = (z', e'); cluster = cluster_after R J X K app w.cluster },
          ))
          × Holds R C Z (job_path top base "done" user job) zk_info version' z'
          × (E.get_job job (some user) e' ≡ ok ejr_info)
          × (get "status" zk_info ≡ some (str "canceled"))
          × (get "status" ejr_info ≡ some (str "canceled"))
          × Others R C Z top base job user w.registry.0 z'
    cancel_job_agrees now job user status app info w zk_old version job_given user_given expected
          here has active id given holds own leaf free known =
        let (
          zk_info, ejr_info, version', z', e', runs, zk_holds, ejr_reads, zk_status, ejr_status,
          others, ejr_others,
        ) =
          set_status_agrees R C Z top base E job user now canceled none none job_given user_given L
            faithful LE zk_old version w.registry.0 w.registry.1 holds own leaf free known in
        (
          zk_info,
          ejr_info,
          version',
          z',
          e',
          cancel_job_lem R J X K now job user expected status app info w (z', e') here has active id
              given runs,
          zk_holds,
          ejr_reads,
          zk_status,
          ejr_status,
          others,
        )

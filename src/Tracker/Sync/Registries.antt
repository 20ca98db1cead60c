-- ===== src/Tracker/Sync/Registries.antt =====
-- The job tracker over `DoubleJobRegistry` with both registries.
use openeo_geopyspark_driver.Prelude.{
  ℕ, String, ◌≡◌, ◌≢◌, ◌∙◌, refl, subst, ap, false, some, Option,
}
use openeo_geopyspark_driver.Outcome.{ok, err, no_node}
use openeo_geopyspark_driver.Floats.{Floats}
use openeo_geopyspark_driver.Json.{str, Fields, get}
use openeo_geopyspark_driver.Codec.{JsonCodec, IsFaithful}
use openeo_geopyspark_driver.JobStatus.{is_final}
use openeo_geopyspark_driver.Zookeeper.{ZkPath, ZkClient, IsLeaf, IsLawful}
use openeo_geopyspark_driver.Registry.Info.{JobInfo}
use openeo_geopyspark_driver.Registry.Interface.{JobRegistry, IsLawfulRegistry}
use openeo_geopyspark_driver.Registry.Zk.Paths.{job_path}
use openeo_geopyspark_driver.Registry.Zk.Laws.{Holds, IsOwn}
use openeo_geopyspark_driver.Registry.Zk.Move.{Others}
use openeo_geopyspark_driver.Registry.Zk.Status.{area_of}
use openeo_geopyspark_driver.Registry.Double.Laws.{both_present, set_status_agrees}
use openeo_geopyspark_driver.Tracker.Metadata.{Times, JobMetadata}
use openeo_geopyspark_driver.Tracker.Services.{tracked_double, Services, World}
use openeo_geopyspark_driver.Tracker.Sync.{sync_job_status, date_text}
use openeo_geopyspark_driver.Tracker.Sync.Laws.{sync_job_status_unfinished}

module _ (R : Floats) (T : Times R) (C : JsonCodec R.Float) (Z : ZkClient C.Bytes) (top : String)
    (base : ZkPath) (E : JobRegistry R.Float) (V : Services R T) where
  module _ (L : IsLawful Z) (faithful : IsFaithful C)
      (LE : (started finished : Option T.Time)
        → IsLawfulRegistry E
            (date_text R T (tracked_double R C Z top base E both_present) V started)
            (date_text R T (tracked_double R C Z top base E both_present) V finished)) where
    -- Over both registries, a sync of a job, with the application id of its info, whose
    -- application has no final status, where the job is ongoing in ZooKeeper with an info that
    -- names the job and the user, its node has no children, it has no node among the done ones,
    -- and the other registry knows it for the user: it does not raise, and afterwards the job is
    -- ongoing in ZooKeeper and is read from the other registry with that status in both infos,
    -- and no node of another job has changed. The ids are not empty; the client and the other
    -- registry, for the dates of applications, are lawful, and the codec reads back what it writes.
    pub sync_job_status_agrees :
        (now job user app : String) (info : Fields R.Float)
        (w : World R T (tracked_double R C Z top base E both_present) V) (m : JobMetadata R T)
        (zk_old : JobInfo R C) (version : ℕ) {ejr_old : Fields R.Float}
        → job ≢ ""
        → user ≢ ""
        → get "application_id" info ≡ some (str app)
        → V.get_job_metadata job user (str app) ≡ ok m
        → is_final m.status ≡ false
        → Holds R C Z (job_path top base "ongoing" user job) zk_old version w.registry.0
        → IsOwn R C Z job user zk_old
        → IsLeaf Z (job_path top base "ongoing" user job) w.registry.0
        → Z.get (job_path top base "done" user job) w.registry.0 ≡ err no_node
        → E.get_job job (some user) w.registry.1 ≡ ok ejr_old
        → (zk_info : JobInfo R C) × (ejr_info : Fields R.Float) × (version' : ℕ) × (z' : Z.State)
          × (e' : E.State) × ((sync_job_status R T
                (tracked_double R C Z top base E both_present)
                V
                now
                job
                user
                (str app)
                info
                w).0
              ≡ ok tt)
          × ((sync_job_status R T
                (tracked_double R C Z top base E both_present)
                V
                now
                job
                user
                (str app)
                info
                w).1.registry
              ≡ (z', e'))
          × Holds R C Z (job_path top base "ongoing" user job) zk_info version' z'
          × (E.get_job job (some user) e' ≡ ok ejr_info)
          × (get "status" zk_info ≡ some (str m.status))
          × (get "status" ejr_info ≡ some (str m.status))
          × Others R C Z top base job user w.registry.0 z'
    sync_job_status_agrees now job user app info w m zk_old version given_job given_user named found
          unfinished holds own leaf free known =
        let synced =
          sync_job_status_unfinished R T (tracked_double R C Z top base E both_present) V now job
            user app info w m named found unfinished in
        let (
          zk_info, ejr_info, version', z', e', runs, zk_holds, ejr_reads, zk_status, ejr_status,
          others, ejr_others,
        ) =
          set_status_agrees R C Z top base E job user now m.status
            (date_text R T (tracked_double R C Z top base E both_present) V m.start_time)
            (date_text R T (tracked_double R C Z top base E both_present) V m.finish_time) given_job
            given_user L faithful (LE m.start_time m.finish_time) zk_old version w.registry.0
            w.registry.1 holds own leaf free known in
        let stays : area_of m.status ≡ "ongoing" = rw (unfinished, area_of) refl in
        (
          zk_info,
          ejr_info,
          version',
          z',
          e',
          synced.0 ∙ ap (λ x. x.0) runs,
          synced.1 ∙ ap (λ x. x.1) runs,
          subst (λ area. Holds R C Z (job_path top base area user job) zk_info version' z') stays
              zk_holds,
          ejr_reads,
          zk_status,
          ejr_status,
          others,
        )

-- ===== src/Registry/Zk/Patch.antt =====
-- `patch` of `ZkJobRegistry` of openeogeotrellis/job_registry.py, for a job that ends and
-- for one that does not.
use openeo_geopyspark_driver.Prelude.{
  ℕ, suc, String, ◌≡◌, ◌≢◌, ◌∙◌, Bool, true, false, ◌&&◌, [], ◌∷◌, ◌++◌, arith,
}
use openeo_geopyspark_driver.Outcome.{ok, err, no_node}
use openeo_geopyspark_driver.Floats.{Floats}
use openeo_geopyspark_driver.Json.{get, update}
use openeo_geopyspark_driver.Codec.{JsonCodec, IsFaithful}
use openeo_geopyspark_driver.JobStatus.{is_final_value}
use openeo_geopyspark_driver.Zookeeper.{ZkPath, ZkClient, IsLeaf, IsLawful}
use openeo_geopyspark_driver.Registry.Info.{JobInfo}
use openeo_geopyspark_driver.Registry.Zk.{patch}
use openeo_geopyspark_driver.Registry.Zk.Paths.{job_path, same_path-job_path, same_path-below}
use openeo_geopyspark_driver.Registry.Zk.Laws.{Holds, IsOwn, read_ongoing, write_lem}
use openeo_geopyspark_driver.Registry.Zk.Move.{Others, mark_done_lem}

module _ (R : Floats) (C : JsonCodec R.Float) (Z : ZkClient C.Bytes) (top : String)
    (base : ZkPath) where
  module _ (L : IsLawful Z) (faithful : IsFaithful C) (job user : String) (job_given : job ≢ "")
      (user_given : user ≢ "") where
    abbrev here : ZkPath
    here = job_path top base "ongoing" user job

    abbrev there : ZkPath
    there = job_path top base "done" user job

    -- A patch of an ongoing job that has no final status in it, or that is told not to mark the
    -- job as done, where the patched dict still names the job and the user: the patch succeeds,
    -- the dict is updated in place, its version goes up by one, and no node of another job
    -- changes. The ids are not empty; the client is lawful and the codec reads back what it
    -- writes.
    pub patch_keeps_ongoing :
        (auto_mark_done : Bool) (kwargs info : JobInfo R C) (version : ℕ) (s : Z.State)
        → Holds R C Z here info version s
        → IsOwn R C Z job user (update info kwargs)
        → (auto_mark_done && is_final_value (get "status" kwargs)) ≡ false
        → (s' : Z.State) × (patch R C Z top base job user auto_mark_done kwargs s ≡ (ok tt, s'))
          × Holds R C Z here (update info kwargs) (suc version) s'
          × Others R C Z top base job user s s'
    unfolding patch
    patch_keeps_ongoing auto kwargs info version s h own f =
        let (s', wrote, holds, frame) =
          write_lem R C Z top base L faithful job user (update info kwargs) s own h.at in
        (
          s',
          rw (
            read_ongoing R C Z top base false job user info version s job_given user_given h,
            wrote,
            f,
          ),
          holds,
          λ area user' job' d.
              frame (job_path top base area user' job')
                (same_path-job_path top base "ongoing" user job area user' job' ∙ ground arith),
        )

    -- A patch with a final status, of an ongoing job that has no node among the done ones, where
    -- the patched dict still names the job and the user and the node has no children: the patch
    -- succeeds, the patched dict stands among the done jobs at a first version, the ongoing node
    -- is gone, and no node of another job changes. The ids are not empty; the client is lawful
    -- and the codec reads back what it writes.
    pub patch_ends_job :
        (kwargs info : JobInfo R C) (version : ℕ) (s : Z.State)
        → Holds R C Z here info version s
        → IsOwn R C Z job user (update info kwargs)
        → is_final_value (get "status" kwargs) ≡ true
        → IsLeaf Z here s
        → Z.get there s ≡ err no_node
        → (s' : Z.State) × (patch R C Z top base job user true kwargs s ≡ (ok tt, s'))
          × (Z.get here s' ≡ err no_node)
          × Holds R C Z there (update info kwargs) L.first_version s'
          × Others R C Z top base job user s s'
    unfolding patch
    patch_ends_job kwargs info version s h own f leaf free =
        let (mid, wrote, holds, frame) =
          write_lem R C Z top base L faithful job user (update info kwargs) s own h.at in
        let (after, moved, gone, result, others) =
          mark_done_lem R C Z top base L faithful job user job_given user_given (update info kwargs)
            (suc version) mid holds own
            (λ name.
              frame (here ++ (name ∷ [])) (same_path-below top base "ongoing" user job name)
              ∙ leaf name)
            (frame there (same_path-job_path top base "ongoing" user job "done" user job) ∙ free) in
        (
          after,
          rw
              (
                read_ongoing R C Z top base false job user info version s job_given user_given h,
                wrote,
                f,
              )
              moved,
          gone,
          result,
          λ area user' job' d.
              others area user' job' d
              ∙ frame (job_path top base area user' job')
                  (same_path-job_path top base "ongoing" user job area user' job' ∙ ground arith),
        )

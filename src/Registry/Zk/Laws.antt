-- ===== src/Registry/Zk/Laws.antt =====
-- Reads and writes of job nodes by `ZkJobRegistry`, over any lawful ZooKeeper client.
use openeo_geopyspark_driver.Prelude.{
  ℕ, suc, String, ◌≡◌, ◌≢◌, Bool, true, false, some, arith, ne→neq,
}
use openeo_geopyspark_driver.Outcome.{err, no_node, ok}
use openeo_geopyspark_driver.Floats.{Floats}
use openeo_geopyspark_driver.Json.{str, get}
use openeo_geopyspark_driver.Codec.{JsonCodec, IsFaithful}
use openeo_geopyspark_driver.Zookeeper.{ZkPath, ZkClient, same_path, IsLawful}
use openeo_geopyspark_driver.Registry.Info.{JobInfo}
use openeo_geopyspark_driver.Registry.Zk.{read, write}
use openeo_geopyspark_driver.Registry.Zk.Paths.{job_path}

module _ (R : Floats) (C : JsonCodec R.Float) (Z : ZkClient C.Bytes) where
  -- The node at a path holds a job info dict, at a version.
  pub record Holds (path : ZkPath) (info : JobInfo R C) (version : ℕ) (s : Z.State) : Type 0 where
    pub bytes : C.Bytes
    pub at : Z.get path s ≡ ok (bytes, version)
    pub decodes : C.decode bytes ≡ ok info

  -- The dict names the job and the user that its path names.
  pub record IsOwn (job user : String) (info : JobInfo R C) : Type 0 where
    pub job_id : get "job_id" info ≡ some (str job)
    pub user_id : get "user_id" info ≡ some (str user)

module _ (R : Floats) (C : JsonCodec R.Float) (Z : ZkClient C.Bytes) (top : String)
    (base : ZkPath) where
  abbrev J : ZkPath → JobInfo R C → ℕ → Z.State → Type 0
  J = Holds R C Z

  pub read_ongoing :
      (include_done : Bool) (job user : String) (info : JobInfo R C) (version : ℕ) (s : Z.State)
      → job ≢ ""
      → user ≢ ""
      → J (job_path top base "ongoing" user job) info version s
      → read R C Z top base include_done false false job user s ≡ ok (info, version)
  unfolding read
  read_ongoing include_done job user info version s j u h =
      ground (arith, h.at, h.decodes, ne→neq job "" j, ne→neq user "" u)

  pub read_done :
      (job user : String) (info : JobInfo R C) (version : ℕ) (s : Z.State)
      → job ≢ ""
      → user ≢ ""
      → Z.get (job_path top base "ongoing" user job) s ≡ err no_node
      → J (job_path top base "done" user job) info version s
      → read R C Z top base true false false job user s ≡ ok (info, version)
  unfolding read
  read_done job user info version s j u free h =
      ground (arith, h.at, h.decodes, ne→neq job "" j, ne→neq user "" u)

  module _ (L : IsLawful Z) (faithful : IsFaithful C) where
    -- A write to the node that the dict names.
    pub write_lem :
        (job user : String) (info : JobInfo R C) (s : Z.State) {old : C.Bytes} {version : ℕ}
        → IsOwn R C Z job user info
        → Z.get (job_path top base "ongoing" user job) s ≡ ok (old, version)
        → (s' : Z.State) × (write R C Z top base info version s ≡ (ok tt, s'))
          × J (job_path top base "ongoing" user job) info (suc version) s'
          × ((q : ZkPath)
              → same_path (job_path top base "ongoing" user job) q ≡ false
              → Z.get q s' ≡ Z.get q s)
    unfolding write
    write_lem job user info s {version} own h =
        let done =
          L.set_match (job_path top base "ongoing" user job) (C.encode info) (some version) s h
            (ground arith) in
        let runs = done.runs in
        (
          done.after,
          ground (arith, own.job_id, own.user_id),
          record { bytes = C.encode info; at = done.here; decodes = faithful.decode-encode info },
          done.frame,
        )

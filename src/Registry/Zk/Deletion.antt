-- ===== src/Registry/Zk/Deletion.antt =====
-- Deleting a job with `ZkJobRegistry`.
use openeo_geopyspark_driver.Prelude.{
  ℕ, String, ◌≡◌, ◌≢◌, refl, ◌∙◌, Bool, none, [], ◌∷◌, ◌++◌, arith, ne→neq, ◌⊎◌, inl, inr,
}
use openeo_geopyspark_driver.Outcome.{ok, err, no_node, job_not_found}
use openeo_geopyspark_driver.Floats.{Floats}
use openeo_geopyspark_driver.Codec.{JsonCodec, IsFaithful}
use openeo_geopyspark_driver.Zookeeper.{ZkPath, ZkClient, IsLeaf, IsLawful}
use openeo_geopyspark_driver.Registry.Info.{JobInfo}
use openeo_geopyspark_driver.Registry.Zk.{read, get_job, delete}
use openeo_geopyspark_driver.Registry.Zk.Paths.{job_path, is_prefix-job_path}
use openeo_geopyspark_driver.Registry.Zk.Move.{Others}
use openeo_geopyspark_driver.Registry.Zk.Laws.{Holds}

module _ (R : Floats) (C : JsonCodec R.Float) (Z : ZkClient C.Bytes) (top : String) (base : ZkPath)
    (L : IsLawful Z) (faithful : IsFaithful C) (job user : String) (job_given : job ≢ "")
    (user_given : user ≢ "") where
  -- The job is in one area and not in the other.
  abbrev pub InOneArea : JobInfo R C → ℕ → Z.State → Type 0
  InOneArea info version s =
      (Holds R C Z (job_path top base "ongoing" user job) info version s
        × (Z.get (job_path top base "done" user job) s ≡ err no_node))
      ⊎ ((Z.get (job_path top base "ongoing" user job) s ≡ err no_node)
          × Holds R C Z (job_path top base "done" user job) info version s)

  get_job_absent :
      (parse omit : Bool) (s : Z.State)
      → Z.get (job_path top base "ongoing" user job) s ≡ err no_node
      → Z.get (job_path top base "done" user job) s ≡ err no_node
      → get_job R C Z top base parse omit job user s ≡ err (job_not_found job)
  unfolding get_job read
  get_job_absent parse omit s e f =
      ground (arith, ne→neq job "" job_given, ne→neq user "" user_given)

  -- Deleting a job that stands in exactly one area, ongoing or done, and whose nodes have no
  -- children, succeeds, and from then on reading it raises `JobNotFoundException`, parsed or not.
  -- The nodes of other jobs do not change. The ids are not empty; the client is lawful and the
  -- codec reads back what it writes.
  pub delete-get_job :
      (info : JobInfo R C) (version : ℕ) (parse omit : Bool) (s : Z.State)
      → InOneArea info version s
      → ((area : String) → IsLeaf Z (job_path top base area user job) s)
      → (s' : Z.State) × (delete R C Z top base job user s ≡ (ok tt, s'))
        × (get_job R C Z top base parse omit job user s' ≡ err (job_not_found job))
        × Others R C Z top base job user s s'
  unfolding delete
  delete-get_job info version parse omit s (inl (h, free)) leaf =
      let gone =
        L.delete_leaf top (base ++ ("ongoing" ∷ user ∷ job ∷ [])) none s h.at refl
          (leaf "ongoing") in
      let runs = gone.runs in
      (
        gone.after,
        ground arith,
        get_job_absent parse omit gone.after gone.here (
            gone.frame (job_path top base "done" user job)
              (is_prefix-job_path top base "ongoing" user job "done" user job)
            ∙ free),
        λ area user' job' d.
            gone.frame (job_path top base area user' job')
              (is_prefix-job_path top base "ongoing" user job area user' job' ∙ ground arith),
      )
  delete-get_job info version parse omit s (inr (free, h)) leaf =
      let missing = L.delete_missing (job_path top base "ongoing" user job) none s free in
      let gone =
        L.delete_leaf top (base ++ ("done" ∷ user ∷ job ∷ [])) none s h.at refl (leaf "done") in
      let runs = gone.runs in
      (
        gone.after,
        ground arith,
        get_job_absent parse omit gone.after
            (gone.frame (job_path top base "ongoing" user job)
                (is_prefix-job_path top base "done" user job "ongoing" user job)
              ∙ free)
            gone.here,
        λ area user' job' d.
            gone.frame (job_path top base area user' job')
              (is_prefix-job_path top base "done" user job area user' job' ∙ ground arith),
      )

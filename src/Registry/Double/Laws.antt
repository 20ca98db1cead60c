-- ===== src/Registry/Double/Laws.antt =====
-- `DoubleJobRegistry` of openeogeotrellis/job_registry.py with both registries: `set_status` and
-- `get_job`.
use openeo_geopyspark_driver.Prelude.{
  ℕ, String, ◌==◌, ◌≡◌, ◌≢◌, refl, Bool, true, false, Option, none, some, arith, if◌then◌else◌,
}
use openeo_geopyspark_driver.Outcome.{
  Result, ok, err, no_node, job_not_found, stripped_specification,
}
use openeo_geopyspark_driver.Floats.{Floats}
use openeo_geopyspark_driver.Json.{str, Fields, end, field, get}
use openeo_geopyspark_driver.Json.Laws.{or_else}
use openeo_geopyspark_driver.Codec.{JsonCodec, IsFaithful}
use openeo_geopyspark_driver.Zookeeper.{ZkPath, ZkClient, IsLeaf, IsLawful}
use openeo_geopyspark_driver.Registry.Info.{JobInfo}
use openeo_geopyspark_driver.Registry.Interface.{JobRegistry, IsLawfulRegistry}
use openeo_geopyspark_driver.Registry.Zk
use openeo_geopyspark_driver.Registry.Zk.Paths.{job_path}
use openeo_geopyspark_driver.Registry.Zk.Laws.{Holds, IsOwn}
use openeo_geopyspark_driver.Registry.Zk.Move.{Others}
use openeo_geopyspark_driver.Registry.Zk.Status.{area_of, set_status_lem, set_status_missing}
use openeo_geopyspark_driver.Registry.Double.{Present, Both, get_job, zk_job, ejr_job, set_status}

abbrev pub both_present : Present
both_present = record { zk = true; ejr = true }

module _ (R : Floats) (C : JsonCodec R.Float) (Z : ZkClient C.Bytes) (top : String) (base : ZkPath)
    (E : JobRegistry R.Float) where
  module _ (job user now status : String) (started finished : Option String) (job_given : job ≢ "")
      (user_given : user ≢ "") where
    -- With both registries, setting the status of a job that is ongoing in ZooKeeper, where its
    -- info names the job and the user, its node has no children and it has no node among the done
    -- ones, and that the other registry knows for the user: it succeeds, and the status is
    -- afterwards that of the job in both, in ZooKeeper among the done jobs if it is final and
    -- among the ongoing ones if not, and in the other registry for the same user. Other jobs do
    -- not change in either. The ids are not empty; the client and the other registry, for
    -- the given times, are lawful, and the codec reads back what it writes.
    pub set_status_agrees :
        (L : IsLawful Z)
        → IsFaithful C
        → IsLawfulRegistry E started finished
        → (info : JobInfo R C) (version : ℕ) (z : Z.State) (e : E.State) {old : Fields R.Float}
        → Holds R C Z (job_path top base "ongoing" user job) info version z
        → IsOwn R C Z job user info
        → IsLeaf Z (job_path top base "ongoing" user job) z
        → Z.get (job_path top base "done" user job) z ≡ err no_node
        → E.get_job job (some user) e ≡ ok old
        → (zk_info : JobInfo R C) × (ejr_info : Fields R.Float) × (version' : ℕ) × (z' : Z.State)
          × (e' : E.State) × (set_status R C Z top base E both_present now job user status started
                finished
                (z, e)
              ≡ (ok tt, (z', e')))
          × Holds R C Z (job_path top base (area_of status) user job) zk_info version' z'
          × (E.get_job job (some user) e' ≡ ok ejr_info)
          × (get "status" zk_info ≡ some (str status))
          × (get "status" ejr_info ≡ some (str status))
          × Others R C Z top base job user z z'
          × ((job' : String) (anyone : Option String)
              → (job == job') ≡ false
              → E.get_job job' anyone e' ≡ E.get_job job' anyone e)
    unfolding set_status
    set_status_agrees L faithful LE info version z e h own leaf free known =
        let (zk_info, version', z', zk_runs, holds, zk_status, zk_own, others) =
          set_status_lem R C Z top base job user now status started finished job_given user_given L
            faithful info version z h own leaf free in
        let sets = LE.set_status_lem now job status (some user) e known in
        (
          zk_info,
          sets.info,
          version',
          z',
          sets.after,
          rw (zk_runs, sets.runs) refl,
          holds,
          sets.reads,
          zk_status,
          sets.status_set,
          others,
          sets.others,
        )

    -- With both registries, setting the status of a job that is not ongoing in ZooKeeper, with
    -- ids that are not empty, raises `JobNotFoundException` and changes neither registry,
    -- whatever the other registry knows of the job.
    pub set_status_unknown :
        (z : Z.State) (e : E.State)
        → Z.get (job_path top base "ongoing" user job) z ≡ err no_node
        → set_status R C Z top base E both_present now job user status started finished (z, e)
          ≡ (err (job_not_found job), (z, e))
    unfolding set_status
    set_status_unknown z e free =
        rw
          (set_status_missing R C Z top base job user now status started finished job_given
            user_given z free)
          refl

  -- A registry's answer: the job, or that it is not found.
  abbrev pub found_or_not : {A : Type 0} → String → Option A → Result A
  found_or_not job none = err (job_not_found job)
  found_or_not job (some d) = ok d

  -- ZooKeeper's answer, which may also be that the specification has been stripped.
  abbrev pub zk_answer : {A : Type 0} → Bool → String → Option A → Result A
  zk_answer stripped job none =
      if stripped then err stripped_specification else err (job_not_found job)
  zk_answer stripped job (some d) = ok d

  -- With both registries, where ZooKeeper's gives the job, with its specification parsed, or
  -- raises that it is not found or that the specification is stripped, and the other gives the
  -- job or raises that it is not found, and no info from ZooKeeper is empty: `get_job` returns
  -- ZooKeeper's info if there is one, else that of the other registry if there is one, and raises
  -- `JobNotFoundException` if there is none.
  pub get_job_answer :
      (job user : String) (s : Both R C Z top base E) (stripped : Bool) (zk : Option (JobInfo R C))
      (ejr : Option (Fields R.Float))
      → Zk.get_job R C Z top base true true job user s.0 ≡ zk_answer stripped job zk
      → E.get_job job (some user) s.1 ≡ found_or_not job ejr
      → zk ≢ some end
      → get_job R C Z top base E both_present job user s
        ≡ (elim (or_else zk ejr) [ none ↦ err (job_not_found job) | some d ↦ ok (some d) ])
  unfolding get_job zk_job ejr_job
  get_job_answer job user s true none none a b n = ground arith
  get_job_answer job user s false none none a b n = ground arith
  get_job_answer job user s true none (some d) a b n = ground arith
  get_job_answer job user s false none (some d) a b n = ground arith
  get_job_answer job user s stripped (some end) ejr a b n = absurd (n refl)
  get_job_answer job user s stripped (some (field k v d)) none a b n = ground arith
  get_job_answer job user s stripped (some (field k v d)) (some _) a b n = ground arith

-- ===== src/Registry/Zk/Status.antt =====
-- `set_status` of `ZkJobRegistry`: where a job stands afterwards, and what a missing job gives.
use openeo_geopyspark_driver.Prelude.{
  ℕ, suc, String, ◌==◌, ◌≡◌, ◌≢◌, refl, ◌∙◌, true, false, Option, none, some, arith, ne→neq,
  Bool-cases, inl, inr, if◌then◌else◌,
}
use openeo_geopyspark_driver.Outcome.{ok, err, no_node, job_not_found}
use openeo_geopyspark_driver.Floats.{Floats}
use openeo_geopyspark_driver.Json.{str, field, end, get, update}
use openeo_geopyspark_driver.Json.Laws.{get-update, get-put}
use openeo_geopyspark_driver.Codec.{JsonCodec, IsFaithful}
use openeo_geopyspark_driver.JobStatus.{is_final}
use openeo_geopyspark_driver.Zookeeper.{ZkPath, ZkClient, IsLeaf, IsLawful}
use openeo_geopyspark_driver.Registry.Info.{JobInfo}
use openeo_geopyspark_driver.Registry.Zk.{given, patch, read, set_status}
use openeo_geopyspark_driver.Registry.Zk.Paths.{job_path}
use openeo_geopyspark_driver.Registry.Zk.Laws.{Holds, IsOwn}
use openeo_geopyspark_driver.Registry.Zk.Move.{Others}
use openeo_geopyspark_driver.Registry.Zk.Patch.{patch_keeps_ongoing, patch_ends_job}

-- The area in which a job of a status is kept.
abbrev pub area_of : String → String
area_of status = if is_final status then "done" else "ongoing"

module _ (R : Floats) (C : JsonCodec R.Float) (Z : ZkClient C.Bytes) (top : String)
    (base : ZkPath) where
  -- A time that is given under another key leaves a key alone.
  get-given :
      (k key : String) (time : Option String) (kwargs : JobInfo R C)
      → (key == k) ≡ false
      → get k (given R C Z top base key time kwargs) ≡ get k kwargs
  get-given k key none kwargs h = refl
  get-given k key (some time) kwargs h = ground (arith, get-put key k (str time) kwargs)

  abbrev status_kwargs : String → String → Option String → Option String → JobInfo R C
  status_kwargs now status started finished = given R C Z top base "finished" finished (
      given R C Z top base "started" started
        (field "status" (str status) (field "updated" (str now) end)))

  get-status_kwargs :
      (k now status : String) (started finished : Option String)
      → ("finished" == k) ≡ false
      → ("started" == k) ≡ false
      → get k (status_kwargs now status started finished)
        ≡ get k (field "status" (str status) (field "updated" (str now) end))
  get-status_kwargs k now status started finished f g =
      get-given k "finished" finished _ f ∙ get-given k "started" started _ g

  module _ (job user now status : String) (started finished : Option String) (job_given : job ≢ "")
      (user_given : user ≢ "") where
    -- A job that is not ongoing, whether it is done or unknown, cannot be given a status:
    -- `JobNotFoundException` is raised and nothing changes.
    pub set_status_missing :
        (s : Z.State)
        → Z.get (job_path top base "ongoing" user job) s ≡ err no_node
        → set_status R C Z top base now job user status started finished true s
          ≡ (err (job_not_found job), s)
    unfolding set_status patch read
    set_status_missing s free = rw (ne→neq job "" job_given, ne→neq user "" user_given, free) refl

    -- Setting the status of an ongoing job whose info names the job and the user, whose node has
    -- no children, and that has no node among the done ones: it succeeds, the status is in the
    -- info, which then stands among the done jobs if the status is final and among the ongoing
    -- ones if not, and still names the job and the user; and no node of another job changes. The
    -- ids are not empty; the client is lawful and the codec reads back what it writes.
    pub set_status_lem :
        (L : IsLawful Z)
        → IsFaithful C
        → (info : JobInfo R C) (version : ℕ) (s : Z.State)
        → Holds R C Z (job_path top base "ongoing" user job) info version s
        → IsOwn R C Z job user info
        → IsLeaf Z (job_path top base "ongoing" user job) s
        → Z.get (job_path top base "done" user job) s ≡ err no_node
        → (info' : JobInfo R C) × (version' : ℕ) × (s' : Z.State) × (set_status R C Z top base now
              job user status started finished true s
            ≡ (ok tt, s'))
          × Holds R C Z (job_path top base (area_of status) user job) info' version' s'
          × (get "status" info' ≡ some (str status))
          × IsOwn R C Z job user info'
          × Others R C Z top base job user s s'
    unfolding set_status
    set_status_lem L faithful info version s h own leaf free =
        let kwargs = status_kwargs now status started finished in
        let status_in = get-status_kwargs "status" now status started finished refl refl in
        let new_own : IsOwn R C Z job user (update info kwargs) = record {
          job_id =
              get-update "job_id" info kwargs
              ∙ ground (
                arith,
                get-status_kwargs "job_id" now status started finished refl refl,
                own.job_id,
              );
          user_id =
              get-update "user_id" info kwargs
              ∙ ground (
                arith,
                get-status_kwargs "user_id" now status started finished refl refl,
                own.user_id,
              );
        } in
        let new_status : get "status" (update info kwargs) ≡ some (str status) =
          get-update "status" info kwargs ∙ ground (arith, status_in) in
        elim (Bool-cases (is_final status)) [
          | inl final ↦
              let (s', runs, gone, holds, others) =
                patch_ends_job R C Z top base L faithful job user job_given user_given kwargs info
                  version s h new_own (rw status_in final) leaf free in
              (
                update info kwargs,
                L.first_version,
                s',
                runs,
                rw final holds,
                new_status,
                new_own,
                others,
              )
          | inr going ↦
              let (s', runs, holds, others) =
                patch_keeps_ongoing R C Z top base L faithful job user job_given user_given true
                  kwargs info version s h new_own (rw status_in going) in
              (
                update info kwargs,
                suc version,
                s',
                runs,
                rw going holds,
                new_status,
                new_own,
                others,
              )
        ]

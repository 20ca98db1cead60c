-- ===== src/Batch/Polling/Laws.antt =====
-- When `GpsBatchJobs.poll_job_dependencies` does not start a job.
use openeo_geopyspark_driver.Prelude.{
  String, ◌≡◌, refl, ◌∙◌, ap, Bool, true, false, ◌||◌, Option, List, [], ◌∷◌, ◌⊎◌, inl, inr,
  Bool-cases,
}
use openeo_geopyspark_driver.Outcome.{Result, ok, Exec, when}
use openeo_geopyspark_driver.Outcome.Views.{Keeps, bind-Keeps, then-Keeps, when-Keeps, if-Keeps}
use openeo_geopyspark_driver.Floats.{Floats}
use openeo_geopyspark_driver.Json.{Json, Items, Fields}
use openeo_geopyspark_driver.Codec.{JsonCodec}
use openeo_geopyspark_driver.Dict.{Dict, values}
use openeo_geopyspark_driver.DependencyStatus as DependencyStatus
use openeo_geopyspark_driver.Batch.{BatchRegistry}
use openeo_geopyspark_driver.Batch.World.{Services, World, Run, on_registry, on_hub}
use openeo_geopyspark_driver.Batch.Options.{Builtins, Defaults}
use openeo_geopyspark_driver.Batch.Start.Setup.{Deployment}
use openeo_geopyspark_driver.Batch.Polling.Sources.{
  Watched, Process, Processes, batch_processes_of, results_of,
}
use openeo_geopyspark_driver.Batch.Polling.{
  is_done, is_failed, is_partial, has_failed, has_finished, any, all, on_state, fail_job, retry_all,
  decide_results, check_results, was_retried, check_processes, dependencies_in,
  poll_job_dependencies,
}
use openeo_geopyspark_driver.Registry.Info.{require_str}
use openeo_geopyspark_driver.Batch.Polling.Sources.Laws.{batch_processes_of-Keeps, results_of-Keeps}

module _ (R : Floats) (C : JsonCodec R.Float) (J : BatchRegistry R.Float) (X : Services R J)
    (P : Builtins R) (D : Defaults R) (Y : Deployment R) (S : Watched R J X) where
  abbrev W : Type 0
  W = World R J X

  -- What runs on tasks and on the cluster.
  abbrev started : W → X.Tasks × X.Cluster
  started w = (w.tasks, w.cluster)

  abbrev reg : Exec J.State (Unit {0}) → Run R J X
  reg = on_registry R J X

  fail_job-Keeps : (now job user : String) → Keeps started (fail_job R C J X P D Y S now job user)
  fail_job-Keeps now job user =
      then-Keeps started (reg (J.set_dependency_status job user DependencyStatus.error)) _
        (λ w. refl) (λ w. refl)

  retry_all-Keeps : (ps : List (Process R J X S)) → Keeps started (retry_all R C J X P D Y S ps)
  retry_all-Keeps [] = λ w. refl
  retry_all-Keeps (p ∷ ps) =
      then-Keeps started
        (when (on_state R C J X P D Y S is_partial p)
          (on_hub R J X (S.restart p.service p.request_id)))
        _ (when-Keeps started (on_state R C J X P D Y S is_partial p) _ (λ w. refl))
        (retry_all-Keeps ps)

  check_results-Keeps :
      (now job user : String) (token : Option String) (ds : Items R.Float)
      (ps : List (Process R J X S))
      → Keeps started (check_results R C J X P D Y S now job user token ds ps false)
  unfolding check_results
  check_results-Keeps now job user token ds ps =
      bind-Keeps started (results_of R J X S user ds) _
        (λ w. ap started (results_of-Keeps R J X S user ds w))
        λ results.
          if-Keeps started (any has_failed (values results)) _ _ (fail_job-Keeps now job user)
            (λ w. refl)

  -- Only the branch where all processes are done can start a job.
  check_processes-Keeps :
      (now job user : String) (token : Option String) (info : Fields R.Float) (ds : Items R.Float)
      (ps : List (Process R J X S))
      → all (on_state R C J X P D Y S is_done) ps ≡ false
      → Keeps started (check_processes R C J X P D Y S now job user token info ds ps)
  unfolding check_processes
  check_processes-Keeps now job user token info ds ps unfinished = rw unfinished (
      if-Keeps started (any (on_state R C J X P D Y S is_failed) ps) _ _
        (fail_job-Keeps now job user)
        (if-Keeps started (all (on_state R C J X P D Y S (λ s. is_done s || is_partial s)) ps) _ _
          (if-Keeps started (was_retried R C J X P D Y S info) _ _ (fail_job-Keeps now job user) (
            then-Keeps started
              (reg (J.set_dependency_status job user DependencyStatus.awaiting_retry)) _ (λ w. refl)
              (then-Keeps started (retry_all R C J X P D Y S ps) _ (retry_all-Keeps ps)
                (check_results-Keeps now job user token ds ps))))
          (check_results-Keeps now job user token ds ps)))

  module _ (now job user alias : String) (token : Option String) (info : Fields R.Float)
      (ds : Items R.Float) (is_job : require_str "job_id" info ≡ ok job)
      (is_user : require_str "user_id" info ≡ ok user)
      (are_dependencies : dependencies_in R C J X P D Y S info ≡ ok ds) (w : W)
      (ps : Processes R J X S)
      (are_processes : (batch_processes_of R J X S alias token ds w).0 ≡ ok ps) where
    -- The statuses of the batch processes, put to a test.
    abbrev pub every : (String → Bool) → Bool
    every p = all (on_state R C J X P D Y S p) (values ps)

    abbrev pub some_of : (String → Bool) → Bool
    some_of p = any (on_state R C J X P D Y S p) (values ps)

    abbrev pub poll : Result (Unit {0}) × W
    poll = poll_job_dependencies R C J X P D Y S now info alias token w

    looked_at : batch_processes_of R J X S alias token ds w ≡ (ok ps, w)
    looked_at =
        let kept = batch_processes_of-Keeps R J X S alias token ds w in
        λ i. (are_processes i, kept i)

    pub poll_lem : poll ≡ check_processes R C J X P D Y S now job user token info ds (values ps) w
    unfolding poll_job_dependencies
    poll_lem = rw (is_job, is_user, are_dependencies, looked_at) refl

    -- The results that are looked at.
    module _ (rs : Dict (Json R.Float))
        (are_results : (results_of R J X S user ds w).0 ≡ ok rs) where
      results_looked_at : results_of R J X S user ds w ≡ (ok rs, w)
      results_looked_at =
          let kept = results_of-Keeps R J X S user ds w in λ i. (are_results i, kept i)

      pub check_results_lem :
          (processes_done : Bool)
          → check_results R C J X P D Y S now job user token ds (values ps) processes_done w
            ≡ decide_results R C J X P D Y S now job user token ds (values ps) processes_done rs w
      unfolding check_results
      check_results_lem processes_done = rw results_looked_at refl

    -- Not all batch processes are done, or not all results of other jobs are finished.
    abbrev pub Waits : Type 0
    Waits =
        (every is_done ≡ false)
        ⊎ ((rs : Dict (Json R.Float)) × ((results_of R J X S user ds w).0 ≡ ok rs)
            × (all has_finished (values rs) ≡ false))

    unfinished_results :
        (rs : Dict (Json R.Float))
        → (results_of R J X S user ds w).0 ≡ ok rs
        → all has_finished (values rs) ≡ false
        → every is_done ≡ true
        → started (check_processes R C J X P D Y S now job user token info ds (values ps) w).1
          ≡ started w
    unfolding check_processes
    unfinished_results rs are_results unfinished finished = elim (Bool-cases (some_of is_failed)) [
      | inl failed ↦ rw failed (fail_job-Keeps now job user w)
      | inr none_failed ↦
          rw (none_failed, finished, check_results_lem rs are_results true, unfinished)
            (if-Keeps started (any has_failed (values rs)) _ _ (fail_job-Keeps now job user)
              (λ w. refl) w)
    ]

    check_waits :
        Waits
        → started (check_processes R C J X P D Y S now job user token info ds (values ps) w).1
          ≡ started w
    check_waits (inl unfinished) =
        check_processes-Keeps now job user token info ds (values ps) unfinished w
    check_waits (inr (rs, are_results, unfinished)) = elim (Bool-cases (every is_done)) [
      | inl finished ↦ unfinished_results rs are_results unfinished finished
      | inr more ↦ check_processes-Keeps now job user token info ds (values ps) more w
    ]

    -- A poll, for a job info that has its ids and a list of dependencies and whose batch processes can
    -- be looked up, where these are not all done, or where the status of the results of other jobs
    -- can be looked up and is neither missing nor finished for all: whatever else happens, the poll
    -- leaves the cluster and the queue of tasks as they were, so it does not start the job.
    pub poll_waits : Waits → ((poll.1).tasks ≡ w.tasks) × ((poll.1).cluster ≡ w.cluster)
    poll_waits waits =
        let kept = ap (λ r. started r.1) poll_lem ∙ check_waits waits in
        (ap (λ s. s.0) kept, ap (λ s. s.1) kept)

-- ===== src/Batch/Deletion/Laws.antt =====
-- What `_delete_job` and `delete_jobs_before` leave of the registry.
use openeo_geopyspark_driver.Prelude.{
  String, subst, ◌≡◌, refl, ◌∙◌, Bool, not, ◌||◌, List, [], ◌∷◌, inl, inr,
}
use openeo_geopyspark_driver.Outcome.{
  Error, Result, err, Exec, pure, lift, reads, ◌>>◌, ◌>>=◌, when, Result-cases,
}
use openeo_geopyspark_driver.Outcome.Views.{Keeps, bind-Keeps, then-Keeps, if-Keeps, lift-Keeps}
use openeo_geopyspark_driver.Floats.{Floats}
use openeo_geopyspark_driver.Json.{Json, Fields, truthy}
use openeo_geopyspark_driver.JobStatus.{canceled}
use openeo_geopyspark_driver.Registry.Info.{required}
use openeo_geopyspark_driver.Tracker.Services.{get_deletable_dependency_sources}
use openeo_geopyspark_driver.Batch.{BatchRegistry}
use openeo_geopyspark_driver.Batch.World.{Services, World, on_registry, on_cluster}
use openeo_geopyspark_driver.Batch.Start.{text_is}
use openeo_geopyspark_driver.Batch.Cancel.{
  Control, inactive, ignoring, finally, is_called_process_error, stop_on_kubernetes,
  cancel_application, cancel_active, set_canceled, cancel_job, application, release, cancel_with,
  cancel_unless,
}
use openeo_geopyspark_driver.Batch.Deletion.{
  Storage, All, on_world, on_files, delete_found, without_first, delete_sources, delete_with,
  is_no_matter,
}

finally-Keeps :
    {S V : Type 0} (view : S → V) (m n : Exec S (Unit {0}))
    → Keeps view m
    → Keeps view n
    → Keeps view (finally m n)
finally-Keeps view m n km kn s = kn (m s).1 ∙ km s

module _ (R : Floats) (J : BatchRegistry R.Float) (X : Services R J) (K : Control X.Cluster)
    (D : Storage) {V : Type 0} (view : J.State → V) (now job user : String) where
  abbrev pub seen : World R J X → V
  seen w = view w.registry

  abbrev pub seen_all : All R J X K D → V
  seen_all s = seen s.0

  -- The view does not change by what is done to the job before it is deleted.
  pub record IsKept : Type 0 where
    pub set_status : Keeps view (J.set_status now job user canceled)
    pub remove_dependencies : Keeps view (J.remove_dependencies job user)

  module _ (H : IsKept) where
    cancel_application-Keeps :
        (app : String) → Keeps seen (cancel_application R J X K now job user app)
    unfolding cancel_application
    cancel_application-Keeps app =
        let marks : Keeps seen (set_canceled R J X K now job user) = λ w. H.set_status w.registry in
        if-Keeps seen K.is_kube_deploy _ _
          (then-Keeps seen (on_cluster R J X (stop_on_kubernetes R J X K app)) _ (λ w. refl) marks)
          (finally-Keeps seen
            (on_cluster R J X (ignoring (is_called_process_error R J X K) (K.kill app)))
            (set_canceled R J X K now job user) (λ w. refl) marks)

    release-Keeps : Keeps seen (release R J X K now job user)
    release-Keeps =
        then-Keeps seen (on_registry R J X (J.remove_dependencies job user))
          (set_canceled R J X K now job user) (λ w. H.remove_dependencies w.registry)
          (λ w. H.set_status w.registry)

    cancel_with-Keeps : (id : Json R.Float) → Keeps seen (cancel_with R J X K now job user id)
    cancel_with-Keeps id =
        let applied = cancel_application R J X K now job user in
        if-Keeps seen (truthy R id) (lift (application R J X K id) >>= applied)
          (release R J X K now job user)
          (lift-Keeps seen (application R J X K id) applied
            λ app given. cancel_application-Keeps app)
          release-Keeps

    cancel_active-Keeps :
        (info : Fields R.Float) → Keeps seen (cancel_active R J X K now job user info)
    unfolding cancel_active
    cancel_active-Keeps info =
        lift-Keeps seen (required "application_id" info) (cancel_with R J X K now job user)
          λ id found. cancel_with-Keeps id

    cancel_job-Keeps : Keeps seen (cancel_job R J X K now job user)
    unfolding cancel_job
    cancel_job-Keeps =
        let get = reads (λ w. J.get_job job user w.registry) in
        bind-Keeps seen get _ (λ w. refl)
          λ info.
            lift-Keeps seen (required "status" info) (cancel_unless R J X K now job user info)
              λ status found.
                if-Keeps seen (text_is inactive status) (pure tt)
                  (cancel_active R J X K now job user info) (λ w. refl) (cancel_active-Keeps info)

  -- How a deletion ends, for a view that began as v: it has raised, and the view has not changed; or
  -- the registry's deletion of the job was the last thing done, at a state of that view, and the
  -- deletion ends as this call has ended.
  pub data Ends (v : V) : Result (Unit {0}) × All R J X K D → Type 0 where
    raised : (e : Error) (s : All R J X K D) → seen_all s ≡ v → Ends v (err e, s)
    last :
        (before : J.State) (r : Result (Unit {0})) (s : All R J X K D)
        → view before ≡ v
        → J.delete_job job user before ≡ (r, s.0.registry)
        → Ends v (r, s)

  then-Ends :
      {A : Type 0} (m : Exec (All R J X K D) A) (n : Exec (All R J X K D) (Unit {0}))
      → Keeps seen_all m
      → ((s : All R J X K D) → Ends (seen_all s) (n s))
      → (s : All R J X K D) → Ends (seen_all s) ((m >> n) s)
  then-Ends m n km kn s = elim (Result-cases (m s).0) [
    | inl (a, runs) ↦ rw runs (subst (λ v. Ends v (n (m s).1)) (km s) (kn (m s).1))
    | inr (e, fails) ↦ rw fails (raised e (m s).1 (km s))
  ]

  module _ (H : IsKept) where
    delete_found-Keeps :
        (propagate_errors : Bool) (sources : List String)
        → Keeps seen_all (delete_found R J X K D propagate_errors sources)
    delete_found-Keeps propagate_errors [] s = refl
    delete_found-Keeps propagate_errors (source ∷ sources) s = refl

    delete_sources-Keeps :
        (propagate_errors : Bool)
        → Keeps seen_all (delete_sources R J X K D job user propagate_errors)
    delete_sources-Keeps propagate_errors =
        let get = on_world R J X K D (reads (λ w. J.get_job job user w.registry)) in
        bind-Keeps seen_all get _ (λ s. refl)
          λ info.
            lift-Keeps seen_all (get_deletable_dependency_sources R D.batch_results_bucket info)
              (delete_found R J X K D propagate_errors)
              λ sources found. delete_found-Keeps propagate_errors sources

    -- For a view of the registry that setting the status "canceled" of the job, and removing its
    -- dependencies, do not change: `_delete_job`, with or without the propagation of errors, and
    -- whatever the cluster, the disk and S3 do, either raises, and the view is as it was; or ends with
    -- the registry's own deletion of the job, at a state with that view, and raises or succeeds as
    -- this does. So it succeeds only where the registry's deletion has succeeded, and no failure
    -- before that deletion removes anything from such a view.
    pub delete_with-Ends :
        (propagate_errors : Bool) (s : All R J X K D)
        → Ends (seen_all s) (delete_with R J X K D now job user propagate_errors s)
    unfolding delete_with
    delete_with-Ends propagate_errors =
        let cancel =
          on_world R J X K D (
            ignoring (is_no_matter R J X K D propagate_errors) (cancel_job R J X K now job user)) in
        let remove = on_files R J X K D (
          ignoring (λ e. D.is_file_not_found e || not propagate_errors)
            (D.rmtree (D.get_job_output_dir job))) in
        let folder = on_files R J X K D (
          when K.is_kube_deploy (
            D.delete_creo_sub_folder D.s3_bucket_name
              (without_first (D.get_job_output_dir job)))) in
        then-Ends cancel _ (λ s. cancel_job-Keeps H s.0)
          (then-Ends remove _ (λ s. refl)
            (then-Ends (delete_sources R J X K D job user propagate_errors) _
              (delete_sources-Keeps propagate_errors)
              (then-Ends folder _ (λ s. refl) λ s. last s.0.registry _ _ refl refl)))

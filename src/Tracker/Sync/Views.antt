-- ===== src/Tracker/Sync/Views.antt =====
-- Views of the state of a run of the job tracker (openeogeotrellis/job_tracker_v2.py), and which
-- steps keep them.
use openeo_geopyspark_driver.Prelude.{
  String, ◌≡◌, refl, subst, ◌∙◌, Bool, true, false, List, Bool-cases, inl, inr,
}
use openeo_geopyspark_driver.Outcome.{
  Error, Result, ok, err, ◌>>◌, check, when, app_not_found, Result-cases,
}
use openeo_geopyspark_driver.Outcome.Views.{Keeps, then-Keeps, bind-Keeps, when-Keeps, lift-Keeps}
use openeo_geopyspark_driver.Floats.{Floats}
use openeo_geopyspark_driver.Json.{Json, Fields, get_or_null}
use openeo_geopyspark_driver.Json.Merge.{equal, dict_merge_recursive}
use openeo_geopyspark_driver.JobStatus.{is_final}
use openeo_geopyspark_driver.Tracker.Metadata.{Times, JobMetadata, to_dict}
use openeo_geopyspark_driver.Tracker.Services.{
  TrackedRegistry, CostsDetails, Services, World, Stat, collected_jobs, new_metadata,
  skip_app_not_found, get_metadata_attempt, job_with_previous_status, reached_final_status,
  status_same, status_change, get_deletable_dependency_sources,
}
use openeo_geopyspark_driver.Tracker.Sync.{
  Run, count, on_registry, on_tasks, unique, is_nonempty, units_to_report, job_costs, costs_details,
  dict_at, finish_job, count_status, same_status, sync_found, sync_answer, sync_job_status,
  date_text,
}

abbrev pub is_collected : {F : Type 0} → Stat F → Bool
is_collected collected_jobs = true
is_collected _ = false

module _ (R : Floats) (T : Times R) (J : TrackedRegistry R.Float) (V : Services R T) where
  abbrev W : Type 0
  W = World R T J V

  module _ {A : Type 0} (view : W → A) where
    -- A view that no step of `finish_job` changes.
    pub record IsBlind : Type 0 where
      pub counts : (x : Stat R.Float) → is_collected x ≡ false → Keeps view (count R T J V x)
      pub removes :
          (job user : String) → Keeps view (on_registry R T J V (J.remove_dependencies job user))
      pub schedules :
          (job user : String) (sources : List String)
          → Keeps view (on_tasks R T J V (V.schedule_delete job user sources))
      pub costs : (details : CostsDetails R T) → Keeps view (job_costs R T J V details)
      pub writes :
          (job user : String) (costs usage : Json R.Float) (results : Fields R.Float)
          → Keeps view (on_registry R T J V (J.set_results_metadata job user costs usage results))

    pub finish_job-Keeps :
        IsBlind
        → (job user : String) (app : Json R.Float) (info : Fields R.Float) (m : JobMetadata R T)
        → Keeps view (finish_job R T J V job user app info m)
    unfolding finish_job
    finish_job-Keeps blind job user app info m w =
        lift-Keeps view (V.load_results_metadata job user) _
          (λ result found.
            then-Keeps view (on_registry R T J V (J.remove_dependencies job user)) _
              (blind.removes job user)
              (lift-Keeps view (get_deletable_dependency_sources R V.og_batch_results_bucket info) _
                (λ sources found.
                  then-Keeps view
                    (when (is_nonempty (unique sources))
                      (on_tasks R T J V (V.schedule_delete job user (unique sources))))
                    _ (when-Keeps view _ _ (blind.schedules job user (unique sources)))
                    (lift-Keeps view (units_to_report R T J V result info) _ (λ units found.
                      bind-Keeps view
                        (job_costs R T J V (costs_details R T J V job user app info result m units))
                        _ (blind.costs _)
                        (λ costs. lift-Keeps view (dict_at R T J V "usage" result) _ (λ usage found.
                          lift-Keeps view (dict_merge_recursive R false (to_dict R m.usage) usage) _
                            (λ total found. blind.writes job user costs _ _))))))))
          (count R T J V (reached_final_status m.status) w).1
        ∙ blind.counts (reached_final_status m.status) refl w

    pub count_status-Keeps :
        IsBlind
        → (previous : Json R.Float) (status : String)
        → Keeps view (count_status R T J V previous status)
    count_status-Keeps blind previous status w =
        elim (Bool-cases (same_status R T J V previous status)) [
          | inl same ↦ rw same (blind.counts _ refl _ ∙ blind.counts status_same refl w)
          | inr other ↦ rw other (blind.counts _ refl _ ∙ blind.counts status_change refl w)
        ]

  module _ {A : Type 0} (view : W → A) (Q : A → Result (Unit {0}) × W → Type 0)
      (same : (e : Error) (w : W) → Q (view w) (err e, w)) where
    -- What holds of the view before a run, and of the run's outcome and the state after it; it holds
    -- of a run that has raised and has not changed the view.
    abbrev pub Relates : Run R T J V → Type 0
    Relates m = (w : W) → Q (view w) (m w)

    then-Relates : (m n : Run R T J V) → Keeps view m → Relates n → Relates (m >> n)
    then-Relates m n km kn w = elim (Result-cases (m w).0) [
      | inl (b, runs) ↦ rw runs (subst (λ v. Q v (n (m w).1)) (km w) (kn (m w).1))
      | inr (e, raised) ↦ rw raised (subst (λ v. Q v (err e, (m w).1)) (km w) (same e (m w).1))
    ]

    abbrev sets : String → String → String → JobMetadata R T → Run R T J V
    sets now job user m = on_registry R T J V (
        J.set_status now job user m.status (date_text R T J V m.start_time)
          (date_text R T J V m.finish_time))

    sync_found-Relates :
        IsBlind view
        → (now job user : String) (app : Json R.Float) (info : Fields R.Float) (m : JobMetadata R T)
        → Relates (sets now job user m)
        → Relates (sync_found R T J V now job user app info m)
    unfolding sync_found
    sync_found-Relates blind now job user app info m kept w =
        subst (λ v. Q v (sync_found R T J V now job user app info m w))
          (blind.counts new_metadata refl w)
          (then-Relates (count_status R T J V (get_or_null "status" info) m.status) _
            (count_status-Keeps view blind (get_or_null "status" info) m.status)
            (then-Relates (when (is_final m.status) (finish_job R T J V job user app info m)) _
              (when-Keeps view (is_final m.status) _
                (finish_job-Keeps view blind job user app info m))
              kept)
            (count R T J V new_metadata w).1)

    check-Keeps : (b : Bool) → Keeps view (check b)
    check-Keeps true w = refl
    check-Keeps false w = refl

    answer-Relates :
        IsBlind view
        → (now job user : String) (app : Json R.Float) (info : Fields R.Float)
          (r : Result (JobMetadata R T))
        → (r ≡ err app_not_found → (w : W) → Q (view w) (ok tt, w))
        → ((m : JobMetadata R T) → r ≡ ok m → Relates (sets now job user m))
        → Relates (sync_answer R T J V now job user app info r)
    answer-Relates blind now job user app info (ok m) passed kept w =
        sync_found-Relates blind now job user app info m (kept m refl) w
    answer-Relates blind now job user app info (err app_not_found) passed kept w =
        subst (λ v. Q v (count R T J V skip_app_not_found w))
          (blind.counts skip_app_not_found refl w)
          (passed refl (count R T J V skip_app_not_found w).1)
    answer-Relates blind now job user app info (err e) passed kept w = same e w

    pub sync_job_status-Relates :
        IsBlind view
        → (now job user : String) (app : Json R.Float) (info : Fields R.Float)
        → (V.get_job_metadata job user app ≡ err app_not_found → (w : W) → Q (view w) (ok tt, w))
        → ((m : JobMetadata R T)
            → V.get_job_metadata job user app ≡ ok m
            → Relates (sets now job user m))
        → Relates (sync_job_status R T J V now job user app info)
    unfolding sync_job_status
    sync_job_status-Relates blind now job user app info passed kept w =
        then-Relates (check (equal R app (get_or_null "application_id" info))) _
          (check-Keeps (equal R app (get_or_null "application_id" info)))
          (λ w.
            let before = job_with_previous_status (get_or_null "status" info) in
            let counted = (count R T J V before w).1 in
            let entered = (count R T J V get_metadata_attempt counted).1 in
            subst
              (λ v. Q v (
                sync_answer R T J V now job user app info (V.get_job_metadata job user app)
                  entered))
              (blind.counts get_metadata_attempt refl counted ∙ blind.counts before refl w)
              (answer-Relates blind now job user app info (V.get_job_metadata job user app) passed
                kept entered))
          w

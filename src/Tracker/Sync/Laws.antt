-- ===== src/Tracker/Sync/Laws.antt =====
-- `_sync_job_status` of openeogeotrellis/job_tracker_v2.py, on its branches.
use openeo_geopyspark_driver.Prelude.{
  String, ◌≡◌, refl, true, false, some, ◌∷◌, Bool-cases, inl, inr,
}
use openeo_geopyspark_driver.Outcome.{Error, Result, ok, err, app_not_found}
use openeo_geopyspark_driver.Floats.{Floats}
use openeo_geopyspark_driver.Json.{Json, str, Fields, get, get_or_null}
use openeo_geopyspark_driver.Json.Merge.{equal, equal-text}
use openeo_geopyspark_driver.JobStatus.{is_final}
use openeo_geopyspark_driver.Tracker.Metadata.{Times, JobMetadata}
use openeo_geopyspark_driver.Tracker.Services.{
  TrackedRegistry, Services, World, get_metadata_attempt, job_with_previous_status,
}
use openeo_geopyspark_driver.Tracker.Sync.{
  sync_answer, same_status, sync_found, sync_job_status, date_text,
}

module _ (R : Floats) (T : Times R) (J : TrackedRegistry R.Float) (V : Services R T) where
  -- The registry, the scheduled deletions and what was reported to the ETL API are as before.
  abbrev pub Untouched : World R T J V → World R T J V → Type 0
  Untouched w w' = (w'.registry ≡ w.registry) × (w'.tasks ≡ w.tasks) × (w'.etl ≡ w.etl)

  -- The counter after the first lines of `_sync_job_status`.
  abbrev entered : Fields R.Float → World R T J V → World R T J V
  entered info w = record {
    registry = w.registry;
    tasks = w.tasks;
    etl = w.etl;
    stats = get_metadata_attempt ∷ job_with_previous_status (get_or_null "status" info) ∷ w.stats;
  }

  same_application :
      (app : String) (info : Fields R.Float)
      → get "application_id" info ≡ some (str app)
      → equal R (str app) (get_or_null "application_id" info) ≡ true
  same_application app info a = rw (a, get_or_null) (equal-text R app)

  sync_job_status_enters :
      (now job user app : String) (info : Fields R.Float) (w : World R T J V)
      → get "application_id" info ≡ some (str app)
      → sync_job_status R T J V now job user (str app) info w
        ≡ sync_answer R T J V now job user
            (str app)
            info
            (V.get_job_metadata job user (str app))
            (entered info w)
  unfolding sync_job_status
  sync_job_status_enters now job user app info w a =
      rw (sync_job_status, same_application app info a) refl

  -- A sync of a job, with the application id of its info, whose application is not found: it does
  -- not raise, and touches neither the registry nor the scheduled deletions nor what was reported
  -- to the ETL API.
  pub sync_job_status_not_found :
      (now job user app : String) (info : Fields R.Float) (w : World R T J V)
      → get "application_id" info ≡ some (str app)
      → V.get_job_metadata job user (str app) ≡ err app_not_found
      → ((sync_job_status R T J V now job user (str app) info w).0 ≡ ok tt)
        × Untouched w (sync_job_status R T J V now job user (str app) info w).1
  sync_job_status_not_found now job user app info w a h =
      rw (sync_job_status_enters now job user app info w a, h) (refl, (refl, refl, refl))

  -- A sync of a job, with the application id of its info, whose application has no final status:
  -- it is exactly one call of `set_status` on the registry, with that status and the dates of the
  -- application, and raises what that raises. No deletion is scheduled, and nothing is reported
  -- to the ETL API.
  pub sync_job_status_unfinished :
      (now job user app : String) (info : Fields R.Float) (w : World R T J V) (m : JobMetadata R T)
      → get "application_id" info ≡ some (str app)
      → V.get_job_metadata job user (str app) ≡ ok m
      → is_final m.status ≡ false
      → let set =
          J.set_status now job user m.status
            (date_text R T J V m.start_time)
            (date_text R T J V m.finish_time)
            w.registry in
        let synced = sync_job_status R T J V now job user (str app) info w in
        (synced.0 ≡ set.0)
        × (synced.1.registry ≡ set.1)
        × (synced.1.tasks ≡ w.tasks)
        × (synced.1.etl ≡ w.etl)
  unfolding sync_found
  sync_job_status_unfinished now job user app info w m a h unfinished =
      elim (Bool-cases (same_status R T J V (get_or_null "status" info) m.status)) [
        | inl same ↦
            rw (sync_job_status_enters now job user app info w a, h, sync_found, same, unfinished)
              (refl, refl, refl, refl)
        | inr other ↦
            rw (sync_job_status_enters now job user app info w a, h, sync_found, other, unfinished)
              (refl, refl, refl, refl)
      ]

  -- How a sync ends, for a view of the registry that began as v: it has raised, and the view has not
  -- changed; or the application is not found, and the view has not changed; or `set_status`, with
  -- the status and the dates of the application, was the last thing done, at a state of that view,
  -- and the sync ends as this call has ended.
  pub data Ends {A : Type 0} (view : J.State → A) (now job user : String) (app : Json R.Float)
      (v : A) : Result (Unit {0}) × World R T J V → Type 0 where
    raised :
        (e : Error) (w : World R T J V)
        → view w.registry ≡ v
        → Ends view now job user app v (err e, w)
    not_found :
        (w : World R T J V)
        → V.get_job_metadata job user app ≡ err app_not_found
        → view w.registry ≡ v
        → Ends view now job user app v (ok tt, w)
    last :
        (m : JobMetadata R T) (before : J.State) (r : Result (Unit {0})) (w : World R T J V)
        → V.get_job_metadata job user app ≡ ok m
        → view before ≡ v
        → J.set_status now job user m.status
            (date_text R T J V m.start_time)
            (date_text R T J V m.finish_time)
            before
          ≡ (r, w.registry)
        → Ends view now job user app v (r, w)

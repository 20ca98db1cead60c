-- ===== src/Batch/Deletion.antt =====
-- The deletion of batch jobs: `delete_job`, `_delete_job`, `delete_batch_process_dependency_sources`,
-- `delete_batch_process_results` and `delete_jobs_before` of `GpsBatchJobs`,
-- openeogeotrellis/backend.py.
pub mod Laws
use Prim.Native.String.{[] as empty, ◌∷◌ as ◌∷ₛ◌}
use openeo_geopyspark_driver.Prelude.{
  String, ◌==◌, ◌<>◌, starts_with, Bool, true, false, not, ◌&&◌, ◌||◌, Option, none, some, List, [],
  ◌∷◌, eqb, if◌then◌else◌,
}
use openeo_geopyspark_driver.Prelude.Int.{ℤ, pos, negsuc}
use openeo_geopyspark_driver.Outcome.{
  Error, Result, ok, Exec, pure, lift, reads, ◌>>=◌, ◌>>◌, when, other_error,
}
use openeo_geopyspark_driver.Outcome.Try
use openeo_geopyspark_driver.Floats.{Floats}
use openeo_geopyspark_driver.Json.{Fields}
use openeo_geopyspark_driver.Registry.Info.{require_str}
use openeo_geopyspark_driver.Tracker.Services.{get_deletable_dependency_sources}
use openeo_geopyspark_driver.Batch.{BatchRegistry}
use openeo_geopyspark_driver.Batch.World.{Services, World, on_registry}
use openeo_geopyspark_driver.Batch.Cancel.{Control, ignoring, cancel_job}

-- The directories of the jobs and the buckets of S3, as one state. `urlparse` gives the host's name
-- and the path, and `is_in` is Python's `in`, on texts. An error is that of a missing file, one of
-- Java, or one of Java about an unknown folder, where the tests say so.
pub record Storage : Type 1 where
  pub Files : Type 0
  pub rmtree : String → Exec Files (Unit {0})
  pub delete_batch_process_results : Option String → String → Exec Files (Unit {0})
  pub delete_creo_sub_folder : String → String → Exec Files (Unit {0})
  pub urlparse : String → Result (Option String × String)
  pub is_in : String → String → Bool
  pub get_job_output_dir : String → String
  pub s3_bucket_name : String
  pub batch_results_bucket : String
  pub is_file_not_found : Error → Bool
  pub is_java_error : Error → Bool
  pub is_unknown_folder : Error → Bool

-- s[1:]
abbrev pub without_first : String → String
without_first empty = empty
without_first (c ∷ₛ s) = s

abbrev pub is_disk_source : String → Bool
is_disk_source dependency_source = starts_with dependency_source "file:"

abbrev pub is_internal : Error → Bool
is_internal (other_error s) = s == "InternalException"
is_internal e = false

module _ (R : Floats) (J : BatchRegistry R.Float) (X : Services R J) (K : Control X.Cluster)
    (D : Storage) where
  abbrev pub All : Type 0
  All = World R J X × D.Files

  abbrev pub on_world : {A : Type 0} → Exec (World R J X) A → Exec All A
  on_world m (w, d) = ((m w).0, ((m w).1, d))

  abbrev pub on_files : {A : Type 0} → Exec D.Files A → Exec All A
  on_files m (w, d) = ((m d).0, (w, (m d).1))

  -- The sources on S3, and the paths of those on disk.
  abbrev pub results_locations : List String → List String
  results_locations [] = []
  results_locations (source ∷ sources) =
      let rest = results_locations sources in if is_disk_source source then rest else source ∷ rest

  abbrev pub assembled_folders : List String → Result (List String)
  assembled_folders [] = ok []
  assembled_folders (source ∷ sources) =
      let rest = assembled_folders sources in
      if is_disk_source source
      then (Try.◌>>=◌ (D.urlparse source) λ (_, path). Try.◌>>=◌ rest λ paths. ok (path ∷ paths))
      else rest

  -- What is not raised again.
  abbrev pub is_tolerated : Bool → Error → Bool
  is_tolerated propagate_errors e =
      D.is_java_error e && (D.is_unknown_folder e || not propagate_errors)

  abbrev pub delete_result : Bool → String → Exec D.Files (Unit {0})
  delete_result propagate_errors location = do
    (hostname, path) ← lift (D.urlparse location)
    ignoring (is_tolerated propagate_errors)
        (D.delete_batch_process_results hostname (without_first path))

  abbrev pub delete_results : Bool → List String → Exec D.Files (Unit {0})
  delete_results propagate_errors [] = pure tt
  delete_results propagate_errors (location ∷ locations) = do
    delete_result propagate_errors location
    delete_results propagate_errors locations

  abbrev pub delete_folders : Bool → List String → Exec D.Files (Unit {0})
  delete_folders propagate_errors [] = pure tt
  delete_folders propagate_errors (folder ∷ folders) = do
    ignoring (λ e. not propagate_errors) (D.rmtree folder)
    delete_folders propagate_errors folders

  unfoldable pub delete_batch_process_dependency_sources :
      List String → Bool → Exec D.Files (Unit {0})
  delete_batch_process_dependency_sources dependency_sources propagate_errors = do
    folders ← lift (assembled_folders dependency_sources)
    delete_results propagate_errors (results_locations dependency_sources)
    delete_folders propagate_errors folders

  abbrev pub of_subfolders : List String → List String
  of_subfolders [] = []
  of_subfolders (subfolder ∷ subfolders) =
      ("s3://" <> D.batch_results_bucket <> "/" <> subfolder) ∷ of_subfolders subfolders

  unfoldable pub delete_batch_process_results : List String → Bool → Exec D.Files (Unit {0})
  delete_batch_process_results subfolders propagate_errors =
      delete_batch_process_dependency_sources (of_subfolders subfolders) propagate_errors

  -- What `_delete_job` passes over when the job is cancelled: the application is gone already, or
  -- could not be killed.
  abbrev pub is_gone : ℤ × String → Bool
  is_gone (pos n, stdout) = eqb n 255 && D.is_in "doesn't exist in RM" stdout
  is_gone (negsuc n, stdout) = false

  abbrev pub is_no_matter : Bool → Error → Bool
  is_no_matter propagate_errors e = is_internal e || elim (K.called_process_error e) [
    | none ↦ false
    | some exited ↦ is_gone exited || not propagate_errors
  ]

  abbrev pub delete_found : Bool → List String → Exec All (Unit {0})
  delete_found propagate_errors [] = pure tt
  delete_found propagate_errors (source ∷ sources) =
      on_files (delete_batch_process_dependency_sources (source ∷ sources) propagate_errors)

  abbrev pub delete_sources : String → String → Bool → Exec All (Unit {0})
  delete_sources job user propagate_errors = do
    job_info ← on_world (reads (λ w. J.get_job job user w.registry))
    lift (get_deletable_dependency_sources R D.batch_results_bucket job_info)
        >>= delete_found propagate_errors

  unfoldable pub delete_with : String → String → String → Bool → Exec All (Unit {0})
  delete_with now job user propagate_errors = do
    on_world (ignoring (is_no_matter propagate_errors) (cancel_job R J X K now job user))
    on_files (
        ignoring (λ e. D.is_file_not_found e || not propagate_errors)
          (D.rmtree (D.get_job_output_dir job)))
    delete_sources job user propagate_errors
    on_files (
        when K.is_kube_deploy
          (D.delete_creo_sub_folder D.s3_bucket_name (without_first (D.get_job_output_dir job))))
    on_world (on_registry R J X (J.delete_job job user))

  unfoldable pub delete_job : String → String → String → Exec All (Unit {0})
  delete_job now job user = delete_with now job user false

  abbrev pub delete_each : String → Bool → List (Fields R.Float) → Exec All (Unit {0})
  delete_each now dry_run [] = pure tt
  delete_each now dry_run (info ∷ infos) = do
    job ← lift (require_str "job_id" info)
    user ← lift (require_str "user_id" info)
    when (not dry_run) (delete_with now job user true)
    delete_each now dry_run infos

  -- The jobs are those that `get_all_jobs_before` finds.
  unfoldable pub delete_jobs_before :
      String → Bool → (J.State → Result (List (Fields R.Float))) → Exec All (Unit {0})
  delete_jobs_before now dry_run get_all_jobs_before = do
    jobs_before ← on_world (reads (λ w. get_all_jobs_before w.registry))
    delete_each now dry_run jobs_before

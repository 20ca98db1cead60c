-- ===== src/Tests/Cancel.antt =====
-- A running job on YARN is cancelled, where the kill of its application has timed out, and deleted.
use openeo_geopyspark_driver.Prelude.{
  String, ◌==◌, ◌≡◌, refl, false, true, Option, none, some, ℕ, List, ◌<>◌, [], ◌∷◌, if◌then◌else◌,
  arith,
}
use openeo_geopyspark_driver.Prelude.Int.{ℤ, pos}
use openeo_geopyspark_driver.Outcome.{Error, ok, err, other_error}
use openeo_geopyspark_driver.Json.{str, Fields, end, field, get}
use openeo_geopyspark_driver.Prelude.{is_some, false≢true, Bool, eq_iff, inl, inr, Option-cases}
use openeo_geopyspark_driver.Outcome.{no_node}
use openeo_geopyspark_driver.Outcome.Views.{Keeps, then-Keeps}
use openeo_geopyspark_driver.Json.{null, remove, update}
use openeo_geopyspark_driver.Dict.{Dict, lookup, lookup-insert}
use openeo_geopyspark_driver.Zookeeper.{IsLeaf}
use openeo_geopyspark_driver.Zookeeper.Mock.{get as get_node, find, ZNode, znode, nil, child}
use openeo_geopyspark_driver.Zookeeper.Mock.Writes.{mock_client-IsLawful}
use openeo_geopyspark_driver.Registry.Info.{add_parsed, parse_zk_job_specification}
use openeo_geopyspark_driver.Registry.Zk.{get_job, read}
use openeo_geopyspark_driver.Registry.Zk.Laws.{Holds}
use openeo_geopyspark_driver.Registry.Zk.Move.{Others}
use openeo_geopyspark_driver.Registry.Memory.{change}
use openeo_geopyspark_driver.Registry.Memory as Memory
use openeo_geopyspark_driver.Registry.Memory.Laws.{memory_registry-IsLawfulRegistry}
use openeo_geopyspark_driver.Registry.Double as Double
use openeo_geopyspark_driver.Registry.Zk as Zk
use openeo_geopyspark_driver.Registry.Double.Views.{in_both-Keeps}
use openeo_geopyspark_driver.Registry.Double.Laws.{both_present}
use openeo_geopyspark_driver.Batch.{BatchRegistry, batch_double}
use openeo_geopyspark_driver.Batch.Cancel.{cancel_job}
use openeo_geopyspark_driver.Batch.Cancel.Registries.{cancel_job_agrees}
use openeo_geopyspark_driver.Batch.World.{World}
use openeo_geopyspark_driver.Batch.Cancel.{Control}
use openeo_geopyspark_driver.Batch.Deletion.{Storage, delete_with}
use openeo_geopyspark_driver.Batch.Deletion.Laws.{IsKept, Ends, delete_with-Ends}
use openeo_geopyspark_driver.Tests.Data.{
  numbers, codec, codec-IsFaithful, zk, graph, tree, job_info, in_area, memory, one_known,
  known_in_memory, given,
}
use openeo_geopyspark_driver.Tests.OneJob.{services_for}

abbrev exit_code : Error → Option (ℤ × String)
exit_code (other_error s) =
    if s == "CalledProcessError" then some (pos 22, "not authorised") else none
exit_code e = none

abbrev yarn : Control (List (List String))
yarn = record {
  is_kube_deploy = false;
  fuse_mount_batchjob_s3_bucket = true;
  provide_s3_profiles_and_tokens = true;
  kill = λ app s. (err (other_error "TimeoutExpired"), (app ∷ []) ∷ s);
  delete_spark_application = λ app s. (ok tt, s);
  delete_persistent_volume = λ app s. (ok tt, s);
  delete_persistent_volume_claim = λ app s. (ok tt, s);
  delete_secret = λ name s. (ok tt, s);
  called_process_error = exit_code;
  is_api_exception = λ e. false;
}

-- Nothing is on disk, and all texts are paths.
abbrev storage : Storage
storage = record {
  Files = List String;
  rmtree = λ path s. (err (other_error "FileNotFoundError"), path ∷ s);
  delete_batch_process_results = λ host path s. (ok tt, path ∷ s);
  delete_creo_sub_folder = λ bucket path s. (ok tt, path ∷ s);
  urlparse = λ url. ok (none, url);
  is_in = λ part s. false;
  get_job_output_dir = λ job. "/data/" <> job;
  s3_bucket_name = "bucket";
  batch_results_bucket = "results";
  is_file_not_found = λ e. true;
  is_java_error = λ e. false;
  is_unknown_folder = λ e. false;
}

abbrev running_info : Fields ℕ
running_info = field "specification" (str "{}") job_info

abbrev one_running : ZNode (Fields ℕ)
one_running = tree (child "j1" (znode running_info 0 nil) nil) nil

abbrev both : BatchRegistry ℕ
both = batch_double numbers codec zk "jobs" [] memory both_present

abbrev running : World numbers both (services_for both)
running = record { registry = (one_running, one_known); hub = []; tasks = []; cluster = [] }

-- The job info with its specification parsed.
abbrev seen : Fields ℕ
seen = remove "specification" (add_parsed numbers codec running_info (graph, null))

is_read : both.get_job "j1" "alice" running.registry ≡ ok seen
unfolding Double.get_job Double.zk_job Double.ejr_job get_job read get_node find
    parse_zk_job_specification Memory.get_job
is_read = refl

running-Holds : Holds numbers codec zk (in_area "ongoing") running_info 0 one_running
unfolding get_node find
running-Holds = record { bytes = running_info; at = refl; decodes = refl }

running-IsLeaf : IsLeaf zk (in_area "ongoing") one_running
unfolding get_node find
running-IsLeaf name = refl

none_done : zk.get (in_area "done") one_running ≡ err no_node
unfolding get_node find
none_done = refl

cancel_job_agrees_example :
    (zk_info : Fields ℕ) × (ejr_info : Fields ℕ) × (version' : ℕ) × (z' : ZNode (Fields ℕ))
    × (e' : Dict (Fields ℕ)) × (cancel_job numbers both
          (services_for both)
          yarn
          "2024"
          "j1"
          "alice"
          running
        ≡ (
          err (other_error "TimeoutExpired"),
          record running { registry = (z', e'); cluster = ("app1" ∷ []) ∷ [] },
        ))
    × Holds numbers codec zk (in_area "done") zk_info version' z'
    × (memory.get_job "j1" (some "alice") e' ≡ ok ejr_info)
    × (get "status" zk_info ≡ some (str "canceled"))
    × (get "status" ejr_info ≡ some (str "canceled"))
    × Others numbers codec zk "jobs" [] "j1" "alice" one_running z'
cancel_job_agrees_example =
    cancel_job_agrees numbers codec zk "jobs" [] memory (services_for both) yarn
      (mock_client-IsLawful end) codec-IsFaithful
      (memory_registry-IsLawfulRegistry numbers (λ s. ok s) none none tt tt) "2024" "j1" "alice"
      "running" "app1" seen running running_info 0 (given "j1" refl) (given "alice" refl)
      (λ kube. absurd (false≢true kube)) is_read refl refl refl refl running-Holds
      (record { job_id = refl; user_id = refl }) running-IsLeaf none_done known_in_memory

-- A view of both registries: whether the second one knows the job.
abbrev is_known : ZNode (Fields ℕ) × Dict (Fields ℕ) → Bool
is_known s = is_some (lookup "j1" s.1)

known_in : Dict (Fields ℕ) → Bool
known_in db = is_some (lookup "j1" db)

change-Keeps : (job : String) (kwargs : Fields ℕ) → Keeps known_in (change numbers job kwargs)
unfolding change known_in
change-Keeps job kwargs db = elim (Option-cases (lookup job db)) [
  | inl e ↦ ground arith
  | inr (d, e) ↦ ground (arith, lookup-insert job "j1" (update d kwargs) db, eq_iff job "j1")
]

known-IsKept : IsKept numbers both (services_for both) yarn storage is_known "now" "j1" "alice"
unfolding Double.set_status Double.remove_dependencies Memory.set_status Memory.remove_dependencies
    known_in
known-IsKept = record {
  set_status =
      in_both-Keeps numbers codec zk "jobs" [] memory both_present known_in
        (Zk.set_status numbers codec zk "jobs" [] "now" "j1" "alice" "canceled" none none true)
        (memory.set_status "now" "j1" "canceled" none none)
        (then-Keeps known_in
          (change numbers "j1" (field "status" (str "canceled") (field "updated" (str "now") end)))
          (λ db. (ok tt, db))
          (change-Keeps "j1" (field "status" (str "canceled") (field "updated" (str "now") end)))
          (λ db. refl));
  remove_dependencies =
      in_both-Keeps numbers codec zk "jobs" [] memory both_present known_in
        (Zk.remove_dependencies numbers codec zk "jobs" [] "j1" "alice")
        (memory.remove_dependencies "j1")
        (change-Keeps "j1" (field "dependencies" null (field "dependency_status" null end)));
}

delete_with-Ends_example :
    Ends numbers both (services_for both) yarn storage is_known "now" "j1" "alice" true (
      delete_with numbers both
        (services_for both)
        yarn
        storage
        "now"
        "j1"
        "alice"
        true
        (running, []))
delete_with-Ends_example =
    delete_with-Ends numbers both (services_for both) yarn storage is_known "now" "j1" "alice"
      known-IsKept true (running, [])

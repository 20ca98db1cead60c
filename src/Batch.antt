-- ===== src/Batch.antt =====
-- The life of a batch job in `GpsBatchJobs` of openeogeotrellis/backend.py and in the task that waits
-- for its dependencies, openeogeotrellis/async_task.py. Here is what these parts share: what they
-- call of `DoubleJobRegistry`.
pub mod Options
pub mod World
pub mod Start
pub mod Polling
pub mod Awaiting
pub mod Cancel
pub mod Deletion
use openeo_geopyspark_driver.Prelude.{String, Bool, Option, none, some}
use openeo_geopyspark_driver.Outcome.{Result, ok, err, Exec, other_error}
use openeo_geopyspark_driver.Floats.{Floats}
use openeo_geopyspark_driver.Json.{Json, Fields}
use openeo_geopyspark_driver.Codec.{JsonCodec}
use openeo_geopyspark_driver.Zookeeper.{ZkPath, ZkClient}
use openeo_geopyspark_driver.Registry.Interface.{JobRegistry}
use openeo_geopyspark_driver.Registry.Double as Double

-- The operations, on a job and its user. The clock's time comes first, where it is read.
pub record BatchRegistry (F : Type 0) : Type 1 where
  pub State : Type 0
  pub get_job : String → String → State → Result (Fields F)
  pub set_status : String → String → String → String → Exec State (Unit {0})
  pub set_dependency_status : String → String → String → Exec State (Unit {0})
  pub set_dependencies : String → String → Json F → Exec State (Unit {0})
  pub set_dependency_usage : String → String → F → Exec State (Unit {0})
  pub remove_dependencies : String → String → Exec State (Unit {0})
  pub set_application_id : String → String → Option String → Exec State (Unit {0})
  pub set_proxy_user : String → String → String → Exec State (Unit {0})
  pub mark_ongoing : String → String → Exec State (Unit {0})
  pub delete_job : String → String → Exec State (Unit {0})

-- `job_info.get(...)` raises if `get_job` has returned `None`.
abbrev pub the_job : {A : Type 0} → Result (Option A) → Result A
the_job (ok none) = err (other_error "AttributeError")
the_job (ok (some info)) = ok info
the_job (err e) = err e

-- `DoubleJobRegistry`, as a `BatchRegistry`.
abbrev pub batch_double :
    (R : Floats) (C : JsonCodec R.Float) (Z : ZkClient C.Bytes)
    → String
    → ZkPath
    → JobRegistry R.Float
    → Double.Present
    → BatchRegistry R.Float
batch_double R C Z top base E p = record {
  State = Double.Both R C Z top base E;
  get_job = λ job user s. the_job (Double.get_job R C Z top base E p job user s);
  set_status =
      λ now job user status. Double.set_status R C Z top base E p now job user status none none;
  set_dependency_status = Double.set_dependency_status R C Z top base E p;
  set_dependencies = Double.set_dependencies R C Z top base E p;
  set_dependency_usage =
      λ job user usage. Double.set_dependency_usage R C Z top base E p job user (R.to_string usage);
  remove_dependencies = Double.remove_dependencies R C Z top base E p;
  set_application_id = Double.set_application_id R C Z top base E p;
  set_proxy_user = Double.set_proxy_user R C Z top base E p;
  mark_ongoing = Double.mark_ongoing R C Z top base E p;
  delete_job = Double.delete_job R C Z top base E p;
}

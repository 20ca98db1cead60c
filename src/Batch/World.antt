-- ===== src/Batch/World.antt =====
-- What the code around batch jobs calls besides the job registry, and the state that it changes:
-- Sentinel Hub's batch processes, the queue of asynchronous tasks, the cluster, and the disk.
use openeo_geopyspark_driver.Prelude.{String, Option, List}
use openeo_geopyspark_driver.Outcome.{Exec}
use openeo_geopyspark_driver.Floats.{Floats}
use openeo_geopyspark_driver.Json.{Json, Items, Fields}
use openeo_geopyspark_driver.Batch.{BatchRegistry}

-- The services. `schedule_and_get_dependencies` is `_schedule_and_get_dependencies`, a dry run of the
-- process graph by the openEO driver; `start_on_kubernetes` is the branch for Kubernetes of
-- `_start_job`. `deep_get` is `openeo.util.deep_get`, with its default. `search_application_id` is the regular expression of `_extract_application_id`.
pub record Services (R : Floats) (J : BatchRegistry R.Float) : Type 1 where
  pub Hub : Type 0
  pub Tasks : Type 0
  pub Cluster : Type 0
  pub schedule_and_get_dependencies :
      Json R.Float → String → String → Fields R.Float → Exec Hub (Items R.Float)
  pub deep_get : List String → Json R.Float → Fields R.Float → Json R.Float
  pub schedule_await : String → String → String → Option String → Exec Tasks (Unit {0})
  pub submit : List String → Exec Cluster String
  pub search_application_id : String → Option String
  pub start_on_kubernetes : String → String → Fields R.Float → Exec (J.State × Cluster) (Unit {0})

module _ (R : Floats) (J : BatchRegistry R.Float) (X : Services R J) where
  pub record World : Type 0 where
    pub registry : J.State
    pub hub : X.Hub
    pub tasks : X.Tasks
    pub cluster : X.Cluster

  abbrev pub Run : Type 0
  Run = Exec World (Unit {0})

  abbrev pub on_registry : {A : Type 0} → Exec J.State A → Exec World A
  on_registry m w = ((m w.registry).0, record w { registry = (m w.registry).1 })

  abbrev pub on_hub : {A : Type 0} → Exec X.Hub A → Exec World A
  on_hub m w = ((m w.hub).0, record w { hub = (m w.hub).1 })

  abbrev pub on_tasks : {A : Type 0} → Exec X.Tasks A → Exec World A
  on_tasks m w = ((m w.tasks).0, record w { tasks = (m w.tasks).1 })

  abbrev pub on_cluster : {A : Type 0} → Exec X.Cluster A → Exec World A
  on_cluster m w = ((m w.cluster).0, record w { cluster = (m w.cluster).1 })

  abbrev pub on_kubernetes : Exec (J.State × X.Cluster) (Unit {0}) → Run
  on_kubernetes m w = (
    (m (w.registry, w.cluster)).0,
    record w {
      registry = (m (w.registry, w.cluster)).1.0;
      cluster = (m (w.registry, w.cluster)).1.1;
    },
  )

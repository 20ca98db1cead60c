-- ===== src/Registry/Interface.antt =====
-- `JobRegistryInterface` of the openEO driver, the job registry beside ZooKeeper's, as
-- `DoubleJobRegistry` uses it: `ElasticJobRegistry`, or the `InMemoryJobRegistry` of this
-- repository (Registry.Memory).
use openeo_geopyspark_driver.Prelude.{String, ◌==◌, ◌≡◌, false, Option, some}
use openeo_geopyspark_driver.Outcome.{Result, ok, Exec}
use openeo_geopyspark_driver.Json.{Json, str, Fields, get}

-- The clock is read by the methods that take `now`, first.
pub record JobRegistry (F : Type 0) : Type 1 where
  pub State : Type 0
  pub create_job :
      String
      → Json F
      → String
      → String
      → Option String
      → Option String
      → Option String
      → Option (Json F)
      → Exec State (Fields F)
  pub get_job : String → Option String → State → Result (Fields F)
  pub delete_job : String → Option String → Exec State (Unit {0})
  pub set_status : String → String → String → Option String → Option String → Exec State (Unit {0})
  pub set_dependencies : String → Json F → Exec State (Unit {0})
  pub remove_dependencies : String → Exec State (Unit {0})
  pub set_dependency_status : String → String → Exec State (Unit {0})
  pub set_dependency_usage : String → String → Exec State (Unit {0})
  pub set_proxy_user : String → String → Exec State (Unit {0})
  pub set_application_id : String → Option String → Exec State (Unit {0})
  pub set_results_metadata : String → Json F → Json F → Json F → Exec State (Unit {0})

module _ {F : Type 0} (E : JobRegistry F) where
  -- A change of status that succeeds: the job reads with the new status by the same user, and
  -- other jobs read as before.
  pub record SetsStatus (now job status : String) (started finished user : Option String)
      (e : E.State) : Type 0 where
    pub after : E.State
    pub runs : E.set_status now job status started finished e ≡ (ok tt, after)
    pub info : Fields F
    pub reads : E.get_job job user after ≡ ok info
    pub status_set : get "status" info ≡ some (str status)
    pub others :
        (job' : String) (anyone : Option String)
        → (job == job') ≡ false
        → E.get_job job' anyone after ≡ E.get_job job' anyone e

  -- The law is about two times, since a registry may raise on a text that is no time.
  pub record IsLawfulRegistry (started finished : Option String) : Type 0 where
    pub set_status_lem :
        (now job status : String) (user : Option String) (e : E.State) {old : Fields F}
        → E.get_job job user e ≡ ok old
        → SetsStatus now job status started finished user e

-- ===== src/Tests/Registries.antt =====
-- The two registries together, and the in-memory one, at one job.
use openeo_geopyspark_driver.Prelude.{
  ℕ, suc, String, ◌==◌, ◌≡◌, refl, ap, false≢true, is_some, arith, false, Option, none, some, [],
  if◌then◌else◌, length,
}
use openeo_geopyspark_driver.Outcome.{Result, ok, err, job_not_found, value_error}
use openeo_geopyspark_driver.Json.{str, Fields, end, get}
use openeo_geopyspark_driver.Dict.{Dict}
use openeo_geopyspark_driver.Zookeeper.Mock.{ZNode}
use openeo_geopyspark_driver.Zookeeper.Mock.Writes.{mock_client-IsLawful}
use openeo_geopyspark_driver.Registry.Interface.{IsLawfulRegistry}
use openeo_geopyspark_driver.Registry.Zk.Laws.{Holds}
use openeo_geopyspark_driver.Registry.Zk.Move.{Others}
use openeo_geopyspark_driver.Registry.Memory.{jobs_of}
use openeo_geopyspark_driver.Registry.Memory.Laws.{
  memory_registry, memory_registry-IsLawfulRegistry,
}
use openeo_geopyspark_driver.Registry.Memory.Pages.{walk, walk_lem}
use openeo_geopyspark_driver.Registry.Double.{set_status, get_job}
use openeo_geopyspark_driver.Registry.Double.Laws.{
  both_present, set_status_agrees, set_status_unknown, get_job_answer,
}
use openeo_geopyspark_driver.Tests.Data.{
  numbers, codec, codec-IsFaithful, zk, memory, one_known, known_in_memory, job_info, one_ongoing,
  one_done, in_area, job_info-IsOwn, one_ongoing-Holds, one_ongoing-IsLeaf, free_done, free_ongoing,
  no_jobs, given, absent_in_both,
}

-- Only the year is read as a time.
abbrev read_year : String → Result String
read_year s = if s == "2024" then ok "2024-01-01" else err value_error

memory_registry-IsLawfulRegistry_example :
    IsLawfulRegistry (memory_registry numbers read_year) (some "2024") none
memory_registry-IsLawfulRegistry_example =
    memory_registry-IsLawfulRegistry numbers read_year (some "2024") none
      (λ e. ("2024-01-01", refl)) tt

walk_lem_example :
    walk numbers (suc (length (jobs_of numbers "alice" one_known))) 1 0 "alice" one_known
    ≡ jobs_of numbers "alice" one_known
walk_lem_example = walk_lem numbers 1 "alice" one_known (omega arith)

set_status_agrees_example :
    (zk_info : Fields ℕ) × (ejr_info : Fields ℕ) × (version' : ℕ) × (z' : ZNode (Fields ℕ))
    × (e' : Dict (Fields ℕ)) × (set_status numbers codec zk "jobs" [] memory both_present "2024"
          "j1" "alice" "finished" none none
          (one_ongoing, one_known)
        ≡ (ok tt, (z', e')))
    × Holds numbers codec zk (in_area "done") zk_info version' z'
    × (memory.get_job "j1" (some "alice") e' ≡ ok ejr_info)
    × (get "status" zk_info ≡ some (str "finished"))
    × (get "status" ejr_info ≡ some (str "finished"))
    × Others numbers codec zk "jobs" [] "j1" "alice" one_ongoing z'
    × ((job' : String) (anyone : Option String)
        → ("j1" == job') ≡ false
        → memory.get_job job' anyone e' ≡ memory.get_job job' anyone one_known)
set_status_agrees_example =
    set_status_agrees numbers codec zk "jobs" [] memory "j1" "alice" "2024" "finished" none none
      (given "j1" refl) (given "alice" refl) (mock_client-IsLawful end) codec-IsFaithful
      (memory_registry-IsLawfulRegistry numbers (λ s. ok s) none none tt tt) job_info 0 one_ongoing
      one_known one_ongoing-Holds job_info-IsOwn (one_ongoing-IsLeaf "ongoing") free_done
      known_in_memory

set_status_unknown_example :
    set_status numbers codec zk "jobs" [] memory both_present "2024" "j1" "alice" "finished" none
      none
      (one_done, one_known)
    ≡ (err (job_not_found "j1"), (one_done, one_known))
set_status_unknown_example =
    set_status_unknown numbers codec zk "jobs" [] memory "j1" "alice" "2024" "finished" none none
      (given "j1" refl) (given "alice" refl) one_done one_known free_ongoing

get_job_answer_example :
    get_job numbers codec zk "jobs" [] memory both_present "j1" "alice" (no_jobs, one_known)
    ≡ ok (some job_info)
get_job_answer_example =
    get_job_answer numbers codec zk "jobs" [] memory "j1" "alice" (no_jobs, one_known) false none
      (some job_info) absent_in_both known_in_memory (λ e. false≢true (ap is_some e))

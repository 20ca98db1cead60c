-- ===== src/Tests/Nodes.antt =====
-- The job registry in ZooKeeper, at a tree with one job.
use openeo_geopyspark_driver.Prelude.{ℕ, String, arith, ◌≡◌, refl, inl, true, false, none, some, []}
use openeo_geopyspark_driver.Outcome.{ok, err, no_node, job_not_found, stripped_specification}
use openeo_geopyspark_driver.Json.{str, null, Fields, end, field, get, update}
use openeo_geopyspark_driver.Zookeeper.{IsLawful}
use openeo_geopyspark_driver.Zookeeper.Mock.{ZNode}
use openeo_geopyspark_driver.Zookeeper.Mock.Laws.{mock_client}
use openeo_geopyspark_driver.Zookeeper.Mock.Writes.{mock_client-IsLawful}
use openeo_geopyspark_driver.Registry.Zk.{
  set_status, patch, mark_done, mark_ongoing, register, get_job, delete,
}
use openeo_geopyspark_driver.Registry.Zk.Laws.{Holds, IsOwn}
use openeo_geopyspark_driver.Registry.Zk.Move.{Others, mark_done_lem, mark_ongoing_lem}
use openeo_geopyspark_driver.Registry.Zk.Patch.{patch_keeps_ongoing, patch_ends_job}
use openeo_geopyspark_driver.Registry.Zk.Status.{set_status_lem}
use openeo_geopyspark_driver.Registry.Zk.Lifecycle.{
  IsRegistered, register-get_job, register_stripped,
}
use openeo_geopyspark_driver.Registry.Zk.Deletion.{delete-get_job}
use openeo_geopyspark_driver.Tests.Data.{
  numbers, codec, codec-IsFaithful, zk, job_info, one_ongoing, one_done, no_jobs, in_area,
  job_info-IsOwn, one_ongoing-Holds, one_ongoing-IsLeaf, free_done, one_done-Holds, one_done-IsLeaf,
  free_ongoing, free_new, given, graph, specification,
}

mock_client-IsLawful_example : IsLawful (mock_client {B = Fields ℕ} end)
mock_client-IsLawful_example = mock_client-IsLawful {B = Fields ℕ} end

abbrev At : String → Fields ℕ → ℕ → ZNode (Fields ℕ) → Type 0
At area info version s = Holds numbers codec zk (in_area area) info version s

abbrev OthersKept : ZNode (Fields ℕ) → ZNode (Fields ℕ) → Type 0
OthersKept s s' = Others numbers codec zk "jobs" [] "j1" "alice" s s'

abbrev L : IsLawful zk
L = mock_client-IsLawful end

mark_done_lem_example :
    (s' : ZNode (Fields ℕ)) × (mark_done numbers codec zk "jobs" [] "j1" "alice" one_ongoing
      ≡ (ok tt, s'))
    × (zk.get (in_area "ongoing") s' ≡ err no_node)
    × At "done" job_info L.first_version s'
    × OthersKept one_ongoing s'
mark_done_lem_example =
    mark_done_lem numbers codec zk "jobs" [] L codec-IsFaithful "j1" "alice" (given "j1" refl)
      (given "alice" refl) job_info 0 one_ongoing one_ongoing-Holds job_info-IsOwn
      (one_ongoing-IsLeaf "ongoing") free_done

mark_ongoing_lem_example :
    (s' : ZNode (Fields ℕ)) × (mark_ongoing numbers codec zk "jobs" [] "j1" "alice" one_done
      ≡ (ok tt, s'))
    × (zk.get (in_area "done") s' ≡ err no_node)
    × At "ongoing" job_info L.first_version s'
    × OthersKept one_done s'
mark_ongoing_lem_example =
    mark_ongoing_lem numbers codec zk "jobs" [] L codec-IsFaithful "j1" "alice" (given "j1" refl)
      (given "alice" refl) job_info 0 one_done one_done-Holds job_info-IsOwn one_done-IsLeaf
      free_ongoing

abbrev ending : Fields ℕ
ending = field "status" (str "finished") end

patch_ends_job_example :
    (s' : ZNode (Fields ℕ)) × (patch numbers codec zk "jobs" [] "j1" "alice" true ending one_ongoing
      ≡ (ok tt, s'))
    × (zk.get (in_area "ongoing") s' ≡ err no_node)
    × At "done" (update job_info ending) L.first_version s'
    × OthersKept one_ongoing s'
patch_ends_job_example =
    patch_ends_job numbers codec zk "jobs" [] L codec-IsFaithful "j1" "alice" (given "j1" refl)
      (given "alice" refl) ending job_info 0 one_ongoing one_ongoing-Holds
      (record { job_id = refl; user_id = refl }) refl (one_ongoing-IsLeaf "ongoing") free_done

abbrev renaming : Fields ℕ
renaming = field "title" (str "NDVI") end

patch_keeps_ongoing_example :
    (s' : ZNode (Fields ℕ)) × (patch numbers codec zk "jobs" [] "j1" "alice" true renaming
        one_ongoing
      ≡ (ok tt, s'))
    × At "ongoing" (update job_info renaming) 1 s'
    × OthersKept one_ongoing s'
patch_keeps_ongoing_example =
    patch_keeps_ongoing numbers codec zk "jobs" [] L codec-IsFaithful "j1" "alice" (given "j1" refl)
      (given "alice" refl) true renaming job_info 0 one_ongoing one_ongoing-Holds
      (record { job_id = refl; user_id = refl }) refl

set_status_lem_example :
    (info' : Fields ℕ) × (version' : ℕ) × (s' : ZNode (Fields ℕ)) × (set_status numbers codec zk
        "jobs" [] "2024" "j1" "alice" "error" none none true one_ongoing
      ≡ (ok tt, s'))
    × At "done" info' version' s'
    × (get "status" info' ≡ some (str "error"))
    × IsOwn numbers codec zk "j1" "alice" info'
    × OthersKept one_ongoing s'
set_status_lem_example =
    set_status_lem numbers codec zk "jobs" [] "j1" "alice" "2024" "error" none none
      (given "j1" refl) (given "alice" refl) L codec-IsFaithful job_info 0 one_ongoing
      one_ongoing-Holds job_info-IsOwn (one_ongoing-IsLeaf "ongoing") free_done

register-get_job_example :
    (info : Fields ℕ) × (seen : Fields ℕ) × (s' : ZNode (Fields ℕ)) × (register numbers codec zk
        "jobs" [] none "2024" "2024" "j1" "alice" "1.2" specification none none no_jobs
      ≡ (ok info, s'))
    × (get_job numbers codec zk "jobs" [] true true "j1" "alice" s' ≡ ok seen)
    × IsRegistered numbers codec zk "jobs" [] L codec-IsFaithful "j1" "alice"
        (given "j1" refl)
        (given "alice" refl)
        "2024"
        "2024"
        "1.2"
        graph
        null
        null
        null
        seen
    × OthersKept no_jobs s'
register-get_job_example =
    register-get_job numbers codec zk "jobs" [] L codec-IsFaithful "j1" "alice" (given "j1" refl)
      (given "alice" refl) none "2024" "2024" "1.2" graph none none none no_jobs free_new tt refl
      refl

register_stripped_example :
    (info : Fields ℕ) × (s' : ZNode (Fields ℕ)) × (register numbers codec zk "jobs" []
        (some 3)
        "2024"
        "2024"
        "j1"
        "alice"
        "1.2"
        specification
        none
        none
        no_jobs
      ≡ (ok info, s'))
    × (get_job numbers codec zk "jobs" [] true true "j1" "alice" s' ≡ err stripped_specification)
    × (get_job numbers codec zk "jobs" [] false false "j1" "alice" s' ≡ ok info)
register_stripped_example =
    register_stripped numbers codec zk "jobs" [] L codec-IsFaithful "j1" "alice" (given "j1" refl)
      (given "alice" refl) 3 "2024" "2024" "1.2" specification none none true no_jobs free_new
      (omega arith)

delete-get_job_example :
    (s' : ZNode (Fields ℕ)) × (delete numbers codec zk "jobs" [] "j1" "alice" one_ongoing
      ≡ (ok tt, s'))
    × (get_job numbers codec zk "jobs" [] true true "j1" "alice" s' ≡ err (job_not_found "j1"))
    × OthersKept one_ongoing s'
delete-get_job_example =
    delete-get_job numbers codec zk "jobs" [] L codec-IsFaithful "j1" "alice" (given "j1" refl)
      (given "alice" refl) job_info 0 true true one_ongoing (inl (one_ongoing-Holds, free_done))
      one_ongoing-IsLeaf

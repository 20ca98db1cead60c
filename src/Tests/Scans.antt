-- ===== src/Tests/Scans.antt =====
-- The scan of running jobs: over three users, the second of which has a stripped job, and over a listing
-- of which one job has disappeared.
use openeo_geopyspark_driver.Prelude.{ℕ, String, ◌≡◌, refl, true, false, none, some, List, [], ◌∷◌}
use openeo_geopyspark_driver.Outcome.{Result, ok, err, job_not_found, stripped_specification}
use openeo_geopyspark_driver.Json.{str, null, Fields, end, field}
use openeo_geopyspark_driver.Zookeeper.{ZkPath, ZkClient}
use openeo_geopyspark_driver.Zookeeper.Mock.{
  ZNode, znode, Children, nil, child, find, get_children, get as get_node,
}
use openeo_geopyspark_driver.Registry.Info.{add_parsed, parse_zk_job_specification}
use openeo_geopyspark_driver.Registry.Zk.{read, get_job}
use openeo_geopyspark_driver.Registry.Zk.Queries.{
  running_job, running_of_user, running_of_users, get_running_jobs,
}
use openeo_geopyspark_driver.Registry.Zk.Queries.Laws.{
  get_running_jobs_stripped, get_running_jobs_lem, of_user, running, gone, no_more, nobody,
}
use openeo_geopyspark_driver.Tests.Data.{
  numbers, codec, zk, graph, job_info, one_ongoing, stripped_info,
}

-- No limit is reached, so no sample is taken.
abbrev all_of : ℕ → List String → List String
all_of n xs = xs

abbrev running_info : Fields ℕ
running_info = field "specification" (str "{}") job_info

-- The job info with its specification, parsed too.
abbrev seen : Fields ℕ
seen = add_parsed numbers codec running_info (graph, null)

abbrev job_node : Fields ℕ → ZNode (Fields ℕ)
job_node info = znode info 0 nil

abbrev folder : Children (Fields ℕ) → ZNode (Fields ℕ)
folder children = znode end 0 children

abbrev three_users : ZNode (Fields ℕ)
three_users = folder (
    child "jobs"
      (folder (
        child "ongoing"
          (folder (
            child "ann" (folder (child "j0" (job_node running_info) nil)) (
              child "bea"
                (folder (
                  child "j1" (job_node running_info)
                    (child "j2" (job_node stripped_info) (child "j3" (job_node running_info) nil))))
                (child "cem" (folder (child "j4" (job_node running_info) nil)) nil))))
          nil))
      nil)

users_are_listed :
    zk.get_children ("jobs" ∷ "ongoing" ∷ []) three_users ≡ ok ("ann" ∷ "bea" ∷ "cem" ∷ [])
unfolding get_children find
users_are_listed = refl

jobs_are_listed :
    zk.get_children ("jobs" ∷ "ongoing" ∷ "bea" ∷ []) three_users ≡ ok ("j1" ∷ "j2" ∷ "j3" ∷ [])
unfolding get_children find
jobs_are_listed = refl

user_before :
    running_of_users numbers codec zk "jobs" [] all_of (some 1000) true ("ann" ∷ []) three_users
    ≡ (seen ∷ [], none)
unfolding running_of_users running_of_user running_job get_children get_node find get_job read
    parse_zk_job_specification
user_before = refl

job_before :
    running_of_user numbers codec zk "jobs" [] true "bea" ("j1" ∷ []) three_users
    ≡ (seen ∷ [], none)
unfolding running_of_user running_job get_node find get_job read parse_zk_job_specification
job_before = refl

is_stripped :
    get_job numbers codec zk "jobs" [] true false "j2" "bea" three_users
    ≡ err stripped_specification
unfolding get_node find get_job read parse_zk_job_specification
is_stripped = refl

get_running_jobs_stripped_example :
    get_running_jobs numbers codec zk "jobs" [] all_of (some 1000) true three_users
    ≡ (seen ∷ seen ∷ [], some stripped_specification)
get_running_jobs_stripped_example =
    get_running_jobs_stripped numbers codec zk "jobs" [] all_of (some 1000) true three_users
      ("ann" ∷ []) ("cem" ∷ []) "bea" "j2" ("j1" ∷ "j2" ∷ "j3" ∷ []) ("j1" ∷ []) ("j3" ∷ [])
      (seen ∷ []) (seen ∷ []) users_are_listed user_before jobs_are_listed refl job_before
      is_stripped

-- What was listed before the job "j0" was done.
listed_before : ZkPath → Result (List String)
listed_before (jobs ∷ ongoing ∷ []) = ok ("alice" ∷ [])
listed_before path = ok ("j0" ∷ "j1" ∷ [])

abbrev zk_late : ZkClient (Fields ℕ)
zk_late = record zk { get_children = λ path s. listed_before path }

lists_users : zk_late.get_children ("jobs" ∷ "ongoing" ∷ []) one_ongoing ≡ ok ("alice" ∷ [])
unfolding listed_before
lists_users = refl

lists_jobs :
    zk_late.get_children ("jobs" ∷ "ongoing" ∷ "alice" ∷ []) one_ongoing ≡ ok ("j0" ∷ "j1" ∷ [])
unfolding listed_before
lists_jobs = refl

is_gone :
    get_job numbers codec zk_late "jobs" [] false false "j0" "alice" one_ongoing
    ≡ err (job_not_found "j0")
unfolding get_node find get_job read
is_gone = refl

is_read : get_job numbers codec zk_late "jobs" [] false false "j1" "alice" one_ongoing ≡ ok job_info
unfolding get_node find get_job read
is_read = refl

get_running_jobs_lem_example :
    get_running_jobs numbers codec zk_late "jobs" [] all_of (some 1000) false one_ongoing
    ≡ (job_info ∷ [], none)
get_running_jobs_lem_example =
    get_running_jobs_lem numbers codec zk_late "jobs" [] all_of (some 1000) false one_ongoing
      ("alice" ∷ []) (job_info ∷ []) lists_users
      (of_user "alice" ("j0" ∷ "j1" ∷ []) lists_jobs
        (gone "j0" is_gone (running "j1" job_info is_read refl no_more)) nobody)

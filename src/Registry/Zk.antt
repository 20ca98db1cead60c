-- ===== src/Registry/Zk.antt =====
-- `ZkJobRegistry` of openeogeotrellis/job_registry.py. A job's info dict is the payload of the node
-- {root}/ongoing/{user}/{job}, or of {root}/done/{user}/{job} when it is not tracked any more. Each
-- method is an action on the state of the ZooKeeper client; logging is left out.
pub mod Paths
pub mod Laws
pub mod Move
pub mod Patch
pub mod Status
pub mod Lifecycle
pub mod Deletion
pub mod Queries
pub mod Metadata
use openeo_geopyspark_driver.Prelude.{
  ℕ, String, ◌==◌, Bool, true, false, ◌&&◌, Option, none, some, List, [], ◌∷◌, ◌++◌, if◌then◌else◌,
}
use openeo_geopyspark_driver.Outcome.{
  Result, ok, err, Exec, pure, lift, reads, ◌>>=◌, ◌>>◌, commit, when, job_not_found,
  assertion_error,
}
use openeo_geopyspark_driver.Floats.{Floats}
use openeo_geopyspark_driver.Json.{Json, null, str, end, field, get, put, update}
use openeo_geopyspark_driver.Codec.{JsonCodec}
use openeo_geopyspark_driver.JobStatus.{is_final_value}
use openeo_geopyspark_driver.Zookeeper.{ZkPath, ZkClient}
use openeo_geopyspark_driver.Registry.Info.{
  JobInfo, optional, require_str, except_no_node, ignore_node_exists, parse_step, omit_step,
  new_job, parse_zk_job_specification,
}

-- The root path is given by its parts, a first one and the others.
module _ (R : Floats) (C : JsonCodec R.Float) (Z : ZkClient C.Bytes) (top : String)
    (base : ZkPath) where
  -- `_ongoing` and `_done`, on the ids that they are given
  abbrev pub ongoing : ZkPath → ZkPath
  ongoing ids = top ∷ (base ++ ("ongoing" ∷ ids))

  abbrev pub done : ZkPath → ZkPath
  done ids = top ∷ (base ++ ("done" ∷ ids))

  -- The payload and the version of a job's node, or `JobNotFoundException`.
  abbrev pub read_data : Bool → String → String → Z.State → Result (C.Bytes × ℕ)
  read_data include_done job user s = except_no_node (Z.get (ongoing (user ∷ job ∷ [])) s) (
      if include_done
      then except_no_node (Z.get (done (user ∷ job ∷ [])) s) (err (job_not_found job))
      else err (job_not_found job))

  -- `_read`
  unfoldable pub read : Bool → Bool → Bool → String → String → Z.State → Result (JobInfo R C × ℕ)
  unfolding parse_zk_job_specification
  read include_done parse_specification omit_raw_specification job user s =
      if job == ""
      then err assertion_error
      else if user == ""
      then err assertion_error
      else (elim (read_data include_done job user s) [
        | err e ↦ err e
        | ok (bytes, version) ↦ elim (C.decode bytes) [
          | err e ↦ err e
          | ok info ↦ elim (parse_step R C parse_specification info) [
            | err e ↦ err e
            | ok parsed ↦ elim (omit_step R C omit_raw_specification parsed) [
              | err e ↦ err e
              | ok result ↦ ok (result, version)
            ]
          ]
        ]
      ])

  -- `_create`
  pub create : Bool → JobInfo R C → Exec Z.State (Unit {0})
  create is_done info = do
    job ← lift (require_str "job_id" info)
    user ← lift (require_str "user_id" info)
    commit (
        Z.create (if is_done then done (user ∷ job ∷ []) else ongoing (user ∷ job ∷ []))
          (C.encode info))

  -- `_update`: the ids of the payload say where it is written
  pub write : JobInfo R C → ℕ → Exec Z.State (Unit {0})
  write info version = do
    job ← lift (require_str "job_id" info)
    user ← lift (require_str "user_id" info)
    commit (Z.set (ongoing (user ∷ job ∷ [])) (C.encode info) (some version))

  -- `ensure_paths`
  pub ensure_paths : Exec Z.State (Unit {0})
  ensure_paths = do commit (Z.ensure_path (ongoing [])); commit (Z.ensure_path (done []))

  -- `register`, at two readings of the clock
  pub register :
      Option ℕ
      → String
      → String
      → String
      → String
      → String
      → Json R.Float
      → Option String
      → Option String
      → Exec Z.State (JobInfo R C)
  unfolding create
  register limit now now' job user api_version specification title description = do
    let info = new_job R C limit now now' job user api_version specification title description
    create false info
    pure info

  -- `_mark_done`
  pub mark_done : String → String → Exec Z.State (Unit {0})
  unfolding create
  mark_done job user = do
    (info, version) ← reads (read false false false job user)
    ignore_node_exists (create true info)
    commit (Z.delete (ongoing (user ∷ job ∷ [])) (some version))

  -- `patch`
  pub patch : String → String → Bool → JobInfo R C → Exec Z.State (Unit {0})
  patch job user auto_mark_done kwargs = do
    (info, version) ← reads (read false false false job user)
    write (update info kwargs) version
    when (auto_mark_done && is_final_value (get "status" kwargs)) (mark_done job user)

  -- `mark_ongoing`
  pub mark_ongoing : String → String → Exec Z.State (Unit {0})
  unfolding create
  mark_ongoing job user = do
    (info, version) ← reads (read true false false job user)
    ignore_node_exists (create false info)
    commit (Z.delete (done (user ∷ job ∷ [])) (some version))

  -- `delete`
  pub delete : String → String → Exec Z.State (Unit {0})
  delete job user s =
      commit
        (λ s.
          except_no_node (Z.delete (ongoing (user ∷ job ∷ [])) none s)
            (except_no_node (Z.delete (done (user ∷ job ∷ [])) none s) (err (job_not_found job))))
        s

  -- `set_status`; `started` and `finished` are set if they are given and not empty
  abbrev pub given : String → Option String → JobInfo R C → JobInfo R C
  given key none kwargs = kwargs
  given key (some time) kwargs = if time == "" then kwargs else put key (str time) kwargs

  pub set_status :
      String
      → String
      → String
      → String
      → Option String
      → Option String
      → Bool
      → Exec Z.State (Unit {0})
  set_status now job user status started finished auto_mark_done = patch job user auto_mark_done (
      given "finished" finished
        (given "started" started (field "status" (str status) (field "updated" (str now) end))))

  -- `set_application_id`, `set_dependency_status`, `set_dependency_usage`, `set_dependencies`
  pub set_application_id : String → String → Option String → Exec Z.State (Unit {0})
  set_application_id job user id = patch job user true (field "application_id" (optional id) end)

  pub set_dependency_status : String → String → String → Exec Z.State (Unit {0})
  set_dependency_status job user status =
      patch job user true (field "dependency_status" (str status) end)

  -- `usage` is the text of the `Decimal`
  pub set_dependency_usage : String → String → String → Exec Z.State (Unit {0})
  set_dependency_usage job user usage =
      patch job user true (field "dependency_usage" (str usage) end)

  pub set_dependencies : String → String → Json R.Float → Exec Z.State (Unit {0})
  set_dependencies job user dependencies =
      patch job user true (field "dependencies" dependencies end)

  pub remove_dependencies : String → String → Exec Z.State (Unit {0})
  remove_dependencies job user =
      patch job user true (field "dependencies" null (field "dependency_status" null end))

  -- `get_job`
  unfoldable pub get_job : Bool → Bool → String → String → Z.State → Result (JobInfo R C)
  unfolding read
  get_job parse_specification omit_raw_specification job user s =
      elim (read true parse_specification omit_raw_specification job user s) [
        | err e ↦ err e
        | ok (info, version) ↦ ok info
      ]

  -- The jobs at the given ids, read one after the other.
  pub get_jobs : String → List String → Z.State → Result (List (JobInfo R C))
  unfolding get_job
  get_jobs user [] s = ok []
  get_jobs user (job ∷ jobs) s = elim (get_job false true job user s) [
    | err e ↦ err e
    | ok info ↦ elim (get_jobs user jobs s) [ err e ↦ err e | ok rest ↦ ok (info ∷ rest) ]
  ]

  -- `try: ... get_children ... except NoNodeError: pass`
  abbrev pub jobs_in : ZkPath → String → Z.State → Result (List (JobInfo R C))
  jobs_in path user s = elim (Z.get_children path s) [
    | err e ↦ except_no_node (err e) (ok [])
    | ok jobs ↦ get_jobs user jobs s
  ]

  -- `get_user_jobs`: those that are done first
  pub get_user_jobs : String → Z.State → Result (List (JobInfo R C))
  unfolding get_jobs
  get_user_jobs user s = elim (jobs_in (done (user ∷ [])) user s) [
    | err e ↦ err e
    | ok finished_jobs ↦ elim (jobs_in (ongoing (user ∷ [])) user s) [
      | err e ↦ err e
      | ok ongoing_jobs ↦ ok (finished_jobs ++ ongoing_jobs)
    ]
  ]

-- ===== src/Registry/Memory.antt =====
-- `InMemoryJobRegistry` of openeogeotrellis/job_registry.py. The state is `self.db`. A job dict that
-- a method returns is not changed by the code that calls it, so it is returned as a value.
pub mod Laws
pub mod Pages
use openeo_geopyspark_driver.Prelude.{
  ℕ, suc, ◌+◌, ◌*◌, ◌-◌, String, ◌==◌, Bool, true, false, not, ◌&&◌, ◌||◌, Option, none, some, List,
  [], ◌∷◌, map, ltb, eqb, length, take, drop, keep, contains, if◌then◌else◌, is_some,
}
use openeo_geopyspark_driver.Outcome.{
  Result, ok, err, Exec, pure, lift, reads, ◌>>=◌, ◌>>◌, check, job_not_found,
}
use openeo_geopyspark_driver.Floats.{Floats}
use openeo_geopyspark_driver.Json.{
  Json, null, num, str, obj, Fields, end, field, get, get_or_null, put, update, truthy,
}
use openeo_geopyspark_driver.Dict.{Dict, lookup, member, insert, erase, values}
use openeo_geopyspark_driver.JobStatus.{created, queued, running}
use openeo_geopyspark_driver.Registry.Info.{optional}

-- A value that is the given text.
abbrev pub is_text : {F : Type 0} → String → Option (Json F) → Bool
is_text s (some (str t)) = t == s
is_text s _ = false

-- The next page of a listing: the limit and the page number.
abbrev pub NextPage : Type 0
NextPage = Option (ℕ × ℕ)

module _ (R : Floats) where
  abbrev pub JobDict : Type 0
  JobDict = Fields R.Float

  abbrev pub Db : Type 0
  Db = Dict JobDict

  abbrev pub optional_value : Option (Json R.Float) → Json R.Float
  optional_value none = null
  optional_value (some v) = v

  -- The dict that `create_job` makes.
  abbrev pub new_dict :
      String
      → Json R.Float
      → String
      → String
      → Option String
      → Option String
      → Option String
      → Option String
      → Option (Json R.Float)
      → JobDict
  new_dict now process user job title description parent_id api_version job_options =
      field "job_id" (str job) (
        field "user_id" (str user) (
          field "process" process (
            field "title" (optional title) (
              field "description" (optional description) (
                field "application_id" null (
                  field "parent_id" (optional parent_id) (
                    field "status" (str created) (
                      field "created" (str now) (
                        field "updated" (str now) (
                          field "api_version" (optional api_version)
                            (field "job_options" (optional_value job_options) end)))))))))))

  pub create_job :
      String
      → Json R.Float
      → String
      → String
      → Option String
      → Option String
      → Option String
      → Option String
      → Option (Json R.Float)
      → Exec Db JobDict
  create_job now process user job title description parent_id api_version job_options db =
      let made =
        new_dict now process user job title description parent_id api_version job_options in
      (do check (not (member job db)); λ s. (ok made, insert job made s)) db

  -- An empty dict counts as no job.
  abbrev pub is_empty : JobDict → Bool
  is_empty end = true
  is_empty (field _ _ _) = false

  unfoldable pub get_job : String → Option String → Db → Result JobDict
  get_job job none db = elim (lookup job db) [
    | none ↦ err (job_not_found job)
    | some d ↦ if is_empty d then err (job_not_found job) else ok d
  ]
  get_job job (some user) db = elim (lookup job db) [
    | none ↦ err (job_not_found job)
    | some d ↦
        if is_empty d || not (is_text user (get "user_id" d)) then err (job_not_found job) else ok d
  ]

  unfoldable pub delete_job : String → Option String → Exec Db (Unit {0})
  unfolding get_job
  delete_job job user = do found ← reads (get_job job user); λ db. (ok tt, erase job db)

  -- `_update`
  unfoldable pub change : String → JobDict → Exec Db (Unit {0})
  change job kwargs db = elim (lookup job db) [
    | none ↦ check false db
    | some d ↦ (ok tt, insert job (update d kwargs) db)
  ]

  -- A further change for a time that is given and not empty; `normal` is `rfc3339.datetime`, which
  -- raises on a text that is no time.
  abbrev pub change_time :
      (String → Result String) → String → String → Option String → Exec Db (Unit {0})
  change_time normal job key none db = (ok tt, db)
  change_time normal job key (some time) db =
      if time == "" then (ok tt, db) else elim (normal time) [
        | err e ↦ (err e, db)
        | ok text ↦ change job (field key (str text) end) db
      ]

  abbrev pub updated_at : (String → Result String) → String → Option String → Result String
  updated_at normal now none = ok now
  updated_at normal now (some time) = if time == "" then ok now else normal time

  unfoldable pub set_status :
      (String → Result String)
      → String
      → String
      → String
      → Option String
      → Option String
      → Option String
      → Exec Db (Unit {0})
  unfolding change
  set_status normal now job status updated started finished = do
    time ← lift (updated_at normal now updated)
    change job (field "status" (str status) (field "updated" (str time) end))
    change_time normal job "started" started
    change_time normal job "finished" finished

  pub set_dependencies : String → Json R.Float → Exec Db (Unit {0})
  set_dependencies job dependencies = change job (field "dependencies" dependencies end)

  unfoldable pub remove_dependencies : String → Exec Db (Unit {0})
  remove_dependencies job =
      change job (field "dependencies" null (field "dependency_status" null end))

  pub set_dependency_status : String → String → Exec Db (Unit {0})
  set_dependency_status job status = change job (field "dependency_status" (str status) end)

  pub set_dependency_usage : String → String → Exec Db (Unit {0})
  set_dependency_usage job usage = change job (field "dependency_usage" (str usage) end)

  pub set_proxy_user : String → String → Exec Db (Unit {0})
  set_proxy_user job proxy_user = change job (field "proxy_user" (str proxy_user) end)

  pub set_application_id : String → Option String → Exec Db (Unit {0})
  set_application_id job id = change job (field "application_id" (optional id) end)

  -- usage["input_pixel"]["value"], or 0. The further test of the source, on the type of the
  -- 0 that it starts from, always passes.
  abbrev pub input_pixel_of : JobDict → Json R.Float
  input_pixel_of usage = elim (get "input_pixel" usage) [
    | none ↦ num (R.of_int 0)
    | some v ↦ elim v [
      | obj pixel ↦ elim (get "value" pixel) [ none ↦ num (R.of_int 0) | some x ↦ x ]
      | _ ↦ num (R.of_int 0)
    ]
  ]

  pub set_usage : String → Json R.Float → JobDict → Exec Db (Unit {0})
  set_usage job costs usage = change job (
      field "costs" costs
        (field "usage" (obj usage) (field "input_pixel" (input_pixel_of usage) end)))

  unfoldable pub set_results_metadata :
      String → Json R.Float → Json R.Float → Json R.Float → Exec Db (Unit {0})
  set_results_metadata job costs usage results_metadata =
      change job
        (field "costs" costs (field "usage" usage (field "results_metadata" results_metadata end)))

  -- The jobs of a user, in the order of their registration.
  pub jobs_of : String → Db → List JobDict
  jobs_of user db = keep (λ d. is_text user (get "user_id" d)) (values db)

  -- `list_user_jobs` with a limit, at a page number: the jobs of the page and the next page.
  pub page_of : ℕ → ℕ → List JobDict → List JobDict × NextPage
  page_of limit page jobs = (
    take limit (drop (page * limit) jobs),
    (if ltb ((page + 1) * limit) (length jobs) then some (limit, page + 1) else none),
  )

  pub list_user_jobs : Option ℕ → ℕ → String → Db → List JobDict × NextPage
  unfolding jobs_of page_of
  list_user_jobs none page user db = (jobs_of user db, none)
  list_user_jobs (some limit) page user db =
      if eqb limit 0 then (jobs_of user db, none) else page_of limit page (jobs_of user db)

  abbrev pub is_active : JobDict → Bool
  is_active d =
      is_text created (get "status" d)
      || is_text queued (get "status" d)
      || is_text running (get "status" d)

  abbrev pub has_application : JobDict → Bool
  has_application d = elim (get_or_null "application_id" d) [ null ↦ false | _ ↦ true ]

  pub list_active_jobs : Bool → Db → List JobDict
  list_active_jobs require_application_id db =
      keep (λ d. is_active d && (not require_application_id || has_application d)) (values db)

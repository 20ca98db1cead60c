-- ===== src/Registry/Memory/Laws.antt =====
-- `InMemoryJobRegistry` of openeogeotrellis/job_registry.py as a `JobRegistry`.
use openeo_geopyspark_driver.Prelude.{
  String, ◌==◌, ◌≡◌, refl, ◌∙◌, false, Option, none, some, arith, Bool-cases, inl, inr, eq_iff,
}
use openeo_geopyspark_driver.Outcome.{Result, ok, Exec}
use openeo_geopyspark_driver.Floats.{Floats}
use openeo_geopyspark_driver.Json.{Json, str, end, field, get, update}
use openeo_geopyspark_driver.Json.Laws.{get-update, or_else}
use openeo_geopyspark_driver.Dict.{lookup, insert, lookup-insert}
use openeo_geopyspark_driver.Registry.Interface.{JobRegistry, IsLawfulRegistry}
use openeo_geopyspark_driver.Registry.Memory
use openeo_geopyspark_driver.Registry.Memory.{
  JobDict, Db, is_empty, is_text, get_job, change, change_time, updated_at, set_status,
}

-- A time that can be read, where one is given.
abbrev pub IsTime : (String → Result String) → Option String → Type 0
IsTime normal none = Unit
IsTime normal (some time) = (time == "") ≡ false → (text : String) × (normal time ≡ ok text)

module _ (R : Floats) where
  nonempty_of_get :
      (k : String) (d : JobDict R) {v : Json R.Float} → get k d ≡ some v → is_empty R d ≡ false
  nonempty_of_get k end h = cc
  nonempty_of_get k (field j w d) h = refl

  -- A job's dict after an action that keeps its owner.
  record Changed (job : String) (d : JobDict R) (status : Option (Json R.Float))
      (m : Exec (Db R) (Unit {0})) (db : Db R) : Type 0 where
    after : Db R
    info : JobDict R
    runs : m db ≡ (ok tt, after)
    at : lookup job after ≡ some info
    status_set : get "status" info ≡ status
    owner : get "user_id" info ≡ get "user_id" d
    others : (job' : String) → (job == job') ≡ false → lookup job' after ≡ lookup job' db

  change_lem :
      (job : String) (kwargs : JobDict R) (d : JobDict R) (db : Db R)
      → lookup job db ≡ some d
      → get "user_id" kwargs ≡ none
      → Changed job d (or_else (get "status" kwargs) (get "status" d)) (change R job kwargs) db
  unfolding change
  change_lem job kwargs d db h anon = record {
    after = insert job (update d kwargs) db;
    info = update d kwargs;
    runs = ground arith;
    at = lookup-insert job job (update d kwargs) db ∙ ground (arith, eq_iff job job);
    status_set = get-update "status" d kwargs;
    owner = get-update "user_id" d kwargs ∙ ground arith;
    others = λ job' e. lookup-insert job job' (update d kwargs) db ∙ ground arith;
  }

  change_time_lem :
      (normal : String → Result String) (job key : String) (time : Option String) (d : JobDict R)
      (db : Db R)
      → IsTime normal time
      → lookup job db ≡ some d
      → (key == "user_id") ≡ false
      → (key == "status") ≡ false
      → Changed job d (get "status" d) (change_time R normal job key time) db
  change_time_lem normal job key none d db is_time h own plain = record {
    after = db;
    info = d;
    runs = refl;
    at = h;
    status_set = refl;
    owner = refl;
    others = λ job' e. refl;
  }
  change_time_lem normal job key (some time) d db is_time h own plain =
      elim (Bool-cases (time == "")) [
        | inl e ↦ record {
          after = db;
          info = d;
          runs = rw e refl;
          at = h;
          status_set = refl;
          owner = refl;
          others = λ job' e. refl;
        }
        | inr e ↦
            let (text, is_text) = is_time e in
            let c = change_lem job (field key (str text) end) d db h (ground arith) in
            let runs = c.runs in
            record {
              after = c.after;
              info = c.info;
              runs = rw (e, is_text) runs;
              at = c.at;
              status_set = c.status_set ∙ ground arith;
              owner = c.owner;
              others = c.others;
            }
      ]

module _ (R : Floats) (normal : String → Result String) where
  abbrev pub memory_registry : JobRegistry R.Float
  memory_registry = record {
    State = Db R;
    create_job = λ now process user job title description api_version job_options.
        Memory.create_job R now process user job title description none api_version job_options;
    get_job = get_job R;
    delete_job = Memory.delete_job R;
    set_status =
        λ now job status started finished. set_status R normal now job status none started finished;
    set_dependencies = Memory.set_dependencies R;
    remove_dependencies = Memory.remove_dependencies R;
    set_dependency_status = Memory.set_dependency_status R;
    set_dependency_usage = Memory.set_dependency_usage R;
    set_proxy_user = Memory.set_proxy_user R;
    set_application_id = Memory.set_application_id R;
    set_results_metadata = Memory.set_results_metadata R;
  }

  lookup_of_get_job :
      (job : String) (user : Option String) (db : Db R) {d : JobDict R}
      → get_job R job user db ≡ ok d
      → lookup job db ≡ some d
  unfolding get_job
  lookup_of_get_job job none db h = ground arith
  lookup_of_get_job job (some user) db h = ground arith

  -- A job with a status and the same owner reads by the user that could read it.
  get_job_changed :
      (job : String) (user : Option String) (db db' : Db R) (d d' : JobDict R) {v : Json R.Float}
      → get_job R job user db ≡ ok d
      → lookup job db ≡ some d
      → lookup job db' ≡ some d'
      → get "status" d' ≡ some v
      → get "user_id" d' ≡ get "user_id" d
      → get_job R job user db' ≡ ok d'
  unfolding get_job
  get_job_changed job none db db' d d' h at at' status owner =
      ground (arith, nonempty_of_get R "status" d' status)
  get_job_changed job (some user) db db' d d' h at at' status owner =
      ground (arith, nonempty_of_get R "status" d' status)

  get_job_same :
      (job : String) (user : Option String) (db db' : Db R)
      → lookup job db' ≡ lookup job db
      → get_job R job user db' ≡ get_job R job user db
  unfolding get_job
  get_job_same job none db db' e = ground arith
  get_job_same job (some user) db db' e = ground arith

  -- A change of status by `set_status` of a job that a user can read, or that is read without a
  -- user, with a start and an end that are not given, empty, or can be read as times, succeeds: the
  -- job reads with the new status the same way, and other jobs read as before.
  pub memory_registry-IsLawfulRegistry :
      (started finished : Option String)
      → IsTime normal started
      → IsTime normal finished
      → IsLawfulRegistry memory_registry started finished
  memory_registry-IsLawfulRegistry started finished is_start is_end = record {
    set_status_lem = λ now job status user db {old} h.
        let at = lookup_of_get_job job user db h in
        let a =
          change_lem R job (field "status" (str status) (field "updated" (str now) end)) old db at
            refl in
        let b =
          change_time_lem R normal job "started" started a.info a.after is_start a.at refl refl in
        let c =
          change_time_lem R normal job "finished" finished b.info b.after is_end b.at refl refl in
        let new_status : get "status" c.info ≡ some (str status) =
          c.status_set ∙ b.status_set ∙ a.status_set in
        record {
          after = c.after;
          runs = unfold set_status in rw (a.runs, b.runs, c.runs) refl;
          info = c.info;
          reads =
              get_job_changed job user db c.after old c.info h at c.at new_status
                (c.owner ∙ b.owner ∙ a.owner);
          status_set = new_status;
          others = λ job' anyone e.
              get_job_same job' anyone db c.after
                (c.others job' e ∙ b.others job' e ∙ a.others job' e);
        };
  }

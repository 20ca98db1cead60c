-- ===== src/Registry/Double.antt =====
-- `DoubleJobRegistry` of openeogeotrellis/job_registry.py: a `ZkJobRegistry` and a second registry,
-- of which either may be missing. The state is that of both.
pub mod Laws
pub mod Views
pub mod Queries
use openeo_geopyspark_driver.Prelude.{
  ℕ, String, Bool, true, false, Option, none, some, List, [], ◌∷◌, if◌then◌else◌,
}
use openeo_geopyspark_driver.Outcome.{
  Error, Result, ok, err, Exec, pure, raise, lift, reads, ◌>>=◌, ◌>>◌, when, job_not_found,
  stripped_specification, double_registry, key_error, kazoo_timeout,
}
use openeo_geopyspark_driver.Floats.{Floats}
use openeo_geopyspark_driver.Json.{Json, str, obj, Fields, end, field, get, put, update}
use openeo_geopyspark_driver.Codec.{JsonCodec}
use openeo_geopyspark_driver.Zookeeper.{ZkPath, ZkClient}
use openeo_geopyspark_driver.Registry.Info.{JobInfo, checked_specification_dict}
use openeo_geopyspark_driver.Registry.Interface.{JobRegistry}
use openeo_geopyspark_driver.Registry.Zk
use openeo_geopyspark_driver.Registry.Zk.Queries.{Yield, get_running_jobs}
use openeo_geopyspark_driver.Registry.Memory.{is_empty}

-- Which registries there are: `self.zk_job_registry` and `self.elastic_job_registry`.
pub record Present : Type 0 where
  pub zk : Bool
  pub ejr : Bool

-- What ZooKeeper's job registry is set to by `__enter__`: nothing where there is no factory, or
-- where the session cannot be started in time.
abbrev pub enter : Bool → Bool → Result (Unit {0}) → Result Present
enter false has_ejr started = ok (record { zk = false; ejr = has_ejr })
enter true has_ejr (ok _) = ok (record { zk = true; ejr = has_ejr })
enter true has_ejr (err kazoo_timeout) = ok (record { zk = false; ejr = has_ejr })
enter true has_ejr (err e) = err e

-- `a or b`, on dicts that may be `None`
abbrev pub or_dict :
    (R : Floats) → Option (Fields R.Float) → Option (Fields R.Float) → Option (Fields R.Float)
or_dict R none b = b
or_dict R (some d) b = if is_empty R d then b else some d

-- `with contextlib.suppress(...)`: nothing, where one of the named exceptions is raised
abbrev pub suppress_not_found : {A : Type 0} → Result A → Result (Option A)
suppress_not_found (ok a) = ok (some a)
suppress_not_found (err (job_not_found _)) = ok none
suppress_not_found (err e) = err e

abbrev pub suppress_stripped : {A : Type 0} → Result A → Result (Option A)
suppress_stripped (ok a) = ok (some a)
suppress_stripped (err (job_not_found _)) = ok none
suppress_stripped (err stripped_specification) = ok none
suppress_stripped (err e) = err e

module _ (R : Floats) (C : JsonCodec R.Float) (Z : ZkClient C.Bytes) (top : String) (base : ZkPath)
    (E : JobRegistry R.Float) where
  abbrev pub Both : Type 0
  Both = Z.State × E.State

  abbrev pub on_zk : {A : Type 0} → Exec Z.State A → Exec Both A
  on_zk m (z, e) = ((m z).0, ((m z).1, e))

  abbrev pub on_ejr : {A : Type 0} → Exec E.State A → Exec Both A
  on_ejr m (z, e) = ((m e).0, (z, (m e).1))

  module _ (p : Present) where
    -- An update of ZooKeeper's registry, and then of the other one, where they are there.
    abbrev pub in_both : Exec Z.State (Unit {0}) → Exec E.State (Unit {0}) → Exec Both (Unit {0})
    in_both zk ejr = do when p.zk (on_zk zk); when p.ejr (on_ejr ejr)

    -- What one registry returns, if it is there.
    abbrev pub if_present : {A : Type 0} → Bool → Exec Both A → Exec Both (Option A)
    if_present false m s = (ok none, s)
    if_present true m s = elim (m s).0 [ err e ↦ (err e, (m s).1) | ok a ↦ (ok (some a), (m s).1) ]

    abbrev pub graph_of : Fields R.Float → Result (Json R.Float)
    graph_of process = elim (get "process_graph" process) [
      | none ↦ err (key_error "process_graph")
      | some graph ↦ ok graph
    ]

    -- The first half of `create_job`.
    abbrev pub register_in_zk :
        Option ℕ
        → String
        → String
        → String
        → String
        → String
        → Fields R.Float
        → Option (Json R.Float)
        → Option String
        → Option String
        → Exec Both (JobInfo R C)
    register_in_zk limit now now' job user api_version process options title description = do
      graph ← lift (graph_of process)
      specification ← lift (checked_specification_dict graph options)
      on_zk (
          Zk.register R C Z top base limit now now' job user api_version specification title
            description)

    -- `create_job`, for an API version that is given
    pub create_job :
        Option ℕ
        → String
        → String
        → String
        → String
        → String
        → Fields R.Float
        → Option (Json R.Float)
        → Option String
        → Option String
        → Exec Both (Fields R.Float)
    create_job limit now now' job user api_version process options title description = do
      zk_info ←
          if_present p.zk
            (register_in_zk limit now now' job user api_version process options title description)
      ejr_info ← if_present p.ejr (
          on_ejr
            (E.create_job now (obj process) user job title description (some api_version) options))
      elim (or_dict R zk_info ejr_info) [
        | none ↦ raise (double_registry job)
        | some info ↦ pure info
      ]

    -- What `get_job` and `get_job_metadata` read from each registry.
    unfoldable pub zk_job : String → String → Both → Result (Option (JobInfo R C))
    zk_job job user s =
        if p.zk
        then suppress_stripped (Zk.get_job R C Z top base true true job user s.0)
        else ok none

    unfoldable pub ejr_job : String → String → Both → Result (Option (Fields R.Float))
    ejr_job job user s =
        if p.ejr then suppress_not_found (E.get_job job (some user) s.1) else ok none

    -- `_check_zk_ejr_job_info`, whose comparison is only logged
    abbrev pub check_found :
        String → Option (JobInfo R C) → Option (Fields R.Float) → Result (Unit {0})
    check_found job none none = err (job_not_found job)
    check_found job _ _ = ok tt

    -- `get_job`; a dict that is found is returned even if it is empty
    unfoldable pub get_job : String → String → Both → Result (Option (Fields R.Float))
    unfolding zk_job ejr_job
    get_job job user s = elim (zk_job job user s) [
      | err e ↦ err e
      | ok zk ↦ elim (ejr_job job user s) [
        | err e ↦ err e
        | ok ejr ↦ elim (check_found job zk ejr) [ err e ↦ err e | ok _ ↦ ok (or_dict R zk ejr) ]
      ]
    ]

    unfoldable pub set_status :
        String → String → String → String → Option String → Option String → Exec Both (Unit {0})
    set_status now job user status started finished =
        in_both (Zk.set_status R C Z top base now job user status started finished true)
          (E.set_status now job status started finished)

    pub delete_job : String → String → Exec Both (Unit {0})
    delete_job job user = in_both (Zk.delete R C Z top base job user) (E.delete_job job (some user))

    pub set_dependencies : String → String → Json R.Float → Exec Both (Unit {0})
    set_dependencies job user dependencies =
        in_both (Zk.set_dependencies R C Z top base job user dependencies)
          (E.set_dependencies job dependencies)

    unfoldable pub remove_dependencies : String → String → Exec Both (Unit {0})
    remove_dependencies job user =
        in_both (Zk.remove_dependencies R C Z top base job user) (E.remove_dependencies job)

    pub set_dependency_status : String → String → String → Exec Both (Unit {0})
    set_dependency_status job user status =
        in_both (Zk.set_dependency_status R C Z top base job user status)
          (E.set_dependency_status job status)

    pub set_dependency_usage : String → String → String → Exec Both (Unit {0})
    set_dependency_usage job user usage =
        in_both (Zk.set_dependency_usage R C Z top base job user usage)
          (E.set_dependency_usage job usage)

    pub set_proxy_user : String → String → String → Exec Both (Unit {0})
    set_proxy_user job user proxy_user =
        in_both (Zk.patch R C Z top base job user true (field "proxy_user" (str proxy_user) end))
          (E.set_proxy_user job proxy_user)

    pub set_application_id : String → String → Option String → Exec Both (Unit {0})
    set_application_id job user id =
        in_both (Zk.set_application_id R C Z top base job user id) (E.set_application_id job id)

    pub mark_ongoing : String → String → Exec Both (Unit {0})
    mark_ongoing job user = when p.zk (on_zk (Zk.mark_ongoing R C Z top base job user))

    -- `dict(results_metadata, costs=costs, usage=usage)`
    unfoldable pub set_results_metadata :
        String → String → Json R.Float → Json R.Float → Fields R.Float → Exec Both (Unit {0})
    set_results_metadata job user costs usage results_metadata =
        in_both
          (Zk.patch R C Z top base job user true
            (put "usage" usage (put "costs" costs results_metadata)))
          (E.set_results_metadata job costs usage (obj results_metadata))

    -- `get_active_jobs`; ZooKeeper's scan parses specifications, at the default limit of 1000
    pub get_active_jobs :
        (ℕ → List String → List String)
        → (E.State → List (Fields R.Float))
        → Both
        → Yield (Fields R.Float)
    get_active_jobs sample list_active_jobs s =
        if p.zk
        then get_running_jobs R C Z top base sample (some 1000) true s.0
        else if p.ejr
        then (list_active_jobs s.1, none)
        else ([], none)

-- ===== src/Services/Memory.antt =====
-- `InMemoryServiceRegistry`: a dict from the ids of services to their user and metadata.
use openeo_geopyspark_driver.Prelude.{String, ◌==◌, none, some, List, [], ◌∷◌, if◌then◌else◌}
use openeo_geopyspark_driver.Outcome.{Result, ok, err, Exec, service_not_found, key_error}
use openeo_geopyspark_driver.Json.{str}
use openeo_geopyspark_driver.Dict.{Dict, lookup, insert, erase, values}
use openeo_geopyspark_driver.Services.{
  ServiceModel, Entity, Running, stop_server, is_before, ServiceRegistry,
}

module _ {F : Type 0} (M : ServiceModel F) where
  -- `_metadatas`
  abbrev pub Metadatas : Type 0
  Metadatas = Dict (String × M.Metadata)

  abbrev pub Registry : Type 0
  Registry = Running M Metadatas

  abbrev pub persist : String → M.Metadata → Registry → Registry
  persist user m s = record s { stored = insert (M.id m) (user, m) s.stored }

  -- The metadata of the user's service.
  abbrev pub find : String → String → Registry → Result M.Metadata
  find user service s = elim (lookup service s.stored) [
    | none ↦ err (service_not_found service)
    | some (owner, m) ↦ if owner == user then ok m else err (service_not_found service)
  ]

  pub get : String → String → Registry → Result (Entity M)
  get user service s = elim (find user service s) [
    | err e ↦ err e
    | ok m ↦ ok (record { metadata = m; api_version = str "0.4.0" })
  ]

  pub get_metadata : String → String → Registry → Result M.Metadata
  unfolding get
  get_metadata user service s = elim (get user service s) [ err e ↦ err e | ok x ↦ ok x.metadata ]

  abbrev pub owned_by : String → Metadatas → Dict M.Metadata
  owned_by user [] = []
  owned_by user ((service, (owner, m)) ∷ rest) =
      let more = owned_by user rest in if owner == user then (service, m) ∷ more else more

  pub get_metadata_all : String → Registry → Dict M.Metadata
  get_metadata_all user s = owned_by user s.stored

  abbrev pub old_ones : M.Time → List (String × M.Metadata) → List (String × M.Metadata)
  old_ones upper [] = []
  old_ones upper ((user, m) ∷ rest) =
      let more = old_ones upper rest in if is_before M upper m then (user, m) ∷ more else more

  pub get_metadata_all_before : M.Time → Registry → Result (List (String × M.Metadata))
  get_metadata_all_before upper s = ok (old_ones upper (values s.stored))

  abbrev pub forget : String → Registry → Registry
  forget service s = record s { stored = erase service s.stored }

  -- A service that has not been registered raises, when its metadata is gone already.
  unfoldable pub stop_service : String → String → Exec Registry (Unit {0})
  stop_service user service s = elim (find user service s) [
    | err e ↦ (err e, s)
    | ok m ↦ elim (lookup service s.services) [
      | none ↦ (err (key_error service), forget service s)
      | some server ↦ stop_server M service server (forget service s)
    ]
  ]

  abbrev pub memory_services : ServiceRegistry M
  memory_services = record {
    State = Registry;
    get_metadata_all_before = get_metadata_all_before;
    stop_service = stop_service;
  }

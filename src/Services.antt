-- ===== src/Services.antt =====
-- The registries of secondary services, openeogeotrellis/service_registry.py, and the code of
-- `GpsSecondaryServices` (openeogeotrellis/backend.py) that goes through them. Here is what they
-- share: the openEO driver's `ServiceMetadata`, the servers, and `ServiceEntity`.
pub mod Memory
pub mod Zk
pub mod Removal
use openeo_geopyspark_driver.Prelude.{String, ◌≡◌, Bool, true, none, some, Option, List}
use openeo_geopyspark_driver.Outcome.{Result, ok, err, Exec}
use openeo_geopyspark_driver.Json.{Json, Fields}
use openeo_geopyspark_driver.Dict.{Dict, insert, erase}

-- `ServiceMetadata`, the times in it, and `SecondaryService`. `legacy` makes the metadata of an old
-- service, from its id, process graph, type and time of creation; `stop` changes the machine.
pub record ServiceModel (F : Type 0) : Type 1 where
  pub Metadata : Type 0
  pub Time : Type 0
  pub Server : Type 0
  pub Machine : Type 0
  pub from_dict : Fields F → Result Metadata
  pub prepare_for_json : Metadata → Fields F
  pub id : Metadata → String
  pub created : Metadata → Option Time
  pub legacy : String → Json F → Json F → Time → Metadata
  pub before : Time → Time → Bool
  pub stop : Server → Exec Machine (Unit {0})

module _ {F : Type 0} (M : ServiceModel F) where
  -- `ServiceEntity`
  pub record Entity : Type 0 where
    pub metadata : M.Metadata
    pub api_version : Json F

  -- A registry: what is stored, `_services`, and the machine on which the servers run.
  pub record Running (Store : Type 0) : Type 0 where
    pub stored : Store
    pub services : Dict M.Server
    pub machine : M.Machine

  -- `register`
  abbrev pub register : {Store : Type 0} → String → M.Server → Running Store → Running Store
  register service server s = record s { services = insert service server s.services }

  -- service = self._services.pop(service_id); service.stop()
  abbrev pub stop_server : {Store : Type 0} → String → M.Server → Exec (Running Store) (Unit {0})
  stop_server service server s = (
    (M.stop server s.machine).0,
    record s { services = erase service s.services; machine = (M.stop server s.machine).1 },
  )

  -- `not created or created < upper`
  abbrev pub is_before : M.Time → M.Metadata → Bool
  is_before upper m = elim (M.created m) [ none ↦ true | some time ↦ M.before time upper ]

  -- What the clean-up uses of a registry: `AbstractServiceRegistry`.
  pub record ServiceRegistry : Type 1 where
    pub State : Type 0
    pub get_metadata_all_before : M.Time → State → Result (List (String × M.Metadata))
    pub stop_service : String → String → Exec State (Unit {0})

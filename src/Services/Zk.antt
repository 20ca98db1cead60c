-- ===== src/Services/Zk.antt =====
-- `ZooKeeperServiceRegistry`: the node {root}/{user}/{service} holds the metadata of a service; the
-- servers are known to the process that has started them only. The ids are not empty.
pub mod Laws
use openeo_geopyspark_driver.Prelude.{
  String, ◌==◌, Bool, Option, none, some, List, [], ◌∷◌, ◌++◌, if◌then◌else◌,
}
use openeo_geopyspark_driver.Outcome.{
  Error, Result, ok, err, Exec, ◌>>◌, commit, no_node, type_error, value_error, service_not_found,
}
use openeo_geopyspark_driver.Outcome.Try
use openeo_geopyspark_driver.Floats.{Floats}
use openeo_geopyspark_driver.Json.{Json, str, obj, Fields, end, field, has}
use openeo_geopyspark_driver.Codec.{JsonCodec}
use openeo_geopyspark_driver.Dict.{Dict, lookup, insert}
use openeo_geopyspark_driver.Zookeeper.{ZkPath, ZkClient}
use openeo_geopyspark_driver.Registry.Info.{required, except_no_node}
use openeo_geopyspark_driver.Services.{
  ServiceModel, Entity, Running, stop_server, is_before, ServiceRegistry,
}

-- The user of services that belong to nobody.
abbrev pub anonymous : String
anonymous = "_anonymous"

-- `_root`, by its parts; `created_at` is the time that ZooKeeper keeps for a node.
module _ (R : Floats) (C : JsonCodec R.Float) (Z : ZkClient C.Bytes) (M : ServiceModel R.Float)
    (created_at : ZkPath → Z.State → M.Time) (top : String) (base : ZkPath) where
  abbrev pub Registry : Type 0
  Registry = Running M Z.State

  -- `_path`, without and with a service
  abbrev pub user_path : String → ZkPath
  user_path user = top ∷ (base ++ (user ∷ []))

  abbrev pub service_path : String → String → ZkPath
  service_path user service = top ∷ (base ++ (user ∷ service ∷ []))

  -- d[key], which has to be a dict
  abbrev pub require_dict : String → Fields R.Float → Result (Fields R.Float)
  require_dict key d = elim (required key d) [
    | err e ↦ err e
    | ok v ↦ elim v [ obj x ↦ ok x | _ ↦ err type_error ]
  ]

  abbrev pub serialize : M.Metadata → Json R.Float → C.Bytes
  serialize m api_version =
      C.encode (field "metadata" (obj (M.prepare_for_json m)) (field "api_version" api_version end))

  abbrev pub new_style : Fields R.Float → Result (Entity M)
  new_style d0 = Try.◌>>=◌ (require_dict "metadata" d0) λ d. Try.◌>>=◌ (M.from_dict d) λ m.
      Try.◌>>=◌ (required "api_version" d0)
        λ api_version. ok (record { metadata = m; api_version = api_version })

  abbrev pub old_style : String → M.Time → Fields R.Float → Result (Entity M)
  old_style service created d0 = Try.◌>>=◌ (require_dict "specification" d0) λ d.
      Try.◌>>=◌ (required "process_graph" d) λ graph. Try.◌>>=◌ (required "type" d) λ kind.
        ok (record { metadata = M.legacy service graph kind created; api_version = str "0.4.0" })

  -- `_load`, of what is at the node
  unfoldable pub parse : String → M.Time → C.Bytes → Result (Entity M)
  parse service created bytes = Try.◌>>=◌ (C.decode bytes) λ d0.
      if has "metadata" d0
      then new_style d0
      else if has "specification" d0
      then old_style service created d0
      else err value_error

  unfoldable pub load : String → String → Z.State → Result (Entity M)
  load user service z = elim (Z.get (service_path user service) z) [
    | err e ↦ err e
    | ok (bytes, _) ↦ parse service (created_at (service_path user service) z) bytes
  ]

  abbrev pub on_zk : {A : Type 0} → Exec Z.State A → Exec Registry A
  on_zk m s = ((m s.stored).0, record s { stored = (m s.stored).1 })

  unfoldable pub persist : String → M.Metadata → Json R.Float → Exec Registry (Unit {0})
  persist user m api_version =
      on_zk (commit (Z.create (service_path user (M.id m)) (serialize m api_version)))

  abbrev pub metadata_of : Result (Entity M) → Result M.Metadata
  metadata_of (ok x) = ok x.metadata
  metadata_of (err e) = err e

  -- The user's service, or else one that belongs to nobody.
  unfoldable pub get_metadata : String → String → Registry → Result M.Metadata
  get_metadata user service s = except_no_node (metadata_of (load user service s.stored)) (
      except_no_node (metadata_of (load anonymous service s.stored))
        (err (service_not_found service)))

  unfoldable pub get : String → String → Registry → Result (Entity M)
  get user service s = load user service s.stored

  abbrev pub load_each : String → List String → Dict M.Metadata → Z.State → Result (Dict M.Metadata)
  load_each user [] known z = ok known
  load_each user (service ∷ services) known z =
      Try.◌>>=◌ (load user service z)
        λ x. load_each user services (insert service x.metadata known) z

  -- Nothing, where a node is missing.
  abbrev pub all_of : String → Z.State → Result (Dict M.Metadata)
  all_of user z =
      except_no_node
        (Try.◌>>=◌ (Z.get_children (user_path user) z) λ services. load_each user services [] z)
        (ok [])

  -- {**a, **b}
  abbrev pub merged : Dict M.Metadata → Dict M.Metadata → Dict M.Metadata
  merged a [] = a
  merged a ((k, v) ∷ b) = merged (insert k v a) b

  pub get_metadata_all : String → Registry → Result (Dict M.Metadata)
  get_metadata_all user s =
      Try.◌>>=◌ (all_of user s.stored)
        λ own. Try.◌>>=◌ (all_of anonymous s.stored) λ shared. ok (merged own shared)

  abbrev pub old_of_user :
      M.Time → String → List String → Z.State → Result (List (String × M.Metadata))
  old_of_user upper user [] z = ok []
  old_of_user upper user (service ∷ services) z = Try.◌>>=◌ (load user service z) λ x.
      Try.◌>>=◌ (old_of_user upper user services z)
        λ rest. ok (if is_before M upper x.metadata then (user, x.metadata) ∷ rest else rest)

  abbrev pub old_of_users : M.Time → List String → Z.State → Result (List (String × M.Metadata))
  old_of_users upper [] z = ok []
  old_of_users upper (user ∷ users) z = Try.◌>>=◌ (Z.get_children (user_path user) z) λ services.
      Try.◌>>=◌ (old_of_user upper user services z)
        λ own. Try.◌>>=◌ (old_of_users upper users z) λ rest. ok (own ++ rest)

  pub get_metadata_all_before : M.Time → Registry → Result (List (String × M.Metadata))
  get_metadata_all_before upper s =
      Try.◌>>=◌ (Z.get_children (top ∷ base) s.stored) λ users. old_of_users upper users s.stored

  -- `except NoNodeError: raise ServiceNotFoundException`
  abbrev pub not_found : String → Result (Unit {0}) → Result (Unit {0})
  not_found service r = except_no_node r (err (service_not_found service))

  abbrev pub delete_node : String → String → Exec Registry (Unit {0})
  delete_node user service s = (
    not_found service (on_zk (commit (Z.delete (service_path user service) none)) s).0,
    (on_zk (commit (Z.delete (service_path user service) none)) s).1,
  )

  -- The server, if it runs in this process.
  abbrev pub stop_here : String → Exec Registry (Unit {0})
  stop_here service s = elim (lookup service s.services) [
    | none ↦ (ok tt, s)
    | some server ↦ stop_server M service server s
  ]

  unfoldable pub stop_service : String → String → Exec Registry (Unit {0})
  stop_service user service = do delete_node user service; stop_here service

  abbrev pub zk_services : ServiceRegistry M
  zk_services = record {
    State = Registry;
    get_metadata_all_before = get_metadata_all_before;
    stop_service = stop_service;
  }

-- ===== src/Udps/Zk.antt =====
-- `ZooKeeperUserDefinedProcessRepository`: the node {root}/{user}/{process} holds the JSON of a
-- process. The connection that each method opens is left out.
pub mod Laws
pub mod Listing
use openeo_geopyspark_driver.Prelude.{String, ℕ, Option, none, some, List, [], ◌∷◌, ◌++◌}
use openeo_geopyspark_driver.Prelude.Sorting.{sort_by}
use openeo_geopyspark_driver.Outcome.{
  Result, ok, err, Exec, lift, ◌>>=◌, ◌>>◌, commit, no_node, node_exists, kazoo_timeout, type_error,
  key_error, other_error, process_graph_not_found, Error,
}
use openeo_geopyspark_driver.Outcome.Try
use openeo_geopyspark_driver.Floats.{Floats}
use openeo_geopyspark_driver.Json.{Json, obj, Fields, end, field, get as get_field}
use openeo_geopyspark_driver.Codec.{JsonCodec}
use openeo_geopyspark_driver.Zookeeper.{ZkPath, ZkClient}
use openeo_geopyspark_driver.Registry.Info.{require_str}
use openeo_geopyspark_driver.Udps.{ProcessModel, UserDefinedProcesses}

-- `except NodeExistsError`
abbrev handle_exists :
    {S : Type 0} → Result (Unit {0}) → S → Exec S (Unit {0}) → Result (Unit {0}) × S
handle_exists (ok u) s handler = (ok u, s)
handle_exists (err node_exists) s handler = handler s
handle_exists (err e) s handler = (err e, s)

abbrev pub except_node_exists :
    {S : Type 0} → Exec S (Unit {0}) → Exec S (Unit {0}) → Exec S (Unit {0})
except_node_exists m handler s = handle_exists (m s).0 (m s).1 handler

-- `except NoNodeError: raise e`
abbrev raise_for_no_node : {S : Type 0} → Result (Unit {0}) → S → Error → Result (Unit {0}) × S
raise_for_no_node (ok u) s e = (ok u, s)
raise_for_no_node (err no_node) s e = (err e, s)
raise_for_no_node (err e') s e = (err e', s)

-- `except NoNodeError: return default`, and the same for `KazooTimeoutError`
abbrev pub or_default {ℓ} : {A : Type ℓ} → Result A → A → Result A
or_default (ok a) default = ok a
or_default (err no_node) default = ok default
or_default (err kazoo_timeout) default = ok default
or_default (err e) default = err e

-- `_root`, by its parts; `lower` is `str.lower`.
module _ (R : Floats) (C : JsonCodec R.Float) (Z : ZkClient C.Bytes) (M : ProcessModel R.Float)
    (lower : String → String) (top : String) (base : ZkPath) where
  abbrev pub udp_path : String → String → ZkPath
  udp_path user process = top ∷ (base ++ (user ∷ process ∷ []))

  abbrev pub user_path : String → ZkPath
  user_path user = top ∷ (base ++ (user ∷ []))

  abbrev pub serialize : Fields R.Float → C.Bytes
  serialize spec = C.encode (field "specification" (obj spec) end)

  -- from_dict(_deserialize(data)["specification"])
  unfoldable pub parse : C.Bytes → Result M.Process
  parse raw = elim (C.decode raw) [
    | err e ↦ err e
    | ok d ↦ elim (get_field "specification" d) [
      | none ↦ err (key_error "specification")
      | some v ↦ elim v [ obj spec ↦ M.from_dict spec | _ ↦ err type_error ]
    ]
  ]

  -- _, stat = zk.get(path); zk.set(path, raw, version=stat.version)
  abbrev pub overwrite : ZkPath → C.Bytes → Exec Z.State (Unit {0})
  overwrite path raw s = elim (Z.get path s) [
    | err e ↦ (err e, s)
    | ok (_, version) ↦ commit (Z.set path raw (some version)) s
  ]

  -- The node is that of the id in the specification; the argument `process_id` is not used.
  unfoldable pub save : String → String → Fields R.Float → Exec Z.State (Unit {0})
  save user process_id spec = do
    id ← lift (require_str "id" spec)
    except_node_exists (commit (Z.create (udp_path user id) (serialize spec)))
        (overwrite (udp_path user id) (serialize spec))

  abbrev pub read_process : ZkPath → Z.State → Result M.Process
  read_process path s = elim (Z.get path s) [ err e ↦ err e | ok (raw, _) ↦ parse raw ]

  abbrev pub found : {A : Type 0} → Result A → Result (Option A)
  found (ok a) = ok (some a)
  found (err e) = err e

  unfoldable pub get : String → String → Z.State → Result (Option M.Process)
  unfolding parse
  get user process_id s = or_default (found (read_process (udp_path user process_id) s)) none

  unfoldable pub delete : String → String → Exec Z.State (Unit {0})
  delete user process_id s =
      raise_for_no_node (commit (Z.delete (udp_path user process_id) none) s).0
        (commit (Z.delete (udp_path user process_id) none) s).1 (process_graph_not_found process_id)

  -- The processes at the listed ids, one read after the other.
  unfoldable pub get_each : String → List String → Z.State → Result (List (Option M.Process))
  unfolding get
  get_each user [] s = ok []
  get_each user (id ∷ ids) s =
      Try.◌>>=◌ (get user id s) λ udp. Try.◌>>=◌ (get_each user ids s) λ rest. ok (udp ∷ rest)

  -- The `udp.id` of the sort key, which `None` does not have.
  abbrev pub require_each : List (Option M.Process) → Result (List M.Process)
  require_each [] = ok []
  require_each (none ∷ udps) = err (other_error "AttributeError")
  require_each (some p ∷ udps) = Try.◌>>=◌ (require_each udps) λ rest. ok (p ∷ rest)

  abbrev pub listing : String → Z.State → Result (List M.Process)
  unfolding get_each
  listing user s = elim (Z.get_children (user_path user) s) [
    | err e ↦ err e
    | ok ids ↦
        Try.◌>>=◌ (get_each user ids s)
          λ udps. Try.◌>>=◌ (require_each udps) λ ps. ok (sort_by (λ p. lower (M.id p)) ps)
  ]

  pub get_for_user : String → Z.State → Result (List M.Process)
  unfolding get_each
  get_for_user user s = or_default (listing user s) []

  abbrev pub zk_repository : UserDefinedProcesses M
  zk_repository = record { State = Z.State; save = save; get_process = get; delete = delete }

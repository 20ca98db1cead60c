-- ===== src/Registry/Info.antt =====
-- The job info dicts of `ZkJobRegistry` (openeogeotrellis/job_registry.py): their ids, the JSON text
-- of the specification in them, and the marker that replaces an oversized one.
use Prim.Native.String.{count}
use openeo_geopyspark_driver.Prelude.{
  ℕ, String, ◌<>◌, starts_with, Bool, true, false, Option, none, some, ltb, if◌then◌else◌,
}
use openeo_geopyspark_driver.Outcome.{
  Result, ok, err, Exec, no_node, node_exists, assertion_error, key_error, type_error,
  stripped_specification,
}
use openeo_geopyspark_driver.Floats.{Floats}
use openeo_geopyspark_driver.Json.{Json, null, str, obj, Fields, end, field, get, has, put, remove}
use openeo_geopyspark_driver.Codec.{JsonCodec}
use openeo_geopyspark_driver.JobStatus.{created}

-- An argument that may be `None`.
abbrev pub optional : {F : Type 0} → Option String → Json F
optional none = null
optional (some s) = str s

-- d[k]
abbrev pub required : {F : Type 0} → String → Fields F → Result (Json F)
required k d = elim (get k d) [ none ↦ err (key_error k) | some v ↦ ok v ]

-- d[k], as a text. An id is always one.
abbrev pub require_str : {F : Type 0} → String → Fields F → Result String
require_str k d = elim (get k d) [
  | none ↦ err (key_error k)
  | some v ↦ elim v [ str s ↦ ok s | _ ↦ err type_error ]
]

-- The `dict_no_none(process_graph=..., job_options=...)` of `build_specification_dict`.
abbrev pub build_specification_dict : {F : Type 0} → Json F → Option (Json F) → Json F
build_specification_dict graph none = obj (field "process_graph" graph end)
build_specification_dict graph (some null) = obj (field "process_graph" graph end)
build_specification_dict graph (some options) =
    obj (field "process_graph" graph (field "job_options" options end))

-- `build_specification_dict` with its assertion that the process graph is a flat one.
abbrev pub checked_specification_dict : {F : Type 0} → Json F → Option (Json F) → Result (Json F)
checked_specification_dict (obj graph) options =
    if has "process_graph" graph
    then err assertion_error
    else ok (build_specification_dict (obj graph) options)
checked_specification_dict graph options = ok (build_specification_dict graph options)

-- `ZkStrippedSpecification.PAYLOAD_MARKER`
abbrev pub payload_marker : String
payload_marker = "<ZkStrippedSpecification>"

-- `except NoNodeError`
abbrev pub except_no_node {ℓ} : {A : Type ℓ} → Result A → Result A → Result A
except_no_node (err no_node) r = r
except_no_node m r = m

abbrev passing : {S : Type 0} → Result (Unit {0}) → S → Result (Unit {0}) × S
passing (ok _) s = (ok tt, s)
passing (err node_exists) s = (ok tt, s)
passing (err e) s = (err e, s)

-- `except NodeExistsError: pass`
abbrev pub ignore_node_exists : {S : Type 0} → Exec S (Unit {0}) → Exec S (Unit {0})
ignore_node_exists m s = passing (m s).0 (m s).1

module _ (R : Floats) (C : JsonCodec R.Float) where
  abbrev pub JobInfo : Type 0
  JobInfo = Fields R.Float

  -- specification.get("job_options", default)
  abbrev pub options_or : Json R.Float → JobInfo → Json R.Float
  options_or default specification = elim (get "job_options" specification) [
    | none ↦ default
    | some v ↦ v
  ]

  -- `parse_zk_job_specification`: the process graph and the job options
  abbrev pub parse_specification_or : Json R.Float → JobInfo → Result (Json R.Float × Json R.Float)
  parse_specification_or default info = elim (require_str "specification" info) [
    | err e ↦ err e
    | ok text ↦
        if starts_with text payload_marker
        then err stripped_specification
        else (elim (C.loads text) [
          | err e ↦ err e
          | ok v ↦ elim v [
            | obj specification ↦ elim (get "process_graph" specification) [
              | none ↦ err (key_error "process_graph")
              | some graph ↦ ok (graph, options_or default specification)
            ]
            | _ ↦ err type_error
          ]
        ])
  ]

  -- The same, with job options that are `None` by default.
  unfoldable pub parse_zk_job_specification : JobInfo → Result (Json R.Float × Json R.Float)
  parse_zk_job_specification info = parse_specification_or null info

  -- The two fields that `parse_specification` adds, where they are missing.
  abbrev pub add_parsed : JobInfo → Json R.Float × Json R.Float → JobInfo
  add_parsed info (graph, options) =
      let with_process =
        if has "process" info
        then info
        else put "process" (obj (field "process_graph" graph end)) info in
      if has "job_options" with_process
      then with_process
      else put "job_options" options with_process

  abbrev pub parse_step : Bool → JobInfo → Result JobInfo
  parse_step false info = ok info
  parse_step true info = elim (parse_zk_job_specification info) [
    | err e ↦ err e
    | ok parsed ↦ ok (add_parsed info parsed)
  ]

  abbrev pub omit_step : Bool → JobInfo → Result JobInfo
  omit_step false info = ok info
  omit_step true info =
      if has "specification" info
      then ok (remove "specification" info)
      else err (key_error "specification")

  -- The text that stands for the specification in the job info.
  unfoldable pub specification_blob : Option ℕ → Json R.Float → String
  specification_blob none specification = C.dumps specification
  specification_blob (some limit) specification =
      let blob = C.dumps specification in
      let size = count blob in
      if ltb limit size
      then payload_marker
        <> (" specification_size="
            <> (C.show_int size <> (" > max_specification_size=" <> C.show_int limit)))
      else blob

  -- The dict that `register` makes.
  unfoldable pub new_job :
      Option ℕ
      → String
      → String
      → String
      → String
      → String
      → Json R.Float
      → Option String
      → Option String
      → JobInfo
  new_job limit now now' job user api_version specification title description =
      field "job_id" (str job) (
        field "user_id" (str user) (
          field "status" (str created) (
            field "api_version" (str api_version) (
              field "specification" (str (specification_blob limit specification)) (
                field "application_id" null (
                  field "created" (str now) (
                    field "updated" (str now') (
                      field "title" (optional title)
                        (field "description" (optional description) end)))))))))

-- ===== src/Batch/Start/Dependencies.antt =====
-- The dependencies of a batch job on the command line: `serialize_dependencies` in
-- `GpsBatchJobs._start_job` (openeogeotrellis/backend.py).
use openeo_geopyspark_driver.Prelude.{String, ◌<>◌, false, Option, none, some, if◌then◌else◌}
use openeo_geopyspark_driver.Outcome.{Result, ok, err, key_error, type_error}
use openeo_geopyspark_driver.Outcome.Try.{◌>>=◌}
use openeo_geopyspark_driver.Floats.{Floats}
use openeo_geopyspark_driver.Json.{
  Json, bool, str, arr, obj, Items, nil, cons, Fields, end, field, get, get_or_null, has, truthy,
}
use openeo_geopyspark_driver.Codec.{JsonCodec}
use openeo_geopyspark_driver.Batch.Options.{Builtins, Defaults, option}
use openeo_geopyspark_driver.Batch.Start.Setup.{Deployment}

module _ (R : Floats) (C : JsonCodec R.Float) (P : Builtins R) (D : Defaults R)
    (Y : Deployment R) where
  -- `dependency.get('subfolder') or dependency['batch_request_id']`
  abbrev pub legacy_folder : Fields R.Float → Result String
  legacy_folder d =
      if truthy R (get_or_null "subfolder" d)
      then ok (P.str_of (get_or_null "subfolder" d))
      else elim (get "batch_request_id" d) [
        | none ↦ err (key_error "batch_request_id")
        | some v ↦ ok (P.str_of v)
      ]

  abbrev pub source_location : Fields R.Float → Result (Json R.Float)
  source_location d =
      let assembled = get_or_null "assembled_location" d in
      let results = get_or_null "results_location" d in
      if truthy R assembled then ok assembled else if truthy R results then ok results else (do
        folder ← legacy_folder d
        ok (str ("s3://" <> (Y.batch_results_bucket <> ("/" <> folder)))))

  abbrev pub as_arg_element : Fields R.Float → Result (Json R.Float)
  as_arg_element d = do
    source ← source_location d
    ok (
        obj (
          field "source_location" source
            (field "card4l" (option R P D "card4l" (bool false) d) end)))

  -- The dependencies on collections; others are left out.
  abbrev pub arg_elements : Items R.Float → Result (Items R.Float)
  arg_elements nil = ok nil
  arg_elements (cons (obj d) ds) =
      let rest = arg_elements ds in
      if has "collection_id" d
      then (do element ← as_arg_element d; elements ← rest; ok (cons element elements))
      else rest
  arg_elements (cons _ ds) = err type_error

  -- `dependencies or job_info.get('dependencies') or []`
  abbrev pub recorded : Json R.Float → Result (Items R.Float)
  recorded (arr ds) = ok ds
  recorded v = if truthy R v then err type_error else ok nil

  abbrev pub dependencies_or : Option (Items R.Float) → Fields R.Float → Result (Items R.Float)
  dependencies_or (some (cons d ds)) info = ok (cons d ds)
  dependencies_or _ info = recorded (get_or_null "dependencies" info)

  pub serialize_dependencies : Option (Items R.Float) → Fields R.Float → Result String
  serialize_dependencies dependencies info = do
    ds ← dependencies_or dependencies info
    elements ← arg_elements ds
    ok (C.dumps (arr elements))

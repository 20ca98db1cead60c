-- ===== src/Registry/Zk/Metadata.antt =====
-- `zk_job_info_to_metadata` of openeogeotrellis/job_registry.py.
use openeo_geopyspark_driver.Prelude.{String, ◌==◌, Option, none, some, if◌then◌else◌}
use openeo_geopyspark_driver.Outcome.{Result, ok}
use openeo_geopyspark_driver.Outcome.Try.{◌>>=◌}
use openeo_geopyspark_driver.Floats.{Floats}
use openeo_geopyspark_driver.Json.{Json, str, Fields, get_or_null, truthy}
use openeo_geopyspark_driver.JobStatus.{created}
use openeo_geopyspark_driver.Registry.Info.{required}

-- Dates and durations: `rfc3339.parse_datetime`, and `timedelta(seconds=...)`.
pub record Calendar (F : Type 0) : Type 1 where
  pub Date : Type 0
  pub Duration : Type 0
  pub parse_datetime : Json F → Result Date
  pub seconds : Json F → Result Duration

-- `BatchJobMetadata`, of the openEO driver, with the fields that are set.
pub record BatchJobMetadata {F : Type 0} (T : Calendar F) : Type 0 where
  pub id : Json F
  pub process : Json F
  pub title : Json F
  pub description : Json F
  pub status : Json F
  pub created : Option T.Date
  pub updated : Option T.Date
  pub job_options : Json F
  pub started : Option T.Date
  pub finished : Option T.Date
  pub memory_time_megabyte : Option T.Duration
  pub cpu_time : Option T.Duration
  pub geometry : Json F
  pub bbox : Json F
  pub start_datetime : Option T.Date
  pub end_datetime : Option T.Date
  pub instruments : Json F
  pub epsg : Json F
  pub links : Json F
  pub usage : Json F
  pub costs : Json F
  pub proj_shape : Json F
  pub proj_bbox : Json F

-- An old status is read as a new one.
abbrev pub current_status : {F : Type 0} → Json F → Json F
current_status (str s) = if s == "submitted" then str created else str s
current_status status = status

module _ (R : Floats) (T : Calendar R.Float) where
  -- Nothing, where there is no value or an empty one.
  abbrev pub map_safe :
      {A : Type 0} → String → (Json R.Float → Result A) → Fields R.Float → Result (Option A)
  map_safe prop f job_info =
      if truthy R (get_or_null prop job_info)
      then (f (get_or_null prop job_info) >>= λ a. ok (some a))
      else ok none

  pub zk_job_info_to_metadata : Fields R.Float → Result (BatchJobMetadata T)
  zk_job_info_to_metadata d = do
    job_id ← required "job_id" d
    created_at ← map_safe "created" T.parse_datetime d
    updated_at ← map_safe "updated" T.parse_datetime d
    started_at ← map_safe "started" T.parse_datetime d
    finished_at ← map_safe "finished" T.parse_datetime d
    memory ← map_safe "memory_time_megabyte_seconds" T.seconds d
    cpu ← map_safe "cpu_time_seconds" T.seconds d
    begins ← map_safe "start_datetime" T.parse_datetime d
    ends ← map_safe "end_datetime" T.parse_datetime d
    ok (record {
      id = job_id;
      process = get_or_null "process" d;
      title = get_or_null "title" d;
      description = get_or_null "description" d;
      status = current_status (get_or_null "status" d);
      created = created_at;
      updated = updated_at;
      job_options = get_or_null "job_options" d;
      started = started_at;
      finished = finished_at;
      memory_time_megabyte = memory;
      cpu_time = cpu;
      geometry = get_or_null "geometry" d;
      bbox = get_or_null "bbox" d;
      start_datetime = begins;
      end_datetime = ends;
      instruments = get_or_null "instruments" d;
      epsg = get_or_null "epsg" d;
      links = get_or_null "links" d;
      usage = get_or_null "usage" d;
      costs = get_or_null "costs" d;
      proj_shape = get_or_null "proj:shape" d;
      proj_bbox = get_or_null "proj:bbox" d;
    })

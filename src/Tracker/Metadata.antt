-- ===== src/Tracker/Metadata.antt =====
-- What the job tracker learns of an application: `_Usage` and `_JobMetadata` of
-- openeogeotrellis/job_tracker_v2.py, and how they are made from the answers of YARN, of the Spark
-- operator of Kubernetes and of Prometheus.
use openeo_geopyspark_driver.Prelude.{
  String, Bool, true, ◌&&◌, Option, none, some, List, [], ◌∷◌, if◌then◌else◌,
}
use openeo_geopyspark_driver.Outcome.{
  Result, ok, err, app_not_found, app_report_parse, type_error, other_error,
}
use openeo_geopyspark_driver.Floats.{Floats}
use openeo_geopyspark_driver.Json.{
  Json, null, num, str, arr, obj, Fields, end, field, get, get_or_null, has, put, truthy,
}
use openeo_geopyspark_driver.Tracker.States.{yarn_state_to_openeo_job_status}

-- `datetime`s, which the tracker parses, prints and subtracts.
pub record Times (R : Floats) : Type 1 where
  pub Time : Type 0
  pub of_millis : R.Float → Result Time
  pub parse_datetime : String → Result Time
  pub datetime : Time → String
  pub seconds_between : Time → Time → R.Float
  pub timestamp : Time → R.Float

module _ (R : Floats) where
  -- `_Usage`, where `None` is null
  pub record Usage : Type 0 where
    pub cpu_seconds : Json R.Float
    pub mb_seconds : Json R.Float
    pub network_receive_bytes : Json R.Float
    pub max_executor_gigabytes : Json R.Float

  abbrev pub no_usage : Usage
  no_usage = record {
    cpu_seconds = null;
    mb_seconds = null;
    network_receive_bytes = null;
    max_executor_gigabytes = null;
  }

  -- result[key] = {"value": value, "unit": unit}, if the value is truthy
  abbrev pub put_usage : String → String → Json R.Float → Fields R.Float → Fields R.Float
  put_usage key unit value d =
      if truthy R value
      then put key (obj (field "value" value (field "unit" (str unit) end))) d
      else d

  -- `_Usage.to_dict`
  abbrev pub to_dict : Usage → Fields R.Float
  to_dict u = put_usage "max_executor_memory" "gb" u.max_executor_gigabytes (
      put_usage "network_received" "b" u.network_receive_bytes (
        put_usage "memory" "mb-seconds" u.mb_seconds
          (put_usage "cpu" "cpu-seconds" u.cpu_seconds end)))

  module _ (T : Times R) where
    -- `_JobMetadata`
    pub record JobMetadata : Type 0 where
      pub app_state : String
      pub status : String
      pub usage : Usage
      pub start_time : Option T.Time
      pub finish_time : Option T.Time

    -- `_ms_epoch_to_date`
    abbrev pub ms_epoch_to_date : Json R.Float → Result (Option T.Time)
    ms_epoch_to_date (num x) =
        if R.eq x (R.of_int 0)
        then ok none
        else elim (T.of_millis x) [ err e ↦ err e | ok t ↦ ok (some t) ]
    ms_epoch_to_date v = err type_error

    abbrev pub required_keys : List String
    required_keys = "state" ∷ "finalStatus" ∷ "startedTime" ∷ "finishedTime" ∷ []

    abbrev pub has_all : List String → Fields R.Float → Bool
    has_all [] d = true
    has_all (k ∷ ks) d = has k d && has_all ks d

    -- The body of the `try` in `parse_application_response`. A state that is no text is no YARN
    -- state, and is not modelled.
    abbrev pub report_metadata : Fields R.Float → Result JobMetadata
    report_metadata report = elim (get_or_null "state" report) [
      | str state ↦ elim (get_or_null "finalStatus" report) [
        | str final_state ↦ elim (ms_epoch_to_date (get_or_null "startedTime" report)) [
          | err e ↦ err e
          | ok start_time ↦ elim (ms_epoch_to_date (get_or_null "finishedTime" report)) [
            | err e ↦ err e
            | ok finish_time ↦ ok (record {
              app_state = state;
              status = yarn_state_to_openeo_job_status state final_state;
              usage = record {
                cpu_seconds = get_or_null "vcoreSeconds" report;
                mb_seconds = get_or_null "memorySeconds" report;
                network_receive_bytes = null;
                max_executor_gigabytes = null;
              };
              start_time = start_time;
              finish_time = finish_time;
            })
          ]
        ]
        | _ ↦ err type_error
      ]
      | _ ↦ err type_error
    ]

    -- `except Exception as e: raise YarnAppReportParseException() from e`
    abbrev pub or_parse_error : {A : Type 0} → Result A → Result A
    or_parse_error (ok a) = ok a
    or_parse_error (err e) = err app_report_parse

    -- `parse_application_response`; a report that is no dict fails at `in`, or lacks the keys
    pub parse_application_response : Fields R.Float → Result JobMetadata
    parse_application_response answer = elim (get "app" answer) [
      | none ↦ err app_report_parse
      | some app ↦ elim app [
        | obj report ↦
            if has_all required_keys report
            then or_parse_error (report_metadata report)
            else err app_report_parse
        | str s ↦ err app_report_parse
        | arr xs ↦ err app_report_parse
        | _ ↦ err type_error
      ]
    ]

    -- The answers of YARN's REST API: not found, another HTTP error, or a body.
    pub data Response : Type 0 where
      missing : Response
      http_error : Response
      body : Json R.Float → Response

    -- `YarnStatusGetter.get_job_metadata`, of the answer
    pub yarn_job_metadata : Response → Result JobMetadata
    yarn_job_metadata missing = err app_not_found
    yarn_job_metadata http_error = err (other_error "HTTPError")
    yarn_job_metadata (body (obj answer)) = parse_application_response answer
    yarn_job_metadata (body _) = err app_report_parse

    -- Prometheus: what is used by an application, and the memory over a duration in seconds.
    pub record Prometheus : Type 0 where
      pub memory : R.Float → Result (Json R.Float)
      pub cpu : Result (Json R.Float)
      pub network : Result (Json R.Float)
      pub max_executor : Result (Json R.Float)

    abbrev pub duration : Option T.Time → Option T.Time → Option R.Float
    duration (some start) (some finish) = some (T.seconds_between start finish)
    duration _ _ = none

    -- byte_seconds / (1024 * 1024)
    abbrev pub to_mb_seconds : Json R.Float → Result (Json R.Float)
    to_mb_seconds null = ok null
    to_mb_seconds (num x) = ok (num (R.div x (R.of_int 1048576)))
    to_mb_seconds v = err type_error

    -- The value that stands for a missing or zero usage of an application that has run.
    abbrev pub or_default : Option R.Float → Json R.Float → Json R.Float → Json R.Float
    or_default none default value = value
    or_default (some seconds) default value = if truthy R value then value else default

    abbrev pub memory_of : Prometheus → Option R.Float → Result (Json R.Float)
    memory_of p none = ok null
    memory_of p (some seconds) = p.memory seconds

    -- The `try` of `_get_usage`, with `default_usage_cpu_seconds` and `default_usage_byte_seconds`.
    abbrev pub measured_usage :
        Prometheus → Json R.Float → Json R.Float → Option R.Float → Result Usage
    measured_usage p default_cpu default_bytes seconds = elim (memory_of p seconds) [
      | err e ↦ err e
      | ok byte_seconds ↦ elim p.cpu [
        | err e ↦ err e
        | ok cpu ↦ elim p.network [
          | err e ↦ err e
          | ok network ↦ elim p.max_executor [
            | err e ↦ err e
            | ok gigabytes ↦ elim (to_mb_seconds (or_default seconds default_bytes byte_seconds)) [
              | err e ↦ err e
              | ok mb_seconds ↦ ok (record {
                cpu_seconds = or_default seconds default_cpu cpu;
                mb_seconds = mb_seconds;
                network_receive_bytes = network;
                max_executor_gigabytes = gigabytes;
              })
            ]
          ]
        ]
      ]
    ]

    -- `_get_usage`
    pub get_usage : Prometheus → Json R.Float → Json R.Float → Option T.Time → Option T.Time → Usage
    get_usage p default_cpu default_bytes start finish =
        elim (measured_usage p default_cpu default_bytes (duration start finish)) [
          | ok usage ↦ usage
          | err e ↦ no_usage
        ]

-- ===== src/DependencyStatus.antt =====
-- The statuses of a job's dependencies, `DEPENDENCY_STATUS` of the openEO driver.
use openeo_geopyspark_driver.Prelude.{String}

abbrev pub awaiting : String
awaiting = "awaiting"

abbrev pub awaiting_retry : String
awaiting_retry = "awaiting_retry"

abbrev pub available : String
available = "available"

abbrev pub error : String
error = "error"

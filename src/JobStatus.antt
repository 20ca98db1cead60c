-- ===== src/JobStatus.antt =====
-- The batch job statuses of the openEO API, which `JOB_STATUS` of the openEO driver names.
use openeo_geopyspark_driver.Prelude.{String, ◌==◌, Bool, false, ◌||◌, Option, some}
use openeo_geopyspark_driver.Json.{Json, str}

abbrev pub created : String
created = "created"

abbrev pub queued : String
queued = "queued"

abbrev pub running : String
running = "running"

abbrev pub finished : String
finished = "finished"

abbrev pub error : String
error = "error"

abbrev pub canceled : String
canceled = "canceled"

-- `status in {JOB_STATUS.FINISHED, JOB_STATUS.ERROR, JOB_STATUS.CANCELED}`
abbrev pub is_final : String → Bool
is_final status = status == finished || status == error || status == canceled

-- The same test on a value that need not be a text.
abbrev pub is_final_value : {F : Type 0} → Option (Json F) → Bool
is_final_value (some (str status)) = is_final status
is_final_value _ = false

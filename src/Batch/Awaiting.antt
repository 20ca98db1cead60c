-- ===== src/Batch/Awaiting.antt =====
-- The task that waits for the dependencies of a job: the loop in `main` of
-- openeogeotrellis/async_task.py. The clock is read once a round, after the sleep; times are whole
-- numbers of some unit, from the start of the task.
pub mod Laws
use openeo_geopyspark_driver.Prelude.{
  ℕ, zero, suc, String, Bool, true, false, Option, none, some, [], ◌∷◌, leb, if◌then◌else◌,
}
use openeo_geopyspark_driver.Outcome.{Error, Result, ok, err, Exec, other_error}
use openeo_geopyspark_driver.Floats.{Floats}
use openeo_geopyspark_driver.Json.{Fields, get_or_null}
use openeo_geopyspark_driver.Codec.{JsonCodec}
use openeo_geopyspark_driver.JobStatus as JobStatus
use openeo_geopyspark_driver.DependencyStatus as DependencyStatus
use openeo_geopyspark_driver.Batch.{BatchRegistry}
use openeo_geopyspark_driver.Batch.World.{Services, World, on_registry}
use openeo_geopyspark_driver.Batch.Options.{Builtins, Defaults}
use openeo_geopyspark_driver.Batch.Start.{text_is}
use openeo_geopyspark_driver.Batch.Start.Setup.{Deployment}
use openeo_geopyspark_driver.Batch.Polling.Sources.{Watched}
use openeo_geopyspark_driver.Batch.Polling.{poll_job_dependencies}

-- `job_dependencies_max_poll_delay_seconds`, and what the clock shows in each round: as a number,
-- and as the text that is stored with a status.
pub record Clock : Type 0 where
  pub max_poll_delay : ℕ
  pub time : ℕ → ℕ
  pub now : ℕ → String

module _ (R : Floats) (C : JsonCodec R.Float) (J : BatchRegistry R.Float) (X : Services R J)
    (P : Builtins R) (D : Defaults R) (Y : Deployment R) (S : Watched R J X) (T : Clock)
    (job user alias : String) (token : Option String) where
  -- The outcome of a run, or nothing where the fuel has run out.
  abbrev pub Outcome : Type 0
  Outcome = Option (Result (Unit {0})) × World R J X

  abbrev pub is_awaiting : Fields R.Float → Bool
  is_awaiting info =
      text_is (DependencyStatus.awaiting ∷ DependencyStatus.awaiting_retry ∷ [])
        (get_or_null "dependency_status" info)

  -- registry.set_status(..., ERROR); raise e
  abbrev pub give_up : String → Error → Exec (World R J X) (Unit {0})
  give_up now e w =
      let set = on_registry R J X (J.set_status now job user JobStatus.error) w in
      elim set.0 [ ok _ ↦ (err e, set.1) | err e' ↦ (err e', set.1) ]

  abbrev pub ended : Result (Unit {0}) × World R J X → Outcome
  ended (r, w) = (some r, w)

  abbrev pub delay_error : Error
  delay_error = other_error "max_poll_delay"

  -- `while True`, at a round; each round costs one unit of fuel.
  pub await : ℕ → ℕ → World R J X → Outcome
  await zero round w = (none, w)
  await (suc fuel) round w = elim (J.get_job job user w.registry) [
    | err e ↦ (some (err e), w)
    | ok info ↦ elim (is_awaiting info) [
      | false ↦ (some (ok tt), w)
      | true ↦
          let polled = poll_job_dependencies R C J X P D Y S (T.now round) info alias token w in
          elim polled.0 [
            | err e ↦ ended (give_up (T.now round) e polled.1)
            | ok _ ↦ elim (leb T.max_poll_delay (T.time round)) [
              | true ↦ ended (give_up (T.now round) delay_error polled.1)
              | false ↦ await fuel (suc round) polled.1
            ]
          ]
    ]
  ]

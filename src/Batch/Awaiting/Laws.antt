-- ===== src/Batch/Awaiting/Laws.antt =====
-- The wait for the dependencies of a job ends, and how.
use openeo_geopyspark_driver.Prelude.{
  ℕ, zero, suc, ◌+◌, ◌*◌, ◌/◌, ◌≤◌, String, ◌≡◌, refl, true, false, Option, some, leb, arith,
  Bool-cases, inl, inr,
}
use openeo_geopyspark_driver.Outcome.{Error, Result, ok, err, Result-cases}
use openeo_geopyspark_driver.Floats.{Floats}
use openeo_geopyspark_driver.Json.{Fields}
use openeo_geopyspark_driver.Codec.{JsonCodec}
use openeo_geopyspark_driver.JobStatus as JobStatus
use openeo_geopyspark_driver.Batch.{BatchRegistry}
use openeo_geopyspark_driver.Batch.World.{Services, World}
use openeo_geopyspark_driver.Batch.Options.{Builtins, Defaults}
use openeo_geopyspark_driver.Batch.Start.Setup.{Deployment}
use openeo_geopyspark_driver.Batch.Polling.Sources.{Watched}
use openeo_geopyspark_driver.Batch.Polling.{poll_job_dependencies}
use openeo_geopyspark_driver.Batch.Awaiting.{
  Clock, Outcome, is_awaiting, give_up, ended, delay_error, await,
}

module _ (R : Floats) (C : JsonCodec R.Float) (J : BatchRegistry R.Float) (X : Services R J)
    (P : Builtins R) (D : Defaults R) (Y : Deployment R) (S : Watched R J X) (T : Clock)
    (job user alias : String) (token : Option String) where
  abbrev W : Type 0
  W = World R J X

  -- The ways in which the wait can end.
  pub data Ends : Result (Unit {0}) → W → Type 0 where
    released :
        {w : W} (info : Fields R.Float)
        → J.get_job job user w.registry ≡ ok info
        → is_awaiting R C J X P D Y S T job user alias token info ≡ false
        → Ends (ok tt) w
    unreadable : {w : W} (e : Error) → J.get_job job user w.registry ≡ err e → Ends (err e) w
    failed :
        {w : W} (e : Error) (round : ℕ) (before : J.State) (set : Result (Unit {0}))
        → J.set_status (T.now round) job user JobStatus.error before ≡ (set, w.registry)
        → Ends (err e) w

  -- An outcome with an end.
  pub record HasEnded (outcome : Outcome R C J X P D Y S T job user alias token) : Type 0 where
    pub result : Result (Unit {0})
    pub returns : outcome.0 ≡ some result
    pub ends : Ends result outcome.1

  give_up-HasEnded :
      (round : ℕ) (e : Error) (w : W)
      → HasEnded (
          ended R C J X P D Y S T job user alias token
            (give_up R C J X P D Y S T job user alias token (T.now round) e w))
  give_up-HasEnded round e w =
      elim (Result-cases (J.set_status (T.now round) job user JobStatus.error w.registry).0) [
        | inl (u, is) ↦
            rw (is, give_up)
              (record { result = err e; returns = refl; ends = failed e round w.registry _ refl })
        | inr (e', is) ↦
            rw (is, give_up)
              (record { result = err e'; returns = refl; ends = failed e' round w.registry _ refl })
      ]

  module _ (interval : ℕ) (sleeps : (round : ℕ) → (round + 1) * interval ≤ T.time round) where
    last_round :
        (fuel round : ℕ)
        → T.max_poll_delay ≤ (round + suc fuel) * interval
        → leb T.max_poll_delay (T.time round) ≡ false
        → (1 ≤ fuel)
    last_round zero round enough more = grind (arith, sleeps round)
    last_round (suc fuel) round enough more = omega arith

    -- What a round does once the job is found to be waiting.
    abbrev polled : ℕ → W → Fields R.Float → Result (Unit {0}) × W
    polled round w info = poll_job_dependencies R C J X P D Y S (T.now round) info alias token w

    abbrev rest_of_round :
        ℕ → ℕ → Result (Unit {0}) × W → Outcome R C J X P D Y S T job user alias token
    rest_of_round fuel round polled = elim polled.0 [
      | err e ↦
          ended R C J X P D Y S T job user alias token
            (give_up R C J X P D Y S T job user alias token (T.now round) e polled.1)
      | ok _ ↦ elim (leb T.max_poll_delay (T.time round)) [
        | true ↦ ended R C J X P D Y S T job user alias token (
            give_up R C J X P D Y S T job user alias token (T.now round)
              (delay_error R C J X P D Y S T job user alias token) polled.1)
        | false ↦ await R C J X P D Y S T job user alias token fuel (suc round) polled.1
      ]
    ]

    polled-HasEnded :
        (fuel round : ℕ) (r : Result (Unit {0}) × W)
        → T.max_poll_delay ≤ (round + suc fuel) * interval
        → (1 ≤ fuel → HasEnded (await R C J X P D Y S T job user alias token fuel (suc round) r.1))
        → HasEnded (rest_of_round fuel round r)
    polled-HasEnded fuel round (err e, w) enough again = give_up-HasEnded round e w
    polled-HasEnded fuel round (ok u, w) enough again =
        elim (Bool-cases (leb T.max_poll_delay (T.time round))) [
          | inl late ↦
              rw (late, rest_of_round)
                (give_up-HasEnded round (delay_error R C J X P D Y S T job user alias token) w)
          | inr early ↦ rw (early, rest_of_round) (again (last_round fuel round enough early))
        ]

    await_waits :
        (fuel round : ℕ) (w : W) (info : Fields R.Float)
        → J.get_job job user w.registry ≡ ok info
        → is_awaiting R C J X P D Y S T job user alias token info ≡ true
        → await R C J X P D Y S T job user alias token (suc fuel) round w
          ≡ rest_of_round fuel round (polled round w info)
    unfolding await
    await_waits fuel round w info read waits = rw (read, waits, await) refl

    await-HasEnded :
        (fuel round : ℕ) (w : W)
        → 1 ≤ fuel
        → T.max_poll_delay ≤ (round + fuel) * interval
        → HasEnded (await R C J X P D Y S T job user alias token fuel round w)
    unfolding await
    await-HasEnded zero round w some_fuel enough = absurd (omega arith)
    await-HasEnded (suc fuel) round w some_fuel enough =
        elim (Result-cases (J.get_job job user w.registry)) [
          | inr (e, read) ↦
              rw (read, await) (record { result = err e; returns = refl; ends = unreadable e read })
          | inl (info, read) ↦
              elim (Bool-cases (is_awaiting R C J X P D Y S T job user alias token info)) [
                | inr stops ↦
                    rw (read, stops, await)
                      (record { result = ok tt; returns = refl; ends = released info read stops })
                | inl waits ↦ rw (await_waits fuel round w info read waits) (
                    polled-HasEnded fuel round (polled round w info) enough
                      (λ h. await-HasEnded fuel (suc round) _ h (omega (arith, enough))))
              ]
        ]

    -- The wait for the dependencies of a job ends, after at most one round more than the sleeps that
    -- fit in the maximal delay, where every round takes at least the polling interval, which is not
    -- zero. It ends without an exception only in a state where the job is read and its dependencies
    -- are not awaited any more; and with an exception only where the job cannot be read, or after
    -- the status "error" has been set (or has failed to be set) for the job.
    pub await_lem :
        (w : W)
        → 1 ≤ interval
        → HasEnded
            (await R C J X P D Y S T job user alias token (T.max_poll_delay / interval + 1) 0 w)
    await_lem w given =
        await-HasEnded (T.max_poll_delay / interval + 1) 0 w (omega arith) (grind arith)

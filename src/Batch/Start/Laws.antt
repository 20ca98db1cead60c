-- ===== src/Batch/Start/Laws.antt =====
-- What `GpsBatchJobs._start_job` does to the registry and to the cluster.
use openeo_geopyspark_driver.Prelude.{
  sym, not, ◌&&◌, if◌then◌else◌, String, ◌≡◌, refl, ◌∙◌, ap, true, false, Option, none, [], ◌∷◌,
  arith,
}
use openeo_geopyspark_driver.Outcome.{Error, Result, ok, err, Exec, pure, ◌>>=◌, when}
use openeo_geopyspark_driver.Outcome.Try
use openeo_geopyspark_driver.Outcome.Views.{
  Keeps, bind-Keeps, then-Keeps, when-Keeps, if-Keeps, lift-Keeps,
}
use openeo_geopyspark_driver.Floats.{Floats}
use openeo_geopyspark_driver.Json.{arr, Items, nil, Fields}
use openeo_geopyspark_driver.Codec.{JsonCodec}
use openeo_geopyspark_driver.JobStatus.{created, queued, running}
use openeo_geopyspark_driver.DependencyStatus.{awaiting}
use openeo_geopyspark_driver.Registry.Info.{required}
use openeo_geopyspark_driver.Batch.{BatchRegistry}
use openeo_geopyspark_driver.Batch.World.{Services, World, on_registry, on_tasks, on_hub}
use openeo_geopyspark_driver.Batch.Options.{Builtins, Defaults}
use openeo_geopyspark_driver.Batch.Start.Setup.{Deployment, Specification, Prepared}
use openeo_geopyspark_driver.Batch.Start.Arguments.{prepare}
use openeo_geopyspark_driver.Batch.Start.{
  reset, text_is, is_missing, is_empty_list, await_dependencies, start_with, restart,
  launch_or_await, launch, specification_of, client_alias, is_waiting, token_for,
}

module _ (R : Floats) (C : JsonCodec R.Float) (J : BatchRegistry R.Float) (X : Services R J)
    (P : Builtins R) (D : Defaults R) (Y : Deployment R) where
  abbrev W : Type 0
  W = World R J X

  -- What the options of a job come to, or the exception that they raise.
  abbrev pub prepared_of : Fields R.Float → Result (Prepared R.Float)
  prepared_of info =
      Try.◌>>=◌ (specification_of R C J X P D Y info)
        λ specification. prepare R C P D Y specification.job_options

  abbrev cluster : W → X.Cluster
  cluster w = w.cluster

  -- A step on the registry.
  abbrev reg : {A : Type 0} → Exec J.State A → Exec W A
  reg = on_registry R J X

  reset-Keeps : (now job user : String) → Keeps cluster (reset R C J X P D Y now job user)
  reset-Keeps now job user =
      then-Keeps cluster (reg (J.mark_ongoing job user)) _ (λ w. refl)
        (then-Keeps cluster (reg (J.set_application_id job user none)) _ (λ w. refl)
          (then-Keeps cluster (reg (J.set_status now job user created)) _ (λ w. refl) (λ w. refl)))

  restart-Keeps :
      (now job user : String) (info : Fields R.Float)
      → Keeps cluster (restart R C J X P D Y now job user info)
  unfolding restart
  restart-Keeps now job user info = lift-Keeps cluster (required "status" info) _ λ status is.
      if-Keeps cluster (text_is (queued ∷ running ∷ []) status) (pure false) _ (λ w. refl)
        (if-Keeps cluster (text_is (created ∷ []) status) (pure true) _ (λ w. refl)
          (reset-Keeps now job user))

  await_dependencies-Keeps :
      (now job user alias : String) (get_vault_token : String → Result (Option String))
      (ds : Items R.Float)
      → Keeps cluster (await_dependencies R C J X P D Y now job user alias get_vault_token ds)
  unfolding await_dependencies
  await_dependencies-Keeps now job user alias get_vault_token ds =
      then-Keeps cluster (reg (J.set_dependencies job user (arr ds))) _ (λ w. refl)
        (lift-Keeps cluster (token_for R C J X P D Y get_vault_token alias) _ λ token is.
          then-Keeps cluster (on_tasks R J X (X.schedule_await job user alias token)) _ (λ w. refl)
            (then-Keeps cluster (reg (J.set_dependency_status job user awaiting)) _ (λ w. refl)
              (λ w. refl)))

  module _ (now job user : String) (get_vault_token : String → Result (Option String))
      (dependencies : Option (Items R.Float)) (proxy_user : Option String)
      (info : Fields R.Float) where
    -- Options that raise do so before anything is launched.
    launch-Keeps :
        (specification : Specification R) (alias : String) {e : Error}
        → prepare R C P D Y specification.job_options ≡ err e
        → Keeps cluster (
            launch R C J X P D Y now job user get_vault_token dependencies proxy_user info
              specification alias)
    launch-Keeps specification alias raises =
        lift-Keeps cluster (prepare R C P D Y specification.job_options) _
          λ prepared is. absurd (ground arith)

    launch_or_await-Keeps :
        {e : Error}
        → prepared_of info ≡ err e
        → Keeps cluster (
            launch_or_await R C J X P D Y now job user get_vault_token dependencies proxy_user info)
    unfolding launch_or_await
    launch_or_await-Keeps raises =
        lift-Keeps cluster (specification_of R C J X P D Y info) _ λ specification is.
          lift-Keeps cluster (client_alias R C J X P D Y specification.job_options) _
            λ alias alias_is.
              bind-Keeps cluster
                (if is_missing R C J X P D Y dependencies && not (is_waiting R C J X P D Y info)
                  then on_hub R J X (
                      X.schedule_and_get_dependencies specification.process_graph job user
                        specification.job_options)
                  else pure nil)
                _
                (if-Keeps cluster
                  (is_missing R C J X P D Y dependencies && not (is_waiting R C J X P D Y info)) _ _
                  (λ w. refl) (λ w. refl))
                λ scheduled.
                  if-Keeps cluster (is_empty_list R C J X P D Y scheduled) _ _
                    (launch-Keeps specification alias (
                      sym (ap (λ r. Try.◌>>=◌ r λ s. prepare R C P D Y s.job_options) is) ∙ raises))
                    (await_dependencies-Keeps now job user alias get_vault_token scheduled)

    rest-Keeps :
        {e : Error}
        → prepared_of info ≡ err e
        → Keeps cluster (
            (if is_missing R C J X P D Y dependencies
              then restart R C J X P D Y now job user info
              else pure true)
            >>= λ proceed. when proceed (
                launch_or_await R C J X P D Y now job user get_vault_token dependencies proxy_user
                  info))
    rest-Keeps raises =
        bind-Keeps cluster
          (if is_missing R C J X P D Y dependencies
            then restart R C J X P D Y now job user info
            else pure true)
          _
          (if-Keeps cluster (is_missing R C J X P D Y dependencies) _ _
            (restart-Keeps now job user info) (λ w. refl))
          λ proceed. when-Keeps cluster proceed _ (launch_or_await-Keeps raises)

    -- Where the job is read and its specification cannot be made out, or its options do not pass the
    -- checks that come before a launch (`prepared_of` raises), `_start_job` leaves the cluster as it
    -- was, whatever the status of the job and its dependencies.
    pub start_with_rejected :
        (w : W) {e : Error}
        → J.get_job job user w.registry ≡ ok info
        → prepared_of info ≡ err e
        → (start_with R C J X P D Y now job user get_vault_token dependencies proxy_user
            w).1.cluster
          ≡ w.cluster
    unfolding start_with
    start_with_rejected w read raises = rw read (rest-Keeps raises w)

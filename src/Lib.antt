-- ===== src/Lib.antt =====
-- A model of the batch job administration of the openEO GeoPySpark driver, with theorems.
--
-- The program keeps what it knows of batch jobs in a registry: `ZkJobRegistry` in ZooKeeper, one node
-- per job below {root}/ongoing or {root}/done, and beside it a second registry behind
-- `JobRegistryInterface`. `DoubleJobRegistry` writes to both. The job tracker runs now and then: it
-- reads the active jobs, asks YARN or Kubernetes for the state of each application, and sets the
-- status of the job; for a job that has ended it first removes the dependencies, schedules their
-- deletion, reports the usage of resources to the ETL API, and stores the costs and the metadata of
-- the results. Before that, `GpsBatchJobs` starts a job: it checks the options, and either submits the
-- application or, where the job depends on batch processes of Sentinel Hub or on results of other
-- jobs, stores these dependencies and schedules a task that polls them and then submits it. It also
-- cancels and deletes jobs. Beside jobs, the program keeps user-defined processes and secondary
-- services, in memory or in ZooKeeper.
--
-- Files:
-- - Prelude, Prelude.Sorting, Prelude.Int, Outcome, Floats, Json, Codec, Dict: shared types. Python
--   exceptions are values of `Outcome.Error`; a method that changes state and may raise is an `Exec`,
--   whose state comes back beside the error too. `Floats`, the JSON codec and the clock are parameters.
-- - Json.Merge, Json.Export: `dict_merge_recursive` and `to_jsonable` of openeogeotrellis/utils.py.
-- - Zookeeper: the interface of kazoo's client with its documented behaviour; Zookeeper.Mock:
--   `KazooClientMock` of openeogeotrellis/testing.py.
-- - Registry.Info, Registry.Zk and their children: `ZkJobRegistry` of openeogeotrellis/job_registry.py.
--   Registry.Interface: `JobRegistryInterface`, from the openEO driver. Registry.Memory:
--   `InMemoryJobRegistry`. Registry.Double: `DoubleJobRegistry`.
-- - Tracker.States: the tables of states in openeogeotrellis/integrations/yarn.py and kubernetes.py
--   and in openeogeotrellis/job_tracker_v2.py. Tracker.Metadata: `_Usage`, `_JobMetadata`, and how
--   they are read from YARN and Prometheus. Tracker.Services: what the tracker calls. Tracker.Sync:
--   `JobTracker`.
-- - Costs.Api, Costs.Config: openeogeotrellis/integrations/etl_api.py. Costs.Calculator:
--   openeogeotrellis/job_costs_calculator.py.
-- - Udps: openeogeotrellis/user_defined_process_repository.py, in memory and in ZooKeeper.
-- - Services: openeogeotrellis/service_registry.py, in memory and in ZooKeeper; Services.Removal: the
--   removal of services in `GpsSecondaryServices` of openeogeotrellis/backend.py.
-- - Batch and its children: `GpsBatchJobs` of openeogeotrellis/backend.py. Batch.World: the state, and
--   what is called besides the registry. Batch.Options and Batch.Options.Memory: the job options of
--   `_start_job`, and the checks of its memory and cores; Batch.Start.Setup, Batch.Start.Dependencies,
--   Batch.Start.Arguments: the command line of the submission; Batch.Start: `_start_job`.
--   Batch.Polling: `poll_job_dependencies`. Batch.Cancel, Batch.Deletion: `cancel_job`, `_delete_job`
--   and `delete_jobs_before`. Batch.Awaiting: the loop of openeogeotrellis/async_task.py that waits for
--   dependencies. JobStatus, DependencyStatus: the statuses.
-- - AsyncTask: the tasks that openeogeotrellis/async_task.py sends to Kafka, and what it blacks out of
--   them for the log. For the parts that schedule tasks, the scheduling is a parameter.
-- - Tests: the theorems at concrete inputs.
--
-- Bounds and fuel: `Batch.Awaiting.await`, a `while True` of the program, runs on fuel, one unit for a
-- round: as each round sleeps for the polling interval and the wait is given up after
-- `max_poll_delay`, `max_poll_delay / interval + 1` units are enough. `Registry.Memory.Pages.walk`,
-- which reads page after page, takes the number of jobs plus one as its bound, which is enough as
-- each page but the last has a job. The size limit of a specification counts characters.
--
-- Not modelled: logging; the start of connections; races between clients (each method is one
-- action); `NotEmptyError` on deletes; the order of the keys of a dict that is JSON; ids that are
-- empty or have a slash, which no generated id does; the jobs that `get_active_jobs` yields are read
-- at the start of the tracker's run. Of the start of a job, the dry run of the process graph
-- (`_schedule_and_get_dependencies`) and the branch for Kubernetes are parameters, and so are the
-- login to Vault, Sentinel Hub's service, the catalog, and the clients of YARN, Kubernetes, S3 and the
-- web. `poll_job_dependencies` has a loop over a generator that is exhausted; it never runs and is
-- left out. `ServiceMetadata` and the user-defined processes are classes of the openEO driver, and
-- parameters. Statuses are the texts of the openEO API. The data cubes, the catalogs, the creation of
-- services and the command lines are not modelled.
pub mod Prelude
pub mod Outcome
pub mod Floats
pub mod Json
pub mod Zookeeper
pub mod Codec
pub mod Dict
pub mod JobStatus
pub mod DependencyStatus
pub mod Registry
pub mod Tracker
pub mod Udps
pub mod Services
pub mod AsyncTask
pub mod Batch
pub mod Costs
mod Tests

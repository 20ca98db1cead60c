-- ===== src/Tracker/States.antt =====
-- The states of an application in YARN and in Kubernetes, as the job status of the openEO API
-- (openeogeotrellis/integrations/yarn.py and kubernetes.py) and as a state of the ETL API
-- (openeogeotrellis/job_tracker_v2.py).
use openeo_geopyspark_driver.Prelude.{
  String, ◌==◌, ◌≡◌, refl, Bool, true, false, ◌||◌, if◌then◌else◌, false≢true, ◌⊎◌, inl, inr,
}
use openeo_geopyspark_driver.JobStatus.{queued, running, finished, error, canceled, is_final}

-- `k8s_state_to_openeo_job_status`
abbrev pub k8s_state_to_openeo_job_status : String → String
k8s_state_to_openeo_job_status state =
    if state == "" || state == "SUBMITTED"
    then queued
    else if state == "RUNNING" || state == "SUCCEEDING"
    then running
    else if state == "COMPLETED"
    then finished
    else if state == "FAILED" || state == "SUBMISSION_FAILED" || state == "FAILING"
    then error
    else queued

-- `yarn_state_to_openeo_job_status`
abbrev pub yarn_state_to_openeo_job_status : String → String → String
yarn_state_to_openeo_job_status state final_state =
    if state == "NEW" || state == "SUBMITTED" || state == "ACCEPTED"
    then queued
    else if state == "RUNNING"
    then running
    else if state == "KILLED" || final_state == "KILLED"
    then canceled
    else if final_state == "SUCCEEDED"
    then finished
    else if final_state == "FAILED"
    then error
    else queued

-- `K8sStatusGetter.app_state_to_etl_state`
abbrev pub k8s_state_to_etl_state : String → String
k8s_state_to_etl_state state =
    if state == "" || state == "SUBMITTED"
    then "ACCEPTED"
    else if state == "RUNNING" || state == "SUCCEEDING"
    then "RUNNING"
    else if state == "COMPLETED"
    then "FINISHED"
    else if state == "FAILED" || state == "SUBMISSION_FAILED" || state == "FAILING"
    then "FAILED"
    else "UNDEFINED"

-- `YarnStatusGetter.app_state_to_etl_state`
abbrev pub yarn_state_to_etl_state : String → String
yarn_state_to_etl_state state =
    if state == "ACCEPTED"
    then "ACCEPTED"
    else if state == "RUNNING"
    then "RUNNING"
    else if state == "FINISHED"
    then "FINISHED"
    else if state == "KILLED"
    then "KILLED"
    else if state == "FAILED"
    then "FAILED"
    else "UNDEFINED"

-- The two tables of Kubernetes states, by the outcomes of their tests.
k8s_tests :
    (new live done failed : Bool)
    → is_final (
        if new
        then queued
        else if live
        then running
        else if done
        then finished
        else if failed
        then error
        else queued)
      ≡ ((if new
              then "ACCEPTED"
              else if live
              then "RUNNING"
              else if done
              then "FINISHED"
              else if failed
              then "FAILED"
              else "UNDEFINED")
            == "FINISHED"
          || (if new
              then "ACCEPTED"
              else if live
              then "RUNNING"
              else if done
              then "FINISHED"
              else if failed
              then "FAILED"
              else "UNDEFINED")
            == "FAILED")
k8s_tests true live done failed = refl
k8s_tests false true done failed = refl
k8s_tests false false true failed = refl
k8s_tests false false false true = refl
k8s_tests false false false false = refl

-- The tables of YARN states, by the outcomes of their tests.
waiting : (new submitted : Bool) (x y : String) → (if new || submitted || true then x else y) ≡ x
waiting true submitted x y = refl
waiting false true x y = refl
waiting false false x y = refl

not_final : (b : Bool) → is_final (if b then queued else running) ≡ false
not_final true = refl
not_final false = refl

early :
    (accepted live done killed failed : Bool)
    → ((if accepted
            then "ACCEPTED"
            else if live
            then "RUNNING"
            else if done
            then "FINISHED"
            else if killed
            then "KILLED"
            else if failed
            then "FAILED"
            else "UNDEFINED")
          == "ACCEPTED"
        || (if accepted
            then "ACCEPTED"
            else if live
            then "RUNNING"
            else if done
            then "FINISHED"
            else if killed
            then "KILLED"
            else if failed
            then "FAILED"
            else "UNDEFINED")
          == "RUNNING")
      ≡ true
    → (accepted ≡ true) ⊎ (live ≡ true)
early true live done killed failed h = inl refl
early false true done killed failed h = inr refl
early false false true killed failed h = absurd (false≢true h)
early false false false true failed h = absurd (false≢true h)
early false false false false true h = absurd (false≢true h)
early false false false false false h = absurd (false≢true h)

-- For any Kubernetes state, the status of the job is final exactly when the state that is told to
-- the ETL API is "FINISHED" or "FAILED".
pub k8s_final_agrees :
    (state : String)
    → is_final (k8s_state_to_openeo_job_status state)
      ≡ (k8s_state_to_etl_state state == "FINISHED" || k8s_state_to_etl_state state == "FAILED")
k8s_final_agrees state =
    k8s_tests (state == "" || state == "SUBMITTED") (state == "RUNNING" || state == "SUCCEEDING")
      (state == "COMPLETED")
      (state == "FAILED" || state == "SUBMISSION_FAILED" || state == "FAILING")

-- For a YARN state that is told to the ETL API as "ACCEPTED" or "RUNNING", and any final state
-- that YARN gives beside it, the status of the job is not final.
pub yarn_final_agrees :
    (state final_state : String)
    → (yarn_state_to_etl_state state == "ACCEPTED" || yarn_state_to_etl_state state == "RUNNING")
      ≡ true
    → is_final (yarn_state_to_openeo_job_status state final_state) ≡ false
yarn_final_agrees state final_state h =
    elim (early (state == "ACCEPTED") (state == "RUNNING") (state == "FINISHED") (state == "KILLED")
      (state == "FAILED") h) [
        | inl accepted ↦ rw (accepted, waiting) refl
        | inr live ↦
            rw live (not_final (state == "NEW" || state == "SUBMITTED" || state == "ACCEPTED"))
      ]

-- ===== src/Batch/Polling/Failures.antt =====
-- When `GpsBatchJobs.poll_job_dependencies` fails a job, and how.
use openeo_geopyspark_driver.Prelude.{
  String, ◌≡◌, refl, ◌∙◌, ap, Bool, true, false, ◌||◌, Option, List, [], ◌∷◌, ◌⊎◌, inl, inr,
}
use openeo_geopyspark_driver.Outcome.{ok, Exec}
use openeo_geopyspark_driver.Floats.{Floats}
use openeo_geopyspark_driver.Json.{Json, Items, Fields}
use openeo_geopyspark_driver.Codec.{JsonCodec}
use openeo_geopyspark_driver.Dict.{Dict, values}
use openeo_geopyspark_driver.Batch.{BatchRegistry}
use openeo_geopyspark_driver.Batch.World.{Services, World}
use openeo_geopyspark_driver.Batch.Options.{Builtins, Defaults}
use openeo_geopyspark_driver.Batch.Start.Setup.{Deployment}
use openeo_geopyspark_driver.Batch.Polling.Sources.{
  Watched, Process, Processes, batch_processes_of, results_of,
}
use openeo_geopyspark_driver.Batch.Polling.{
  is_done, is_failed, is_partial, has_failed, any, all, on_state, fail_job, was_retried,
  check_processes, dependencies_in,
}
use openeo_geopyspark_driver.Registry.Info.{require_str}
use mathlib.Core.List.{Memᴰ}
use openeo_geopyspark_driver.Prelude.{sym, arith, ◌≢◌, ne→neq}
use openeo_geopyspark_driver.Outcome.{◌>>◌, Result-cases}
use openeo_geopyspark_driver.Json.{str, get_or_null}
use openeo_geopyspark_driver.Batch.Polling.Laws.{poll, poll_lem, check_results_lem}

-- One element decides `any` and `all`; otherwise each has to be looked at.
any-Mem :
    {A : Type 0} (p : A → Bool) (x : A) (xs : List A) → Memᴰ x xs → p x ≡ true → any p xs ≡ true
any-Mem p x [] m h = elim m [ ]
any-Mem p x (y ∷ ys) (Memᴰ.head e) h = rw (ap p (sym e) ∙ h) refl
any-Mem p x (y ∷ ys) (Memᴰ.tail m) h = ground (arith, any-Mem p x ys m h)

all-Mem :
    {A : Type 0} (p : A → Bool) (x : A) (xs : List A) → Memᴰ x xs → p x ≡ false → all p xs ≡ false
all-Mem p x [] m h = elim m [ ]
all-Mem p x (y ∷ ys) (Memᴰ.head e) h = rw (ap p (sym e) ∙ h) refl
all-Mem p x (y ∷ ys) (Memᴰ.tail m) h = ground (arith, all-Mem p x ys m h)

any_none :
    {A : Type 0} (p : A → Bool) (xs : List A)
    → ((x : A) → Memᴰ x xs → p x ≡ false)
    → any p xs ≡ false
any_none p [] h = refl
any_none p (x ∷ xs) h =
    let first = h x (Memᴰ.head refl) in
    let rest = any_none p xs (λ y m. h y (Memᴰ.tail m)) in rw (first, rest) refl

all_each :
    {A : Type 0} (p : A → Bool) (xs : List A) → ((x : A) → Memᴰ x xs → p x ≡ true) → all p xs ≡ true
all_each p [] h = refl
all_each p (x ∷ xs) h =
    let first = h x (Memᴰ.head refl) in
    let rest = all_each p xs (λ y m. h y (Memᴰ.tail m)) in rw (first, rest) refl

module _ (R : Floats) (C : JsonCodec R.Float) (J : BatchRegistry R.Float) (X : Services R J)
    (P : Builtins R) (D : Defaults R) (Y : Deployment R) (S : Watched R J X) where
  -- The two changes that fail a job, on the registry.
  abbrev pub fails_in : String → String → String → Exec J.State (Unit {0})
  fails_in now job user =
      J.set_dependency_status job user "error" >> J.set_status now job user "error"

  fail_job_lem :
      (now job user : String) (w : World R J X)
      → fail_job R C J X P D Y S now job user w ≡ (
        (fails_in now job user w.registry).0,
        record w { registry = (fails_in now job user w.registry).1 },
      )
  fail_job_lem now job user w =
      elim (Result-cases (J.set_dependency_status job user "error" w.registry).0) [
        | inl (u, runs) ↦ rw runs refl
        | inr (e, raised) ↦ rw raised refl
      ]

  module _ (now job user alias : String) (token : Option String) (info : Fields R.Float)
      (ds : Items R.Float) (is_job : require_str "job_id" info ≡ ok job)
      (is_user : require_str "user_id" info ≡ ok user)
      (are_dependencies : dependencies_in R C J X P D Y S info ≡ ok ds) (w : World R J X)
      (ps : Processes R J X S)
      (are_processes : (batch_processes_of R J X S alias token ds w).0 ≡ ok ps) where
    -- A batch process that is looked at, by its status.
    abbrev pub Has : String → Type 0
    Has status = (p : Process R J X S) × Memᴰ p (values ps) × (S.status p.details ≡ status)

    abbrev pub Each : (String → Type 0) → Type 0
    Each Q = (p : Process R J X S) → Memᴰ p (values ps) → Q (S.status p.details)

    -- A batch process has failed; or one has partially failed after a retry, and all the others have
    -- done so or are done; or the results of another job are in error or canceled, while no process
    -- has failed and either all are done or one is neither done nor partially failed.
    pub data IsHopeless : Type 0 where
      process_failed : Has "FAILED" → IsHopeless
      retry_failed :
          Has "PARTIAL"
          → Each (λ s. (s ≡ "DONE") ⊎ (s ≡ "PARTIAL"))
          → get_or_null "dependency_status" info ≡ str "awaiting_retry"
          → IsHopeless
      result_failed :
          (rs : Dict (Json R.Float)) (status : String)
          → Each (λ s. s ≢ "FAILED")
          → Each (λ s. s ≡ "DONE")
            ⊎ ((p : Process R J X S) × Memᴰ p (values ps)
                × (S.status p.details ≢ "DONE")
                × (S.status p.details ≢ "PARTIAL"))
          → (results_of R J X S user ds w).0 ≡ ok rs
          → Memᴰ (str status) (values rs)
          → (status ≡ "error") ⊎ (status ≡ "canceled")
          → IsHopeless

    any-Has :
        (test : String → Bool) (status : String)
        → test status ≡ true
        → Has status
        → any (on_state R C J X P D Y S test) (values ps) ≡ true
    any-Has test status h (p, m, e) =
        any-Mem (on_state R C J X P D Y S test) p (values ps) m (ap test e ∙ h)

    all-Has :
        (test : String → Bool) (status : String)
        → test status ≡ false
        → Has status
        → all (on_state R C J X P D Y S test) (values ps) ≡ false
    all-Has test status h (p, m, e) =
        all-Mem (on_state R C J X P D Y S test) p (values ps) m (ap test e ∙ h)

    check_fails :
        IsHopeless
        → check_processes R C J X P D Y S now job user token info ds (values ps) w
          ≡ fail_job R C J X P D Y S now job user w
    unfolding check_processes
    check_fails (process_failed has) = rw (any-Has is_failed "FAILED" refl has) refl
    check_fails (retry_failed has each retried) =
        let none_failed =
          any_none (on_state R C J X P D Y S is_failed) (values ps)
            (λ p m. elim (each p m) [ inl e ↦ ap is_failed e | inr e ↦ ap is_failed e ]) in
        let over =
          all_each (on_state R C J X P D Y S (λ s. is_done s || is_partial s)) (values ps) (λ p m.
            elim (each p m) [
              | inl e ↦ ap (λ s. is_done s || is_partial s) e
              | inr e ↦ ap (λ s. is_done s || is_partial s) e
            ]) in
        rw (none_failed, all-Has is_done "PARTIAL" refl has, over, was_retried, retried) refl
    check_fails (result_failed rs status unfailed checked are_results listed bad) =
        let none_failed =
          any_none (on_state R C J X P D Y S is_failed) (values ps)
            (λ p m. ne→neq (S.status p.details) "FAILED" (unfailed p m)) in
        let failed = any-Mem has_failed (str status) (values rs) listed (elim bad [
          | inl e ↦ ap (λ s. has_failed {F = R.Float} (str s)) e
          | inr e ↦ ap (λ s. has_failed {F = R.Float} (str s)) e
        ]) in
        elim checked [
          | inl every ↦
              let finished =
                all_each (on_state R C J X P D Y S is_done) (values ps)
                  (λ p m. ap is_done (every p m)) in
              rw
                (
                  none_failed,
                  finished,
                  check_results_lem R C J X P D Y S now job user alias token info ds is_job is_user
                      are_dependencies w ps are_processes rs are_results true,
                  failed,
                )
                refl
          | inr (p, m, undone, whole) ↦
              let off_done = ne→neq (S.status p.details) "DONE" undone in
              let off_partial = ne→neq (S.status p.details) "PARTIAL" whole in
              let unfinished =
                all-Mem (on_state R C J X P D Y S is_done) p (values ps) m off_done in
              let busy =
                all-Mem (on_state R C J X P D Y S (λ s. is_done s || is_partial s)) p (values ps) m
                  (rw (off_done, off_partial) refl) in
              rw
                (
                  none_failed,
                  unfinished,
                  busy,
                  check_results_lem R C J X P D Y S now job user alias token info ds is_job is_user
                      are_dependencies w ps are_processes rs are_results false,
                  failed,
                )
                refl
        ]

    -- A poll, for a job info that has its ids and a list of dependencies and whose batch processes can
    -- be looked up, in each of these cases: a process has the status "FAILED"; or each is "DONE" or
    -- "PARTIAL", at least one is "PARTIAL", and the info says "awaiting_retry"; or none is "FAILED",
    -- the status of the results of another job is "error" or "canceled", and the processes are all
    -- "DONE" or one is neither "DONE" nor "PARTIAL". Then it sets the status of the dependencies to
    -- "error" and, if that does not raise, the status of the job to "error", raises what these raise,
    -- and changes nothing else: Sentinel Hub, the tasks and the cluster are as before.
    pub poll_fails :
        IsHopeless
        → poll R C J X P D Y S now job user alias token info ds is_job is_user are_dependencies w ps
            are_processes
          ≡ (
            (fails_in now job user w.registry).0,
            record w { registry = (fails_in now job user w.registry).1 },
          )
    poll_fails hopeless =
        poll_lem R C J X P D Y S now job user alias token info ds is_job is_user are_dependencies w
          ps are_processes
        ∙ check_fails hopeless
        ∙ fail_job_lem now job user w

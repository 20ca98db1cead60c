-- ===== src/Registry/Zk/Queries/Laws.antt =====
-- What the scans of `ZkJobRegistry` yield.
use mathlib.Core.List.{append_assoc, append-nil}
use openeo_geopyspark_driver.Prelude.{
  ℕ, Option, String, ◌≡◌, refl, sym, Bool, true, false, none, some, List, [], ◌∷◌, ◌++◌,
}
use openeo_geopyspark_driver.Outcome.{ok, err, job_not_found, stripped_specification}
use openeo_geopyspark_driver.Floats.{Floats}
use openeo_geopyspark_driver.Codec.{JsonCodec}
use openeo_geopyspark_driver.Zookeeper.{ZkPath, ZkClient}
use openeo_geopyspark_driver.Registry.Info.{JobInfo}
use openeo_geopyspark_driver.Json.{get_or_null, truthy}
use openeo_geopyspark_driver.Registry.Zk.{get_job, ongoing}
use openeo_geopyspark_driver.Registry.Zk.Queries.{
  Yield, limited, running_of_users, get_running_jobs, and_then, running_job, running_of_user,
}

and_then_assoc :
    {A : Type 0} (a b c : Yield A) → and_then (and_then a b) c ≡ and_then a (and_then b c)
and_then_assoc (xs, some e) b c = refl
and_then_assoc (xs, none) (ys, some e) c = refl
and_then_assoc (xs, none) (ys, none) (zs, e) = rw append_assoc

module _ (R : Floats) (C : JsonCodec R.Float) (Z : ZkClient C.Bytes) (top : String)
    (base : ZkPath) where
  -- A scan of a user's jobs is the scan of some of them, and then of the others.
  running_of_user-append :
      (parse : Bool) (user : String) (first rest : List String) (s : Z.State)
      → running_of_user R C Z top base parse user (first ++ rest) s
        ≡ and_then
            (running_of_user R C Z top base parse user first s)
            (running_of_user R C Z top base parse user rest s)
  unfolding running_of_user
  running_of_user-append parse user [] rest s = refl
  running_of_user-append parse user (job ∷ first) rest s =
      rw (running_of_user-append parse user first rest s) (
        sym (
          and_then_assoc (running_job R C Z top base parse user job s)
            (running_of_user R C Z top base parse user first s)
            (running_of_user R C Z top base parse user rest s)))

  -- A stripped job, after jobs whose scan ends without an exception.
  running_of_user_stripped :
      (parse : Bool) (user job : String) (first rest : List String) (s : Z.State)
      (yielded : List (JobInfo R C))
      → running_of_user R C Z top base parse user first s ≡ (yielded, none)
      → get_job R C Z top base parse false job user s ≡ err stripped_specification
      → running_of_user R C Z top base parse user (first ++ (job ∷ rest)) s
        ≡ (yielded, some stripped_specification)
  running_of_user_stripped parse user job first rest s yielded before stripped =
      rw (running_of_user-append parse user first (job ∷ rest) s, before)
        (unfold running_of_user running_job in rw (stripped, running_job) (rw append-nil refl))

  module _ (sample : ℕ → List String → List String) (limit : Option ℕ) (parse : Bool)
      (s : Z.State) where
    abbrev users_scan : List String → Yield (JobInfo R C)
    users_scan users = running_of_users R C Z top base sample limit parse users s

    abbrev user_scan : String → Yield (JobInfo R C)
    user_scan user = elim (Z.get_children (ongoing R C Z top base (user ∷ [])) s) [
      | err e ↦ ([], some e)
      | ok jobs ↦ running_of_user R C Z top base parse user (limited sample limit jobs) s
    ]

    users_scan-append :
        (first rest : List String)
        → users_scan (first ++ rest) ≡ and_then (users_scan first) (users_scan rest)
    unfolding running_of_users
    users_scan-append [] rest = refl
    users_scan-append (user ∷ first) rest =
        rw (users_scan-append first rest)
          (sym (and_then_assoc (user_scan user) (users_scan first) (users_scan rest)))

    -- A listed job whose read raises `ZkStrippedSpecification`, and that is in the sample of its
    -- user's jobs, ends the whole scan of running jobs with that exception, where the scans of the
    -- users before this one and of the user's jobs before it end without one: what these have yielded
    -- is yielded, and nothing of the jobs after it, those of later users included.
    pub get_running_jobs_stripped :
        (earlier later : List String) (user job : String) (jobs first rest : List String)
        (before yielded : List (JobInfo R C))
        → Z.get_children (ongoing R C Z top base []) s ≡ ok (earlier ++ (user ∷ later))
        → users_scan earlier ≡ (before, none)
        → Z.get_children (ongoing R C Z top base (user ∷ [])) s ≡ ok jobs
        → limited sample limit jobs ≡ first ++ (job ∷ rest)
        → running_of_user R C Z top base parse user first s ≡ (yielded, none)
        → get_job R C Z top base parse false job user s ≡ err stripped_specification
        → get_running_jobs R C Z top base sample limit parse s
          ≡ (before ++ yielded, some stripped_specification)
    unfolding get_running_jobs running_of_users
    get_running_jobs_stripped earlier later user job jobs first rest before yielded users is_before
          listed sampled fine stripped =
        let ends = running_of_user_stripped parse user job first rest s yielded fine stripped in
        rw
          (
            users,
            get_running_jobs,
            users_scan-append earlier (user ∷ later),
            is_before,
            listed,
            sampled,
            ends,
          )
          refl

    -- What the scan of a user's jobs yields: the infos of the jobs that have an application id, where
    -- each job can be read or is not found.
    pub data Scan (user : String) : List String → List (JobInfo R C) → Type 0 where
      no_more : Scan user [] []
      gone :
          (job : String) {jobs : List String} {infos : List (JobInfo R C)}
          → get_job R C Z top base parse false job user s ≡ err (job_not_found job)
          → Scan user jobs infos
          → Scan user (job ∷ jobs) infos
      idle :
          (job : String) (info : JobInfo R C) {jobs : List String} {infos : List (JobInfo R C)}
          → get_job R C Z top base parse false job user s ≡ ok info
          → truthy R (get_or_null "application_id" info) ≡ false
          → Scan user jobs infos
          → Scan user (job ∷ jobs) infos
      running :
          (job : String) (info : JobInfo R C) {jobs : List String} {infos : List (JobInfo R C)}
          → get_job R C Z top base parse false job user s ≡ ok info
          → truthy R (get_or_null "application_id" info) ≡ true
          → Scan user jobs infos
          → Scan user (job ∷ jobs) (info ∷ infos)

    -- The same for several users, of whose jobs a sample is scanned.
    pub data Scans : List String → List (JobInfo R C) → Type 0 where
      nobody : Scans [] []
      of_user :
          (user : String) (jobs : List String) {users : List String}
          {infos more : List (JobInfo R C)}
          → Z.get_children (ongoing R C Z top base (user ∷ [])) s ≡ ok jobs
          → Scan user (limited sample limit jobs) infos
          → Scans users more
          → Scans (user ∷ users) (infos ++ more)

    scan_lem :
        (user : String) (jobs : List String) (infos : List (JobInfo R C))
        → Scan user jobs infos
        → running_of_user R C Z top base parse user jobs s ≡ (infos, none)
    unfolding running_of_user running_job
    scan_lem user _ _ no_more = refl
    scan_lem user _ infos (gone job {jobs} read more) =
        let rest = scan_lem user jobs infos more in rw (read, running_job, rest) refl
    scan_lem user _ infos (idle job info {jobs} read without more) =
        let rest = scan_lem user jobs infos more in rw (read, running_job, without, rest) refl
    scan_lem user _ _ (running job info {jobs} {infos} read has more) =
        let rest = scan_lem user jobs infos more in rw (read, running_job, has, rest) refl

    scans_lem :
        (users : List String) (infos : List (JobInfo R C))
        → Scans users infos
        → users_scan users ≡ (infos, none)
    unfolding running_of_users
    scans_lem _ _ nobody = refl
    scans_lem _ _ (of_user user jobs {users} {infos} {more} listed scan scans) =
        let first = scan_lem user (limited sample limit jobs) infos scan in
        let rest = scans_lem users more scans in rw (listed, first, rest) refl

    -- Where the users and their jobs are listed, and each job in the sample of its user's jobs can be
    -- read or has disappeared: the scan of running jobs ends without an exception, and yields, user
    -- by user and in the order of the samples, the infos of exactly the jobs that have not
    -- disappeared and have an application id.
    pub get_running_jobs_lem :
        (users : List String) (infos : List (JobInfo R C))
        → Z.get_children (ongoing R C Z top base []) s ≡ ok users
        → Scans users infos
        → get_running_jobs R C Z top base sample limit parse s ≡ (infos, none)
    unfolding get_running_jobs
    get_running_jobs_lem users infos listed scans =
        rw (listed, get_running_jobs, scans_lem users infos scans) refl

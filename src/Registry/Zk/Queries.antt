-- ===== src/Registry/Zk/Queries.antt =====
-- The scans of `ZkJobRegistry`: `get_running_jobs`, an iterator, and `get_all_jobs_before`.
pub mod Laws
use openeo_geopyspark_driver.Prelude.{
  ℕ, String, Bool, true, false, Option, none, some, List, [], ◌∷◌, ◌++◌, ltb, eqb, length,
  if◌then◌else◌,
}
use openeo_geopyspark_driver.Outcome.{Error, Result, ok, err, no_node, job_not_found}
use openeo_geopyspark_driver.Floats.{Floats}
use openeo_geopyspark_driver.Json.{Json, str, Fields, end, field, get, get_or_null, put, truthy}
use openeo_geopyspark_driver.Codec.{JsonCodec}
use openeo_geopyspark_driver.Zookeeper.{ZkPath, ZkClient}
use openeo_geopyspark_driver.Registry.Info.{JobInfo}
use openeo_geopyspark_driver.Registry.Zk.{ongoing, done, get_job}

-- `if limit and len(ids) > limit: ids = random.sample(ids, limit)`
abbrev pub limited : (ℕ → List String → List String) → Option ℕ → List String → List String
limited sample none ids = ids
limited sample (some limit) ids =
    if eqb limit 0 then ids else if ltb limit (length ids) then sample limit ids else ids

-- What an iterator has yielded, and the exception that ended it, if one did.
abbrev pub Yield : Type 0 → Type 0
Yield A = List A × Option Error

-- A second iterator, after a first one that has come to its end.
abbrev pub and_then : {A : Type 0} → Yield A → Yield A → Yield A
and_then (xs, none) (ys, e) = (xs ++ ys, e)
and_then (xs, some e) rest = (xs, some e)

-- Two lists that are read one after the other.
abbrev pub both : {A : Type 0} → Result (List A) → Result (List A) → Result (List A)
both (err e) rest = err e
both (ok xs) (err e) = err e
both (ok xs) (ok ys) = ok (xs ++ ys)

module _ (R : Floats) (C : JsonCodec R.Float) (Z : ZkClient C.Bytes) (top : String)
    (base : ZkPath) where
  -- One job of the scan: skipped when it has disappeared or has no application id.
  unfoldable pub running_job : Bool → String → String → Z.State → Yield (JobInfo R C)
  running_job parse user job s = elim (get_job R C Z top base parse false job user s) [
    | err e ↦ elim e [ job_not_found _ ↦ ([], none) | other ↦ ([], some other) ]
    | ok info ↦
        if truthy R (get_or_null "application_id" info) then (info ∷ [], none) else ([], none)
  ]

  unfoldable pub running_of_user : Bool → String → List String → Z.State → Yield (JobInfo R C)
  running_of_user parse user [] s = ([], none)
  running_of_user parse user (job ∷ jobs) s =
      and_then (running_job parse user job s) (running_of_user parse user jobs s)

  unfoldable pub running_of_users :
      (ℕ → List String → List String)
      → Option ℕ
      → Bool
      → List String
      → Z.State
      → Yield (JobInfo R C)
  unfolding running_of_user running_job
  running_of_users sample limit parse [] s = ([], none)
  running_of_users sample limit parse (user ∷ users) s =
      and_then
        (elim (Z.get_children (ongoing R C Z top base (user ∷ [])) s) [
          | err e ↦ ([], some e)
          | ok jobs ↦ running_of_user parse user (limited sample limit jobs) s
        ])
        (running_of_users sample limit parse users s)

  -- `get_running_jobs`, with Python's `random.sample`
  pub get_running_jobs :
      (ℕ → List String → List String) → Option ℕ → Bool → Z.State → Yield (JobInfo R C)
  unfolding running_of_users
  get_running_jobs sample limit parse s = elim (Z.get_children (ongoing R C Z top base []) s) [
    | err e ↦ ([], some e)
    | ok users ↦ running_of_users sample limit parse users s
  ]

  -- The fields that the whitelist names, in its order, or all of them.
  abbrev pub whitelisted : List String → JobInfo R C → JobInfo R C
  whitelisted [] info = end
  whitelisted (k ∷ ks) info =
      let rest = whitelisted ks info in elim (get k info) [ none ↦ rest | some v ↦ field k v rest ]

  abbrev pub project : List String → JobInfo R C → JobInfo R C
  project [] info = info
  project (k ∷ ks) info = whitelisted (k ∷ ks) info

  -- `get_jobs_in` of `get_all_jobs_before`. A date is a `Date`, read from the "updated" field, or
  -- else the time of the node's last change.
  module _ {Date : Type 0} (parse_date : Json R.Float → Result Date)
      (last_modified : ZkPath → Z.State → Date) (earlier : Date → Date → Bool) (upper : Date)
      (whitelist : List String) where
    pub job_date : JobInfo R C → ZkPath → Z.State → Result Date
    job_date info path s =
        let updated = get_or_null "updated" info in
        if truthy R updated then parse_date updated else ok (last_modified path s)

    pub select_job : ZkPath → Z.State → Result (List (JobInfo R C))
    unfolding job_date
    select_job path s = elim (Z.get path s) [
      | err e ↦ err e
      | ok (bytes, version) ↦ elim (C.decode bytes) [
        | err e ↦ err e
        | ok info ↦ elim (job_date info path s) [
          | err e ↦ err e
          | ok date ↦ if earlier date upper then ok (project whitelist info ∷ []) else ok []
        ]
      ]
    ]

    pub select_jobs :
        (ZkPath → ZkPath) → String → List String → Z.State → Result (List (JobInfo R C))
    select_jobs area user [] s = ok []
    select_jobs area user (job ∷ jobs) s =
        both (select_job (area (user ∷ job ∷ [])) s) (select_jobs area user jobs s)

    pub select_users :
        (ℕ → List String → List String)
        → Option ℕ
        → (ZkPath → ZkPath)
        → List String
        → Z.State
        → Result (List (JobInfo R C))
    unfolding select_jobs
    select_users sample limit area [] s = ok []
    select_users sample limit area (user ∷ users) s =
        both
          (elim (Z.get_children (area (user ∷ [])) s) [
            | err e ↦ elim e [ no_node ↦ ok [] | other ↦ err other ]
            | ok jobs ↦ select_jobs area user (limited sample limit jobs) s
          ])
          (select_users sample limit area users s)

    -- `sorted` is Python's; the users are those of the area, or the given ones.
    pub get_jobs_in :
        (List String → List String)
        → (ℕ → List String → List String)
        → Option ℕ
        → Option (List String)
        → (ZkPath → ZkPath)
        → Z.State
        → Result (List (JobInfo R C))
    unfolding select_users
    get_jobs_in sorted sample limit (some users) area s =
        select_users sample limit area (sorted users) s
    get_jobs_in sorted sample limit none area s = elim (Z.get_children (area []) s) [
      | err e ↦ err e
      | ok users ↦ select_users sample limit area (sorted users) s
    ]

    pub get_all_jobs_before :
        (List String → List String)
        → (ℕ → List String → List String)
        → Option ℕ
        → Option (List String)
        → Bool
        → Bool
        → Z.State
        → Result (List (JobInfo R C))
    unfolding get_jobs_in
    get_all_jobs_before sorted sample limit users include_ongoing include_done s =
        both
          (if include_ongoing
            then get_jobs_in sorted sample limit users (ongoing R C Z top base) s
            else ok [])
          (if include_done
            then get_jobs_in sorted sample limit users (done R C Z top base) s
            else ok [])

-- ===== src/Registry/Double/Queries.antt =====
-- The queries of `DoubleJobRegistry` over many jobs: `get_user_jobs` and `get_all_jobs_before`.
use openeo_geopyspark_driver.Prelude.{
  ℕ, String, Bool, true, false, Option, none, some, List, [], ◌∷◌, if◌then◌else◌,
}
use openeo_geopyspark_driver.Outcome.{Result, ok, err, other_error}
use openeo_geopyspark_driver.Outcome.Try.{◌>>=◌}
use openeo_geopyspark_driver.Floats.{Floats}
use openeo_geopyspark_driver.Json.{Json, Fields}
use openeo_geopyspark_driver.Codec.{JsonCodec}
use openeo_geopyspark_driver.Zookeeper.{ZkPath, ZkClient}
use openeo_geopyspark_driver.Registry.Interface.{JobRegistry}
use openeo_geopyspark_driver.Registry.Zk
use openeo_geopyspark_driver.Registry.Zk.Queries as Queries
use openeo_geopyspark_driver.Registry.Zk.Metadata.{
  Calendar, BatchJobMetadata, zk_job_info_to_metadata,
}
use openeo_geopyspark_driver.Registry.Double.{Present, Both}

-- `a or b or []`, on lists that may be `None`.
abbrev pub first_of : {A : Type 0} → Option (List A) → Option (List A) → List A
first_of (some (x ∷ xs)) b = x ∷ xs
first_of a (some ys) = ys
first_of a none = []

-- `list_user_jobs` is that of the other registry, its answer converted to metadata by the driver; a
-- `JobListing` counts as the list of its jobs.
module _ (R : Floats) (C : JsonCodec R.Float) (Z : ZkClient C.Bytes) (top : String) (base : ZkPath)
    (E : JobRegistry R.Float) (p : Present) where
  module _ (T : Calendar R.Float)
      (list_user_jobs : String → E.State → Result (List (BatchJobMetadata T))) where
    abbrev pub metadata_of_all : List (Fields R.Float) → Result (List (BatchJobMetadata T))
    metadata_of_all [] = ok []
    metadata_of_all (d ∷ ds) = do
      m ← zk_job_info_to_metadata R T d
      ms ← metadata_of_all ds
      ok (m ∷ ms)

    abbrev pub zk_jobs : String → Z.State → Result (List (BatchJobMetadata T))
    zk_jobs user z = Zk.get_user_jobs R C Z top base user z >>= metadata_of_all

    -- What a registry answers, or `None` where it is missing.
    abbrev pub answer : {A : Type 0} → Bool → Result A → Result (Option A)
    answer false r = ok none
    answer true r = r >>= λ a. ok (some a)

    pub get_user_jobs : String → Both R C Z top base E → Result (List (BatchJobMetadata T))
    get_user_jobs user (z, e) = do
      from_zk ← answer p.zk (zk_jobs user z)
      from_ejr ← answer p.ejr (list_user_jobs user e)
      ok (first_of from_zk from_ejr)

  -- Only ZooKeeper's jobs; `sorted` and `random.sample` are Python's.
  pub get_all_jobs_before :
      {Date : Type 0}
      → (Json R.Float → Result Date)
      → (ZkPath → Z.State → Date)
      → (Date → Date → Bool)
      → Date
      → (List String → List String)
      → (ℕ → List String → List String)
      → Option ℕ
      → Option (List String)
      → Bool
      → Bool
      → Both R C Z top base E
      → Result (List (Fields R.Float))
  get_all_jobs_before parse_date last_modified earlier upper sorted sample user_limit user_ids
        include_ongoing include_done (z, e) =
      if p.zk
      then Queries.get_all_jobs_before R C Z top base parse_date last_modified earlier upper []
          sorted sample user_limit user_ids include_ongoing include_done z
      else err (other_error "NotImplementedError")

-- ===== src/Udps/Zk/Listing.antt =====
-- The list of a user's processes in ZooKeeper, `get_for_user`.
use mathlib.Core.List.{Perm}
use openeo_geopyspark_driver.Prelude.{String, ◌≡◌, refl, some, List, [], ◌∷◌, map, arith}
use openeo_geopyspark_driver.Prelude.Sorting.{sort_by, IsSorted, sort_by-IsSorted, sort_by-Perm}
use openeo_geopyspark_driver.Outcome.{ok}
use openeo_geopyspark_driver.Floats.{Floats}
use openeo_geopyspark_driver.Codec.{JsonCodec}
use openeo_geopyspark_driver.Zookeeper.{ZkPath, ZkClient}
use openeo_geopyspark_driver.Udps.{ProcessModel}
use openeo_geopyspark_driver.Udps.Zk.{user_path, get, get_each, require_each, get_for_user}

module _ (R : Floats) (C : JsonCodec R.Float) (Z : ZkClient C.Bytes) (M : ProcessModel R.Float)
    (lower : String → String) (top : String) (base : ZkPath) where
  -- The key of the order.
  abbrev pub key : M.Process → String
  key p = lower (M.id p)

  module _ (user : String) (s : Z.State) where
    -- The processes that are found at the ids, one by one.
    pub data Reads : List String → List M.Process → Type 0 where
      nothing : Reads [] []
      reads :
          {ids : List String} {ps : List M.Process} (id : String) (p : M.Process)
          → get R C Z M lower top base user id s ≡ ok (some p)
          → Reads ids ps
          → Reads (id ∷ ids) (p ∷ ps)

    get_each-Reads :
        {ids : List String} {ps : List M.Process}
        → Reads ids ps
        → get_each R C Z M lower top base user ids s ≡ ok (map some ps)
    unfolding get_each
    get_each-Reads nothing = refl
    get_each-Reads (reads id p e rest) = rw (e, get_each-Reads rest) refl

    require_each-map :
        (ps : List M.Process) → require_each R C Z M lower top base (map some ps) ≡ ok ps
    require_each-map [] = refl
    require_each-map (p ∷ ps) = ground (arith, require_each-map ps)

    -- Where the ids under the user's node are listed and each of them is read as a process,
    -- `get_for_user` returns exactly these processes, each as often as it was read, in the order of
    -- their ids in lower case.
    pub get_for_user_lem :
        {ids : List String} {ps : List M.Process}
        → Z.get_children (user_path R C Z M lower top base user) s ≡ ok ids
        → Reads ids ps
        → (qs : List M.Process) × (get_for_user R C Z M lower top base user s ≡ ok qs)
          × Perm qs ps
          × IsSorted key qs
    unfolding get_for_user get_each
    get_for_user_lem {ids} {ps} listed found =
        let each = get_each-Reads found in
        let all = require_each-map ps in
        (sort_by key ps, ground arith, sort_by-Perm key ps, sort_by-IsSorted key ps)

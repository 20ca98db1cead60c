-- ===== src/Tests/Udps.antt =====
-- The repositories of user-defined processes, at processes that are their ids.
use mathlib.Core.List.{Perm}
use openeo_geopyspark_driver.Prelude.{ℕ, String, ◌≡◌, refl, List, [], ◌∷◌, arith}
use openeo_geopyspark_driver.Prelude.Sorting.{IsSorted}
use openeo_geopyspark_driver.Outcome.{ok}
use openeo_geopyspark_driver.Json.{str, obj, Fields, end, field}
use openeo_geopyspark_driver.Zookeeper.Mock.{
  get_children, get as get_node, find, ZNode, znode, nil, child,
}
use openeo_geopyspark_driver.Zookeeper.Mock.Writes.{mock_client-IsLawful}
use openeo_geopyspark_driver.Registry.Info.{require_str}
use openeo_geopyspark_driver.Udps.{ProcessModel, KeepsId, IsLawful}
use openeo_geopyspark_driver.Udps.Memory.{memory_repository, memory_repository-IsLawful}
use openeo_geopyspark_driver.Udps.Zk.{zk_repository, get, parse, get_for_user}
use openeo_geopyspark_driver.Udps.Zk.Laws.{Reachable, zk_repository-IsLawful}
use openeo_geopyspark_driver.Udps.Zk.Listing.{Reads, nothing, reads, key, get_for_user_lem}
use openeo_geopyspark_driver.Tests.Data.{numbers, codec, codec-IsFaithful, zk}

abbrev names_only : ProcessModel ℕ
names_only = record { Process = String; from_dict = require_str "id"; id = λ p. p }

names_only-KeepsId : KeepsId names_only
names_only-KeepsId = record { id-from_dict = λ d p h. ground arith }

memory_repository-IsLawful_example :
    IsLawful (memory_repository names_only) (λ user process s. Unit)
memory_repository-IsLawful_example = memory_repository-IsLawful names_only

-- Upper case is not needed here.
abbrev same : String → String
same s = s

zk_repository-IsLawful_example :
    IsLawful
      (zk_repository numbers codec zk names_only same "udps" [])
      (Reachable numbers codec zk names_only same "udps" [])
zk_repository-IsLawful_example =
    zk_repository-IsLawful numbers codec zk names_only same "udps" [] (mock_client-IsLawful end)
      codec-IsFaithful names_only-KeepsId

abbrev node : String → ZNode (Fields ℕ)
node id = znode (field "specification" (obj (field "id" (str id) end)) end) 0 nil

abbrev two_processes : ZNode (Fields ℕ)
two_processes = znode end 0 (
    child "udps"
      (znode end 0
        (child "alice" (znode end 0 (child "evi" (node "evi") (child "avg" (node "avg") nil))) nil))
      nil)

both_read :
    Reads numbers codec zk names_only same "udps" [] "alice" two_processes
      ("evi" ∷ "avg" ∷ [])
      ("evi" ∷ "avg" ∷ [])
unfolding get parse get_node find
both_read = reads "evi" "evi" refl (reads "avg" "avg" refl nothing)

both_listed : zk.get_children ("udps" ∷ "alice" ∷ []) two_processes ≡ ok ("evi" ∷ "avg" ∷ [])
unfolding get_children find
both_listed = refl

get_for_user_lem_example :
    (qs : List String) × (get_for_user numbers codec zk names_only same "udps" [] "alice"
        two_processes
      ≡ ok qs)
    × Perm qs ("evi" ∷ "avg" ∷ [])
    × IsSorted (key numbers codec zk names_only same "udps" []) qs
get_for_user_lem_example =
    get_for_user_lem numbers codec zk names_only same "udps" [] "alice" two_processes both_listed
      both_read

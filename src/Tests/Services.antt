-- ===== src/Tests/Services.antt =====
-- The ZooKeeper registry of services, at services that are an id and a time that the dict of their
-- metadata leaves out, on a machine that remembers
-- which servers have been stopped.
use openeo_geopyspark_driver.Prelude.{ℕ, String, ◌≡◌, refl, List, [], ◌∷◌, none, some, ltb}
use openeo_geopyspark_driver.Outcome.{ok, err, no_node, service_not_found}
use openeo_geopyspark_driver.Outcome.Try.{◌>>=◌}
use openeo_geopyspark_driver.Json.{str, obj, Fields, end, field}
use openeo_geopyspark_driver.Dict.{lookup}
use openeo_geopyspark_driver.Zookeeper.{ZkPath, IsLeaf}
use openeo_geopyspark_driver.Zookeeper.Mock.{get as get_node, find, ZNode, znode, nil, child}
use openeo_geopyspark_driver.Zookeeper.Mock.Writes.{mock_client-IsLawful}
use openeo_geopyspark_driver.Registry.Info.{require_str}
use openeo_geopyspark_driver.Services.{ServiceModel}
use openeo_geopyspark_driver.Services.Zk.{persist, get, get_metadata, stop_service}
use openeo_geopyspark_driver.Services.Zk.Laws.{
  Services, entity, OthersKept, persist-get_metadata, stop_service_lem,
}
use openeo_geopyspark_driver.Tests.Data.{numbers, codec, codec-IsFaithful, zk}

abbrev ids_only : ServiceModel ℕ
ids_only = record {
  Metadata = String × ℕ;
  Time = ℕ;
  Server = String;
  Machine = List String;
  from_dict = λ d. require_str "id" d >>= λ service. ok (service, 0);
  prepare_for_json = λ m. field "id" (str m.0) end;
  id = λ m. m.0;
  created = λ m. some m.1;
  legacy = λ service graph kind time. (service, time);
  before = ltb;
  stop = λ server machine. (ok tt, server ∷ machine);
}

abbrev no_time : ZkPath → ZNode (Fields ℕ) → ℕ
no_time path z = 0

abbrev Here : Type 0
Here = Services numbers codec zk ids_only no_time "services" []

-- A node for the user alice that holds one service, and one server that runs.
abbrev saved : Fields ℕ
saved = field "metadata" (obj (field "id" (str "s1") end)) (field "api_version" (str "1.0.0") end)

abbrev running : Here
running = record {
  stored = znode end 0 (
      child "services"
        (znode end 0 (child "alice" (znode end 0 (child "s1" (znode saved 0 nil) nil)) nil)) nil);
  services = ("s1", "server of s1") ∷ [];
  machine = [];
}

absent : zk.get ("services" ∷ "bob" ∷ "s2" ∷ []) running.stored ≡ err no_node
unfolding get_node find
absent = refl

persist-get_metadata_example :
    (s' : Here) × (persist numbers codec zk ids_only no_time "services" [] "bob"
        ("s2", 7)
        (str "1.2.0")
        running
      ≡ (ok tt, s'))
    × (get numbers codec zk ids_only no_time "services" [] "bob" "s2" s'
        ≡ ok (entity numbers codec zk ids_only no_time "services" [] ("s2", 0) (str "1.2.0")))
    × (get_metadata numbers codec zk ids_only no_time "services" [] "bob" "s2" s' ≡ ok ("s2", 0))
    × OthersKept numbers codec zk ids_only no_time "services" [] "bob" "s2" running s'
persist-get_metadata_example =
    persist-get_metadata numbers codec zk ids_only no_time "services" [] (mock_client-IsLawful end)
      codec-IsFaithful "bob" ("s2", 7) ("s2", 0) (str "1.2.0") running absent refl

there : zk.get ("services" ∷ "alice" ∷ "s1" ∷ []) running.stored ≡ ok (saved, 0)
unfolding get_node find
there = refl

childless : IsLeaf zk ("services" ∷ "alice" ∷ "s1" ∷ []) running.stored
unfolding get_node find
childless = λ name. refl

nobody : zk.get ("services" ∷ "_anonymous" ∷ "s1" ∷ []) running.stored ≡ err no_node
unfolding get_node find
nobody = refl

stop_service_lem_example :
    (s' : Here) × (stop_service numbers codec zk ids_only no_time "services" [] "alice" "s1" running
      ≡ (ok tt, s'))
    × (get_metadata numbers codec zk ids_only no_time "services" [] "alice" "s1" s'
        ≡ err (service_not_found "s1"))
    × (s'.machine ≡ "server of s1" ∷ [])
    × (lookup "s1" s'.services ≡ none)
    × OthersKept numbers codec zk ids_only no_time "services" [] "alice" "s1" running s'
stop_service_lem_example =
    stop_service_lem numbers codec zk ids_only no_time "services" [] (mock_client-IsLawful end)
      "alice" "s1" "server of s1" running there childless refl nobody refl refl

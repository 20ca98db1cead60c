-- ===== src/Tests/Data.antt =====
-- Test data: numbers, a codec, a ZooKeeper tree with one job, and the same job in memory.
use openeo_geopyspark_driver.Prelude.{
  ℕ, ◌+◌, ◌-◌, ◌*◌, ◌/◌, String, ◌==◌, ◌≡◌, ◌≢◌, refl, sym, ap, ◌∙◌, false, false≢true, true, arith,
  eqb, ltb, [], some, ◌∷◌,
}
use openeo_geopyspark_driver.Outcome.{ok, err, no_node, job_not_found}
use openeo_geopyspark_driver.Floats.{Floats}
use openeo_geopyspark_driver.Json.{Json, str, obj, Fields, end, field}
use openeo_geopyspark_driver.Codec.{JsonCodec, IsFaithful}
use openeo_geopyspark_driver.Dict.{Dict}
use openeo_geopyspark_driver.Zookeeper.{ZkPath, ZkClient, IsLeaf}
use openeo_geopyspark_driver.Zookeeper.Mock.{get, find, ZNode, Children, znode, nil, child}
use openeo_geopyspark_driver.Zookeeper.Mock.Laws.{mock_client}
use openeo_geopyspark_driver.Registry.Interface.{JobRegistry}
use openeo_geopyspark_driver.Registry.Zk.Laws.{Holds, IsOwn}
use openeo_geopyspark_driver.Registry.Zk.{get_job, read}
use openeo_geopyspark_driver.Registry.Memory as Memory
use openeo_geopyspark_driver.Registry.Memory.Laws.{memory_registry}

-- Natural numbers, of which those from a thousand on count as infinite.
abbrev pub numbers : Floats
numbers = record {
  Float = ℕ;
  of_int = λ n. n;
  add = λ x y. x + y;
  sub = λ x y. x - y;
  mul = λ x y. x * y;
  div = λ x y. x / y;
  eq = eqb;
  lt = ltb;
  is_finite = λ x. ltb x 1000;
  to_string = λ x. "inf";
}

abbrev pub graph : Json ℕ
graph = obj (field "add" (obj end) end)

abbrev pub specification : Json ℕ
specification = obj (field "process_graph" graph end)

-- Payloads are dicts as they are, and there is one text of JSON.
abbrev pub codec : JsonCodec ℕ
codec = record {
  Bytes = Fields ℕ;
  encode = λ d. d;
  decode = λ d. ok d;
  dumps = λ v. "{...}";
  loads = λ s. ok specification;
  show_int = λ n. "1";
}

pub codec-IsFaithful : IsFaithful codec
codec-IsFaithful = record { decode-encode = λ d. refl }

abbrev pub zk : ZkClient (Fields ℕ)
zk = mock_client end

abbrev pub job_info : Fields ℕ
job_info = field "job_id" (str "j1") (
    field "user_id" (str "alice")
      (field "status" (str "running") (field "application_id" (str "app1") end)))

-- The nodes of the areas, with what stands in them for the user "alice".
abbrev pub tree : Children (Fields ℕ) → Children (Fields ℕ) → ZNode (Fields ℕ)
tree ongoing done = znode end 0 (
    child "jobs"
      (znode end 0 (
        child "ongoing" (znode end 0 (child "alice" (znode end 0 ongoing) nil))
          (child "done" (znode end 0 (child "alice" (znode end 0 done) nil)) nil)))
      nil)

abbrev pub job_node : Children (Fields ℕ)
job_node = child "j1" (znode job_info 0 nil) nil

abbrev pub one_ongoing : ZNode (Fields ℕ)
one_ongoing = tree job_node nil

abbrev pub one_done : ZNode (Fields ℕ)
one_done = tree nil job_node

abbrev pub no_jobs : ZNode (Fields ℕ)
no_jobs = tree nil nil

abbrev pub memory : JobRegistry ℕ
memory = memory_registry numbers (λ s. ok s)

abbrev pub one_known : Dict (Fields ℕ)
one_known = ("j1", job_info) ∷ []

pub given : (s : String) → (s == "") ≡ false → s ≢ ""
given s h e = false≢true (sym h ∙ ap (λ t. t == "") e)

abbrev pub in_area : String → ZkPath
in_area area = "jobs" ∷ area ∷ "alice" ∷ "j1" ∷ []

pub job_info-IsOwn : IsOwn numbers codec zk "j1" "alice" job_info
job_info-IsOwn = record { job_id = refl; user_id = refl }

pub one_ongoing-Holds : Holds numbers codec zk (in_area "ongoing") job_info 0 one_ongoing
unfolding get find
one_ongoing-Holds = record { bytes = job_info; at = refl; decodes = refl }

pub one_ongoing-IsLeaf : (area : String) → IsLeaf zk (in_area area) one_ongoing
unfolding get find
one_ongoing-IsLeaf area name = ground arith

pub free_done : zk.get (in_area "done") one_ongoing ≡ err no_node
unfolding get find
free_done = refl

pub one_done-Holds : Holds numbers codec zk (in_area "done") job_info 0 one_done
unfolding get find
one_done-Holds = record { bytes = job_info; at = refl; decodes = refl }

pub one_done-IsLeaf : IsLeaf zk (in_area "done") one_done
unfolding get find
one_done-IsLeaf name = refl

pub free_ongoing : zk.get (in_area "ongoing") one_done ≡ err no_node
unfolding get find
free_ongoing = refl

pub free_new : zk.get (in_area "ongoing") no_jobs ≡ err no_node
unfolding get find
free_new = refl

pub not_there :
    get_job numbers codec zk "jobs" [] true false "j1" "alice" no_jobs ≡ err (job_not_found "j1")
unfolding get find get_job read
not_there = refl

abbrev pub stripped_info : Fields ℕ
stripped_info =
    field "job_id" (str "j1") (
      field "user_id" (str "alice")
        (field "specification" (str "<ZkStrippedSpecification>...") end))

abbrev pub one_stripped : ZNode (Fields ℕ)
one_stripped = tree (child "j1" (znode stripped_info 0 nil) nil) nil

pub known_in_memory : memory.get_job "j1" (some "alice") one_known ≡ ok job_info
unfolding Memory.get_job
known_in_memory = refl

pub absent_in_both :
    get_job numbers codec zk "jobs" [] true true "j1" "alice" no_jobs ≡ err (job_not_found "j1")
unfolding get find get_job read
absent_in_both = refl

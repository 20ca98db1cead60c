-- ===== src/Zookeeper/Mock.antt =====
-- `KazooClientMock` of openeogeotrellis/testing.py: a tree of nodes in memory. An object that the
-- code reaches by a cursor and changes in place is here rebuilt along its path.
pub mod Laws
pub mod Writes
use openeo_geopyspark_driver.Prelude.{
  ℕ, suc, String, ◌==◌, Bool, true, false, Option, none, some, List, [], ◌∷◌, ◌++◌, if◌then◌else◌,
}
use openeo_geopyspark_driver.Outcome.{Result, ok, err, no_node, node_exists, bad_version}
use openeo_geopyspark_driver.Outcome.Try.{◌>>=◌, ◌>>◌}
use openeo_geopyspark_driver.Zookeeper.{ZkPath, matches}

mutual
  -- `_ZNode`: the value, the version of its `_ZNodeStat`, and the children.
  pub data ZNode (B : Type 0) : Type 0 where
    znode : B → ℕ → Children B → ZNode B

  pub data Children (B : Type 0) : Type 0 where
    nil : Children B
    child : String → ZNode B → Children B → Children B

module _ {B : Type 0} where
  -- children.get(part)
  abbrev pub find_child : String → Children B → Option (ZNode B)
  find_child part nil = none
  find_child part (child name z cs) = if name == part then some z else find_child part cs

  -- children[part] = z
  abbrev pub set_child : String → ZNode B → Children B → Children B
  set_child part z nil = child part z nil
  set_child part z (child name y cs) =
      if name == part then child name z cs else child name y (set_child part z cs)

  -- del children[part]
  abbrev pub del_child : String → Children B → Children B
  del_child part nil = nil
  del_child part (child name y cs) =
      let rest = del_child part cs in if name == part then rest else child name y rest

  -- list(children.keys())
  abbrev pub names : Children B → List String
  names nil = []
  names (child name z cs) = name ∷ names cs

  abbrev pub value_of : ZNode B → B × ℕ
  value_of (znode b n cs) = (b, n)

  abbrev pub children_of : ZNode B → Children B
  children_of (znode b n cs) = cs

  -- `_ZNode.assert_version`
  pub assert_version : Option ℕ → ZNode B → Result (ZNode B)
  assert_version ver (znode b n cs) = if matches ver n then ok (znode b n cs) else err bad_version

  -- `_get`
  unfoldable pub find : ZkPath → ZNode B → Result (ZNode B)
  find [] z = ok z
  find (part ∷ path) (znode b n cs) = elim (find_child part cs) [
    | none ↦ err no_node
    | some z ↦ find path z
  ]

  -- The tree after a change in place of the node at a path.
  pub modify : ZkPath → (ZNode B → ZNode B) → ZNode B → ZNode B
  modify [] f z = f z
  modify (part ∷ path) f (znode b n cs) = elim (find_child part cs) [
    | none ↦ znode b n cs
    | some z ↦ znode b n (set_child part (modify path f z) cs)
  ]

  unfoldable pub get : ZkPath → ZNode B → Result (B × ℕ)
  unfolding find
  get path root = do z ← find path root; ok (value_of z)

  unfoldable pub get_children : ZkPath → ZNode B → Result (List String)
  unfolding find
  get_children path root = do z ← find path root; ok (names (children_of z))

  -- znode.value = value; znode.stat.bump_version()
  abbrev pub write : B → ZNode B → ZNode B
  write b (znode _ n cs) = znode b (suc n) cs

  pub set : ZkPath → B → Option ℕ → ZNode B → Result (ZNode B)
  unfolding find modify assert_version
  set path b ver root = do z ← find path root; assert_version ver z; ok (modify path (write b) root)

-- `empty` is `b""`.
module _ {B : Type 0} (empty : B) where
  abbrev pub fresh : ZNode B
  fresh = znode empty 1 nil

  pub ensure_path : ZkPath → ZNode B → ZNode B
  ensure_path [] z = z
  ensure_path (part ∷ path) (znode b n cs) = elim (find_child part cs) [
    | none ↦ znode b n (set_child part (ensure_path path fresh) cs)
    | some z ↦ znode b n (set_child part (ensure_path path z) cs)
  ]

  -- parent.children[name] = _ZNode(value), if that is free
  pub add_child : String → B → ZNode B → Result (ZNode B)
  add_child name b (znode w n cs) = elim (find_child name cs) [
    | none ↦ ok (znode w n (set_child name (znode b 1 nil) cs))
    | some _ ↦ err node_exists
  ]

  -- The walk to the parent, which makes what is missing with `makepath` and raises without.
  pub create : Bool → ZkPath → B → ZNode B → Result (ZNode B)
  unfolding add_child
  create makepath [] b z = add_child "" b z
  create makepath (name ∷ []) b z = add_child name b z
  create makepath (part ∷ next ∷ path) b (znode w n cs) = elim (find_child part cs) [
    | none ↦
        if makepath
        then (do z' ← create makepath (next ∷ path) b fresh; ok (znode w n (set_child part z' cs)))
        else err no_node
    | some z ↦ do z' ← create makepath (next ∷ path) b z; ok (znode w n (set_child part z' cs))
  ]

  -- The child goes from its parent; the root is wiped.
  pub unlink : ZkPath → ZNode B → ZNode B
  unlink [] z = fresh
  unlink (name ∷ []) (znode b n cs) = znode b n (del_child name cs)
  unlink (part ∷ next ∷ path) (znode b n cs) = elim (find_child part cs) [
    | none ↦ znode b n cs
    | some z ↦ znode b n (set_child part (unlink (next ∷ path) z) cs)
  ]

  pub delete : ZkPath → Option ℕ → ZNode B → Result (ZNode B)
  unfolding find unlink assert_version
  delete path ver root = do z ← find path root; assert_version ver z; ok (unlink path root)

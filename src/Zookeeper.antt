-- ===== src/Zookeeper.antt =====
-- The ZooKeeper client of the kazoo package, as the registries use it, with what kazoo documents
-- of it. `Zookeeper.Mock` is the repository's own client (openeogeotrellis/testing.py).
-- The programs write a path as a text, "{root}/ongoing/{user}/{job}"; here it is
-- the list of its parts, so ids are taken to be non-empty and free of slashes.
pub mod Mock
use openeo_geopyspark_driver.Prelude.{
  ℕ, suc, String, ◌==◌, ◌≡◌, Bool, true, false, ◌&&◌, Option, none, some, List, [], ◌∷◌, ◌++◌, eqb,
}
use openeo_geopyspark_driver.Outcome.{Result, ok, err, no_node, node_exists, bad_version}

abbrev pub ZkPath : Type 0
ZkPath = List String

-- `p` is `q`, or an ancestor of it.
abbrev pub is_prefix : ZkPath → ZkPath → Bool
is_prefix [] q = true
is_prefix (a ∷ p) [] = false
is_prefix (a ∷ p) (b ∷ q) = a == b && is_prefix p q

abbrev pub same_path : ZkPath → ZkPath → Bool
same_path [] [] = true
same_path [] (b ∷ q) = false
same_path (a ∷ p) [] = false
same_path (a ∷ p) (b ∷ q) = a == b && same_path p q

-- The version that a write expects, `none` for -1, against the version that is there.
abbrev pub matches : Option ℕ → ℕ → Bool
matches none n = true
matches (some v) n = eqb v n

-- `B` is the type of payloads, Python's `bytes`. A read gives the value and the version; `create`
-- is called with `makepath=True` throughout.
pub record ZkClient (B : Type 0) : Type 1 where
  pub State : Type 0
  pub get : ZkPath → State → Result (B × ℕ)
  pub get_children : ZkPath → State → Result (List String)
  pub create : ZkPath → B → State → Result State
  pub set : ZkPath → B → Option ℕ → State → Result State
  pub delete : ZkPath → Option ℕ → State → Result State
  pub ensure_path : ZkPath → State → Result State

module _ {B : Type 0} (Z : ZkClient B) where
  -- Nothing stands under the path.
  abbrev pub IsLeaf : ZkPath → Z.State → Type 0
  IsLeaf p s = (name : String) → Z.get (p ++ (name ∷ [])) s ≡ err no_node

  -- A create at `part ∷ p` that succeeds: the new node, and its ancestors where they are missing.
  -- What is there keeps its value and its version.
  pub record Creates (part : String) (p : ZkPath) (b : B) (version : ℕ) (s : Z.State) : Type 0 where
    pub after : Z.State
    pub runs : Z.create (part ∷ p) b s ≡ ok after
    pub here : Z.get (part ∷ p) after ≡ ok (b, version)
    pub frame : (q : ZkPath) → is_prefix q (part ∷ p) ≡ false → Z.get q after ≡ Z.get q s
    pub kept : (q : ZkPath) {x : B × ℕ} → Z.get q s ≡ ok x → Z.get q after ≡ ok x

  pub record Sets (p : ZkPath) (b : B) (ver : Option ℕ) (n : ℕ) (s : Z.State) : Type 0 where
    pub after : Z.State
    pub runs : Z.set p b ver s ≡ ok after
    pub here : Z.get p after ≡ ok (b, suc n)
    pub frame : (q : ZkPath) → same_path p q ≡ false → Z.get q after ≡ Z.get q s

  pub record Deletes (p : ZkPath) (ver : Option ℕ) (s : Z.State) : Type 0 where
    pub after : Z.State
    pub runs : Z.delete p ver s ≡ ok after
    pub here : Z.get p after ≡ err no_node
    pub frame : (q : ZkPath) → is_prefix p q ≡ false → Z.get q after ≡ Z.get q s

  -- kazoo's documented behaviour on an established connection. The root is never created or
  -- deleted, so these laws are about a path with a first part.
  pub record IsLawful : Type 0 where
    pub first_version : ℕ
    pub create_exists :
        (part : String) (p : ZkPath) (b : B) (s : Z.State) {x : B × ℕ}
        → Z.get (part ∷ p) s ≡ ok x
        → Z.create (part ∷ p) b s ≡ err node_exists
    pub create_fresh :
        (part : String) (p : ZkPath) (b : B) (s : Z.State)
        → Z.get (part ∷ p) s ≡ err no_node
        → Creates part p b first_version s
    pub set_missing :
        (p : ZkPath) (b : B) (ver : Option ℕ) (s : Z.State)
        → Z.get p s ≡ err no_node
        → Z.set p b ver s ≡ err no_node
    pub set_conflict :
        (p : ZkPath) (b : B) (ver : Option ℕ) (s : Z.State) {w : B} {n : ℕ}
        → Z.get p s ≡ ok (w, n)
        → matches ver n ≡ false
        → Z.set p b ver s ≡ err bad_version
    pub set_match :
        (p : ZkPath) (b : B) (ver : Option ℕ) (s : Z.State) {w : B} {n : ℕ}
        → Z.get p s ≡ ok (w, n)
        → matches ver n ≡ true
        → Sets p b ver n s
    pub delete_missing :
        (p : ZkPath) (ver : Option ℕ) (s : Z.State)
        → Z.get p s ≡ err no_node
        → Z.delete p ver s ≡ err no_node
    pub delete_conflict :
        (p : ZkPath) (ver : Option ℕ) (s : Z.State) {w : B} {n : ℕ}
        → Z.get p s ≡ ok (w, n)
        → matches ver n ≡ false
        → Z.delete p ver s ≡ err bad_version
    pub delete_leaf :
        (part : String) (p : ZkPath) (ver : Option ℕ) (s : Z.State) {w : B} {n : ℕ}
        → Z.get (part ∷ p) s ≡ ok (w, n)
        → matches ver n ≡ true
        → IsLeaf (part ∷ p) s
        → Deletes (part ∷ p) ver s

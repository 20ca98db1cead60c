-- ===== src/Zookeeper/Mock/Writes.antt =====
-- `KazooClientMock`: what `set` and `delete` do, and the laws of the client.
use openeo_geopyspark_driver.Prelude.{
  ℕ, suc, String, ◌≡◌, refl, sym, ◌∙◌, true, false, [], ◌∷◌, arith, eq_iff, inl, inr, Option-cases,
}
use openeo_geopyspark_driver.Prelude.{Option}
use openeo_geopyspark_driver.Outcome.{ok, err, no_node, bad_version}
use openeo_geopyspark_driver.Zookeeper.{
  ZkPath, is_prefix, same_path, matches, Sets, Deletes, IsLawful,
}
use openeo_geopyspark_driver.Zookeeper.Mock.{
  ZNode, znode, find_child, del_child, find, get, modify, write, set, value_of, delete, unlink,
}
use openeo_geopyspark_driver.Zookeeper.Mock.Laws.{
  mock_client, mock_create_exists, mock_create_fresh, get-set_child, get-child, get_no_child,
  here-child, find_child-del_child,
}

module _ {B : Type 0} where
  -- A read that succeeds has found a node.
  find_of_get :
      (p : ZkPath) (z : ZNode B) {x : B × ℕ}
      → get p z ≡ ok x
      → (y : ZNode B) × (find p z ≡ ok y) × (value_of y ≡ x)
  unfolding get
  find_of_get p z h = ground arith

  no_find_of_get : (p : ZkPath) (z : ZNode B) → get p z ≡ err no_node → find p z ≡ err no_node
  unfolding get
  no_find_of_get p z h = ground arith

  get-modify_self :
      (p : ZkPath) (b : B) (z : ZNode B) {w : B} {n : ℕ}
      → get p z ≡ ok (w, n)
      → get p (modify p (write b) z) ≡ ok (b, suc n)
  unfolding get modify
  get-modify_self [] b (znode v m cs) h = ground arith
  get-modify_self (part ∷ p) b (znode v m cs) h = elim (Option-cases (find_child part cs)) [
    | inl e ↦ cc (h, get_no_child part p v m cs e)
    | inr (y, e) ↦
        rw (e, modify)
          (here-child part p v m (modify p (write b) y) cs
            ∙ get-modify_self p b y (sym (get-child part p v m y cs e) ∙ h))
  ]

  get-modify_ne :
      (p q : ZkPath) (b : B) (z : ZNode B)
      → same_path p q ≡ false
      → get q (modify p (write b) z) ≡ get q z
  unfolding modify
  get-modify_ne [] [] b z h = cc
  get-modify_ne [] (a ∷ q) b (znode v m cs) h = unfold get in refl
  get-modify_ne (part ∷ p) [] b (znode v m cs) h = unfold get in ground arith
  get-modify_ne (part ∷ p) (a ∷ q) b (znode v m cs) h = elim (Option-cases (find_child part cs)) [
    | inl e ↦ rw (e, modify) refl
    | inr (y, e) ↦
        rw (e, modify)
          (get-set_child part a q v m (modify p (write b) y) cs
            ∙ ground (arith, get-modify_ne p q b y, get-child part q v m y cs e, eq_iff part a))
  ]

  get-unlink_self :
      (empty : B) (part : String) (p : ZkPath) (z : ZNode B) {x : B × ℕ}
      → get (part ∷ p) z ≡ ok x
      → get (part ∷ p) (unlink empty (part ∷ p) z) ≡ err no_node
  unfolding unlink
  get-unlink_self empty part [] (znode v m cs) h =
      get_no_child part [] v m (del_child part cs)
        (find_child-del_child part part cs ∙ ground (arith, eq_iff part part))
  get-unlink_self empty part (next ∷ p) (znode v m cs) h =
      elim (Option-cases (find_child part cs)) [
        | inl e ↦ cc (h, get_no_child part (next ∷ p) v m cs e)
        | inr (y, e) ↦
            rw (e, unlink)
              (here-child part (next ∷ p) v m (unlink empty (next ∷ p) y) cs
                ∙ get-unlink_self empty next p y (sym (get-child part (next ∷ p) v m y cs e) ∙ h))
      ]

  get-unlink_ne :
      (empty : B) (part : String) (p q : ZkPath) (z : ZNode B)
      → is_prefix (part ∷ p) q ≡ false
      → get q (unlink empty (part ∷ p) z) ≡ get q z
  unfolding unlink
  get-unlink_ne empty part [] [] (znode v m cs) h = unfold get in refl
  get-unlink_ne empty part [] (a ∷ q) (znode v m cs) h =
      unfold get in ground (arith, find_child-del_child part a cs)
  get-unlink_ne empty part (next ∷ p) [] (znode v m cs) h = unfold get in ground arith
  get-unlink_ne empty part (next ∷ p) (a ∷ q) (znode v m cs) h =
      elim (Option-cases (find_child part cs)) [
        | inl e ↦ rw (e, unlink) refl
        | inr (y, e) ↦
            rw (e, unlink)
              (get-set_child part a q v m (unlink empty (next ∷ p) y) cs
                ∙ ground (
                  arith,
                  get-unlink_ne empty next p q y,
                  get-child part q v m y cs e,
                  eq_iff part a,
                ))
      ]

module _ {B : Type 0} (empty : B) where
  mock_set_match :
      (p : ZkPath) (b : B) (ver : Option ℕ) (z : ZNode B) {w : B} {n : ℕ}
      → get p z ≡ ok (w, n)
      → matches ver n ≡ true
      → Sets (mock_client empty) p b ver n z
  mock_set_match p b ver z h m = record {
    after = modify p (write b) z;
    runs = let (y, found, e) = find_of_get p z h in unfold set in ground arith;
    here = get-modify_self p b z h;
    frame = λ q d. get-modify_ne p q b z d;
  }

  mock_set_fails :
      (p : ZkPath) (b : B) (ver : Option ℕ) (z : ZNode B) {w : B} {n : ℕ}
      → get p z ≡ ok (w, n)
      → matches ver n ≡ false
      → set p b ver z ≡ err bad_version
  unfolding set
  mock_set_fails p b ver z h m = let (y, found, e) = find_of_get p z h in ground arith

  mock_delete_fails :
      (p : ZkPath) (ver : Option ℕ) (z : ZNode B) {w : B} {n : ℕ}
      → get p z ≡ ok (w, n)
      → matches ver n ≡ false
      → delete empty p ver z ≡ err bad_version
  unfolding delete
  mock_delete_fails p ver z h m = let (y, found, e) = find_of_get p z h in ground arith

  mock_delete_match :
      (part : String) (p : ZkPath) (ver : Option ℕ) (z : ZNode B) {w : B} {n : ℕ}
      → get (part ∷ p) z ≡ ok (w, n)
      → matches ver n ≡ true
      → Deletes (mock_client empty) (part ∷ p) ver z
  mock_delete_match part p ver z h m = record {
    after = unlink empty (part ∷ p) z;
    runs = let (y, found, e) = find_of_get (part ∷ p) z h in unfold delete in ground arith;
    here = get-unlink_self empty part p z h;
    frame = λ q d. get-unlink_ne empty part p q z d;
  }

  -- The in-memory client of the test helpers behaves as kazoo documents. A create with `makepath`
  -- raises where the node exists; otherwise the node is there afterwards with the value, all nodes
  -- that were there keep value and version, and only missing ancestors of the path are new. A write
  -- raises where the node is missing or has another version than the one expected; otherwise the
  -- node has the value and the next version, and no other node changes. A delete raises in the same
  -- cases; otherwise, of a node without children, the node is gone and no node outside of it changes.
  pub mock_client-IsLawful : IsLawful (mock_client empty)
  mock_client-IsLawful = record {
    first_version = 1;
    create_exists = mock_create_exists empty;
    create_fresh = mock_create_fresh empty;
    set_missing = λ p b ver z h. unfold set in ground (arith, no_find_of_get p z h);
    set_conflict = mock_set_fails;
    set_match = mock_set_match;
    delete_missing = λ p ver z h. unfold delete in ground (arith, no_find_of_get p z h);
    delete_conflict = mock_delete_fails;
    delete_leaf = λ part p ver z h m leaf. mock_delete_match part p ver z h m;
  }

-- ===== src/Zookeeper/Mock/Laws.antt =====
-- `KazooClientMock` of openeogeotrellis/testing.py as a `ZkClient`, and what `create` does.
use openeo_geopyspark_driver.Prelude.{
  ℕ, String, ◌==◌, ◌≡◌, refl, sym, ◌∙◌, true, false, none, some, [], ◌∷◌, arith, eq_iff, inl, inr,
  if◌then◌else◌, Option-cases,
}
use openeo_geopyspark_driver.Outcome.{ok, err, no_node, node_exists}
use openeo_geopyspark_driver.Zookeeper.{ZkPath, is_prefix, ZkClient, Creates}
use openeo_geopyspark_driver.Zookeeper.Mock
use openeo_geopyspark_driver.Zookeeper.Mock.{
  ZNode, znode, Children, nil, child, find_child, set_child, del_child, find, get, fresh, create,
  modify, write, set, assert_version, delete, unlink,
}

module _ {B : Type 0} where
  find_child-set_child :
      (part name : String) (z : ZNode B) (cs : Children B)
      → find_child name (set_child part z cs)
        ≡ (if part == name then some z else find_child name cs)
  find_child-set_child part name z nil = refl
  find_child-set_child part name z (child other y cs) = ground (
    arith,
    eq_iff part name,
    eq_iff other part,
    eq_iff other name,
    find_child-set_child part name z cs,
  )

  pub find_child-del_child :
      (part name : String) (cs : Children B)
      → find_child name (del_child part cs) ≡ (if part == name then none else find_child name cs)
  find_child-del_child part name nil = ground arith
  find_child-del_child part name (child other y cs) = ground (
    arith,
    eq_iff part name,
    eq_iff other part,
    eq_iff other name,
    find_child-del_child part name cs,
  )

  -- The read below a child that has been replaced.
  pub get-set_child :
      (part a : String) (q : ZkPath) (w : B) (n : ℕ) (z : ZNode B) (cs : Children B)
      → get (a ∷ q) (znode w n (set_child part z cs))
        ≡ (if part == a then get q z else get (a ∷ q) (znode w n cs))
  unfolding get
  get-set_child part a q w n z cs = ground (arith, find_child-set_child part a z cs)

  pub get-child :
      (part : String) (q : ZkPath) (w : B) (n : ℕ) (z : ZNode B) (cs : Children B)
      → find_child part cs ≡ some z
      → get (part ∷ q) (znode w n cs) ≡ get q z
  unfolding get
  get-child part q w n z cs h = ground arith

  pub get_no_child :
      (part : String) (q : ZkPath) (w : B) (n : ℕ) (cs : Children B)
      → find_child part cs ≡ none
      → get (part ∷ q) (znode w n cs) ≡ err no_node
  unfolding get
  get_no_child part q w n cs h = ground arith

  -- A node without children has nothing below it.
  get_childless :
      (p q : ZkPath) (b : B) (n : ℕ) → is_prefix q p ≡ false → get q (znode b n nil) ≡ err no_node
  unfolding get
  get_childless p [] b n h = cc
  get_childless p (a ∷ q) b n h = refl

  pub here-child :
      (part : String) (p : ZkPath) (w : B) (n : ℕ) (z : ZNode B) (cs : Children B)
      → get (part ∷ p) (znode w n (set_child part z cs)) ≡ get p z
  here-child part p w n z cs = get-set_child part part p w n z cs ∙ ground (arith, eq_iff part part)

module _ {B : Type 0} (empty : B) where
  abbrev pub mock_client : ZkClient B
  mock_client = record {
    State = ZNode B;
    get = get;
    get_children = Mock.get_children;
    create = create empty true;
    set = set;
    delete = delete empty;
    ensure_path = λ p s. ok (Mock.ensure_path empty p s);
  }

  pub mock_create_exists :
      (part : String) (p : ZkPath) (b : B) (z : ZNode B) {x : B × ℕ}
      → get (part ∷ p) z ≡ ok x
      → create empty true (part ∷ p) b z ≡ err node_exists
  unfolding create get
  mock_create_exists part [] b (znode w n cs) h = ground arith
  mock_create_exists part (next ∷ path) b (znode w n cs) h =
      elim (Option-cases (find_child part cs)) [
        | inl e ↦ cc (h, get_no_child part (next ∷ path) w n cs e)
        | inr (z, e) ↦ ground (
          arith,
          mock_create_exists next path b z (sym (get-child part (next ∷ path) w n z cs e) ∙ h),
        )
      ]

  -- A path that the new node's path does not begin with reads what it read.
  frame-child :
      (part : String) (p q : ZkPath) (w : B) (n : ℕ) (z : ZNode B) (cs : Children B)
      → ((r : ZkPath) → is_prefix r p ≡ false → get r z ≡ get (part ∷ r) (znode w n cs))
      → is_prefix q (part ∷ p) ≡ false
      → get q (znode w n (set_child part z cs)) ≡ get q (znode w n cs)
  frame-child part p [] w n z cs below h = cc
  frame-child part p (a ∷ q) w n z cs below h =
      get-set_child part a q w n z cs ∙ ground (arith, below q, eq_iff part a, eq_iff a part)

  kept-child :
      (part : String) (q : ZkPath) (w : B) (n : ℕ) (z : ZNode B) (cs : Children B) {x : B × ℕ}
      → ((r : ZkPath) → get (part ∷ r) (znode w n cs) ≡ ok x → get r z ≡ ok x)
      → get q (znode w n cs) ≡ ok x
      → get q (znode w n (set_child part z cs)) ≡ ok x
  kept-child part [] w n z cs below h = unfold get in ground arith
  kept-child part (a ∷ q) w n z cs below h =
      get-set_child part a q w n z cs ∙ ground (arith, below q, eq_iff part a, eq_iff a part)

  pub mock_create_fresh :
      (part : String) (p : ZkPath) (b : B) (z : ZNode B)
      → get (part ∷ p) z ≡ err no_node
      → Creates mock_client part p b 1 z
  unfolding create get
  mock_create_fresh part [] b (znode w n cs) h = elim (Option-cases (find_child part cs)) [
    | inl e ↦ record {
      after = znode w n (set_child part (znode b 1 nil) cs);
      runs = ground arith;
      here = here-child part [] w n (znode b 1 nil) cs;
      frame = λ q f.
          frame-child part [] q w n (znode b 1 nil) cs
            (λ r i. get_childless [] r b 1 i ∙ sym (get_no_child part r w n cs e)) f;
      kept = λ q h.
          kept-child part q w n (znode b 1 nil) cs (λ r i. cc (i, get_no_child part r w n cs e)) h;
    }
    | inr (y, e) ↦ cc (h, get-child part [] w n y cs e)
  ]
  mock_create_fresh part (next ∷ path) b (znode w n cs) h =
      elim (Option-cases (find_child part cs)) [
        | inl e ↦
            let made = mock_create_fresh next path b (fresh empty) refl in
            let runs = made.runs in
            record {
              after = znode w n (set_child part made.after cs);
              runs = ground arith;
              here = here-child part (next ∷ path) w n made.after cs ∙ made.here;
              frame = λ q f.
                  frame-child part (next ∷ path) q w n made.after cs
                    (λ r i.
                      made.frame r i
                      ∙ get_childless (next ∷ path) r empty 1 i
                      ∙ sym (get_no_child part r w n cs e))
                    f;
              kept = λ q h.
                  kept-child part q w n made.after cs (λ r i. cc (i, get_no_child part r w n cs e))
                    h;
            }
        | inr (y, e) ↦
            let made =
              mock_create_fresh next path b y (sym (get-child part (next ∷ path) w n y cs e) ∙ h) in
            let runs = made.runs in
            record {
              after = znode w n (set_child part made.after cs);
              runs = ground arith;
              here = here-child part (next ∷ path) w n made.after cs ∙ made.here;
              frame = λ q f.
                  frame-child part (next ∷ path) q w n made.after cs
                    (λ r i. made.frame r i ∙ sym (get-child part r w n y cs e)) f;
              kept = λ q h.
                  kept-child part q w n made.after cs
                    (λ r i. made.kept r (sym (get-child part r w n y cs e) ∙ i)) h;
            }
      ]

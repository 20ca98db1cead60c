-- ===== src/Udps/Zk/Laws.antt =====
-- The ZooKeeper repository of user-defined processes, over any lawful client.
use openeo_geopyspark_driver.Prelude.{
  ℕ, String, ◌≡◌, ◌≢◌, refl, ◌∙◌, sym, ap, Option, none, some, [], ◌∷◌, ◌++◌, arith, eq_comm, ◌⊎◌,
  inl, inr,
}
use openeo_geopyspark_driver.Outcome.{Result, ok, err, no_node, process_graph_not_found}
use openeo_geopyspark_driver.Floats.{Floats}
use openeo_geopyspark_driver.Json.{str, obj, Fields, end, field, get as get_field}
use openeo_geopyspark_driver.Codec.{JsonCodec, IsFaithful}
use openeo_geopyspark_driver.Zookeeper.{ZkPath, ZkClient, IsLawful as IsLawfulClient, IsLeaf}
use openeo_geopyspark_driver.Registry.Zk.Paths.{is_prefix-pair_path, same_path-pair_path}
use openeo_geopyspark_driver.Udps.{ProcessModel, KeepsId, OthersKept, IsLawful}
use openeo_geopyspark_driver.Udps.Zk.{udp_path, serialize, parse, save, get, delete, zk_repository}

module _ (R : Floats) (C : JsonCodec R.Float) (Z : ZkClient C.Bytes) (M : ProcessModel R.Float)
    (lower : String → String) (top : String) (base : ZkPath) where
  abbrev At : String → String → ZkPath
  At = udp_path R C Z M lower top base

  -- The node of a process is missing, or holds a process; nothing stands under it.
  pub record Reachable (user process : String) (s : Z.State) : Type 0 where
    pub answer :
        (Z.get (At user process) s ≡ err no_node)
        ⊎ ((bytes : C.Bytes) × (version : ℕ) × (p : M.Process) × (Z.get (At user process) s
              ≡ ok (bytes, version))
            × (parse R C Z M lower top base bytes ≡ ok p))
    pub leaf : IsLeaf Z (At user process) s

  -- What is read of a process depends on its node only.
  get-frame :
      (user process : String) (s s' : Z.State)
      → Z.get (At user process) s' ≡ Z.get (At user process) s
      → get R C Z M lower top base user process s' ≡ get R C Z M lower top base user process s
  unfolding get
  get-frame user process s s' e = ground arith

  get_here :
      (user process : String) (bytes : C.Bytes) (version : ℕ) (p : M.Process) (s : Z.State)
      → Z.get (At user process) s ≡ ok (bytes, version)
      → parse R C Z M lower top base bytes ≡ ok p
      → get R C Z M lower top base user process s ≡ ok (some p)
  unfolding get
  get_here user process bytes version p s e f = ground arith

  get_missing :
      (user process : String) (s : Z.State)
      → Z.get (At user process) s ≡ err no_node
      → get R C Z M lower top base user process s ≡ ok none
  unfolding get
  get_missing user process s e = ground arith

  abbrev nothing : Result (Option M.Process)
  nothing = ok none

  nothing-ne-some : (p : M.Process) → nothing ≢ ok (some p)
  nothing-ne-some p h = ground arith

  module _ (L : IsLawfulClient Z) (faithful : IsFaithful C) (named : KeepsId M) where
    parse-serialize :
        (spec : Fields R.Float)
        → parse R C Z M lower top base (serialize R C Z M lower top base spec) ≡ M.from_dict spec
    unfolding parse
    parse-serialize spec =
        ground (arith, faithful.decode-encode (field "specification" (obj spec) end))

    Saves : String → String → String → Fields R.Float → M.Process → Z.State → Type 0
    Saves user process name spec p s =
        (s' : Z.State) × (save R C Z M lower top base user name spec s ≡ (ok tt, s'))
        × (get R C Z M lower top base user process s' ≡ ok (some p))
        × OthersKept (zk_repository R C Z M lower top base) user process s s'

    save_new :
        (user process name : String) (spec : Fields R.Float) (p : M.Process) (s : Z.State)
        → M.from_dict spec ≡ ok p
        → get_field "id" spec ≡ some (str process)
        → Z.get (At user process) s ≡ err no_node
        → Saves user process name spec p s
    unfolding save Saves
    save_new user process name spec p s parsed id free =
        let bytes = serialize R C Z M lower top base spec in
        let made = L.create_fresh top (base ++ (user ∷ process ∷ [])) bytes s free in
        let runs = made.runs in
        (
          made.after,
          ground arith,
          get_here user process bytes L.first_version p made.after made.here
              (parse-serialize spec ∙ parsed),
          λ user' process' other. get-frame user' process' s made.after (
              made.frame (At user' process') (
                is_prefix-pair_path top base user' process' user process
                ∙ ground (arith, eq_comm user user', eq_comm process process'))),
        )

    save_again :
        (user process name : String) (spec : Fields R.Float) (p : M.Process) (s : Z.State)
        (old : C.Bytes) (version : ℕ)
        → M.from_dict spec ≡ ok p
        → get_field "id" spec ≡ some (str process)
        → Z.get (At user process) s ≡ ok (old, version)
        → Saves user process name spec p s
    unfolding save Saves
    save_again user process name spec p s old version parsed id there =
        let bytes = serialize R C Z M lower top base spec in
        let exists = L.create_exists top (base ++ (user ∷ process ∷ [])) bytes s there in
        let made = L.set_match (At user process) bytes (some version) s there (ground arith) in
        let runs = made.runs in
        (
          made.after,
          ground arith,
          get_here user process bytes _ p made.after made.here (parse-serialize spec ∙ parsed),
          λ user' process' other. get-frame user' process' s made.after (
              made.frame (At user' process')
                (same_path-pair_path top base user process user' process' ∙ ground arith)),
        )

    delete_there :
        (user process : String) (bytes : C.Bytes) (version : ℕ) (s : Z.State)
        → Z.get (At user process) s ≡ ok (bytes, version)
        → IsLeaf Z (At user process) s
        → (s' : Z.State) × (delete R C Z M lower top base user process s ≡ (ok tt, s'))
          × (get R C Z M lower top base user process s' ≡ ok none)
          × OthersKept (zk_repository R C Z M lower top base) user process s s'
    unfolding delete
    delete_there user process bytes version s there leaf =
        let gone = L.delete_leaf top (base ++ (user ∷ process ∷ [])) none s there refl leaf in
        let runs = gone.runs in
        (
          gone.after,
          ground arith,
          get_missing user process gone.after gone.here,
          λ user' process' other. get-frame user' process' s gone.after (
              gone.frame (At user' process')
                (is_prefix-pair_path top base user process user' process' ∙ ground arith)),
        )

    delete_missing :
        (user process : String) (s : Z.State)
        → Z.get (At user process) s ≡ err no_node
        → delete R C Z M lower top base user process s ≡ (err (process_graph_not_found process), s)
    unfolding delete
    delete_missing user process s free =
        let missing = L.delete_missing (At user process) none s free in ground arith

    get-save :
        (user process name : String) (spec : Fields R.Float) (p : M.Process) (s : Z.State)
        → M.from_dict spec ≡ ok p
        → M.id p ≡ process
        → Reachable user process s
        → Saves user process name spec p s
    get-save user process name spec p s parsed is_id ready =
        let id = named.id-from_dict spec p parsed ∙ ap (λ i. some (str i)) is_id in
        elim ready.answer [
          | inl free ↦ save_new user process name spec p s parsed id free
          | inr (old, version, _, there, _) ↦
              save_again user process name spec p s old version parsed id there
        ]

    delete_lem :
        (user process : String) (p : M.Process) (s : Z.State)
        → Reachable user process s
        → get R C Z M lower top base user process s ≡ ok (some p)
        → (s' : Z.State) × (delete R C Z M lower top base user process s ≡ (ok tt, s'))
          × (get R C Z M lower top base user process s' ≡ ok none)
          × OthersKept (zk_repository R C Z M lower top base) user process s s'
    delete_lem user process p s ready there = elim ready.answer [
      | inl free ↦ absurd (nothing-ne-some p (sym (get_missing user process s free) ∙ there))
      | inr (bytes, version, _, at, _) ↦ delete_there user process bytes version s at ready.leaf
    ]

    -- The repository in ZooKeeper keeps the contract of user-defined processes, for a process whose
    -- node is missing or holds a process, and has no children. Saving a dict that `from_dict` reads
    -- as a process succeeds, whether the node is created or overwritten, and the process is then
    -- found at its own id, whatever `process_id` was passed; deleting a process that is there
    -- succeeds, and it is not found any more; both leave every other process, and those of other
    -- users, as they were. Deleting a process that is not there raises
    -- `ProcessGraphNotFoundException` and changes nothing. The client is lawful, the codec reads back
    -- what it writes, and a process keeps the id of its dict.
    pub zk_repository-IsLawful : IsLawful (zk_repository R C Z M lower top base) Reachable
    unfolding Saves
    zk_repository-IsLawful = record {
      get-save = get-save;
      get-delete = delete_lem;
      delete_missing = λ user process s ready missing. elim ready.answer [
        | inl free ↦ delete_missing user process s free
        | inr (bytes, version, q, at, parses) ↦
            absurd
              (nothing-ne-some q (sym missing ∙ get_here user process bytes version q s at parses))
      ];
    }

-- ===== src/Udps/Memory.antt =====
-- `InMemoryUserDefinedProcessRepository`: a dict of the users' dicts of processes.
use openeo_geopyspark_driver.Prelude.{
  String, ◌==◌, ◌≡◌, ◌&&◌, Option, none, some, List, [], arith, eq_iff, refl, subst, ◌∙◌,
  if◌then◌else◌,
}
use openeo_geopyspark_driver.Outcome.{Result, ok, err, Exec, process_graph_not_found}
use openeo_geopyspark_driver.Json.{Fields}
use openeo_geopyspark_driver.Dict.{Dict, lookup, insert, erase, values, lookup-insert, lookup-erase}
use openeo_geopyspark_driver.Udps.{ProcessModel, UserDefinedProcesses, IsLawful}

module _ {F : Type 0} (M : ProcessModel F) where
  -- `_store`
  abbrev pub Store : Type 0
  Store = Dict (Dict M.Process)

  -- self._store.get(user_id, {})
  abbrev pub user_udps : String → Store → Dict M.Process
  user_udps user s = elim (lookup user s) [ none ↦ [] | some udps ↦ udps ]

  -- The argument `process_id` is not used.
  unfoldable pub save : String → String → Fields F → Exec Store (Unit {0})
  save user process_id spec s = elim (M.from_dict spec) [
    | err e ↦ (err e, s)
    | ok new_udp ↦ (ok tt, insert user (insert (M.id new_udp) new_udp (user_udps user s)) s)
  ]

  unfoldable pub get : String → String → Store → Result (Option M.Process)
  get user process_id s = ok (lookup process_id (user_udps user s))

  pub get_for_user : String → Store → List M.Process
  get_for_user user s = values (user_udps user s)

  -- The dict of the user is changed in place; a dict that is not in the store has no process.
  unfoldable pub delete : String → String → Exec Store (Unit {0})
  delete user process_id s = elim (lookup process_id (user_udps user s)) [
    | none ↦ (err (process_graph_not_found process_id), s)
    | some _ ↦ (ok tt, insert user (erase process_id (user_udps user s)) s)
  ]

  abbrev pub memory_repository : UserDefinedProcesses M
  memory_repository = record { State = Store; save = save; get_process = get; delete = delete }

  user_udps-insert :
      (user user' : String) (udps : Dict M.Process) (s : Store)
      → user_udps user' (insert user udps s) ≡ (if user == user' then udps else user_udps user' s)
  user_udps-insert user user' udps s = ground (arith, lookup-insert user user' udps s)

  get-insert :
      (user process user' process' : String) (p : M.Process) (s : Store)
      → get user' process' (insert user (insert process p (user_udps user s)) s)
        ≡ (if user == user' && process == process' then ok (some p) else get user' process' s)
  unfolding get
  get-insert user process user' process' p s = ground (
    arith,
    eq_iff user user',
    user_udps-insert user user' (insert process p (user_udps user s)) s,
    lookup-insert process process' p (user_udps user s),
  )

  get-erase :
      (user process user' process' : String) (s : Store)
      → get user' process' (insert user (erase process (user_udps user s)) s)
        ≡ (if user == user' && process == process' then ok none else get user' process' s)
  unfolding get
  get-erase user process user' process' s = ground (
    arith,
    eq_iff user user',
    user_udps-insert user user' (erase process (user_udps user s)) s,
    lookup-erase process process' (user_udps user s),
  )

  save_lem :
      (user name : String) (spec : Fields F) (p : M.Process) (s : Store)
      → M.from_dict spec ≡ ok p
      → save user name spec s ≡ (ok tt, insert user (insert (M.id p) p (user_udps user s)) s)
  unfolding save
  save_lem user name spec p s parsed = rw (parsed, save) refl

  delete_lem :
      (user process : String) (p : M.Process) (s : Store)
      → get user process s ≡ ok (some p)
      → delete user process s ≡ (ok tt, insert user (erase process (user_udps user s)) s)
  unfolding delete get
  delete_lem user process p s there = ground arith

  delete_missing :
      (user process : String) (s : Store)
      → get user process s ≡ ok none
      → delete user process s ≡ (err (process_graph_not_found process), s)
  unfolding delete get
  delete_missing user process s there = ground arith

  -- The in-memory repository keeps the contract of user-defined processes. Saving a dict that
  -- `from_dict` reads as a process succeeds, and the process is then found at its own id, whatever
  -- `process_id` was passed; deleting a process that is there succeeds, and it is not found any
  -- more; both leave every other process, and those of other users, as they were. Deleting a
  -- process that is not there raises `ProcessGraphNotFoundException` and changes nothing.
  pub memory_repository-IsLawful : IsLawful memory_repository (λ user process s. Unit)
  memory_repository-IsLawful = record {
    get-save = λ user process name spec p s parsed named ready. (
      insert user (insert process p (user_udps user s)) s,
      subst (λ i. save user name spec s ≡ (ok tt, insert user (insert i p (user_udps user s)) s))
          named (save_lem user name spec p s parsed),
      get-insert user process user process p s
          ∙ ground (arith, eq_iff user user, eq_iff process process),
      λ user' process' other. get-insert user process user' process' p s ∙ rw other refl,
    );
    get-delete = λ user process p s ready there. (
      insert user (erase process (user_udps user s)) s,
      delete_lem user process p s there,
      get-erase user process user process s
          ∙ ground (arith, eq_iff user user, eq_iff process process),
      λ user' process' other. get-erase user process user' process' s ∙ rw other refl,
    );
    delete_missing = λ user process s ready missing. delete_missing user process s missing;
  }

-- ===== src/Udps.antt =====
-- The repositories of user-defined processes, openeogeotrellis/user_defined_process_repository.py.
-- Here is what the two of them share: the openEO driver's `UserDefinedProcessMetadata`, and the
-- interface `UserDefinedProcesses` with what is expected of it.
pub mod Zk
pub mod Memory
use openeo_geopyspark_driver.Prelude.{String, ◌==◌, ◌≡◌, Bool, false, ◌&&◌, Option, none, some}
use openeo_geopyspark_driver.Outcome.{Result, ok, err, Exec, process_graph_not_found}
use openeo_geopyspark_driver.Json.{str, Fields, get}

-- `UserDefinedProcessMetadata`: `from_dict`, and the field `id`.
pub record ProcessModel (F : Type 0) : Type 1 where
  pub Process : Type 0
  pub from_dict : Fields F → Result Process
  pub id : Process → String

-- The id of a process is that of its dict.
pub record KeepsId {F : Type 0} (M : ProcessModel F) : Type 0 where
  pub id-from_dict :
      (d : Fields F) (p : M.Process) → M.from_dict d ≡ ok p → get "id" d ≡ some (str (M.id p))

-- `UserDefinedProcesses`: the operations on one process. The first id is the user's.
pub record UserDefinedProcesses {F : Type 0} (M : ProcessModel F) : Type 1 where
  pub State : Type 0
  pub save : String → String → Fields F → Exec State (Unit {0})
  pub get_process : String → String → State → Result (Option M.Process)
  pub delete : String → String → Exec State (Unit {0})

module _ {F : Type 0} {M : ProcessModel F} (U : UserDefinedProcesses M) where
  -- The processes but one, before and after.
  abbrev pub OthersKept : String → String → U.State → U.State → Type 0
  OthersKept user process s s' =
      (user' process' : String)
      → (user == user' && process == process') ≡ false
      → U.get_process user' process' s' ≡ U.get_process user' process' s

  -- `Ready user process s` says that the store can be reached for that process.
  pub record IsLawful (Ready : String → String → U.State → Type 0) : Type 0 where
    pub get-save :
        (user process name : String) (spec : Fields F) (p : M.Process) (s : U.State)
        → M.from_dict spec ≡ ok p
        → M.id p ≡ process
        → Ready user process s
        → (s' : U.State) × (U.save user name spec s ≡ (ok tt, s'))
          × (U.get_process user process s' ≡ ok (some p))
          × OthersKept user process s s'
    pub get-delete :
        (user process : String) (p : M.Process) (s : U.State)
        → Ready user process s
        → U.get_process user process s ≡ ok (some p)
        → (s' : U.State) × (U.delete user process s ≡ (ok tt, s'))
          × (U.get_process user process s' ≡ ok none)
          × OthersKept user process s s'
    pub delete_missing :
        (user process : String) (s : U.State)
        → Ready user process s
        → U.get_process user process s ≡ ok none
        → U.delete user process s ≡ (err (process_graph_not_found process), s)

-- ===== src/Registry/Zk/Paths.antt =====
-- The paths of job nodes of `ZkJobRegistry`: when they are the same, or below each other.
use openeo_geopyspark_driver.Prelude.{
  String, ◌==◌, ◌≡◌, refl, true, false, ◌&&◌, [], ◌∷◌, ◌++◌, arith, eq_iff,
}
use openeo_geopyspark_driver.Zookeeper.{ZkPath, is_prefix, same_path}

-- A common beginning plays no part in the comparison.
pub is_prefix-append : (base p q : ZkPath) → is_prefix (base ++ p) (base ++ q) ≡ is_prefix p q
is_prefix-append [] p q = refl
is_prefix-append (a ∷ base) p q = ground (arith, eq_iff a a, is_prefix-append base p q)

pub same_path-append : (base p q : ZkPath) → same_path (base ++ p) (base ++ q) ≡ same_path p q
same_path-append [] p q = refl
same_path-append (a ∷ base) p q = ground (arith, eq_iff a a, same_path-append base p q)

-- A path with more parts after the base is no beginning of one with fewer.
pub below-append :
    (base : ZkPath) (a b c name a' b' c' : String)
    → is_prefix ((base ++ (a ∷ b ∷ c ∷ [])) ++ (name ∷ [])) (base ++ (a' ∷ b' ∷ c' ∷ [])) ≡ false
below-append [] a b c name a' b' c' = ground arith
below-append (x ∷ base) a b c name a' b' c' = ground (arith, below-append base a b c name a' b' c')

pub same_path_longer :
    (base : ZkPath) (a b c name : String)
    → same_path (base ++ (a ∷ b ∷ c ∷ [])) ((base ++ (a ∷ b ∷ c ∷ [])) ++ (name ∷ [])) ≡ false
same_path_longer [] a b c name = ground arith
same_path_longer (x ∷ base) a b c name = ground (arith, same_path_longer base a b c name)

module _ (top : String) (base : ZkPath) where
  -- A node below that of a user.
  abbrev pub pair_path : String → String → ZkPath
  pair_path user name = top ∷ (base ++ (user ∷ name ∷ []))

  pub is_prefix-pair_path :
      (user name user' name' : String)
      → is_prefix (pair_path user name) (pair_path user' name')
        ≡ (user == user' && (name == name' && true))
  is_prefix-pair_path user name user' name' =
      ground (arith, eq_iff top top, is_prefix-append base (user ∷ name ∷ []) (user' ∷ name' ∷ []))

  pub same_path-pair_path :
      (user name user' name' : String)
      → same_path (pair_path user name) (pair_path user' name')
        ≡ (user == user' && (name == name' && true))
  same_path-pair_path user name user' name' =
      ground (arith, eq_iff top top, same_path-append base (user ∷ name ∷ []) (user' ∷ name' ∷ []))

  -- The node of a job in an area, "ongoing" or "done".
  abbrev pub job_path : String → String → String → ZkPath
  job_path area user job = top ∷ (base ++ (area ∷ user ∷ job ∷ []))

  pub is_prefix-job_path :
      (area user job area' user' job' : String)
      → is_prefix (job_path area user job) (job_path area' user' job')
        ≡ (area == area' && (user == user' && (job == job' && true)))
  is_prefix-job_path area user job area' user' job' = ground (
    arith,
    eq_iff top top,
    is_prefix-append base (area ∷ user ∷ job ∷ []) (area' ∷ user' ∷ job' ∷ []),
  )

  pub same_path-job_path :
      (area user job area' user' job' : String)
      → same_path (job_path area user job) (job_path area' user' job')
        ≡ (area == area' && (user == user' && (job == job' && true)))
  same_path-job_path area user job area' user' job' = ground (
    arith,
    eq_iff top top,
    same_path-append base (area ∷ user ∷ job ∷ []) (area' ∷ user' ∷ job' ∷ []),
  )

  -- What stands below a job's node is not on the way to another job's node.
  pub below-job_path :
      (area user job name area' user' job' : String)
      → is_prefix (job_path area user job ++ (name ∷ [])) (job_path area' user' job') ≡ false
  below-job_path area user job name area' user' job' =
      ground (arith, below-append base area user job name area' user' job')

  pub same_path-below :
      (area user job name : String)
      → same_path (job_path area user job) (job_path area user job ++ (name ∷ [])) ≡ false
  same_path-below area user job name = ground (arith, same_path_longer base area user job name)

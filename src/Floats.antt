-- ===== src/Floats.antt =====
-- Python's floats, which the kernel has not: a type with the operations that the program calls.
-- What a theorem needs of them stands among its hypotheses.
use openeo_geopyspark_driver.Prelude.{ℕ, String, Bool}

pub record Floats : Type 1 where
  pub Float : Type 0
  pub of_int : ℕ → Float
  pub add : Float → Float → Float
  pub sub : Float → Float → Float
  pub mul : Float → Float → Float
  pub div : Float → Float → Float
  pub eq : Float → Float → Bool
  pub lt : Float → Float → Bool
  pub is_finite : Float → Bool
  pub to_string : Float → String

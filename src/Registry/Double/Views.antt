-- ===== src/Registry/Double/Views.antt =====
-- What a write of `DoubleJobRegistry` leaves of the second registry.
use openeo_geopyspark_driver.Prelude.{String, refl}
use openeo_geopyspark_driver.Outcome.{Exec, when}
use openeo_geopyspark_driver.Outcome.Views.{Keeps, then-Keeps, when-Keeps}
use openeo_geopyspark_driver.Floats.{Floats}
use openeo_geopyspark_driver.Codec.{JsonCodec}
use openeo_geopyspark_driver.Zookeeper.{ZkClient, ZkPath}
use openeo_geopyspark_driver.Registry.Interface.{JobRegistry}
use openeo_geopyspark_driver.Registry.Double.{Present, Both, on_zk, on_ejr, in_both}

module _ (R : Floats) (C : JsonCodec R.Float) (Z : ZkClient C.Bytes) (top : String) (base : ZkPath)
    (E : JobRegistry R.Float) (p : Present) {V : Type 0} (view : E.State → V) where
  abbrev pub seen_ejr : Both R C Z top base E → V
  seen_ejr s = view s.1

  pub in_both-Keeps :
      (zk : Exec Z.State (Unit {0})) (ejr : Exec E.State (Unit {0}))
      → Keeps view ejr
      → Keeps seen_ejr (in_both R C Z top base E p zk ejr)
  in_both-Keeps zk ejr k =
      then-Keeps seen_ejr (when p.zk (on_zk R C Z top base E zk))
        (when p.ejr (on_ejr R C Z top base E ejr))
        (when-Keeps seen_ejr p.zk (on_zk R C Z top base E zk) (λ s. refl))
        (when-Keeps seen_ejr p.ejr (on_ejr R C Z top base E ejr) (λ s. k s.1))

-- ===== src/Services/Removal.antt =====
-- `GpsSecondaryServices.remove_service` and `remove_services_before` of
-- openeogeotrellis/backend.py, over any registry of services.
use openeo_geopyspark_driver.Prelude.{String, List, [], ◌∷◌}
use openeo_geopyspark_driver.Outcome.{Exec, pure, reads, ◌>>=◌, ◌>>◌}
use openeo_geopyspark_driver.Services.{ServiceModel, ServiceRegistry}

-- `unproxy` is `_unproxy_service`, on the state of the proxy.
module _ {F : Type 0} (M : ServiceModel F) (G : ServiceRegistry M) (Proxy : Type 0)
    (unproxy : String → Exec Proxy (Unit {0})) where
  abbrev pub Both : Type 0
  Both = G.State × Proxy

  abbrev pub on_services : {A : Type 0} → Exec G.State A → Exec Both A
  on_services m (s, x) = ((m s).0, ((m s).1, x))

  abbrev pub on_proxy : {A : Type 0} → Exec Proxy A → Exec Both A
  on_proxy m (s, x) = ((m x).0, (s, (m x).1))

  pub remove_service : String → String → Exec Both (Unit {0})
  remove_service user service = do
    on_services (G.stop_service user service)
    on_proxy (unproxy service)

  abbrev pub remove_all : List (String × M.Metadata) → Exec Both (Unit {0})
  unfolding remove_service
  remove_all [] = pure tt
  remove_all ((user, m) ∷ rest) = do remove_service user (M.id m); remove_all rest

  pub remove_services_before : M.Time → Exec Both (Unit {0})
  unfolding remove_service
  remove_services_before upper = do
    user_services ← on_services (reads (G.get_metadata_all_before upper))
    remove_all user_services

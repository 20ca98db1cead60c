-- ===== src/Services/Zk/Laws.antt =====
-- `ZooKeeperServiceRegistry` over any lawful client: a service is stored, found, and stopped.
use openeo_geopyspark_driver.Prelude.{
  ℕ, String, ◌==◌, ◌≡◌, refl, ◌∙◌, false, ◌&&◌, none, some, [], ◌∷◌, ◌++◌, arith, eq_iff, eq_comm,
}
use openeo_geopyspark_driver.Outcome.{ok, err, no_node, service_not_found}
use openeo_geopyspark_driver.Floats.{Floats}
use openeo_geopyspark_driver.Json.{Json, obj, end, field}
use openeo_geopyspark_driver.Codec.{JsonCodec, IsFaithful}
use openeo_geopyspark_driver.Dict.{lookup, lookup-erase, erase}
use openeo_geopyspark_driver.Zookeeper.{ZkPath, ZkClient, IsLawful, IsLeaf}
use openeo_geopyspark_driver.Registry.Zk.Paths.{is_prefix-pair_path}
use openeo_geopyspark_driver.Services.{ServiceModel, Entity}
use openeo_geopyspark_driver.Services.Zk.{
  Registry, anonymous, service_path, serialize, parse, load, persist, get_metadata, get,
  stop_service,
}

module _ (R : Floats) (C : JsonCodec R.Float) (Z : ZkClient C.Bytes) (M : ServiceModel R.Float)
    (created_at : ZkPath → Z.State → M.Time) (top : String) (base : ZkPath) where
  abbrev At : String → String → ZkPath
  At = service_path R C Z M created_at top base

  abbrev pub Services : Type 0
  Services = Registry R C Z M created_at top base

  abbrev pub entity : M.Metadata → Json R.Float → Entity M
  entity m api_version = record { metadata = m; api_version = api_version }

  -- The nodes of other services are as before.
  abbrev pub OthersKept : String → String → Services → Services → Type 0
  OthersKept user service s s' =
      (user' service' : String)
      → (user == user' && service == service') ≡ false
      → Z.get (At user' service') s'.stored ≡ Z.get (At user' service') s.stored

  load_here :
      (user service : String) (bytes : C.Bytes) (version : ℕ) (x : Entity M) (z : Z.State)
      → Z.get (At user service) z ≡ ok (bytes, version)
      → parse R C Z M created_at top base service (created_at (At user service) z) bytes ≡ ok x
      → load R C Z M created_at top base user service z ≡ ok x
  unfolding load
  load_here user service bytes version x z e f = ground arith

  load_missing :
      (user service : String) (z : Z.State)
      → Z.get (At user service) z ≡ err no_node
      → load R C Z M created_at top base user service z ≡ err no_node
  unfolding load
  load_missing user service z e = ground arith

  get_metadata_here :
      (user service : String) (x : Entity M) (s : Services)
      → load R C Z M created_at top base user service s.stored ≡ ok x
      → get_metadata R C Z M created_at top base user service s ≡ ok x.metadata
  unfolding get_metadata
  get_metadata_here user service x s e = rw e refl

  get_metadata_missing :
      (user service : String) (s : Services)
      → load R C Z M created_at top base user service s.stored ≡ err no_node
      → load R C Z M created_at top base anonymous service s.stored ≡ err no_node
      → get_metadata R C Z M created_at top base user service s ≡ err (service_not_found service)
  unfolding get_metadata
  get_metadata_missing user service s e f = rw (e, f) refl

  module _ (L : IsLawful Z) (faithful : IsFaithful C) where
    parse-serialize :
        (service : String) (time : M.Time) (m seen : M.Metadata) (api_version : Json R.Float)
        → M.from_dict (M.prepare_for_json m) ≡ ok seen
        → parse R C Z M created_at top base service time
            (serialize R C Z M created_at top base m api_version)
          ≡ ok (entity seen api_version)
    unfolding parse
    parse-serialize service time m seen api_version reads = ground (
      arith,
      faithful.decode-encode
          (field "metadata" (obj (M.prepare_for_json m)) (field "api_version" api_version end)),
    )

    -- Where the user has no node for the service, storing its metadata succeeds; `get` then gives what
    -- `from_dict` makes of the dict that `prepare_for_json` gives, with the API version, `get_metadata`
    -- gives the same without it, and the nodes of other services are as before. This is where
    -- `from_dict` does not raise for that dict; what it gives need not be the metadata that was
    -- stored. The client is lawful, and the codec reads back what it writes.
    pub persist-get_metadata :
        (user : String) (m seen : M.Metadata) (api_version : Json R.Float) (s : Services)
        → Z.get (At user (M.id m)) s.stored ≡ err no_node
        → M.from_dict (M.prepare_for_json m) ≡ ok seen
        → (s' : Services) × (persist R C Z M created_at top base user m api_version s ≡ (ok tt, s'))
          × (get R C Z M created_at top base user (M.id m) s' ≡ ok (entity seen api_version))
          × (get_metadata R C Z M created_at top base user (M.id m) s' ≡ ok seen)
          × OthersKept user (M.id m) s s'
    unfolding persist get
    persist-get_metadata user m seen api_version s free reads =
        let bytes = serialize R C Z M created_at top base m api_version in
        let made = L.create_fresh top (base ++ (user ∷ M.id m ∷ [])) bytes s.stored free in
        let runs = made.runs in
        let after : Services = record s { stored = made.after } in
        let loaded =
          load_here user (M.id m) bytes L.first_version (entity seen api_version) made.after
            made.here
            (parse-serialize (M.id m) (created_at (At user (M.id m)) made.after) m seen api_version
              reads) in
        (
          after,
          ground arith,
          loaded,
          get_metadata_here user (M.id m) (entity seen api_version) after loaded,
          λ user' service' other. made.frame (At user' service') (
              is_prefix-pair_path top base user' service' user (M.id m)
              ∙ ground (arith, eq_comm user user', eq_comm (M.id m) service')),
        )

  module _ (L : IsLawful Z) where
    -- Stopping a service of a user who is not `_anonymous`, where the user's node for it exists and
    -- has no children, no anonymous service has its id, its server runs in this process, and the
    -- server stops without an exception: it succeeds, `get_metadata` then raises that the service is
    -- not found, the machine is as the server's stop leaves it, the server is no longer registered,
    -- and the nodes of other services are as before. The client is lawful.
    pub stop_service_lem :
        (user service : String) (server : M.Server) (s : Services) {machine : M.Machine}
        {bytes : C.Bytes} {version : ℕ}
        → Z.get (At user service) s.stored ≡ ok (bytes, version)
        → IsLeaf Z (At user service) s.stored
        → (user == anonymous) ≡ false
        → Z.get (At anonymous service) s.stored ≡ err no_node
        → lookup service s.services ≡ some server
        → M.stop server s.machine ≡ (ok tt, machine)
        → (s' : Services) × (stop_service R C Z M created_at top base user service s ≡ (ok tt, s'))
          × (get_metadata R C Z M created_at top base user service s'
              ≡ err (service_not_found service))
          × (s'.machine ≡ machine)
          × (lookup service s'.services ≡ none)
          × OthersKept user service s s'
    unfolding stop_service
    stop_service_lem user service server s {machine} there leaf named nobody running stops =
        let gone =
          L.delete_leaf top (base ++ (user ∷ service ∷ [])) none s.stored there refl leaf in
        let runs = gone.runs in
        let after : Services = record {
          stored = gone.after;
          services = erase service s.services;
          machine = machine;
        } in
        let missing = load_missing user service gone.after gone.here in
        let shared = load_missing anonymous service gone.after (
          gone.frame (At anonymous service)
            (is_prefix-pair_path top base user service anonymous service ∙ ground arith)
          ∙ nobody) in
        (
          after,
          ground arith,
          get_metadata_missing user service after missing shared,
          refl,
          lookup-erase service service s.services ∙ ground (arith, eq_iff service service),
          λ user' service' other.
              gone.frame (At user' service')
                (is_prefix-pair_path top base user service user' service' ∙ ground arith),
        )

-- ===== src/Registry/Zk/Lifecycle.antt =====
-- Registering a job with `ZkJobRegistry` and reading it back.
use Prim.Native.String.{count}
use text.Mathlib.TextEquality.{starts_with_iff}
use openeo_geopyspark_driver.Prelude.{
  lt→ltb, ℕ, ◌≤◌, String, ◌≡◌, ◌≢◌, refl, ◌∙◌, Bool, true, false, none, some, [], ◌∷◌, ◌++◌, arith,
  eq_comm, ne→neq, ◌<◌, Option, starts_with,
}
use openeo_geopyspark_driver.Outcome.{ok, err, no_node, stripped_specification}
use openeo_geopyspark_driver.Floats.{Floats}
use openeo_geopyspark_driver.Json.{Json, has, remove, str, null, obj, end, field, get}
use openeo_geopyspark_driver.Codec.{JsonCodec, IsFaithful}
use openeo_geopyspark_driver.JobStatus.{created}
use openeo_geopyspark_driver.Zookeeper.{ZkPath, ZkClient, IsLawful}
use openeo_geopyspark_driver.Registry.Info.{
  JobInfo, build_specification_dict, specification_blob, payload_marker, parse_zk_job_specification,
  new_job, add_parsed, optional,
}
use openeo_geopyspark_driver.Registry.Zk.{read, create, register, get_job}
use openeo_geopyspark_driver.Registry.Zk.Paths.{job_path, is_prefix-job_path}
use openeo_geopyspark_driver.Registry.Zk.Move.{Others}
use openeo_geopyspark_driver.Registry.Zk.Laws.{Holds, IsOwn}

module _ (R : Floats) (C : JsonCodec R.Float) (Z : ZkClient C.Bytes) (top : String) (base : ZkPath)
    (L : IsLawful Z) (faithful : IsFaithful C) (job user : String) (job_given : job ≢ "")
    (user_given : user ≢ "") where
  -- What a client sees of the job that it has registered.
  pub record IsRegistered (now now' api_version : String) (graph options : Json R.Float)
      (title description : Json R.Float) (info : JobInfo R C) : Type 0 where
    pub job_id : get "job_id" info ≡ some (str job)
    pub user_id : get "user_id" info ≡ some (str user)
    pub api : get "api_version" info ≡ some (str api_version)
    pub created_at : get "created" info ≡ some (str now)
    pub updated_at : get "updated" info ≡ some (str now')
    pub status : get "status" info ≡ some (str created)
    pub application : get "application_id" info ≡ some null
    pub process : get "process" info ≡ some (obj (field "process_graph" graph end))
    pub job_options : get "job_options" info ≡ some options
    pub specification : get "specification" info ≡ none
    pub title_kept : get "title" info ≡ some title
    pub description_kept : get "description" info ≡ some description

  -- The size limit, if there is one, does not strip the specification.
  abbrev pub Fits : Option ℕ → Json R.Float → Type 0
  Fits none specification = Unit
  Fits (some limit) specification = count (C.dumps specification) ≤ limit

  specification_blob-Fits :
      (limit : Option ℕ) (specification : Json R.Float)
      → Fits limit specification
      → specification_blob R C limit specification ≡ C.dumps specification
  unfolding specification_blob
  specification_blob-Fits none specification h = refl
  specification_blob-Fits (some limit) specification h = ground arith

  -- The job options that the specification says, `None` where it says none.
  abbrev pub options_or_null : Option (Json R.Float) → Json R.Float
  options_or_null none = null
  options_or_null (some v) = v

  parse-new_job :
      (limit : Option ℕ) (now now' api_version : String) (graph : Json R.Float)
      (options : Option (Json R.Float)) (title description : Option String)
      → Fits limit (build_specification_dict graph options)
      → starts_with (C.dumps (build_specification_dict graph options)) payload_marker ≡ false
      → C.loads (C.dumps (build_specification_dict graph options))
        ≡ ok (build_specification_dict graph options)
      → parse_zk_job_specification R C (
          new_job R C limit now now' job user api_version
            (build_specification_dict graph options)
            title
            description)
        ≡ ok (graph, options_or_null options)
  unfolding parse_zk_job_specification new_job
  parse-new_job limit now now' api graph none title description fits plain loaded =
      rw (specification_blob-Fits limit _ fits) (ground arith)
  parse-new_job limit now now' api graph (some null) title description fits plain loaded =
      rw (specification_blob-Fits limit _ fits) (ground arith)
  parse-new_job limit now now' api graph (some _) title description fits plain loaded =
      rw (specification_blob-Fits limit _ fits) (ground arith)

  create_lem :
      (info : JobInfo R C) (s s' : Z.State)
      → IsOwn R C Z job user info
      → Z.create (job_path top base "ongoing" user job) (C.encode info) s ≡ ok s'
      → create R C Z top base false info s ≡ (ok tt, s')
  unfolding create
  create_lem info s s' own runs = ground (arith, own.job_id, own.user_id)

  get_job_parsed :
      (info : JobInfo R C) (version : ℕ) (s : Z.State) (parsed : Json R.Float × Json R.Float)
      → Holds R C Z (job_path top base "ongoing" user job) info version s
      → parse_zk_job_specification R C info ≡ ok parsed
      → has "specification" (add_parsed R C info parsed) ≡ true
      → get_job R C Z top base true true job user s
        ≡ ok (remove "specification" (add_parsed R C info parsed))
  unfolding get_job read
  get_job_parsed info version s parsed h e there =
      ground (arith, h.at, h.decodes, ne→neq job "" job_given, ne→neq user "" user_given)

  new_job-IsOwn :
      (limit : Option ℕ) (now now' api_version : String) (specification : Json R.Float)
      (title description : Option String)
      → IsOwn R C Z job user
          (new_job R C limit now now' job user api_version specification title description)
  unfolding new_job
  new_job-IsOwn limit now now' api_version specification title description = record {
    job_id = refl;
    user_id = refl;
  }

  -- A job that is registered where no ongoing node has its ids succeeds, and reads back, with its
  -- specification parsed, as a created job without an application id: with the job id, the user id,
  -- the API version, the process graph, the job options (`None` where none were given), the title
  -- and the description that were registered, the times at which it was, and without the raw
  -- specification. The nodes of other jobs do not change. This is for a specification within the
  -- size limit, whose JSON text does not begin with the marker and is read back by `json.loads`, for
  -- ids that are not empty, a lawful client and a codec that reads back what it writes.
  pub register-get_job :
      (limit : Option ℕ) (now now' api_version : String) (graph : Json R.Float)
      (options : Option (Json R.Float)) (title description : Option String) (s : Z.State)
      → Z.get (job_path top base "ongoing" user job) s ≡ err no_node
      → Fits limit (build_specification_dict graph options)
      → starts_with (C.dumps (build_specification_dict graph options)) payload_marker ≡ false
      → C.loads (C.dumps (build_specification_dict graph options))
        ≡ ok (build_specification_dict graph options)
      → (info seen : JobInfo R C) × (s' : Z.State) × (register R C Z top base limit now now' job
            user api_version
            (build_specification_dict graph options)
            title
            description
            s
          ≡ (ok info, s'))
        × (get_job R C Z top base true true job user s' ≡ ok seen)
        × IsRegistered now now' api_version graph
            (options_or_null options)
            (optional title)
            (optional description)
            seen
        × Others R C Z top base job user s s'
  unfolding register get_job
  register-get_job limit now now' api graph options title description s free fits plain loaded =
      let info =
        new_job R C limit now now' job user api (build_specification_dict graph options) title
          description in
      let made =
        L.create_fresh top (base ++ ("ongoing" ∷ user ∷ job ∷ [])) (C.encode info) s free in
      let runs = made.runs in
      let here = made.here in
      (
        info,
        remove "specification" (add_parsed R C info (graph, options_or_null options)),
        made.after,
        rw
            (create_lem info s made.after
              (new_job-IsOwn limit now now' api (build_specification_dict graph options) title
                description)
              runs)
            refl,
        get_job_parsed info L.first_version made.after (graph, options_or_null options)
            (record { bytes = C.encode info; at = here; decodes = faithful.decode-encode info })
            (parse-new_job limit now now' api graph options title description fits plain loaded)
            (unfold new_job in refl),
        unfold new_job in
            record {
              job_id = refl;
              user_id = refl;
              api = refl;
              created_at = refl;
              updated_at = refl;
              status = refl;
              application = refl;
              process = refl;
              job_options = refl;
              specification = refl;
              title_kept = refl;
              description_kept = refl;
            },
        λ area user' job' d. made.frame (job_path top base area user' job') (
            is_prefix-job_path top base area user' job' "ongoing" user job
            ∙ ground (arith, eq_comm user user', eq_comm job job')),
      )

  stripped_blob :
      (limit : ℕ) (specification : Json R.Float)
      → limit < count (C.dumps specification)
      → starts_with (specification_blob R C (some limit) specification) payload_marker ≡ true
  unfolding specification_blob
  stripped_blob limit specification h =
      rw (lt→ltb limit (count (C.dumps specification)) h)
        ((starts_with_iff _ payload_marker).1 (_, refl))

  parse_stripped :
      (limit : ℕ) (now now' api_version : String) (specification : Json R.Float)
      (title description : Option String)
      → limit < count (C.dumps specification)
      → parse_zk_job_specification R C
          (new_job R C (some limit) now now' job user api_version specification title description)
        ≡ err stripped_specification
  unfolding parse_zk_job_specification new_job
  parse_stripped limit now now' api specification title description h =
      rw (stripped_blob limit specification h) refl

  get_job_unparsed :
      (omit : Bool) (info : JobInfo R C) (version : ℕ) (s : Z.State)
      → Holds R C Z (job_path top base "ongoing" user job) info version s
      → parse_zk_job_specification R C info ≡ err stripped_specification
      → (get_job R C Z top base true omit job user s ≡ err stripped_specification)
        × (get_job R C Z top base false false job user s ≡ ok info)
  unfolding get_job read
  get_job_unparsed omit info version s h e = (
    ground (arith, h.at, h.decodes, ne→neq job "" job_given, ne→neq user "" user_given),
    ground (arith, h.at, h.decodes, ne→neq job "" job_given, ne→neq user "" user_given),
  )

  -- Registering, where no ongoing node has the ids, a specification whose JSON text is over the
  -- size limit succeeds, and the raw job info reads back; but every later read that parses the
  -- specification raises `ZkStrippedSpecification`. The ids are not empty; the client is lawful
  -- and the codec reads back what it writes.
  pub register_stripped :
      (limit : ℕ) (now now' api_version : String) (specification : Json R.Float)
      (title description : Option String) (omit : Bool) (s : Z.State)
      → Z.get (job_path top base "ongoing" user job) s ≡ err no_node
      → limit < count (C.dumps specification)
      → (info : JobInfo R C) × (s' : Z.State) × (register R C Z top base
            (some limit)
            now
            now'
            job
            user
            api_version
            specification
            title
            description
            s
          ≡ (ok info, s'))
        × (get_job R C Z top base true omit job user s' ≡ err stripped_specification)
        × (get_job R C Z top base false false job user s' ≡ ok info)
  unfolding register
  register_stripped limit now now' api specification title description omit s free over =
      let info = new_job R C (some limit) now now' job user api specification title description in
      let made =
        L.create_fresh top (base ++ ("ongoing" ∷ user ∷ job ∷ [])) (C.encode info) s free in
      let (fails, raw) =
        get_job_unparsed omit info L.first_version made.after
          (record { bytes = C.encode info; at = made.here; decodes = faithful.decode-encode info })
          (parse_stripped limit now now' api specification title description over) in
      (
        info,
        made.after,
        rw
            (create_lem info s made.after
              (new_job-IsOwn (some limit) now now' api specification title description) made.runs)
            refl,
        fails,
        raw,
      )

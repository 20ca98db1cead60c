-- ===== src/Costs/Config.antt =====
-- Which ETL API a job is reported to: `SimpleEtlApiConfig`, `MultiEtlApiConfig` and `get_etl_api` of
-- openeogeotrellis/integrations/etl_api.py. The credentials in the environment are a function of the
-- variable's name, which may raise.
pub mod Laws
use openeo_geopyspark_driver.Prelude.{
  String, ◌==◌, ◌≡◌, refl, sym, ap, false≢true, ◌∙◌, ◌⊎◌, Bool, true, Option, none, some, List, [],
  ◌∷◌, arith, is_some, eq_iff, Bool-cases, Option-cases, inl, inr, if◌then◌else◌,
}
use openeo_geopyspark_driver.Outcome.{Result, ok, err, etl_config, Result-cases, type_error}
use openeo_geopyspark_driver.Floats.{Floats}
use openeo_geopyspark_driver.Json.{
  Json, null, bool, num, str, arr, obj, nil, cons, Fields, end, field, get_or_null,
}
use openeo_geopyspark_driver.Dict.{Dict, lookup, insert, member, lookup-insert}

module _ (R : Floats) (Credentials : Type 0) where
  -- `EtlApiConfig`, of the job options
  pub record EtlApiConfig : Type 0 where
    pub get_root_url : Option (Fields R.Float) → Result String
    pub get_client_credentials : String → Result (Option Credentials)

  -- `SimpleEtlApiConfig`
  abbrev pub simple_config : String → Option Credentials → EtlApiConfig
  simple_config root_url credentials = record {
    get_root_url = λ job_options. ok root_url;
    get_client_credentials = λ url. if url == root_url then ok credentials else err etl_config;
  }

  -- An entry of `other_etl_apis`.
  pub record OtherApi : Type 0 where
    pub etl_id : String
    pub etl_url : String
    pub cred_var : String

  -- `MultiEtlApiConfig`
  pub record Multi : Type 0 where
    pub default_root_url : String
    pub job_option_field : String
    pub other_root_urls : Dict String
    pub credentials : Dict Credentials

  module _ (from_environ : String → Result Credentials) where
    -- One turn of the loop over `other_etl_apis`.
    abbrev pub add_other : OtherApi → Multi → Multi
    add_other api m = elim (from_environ api.cred_var) [
      | err e ↦ m
      | ok creds ↦ record {
        default_root_url = m.default_root_url;
        job_option_field = m.job_option_field;
        other_root_urls = insert api.etl_id api.etl_url m.other_root_urls;
        credentials = insert api.etl_url creds m.credentials;
      }
    ]

    abbrev pub add_others : List OtherApi → Multi → Multi
    add_others [] m = m
    add_others (api ∷ apis) m = add_others apis (add_other api m)

    abbrev pub default_credentials : String → String → Dict Credentials
    default_credentials url env_var = elim (from_environ env_var) [
      | err e ↦ []
      | ok creds ↦ (url, creds) ∷ []
    ]

    -- `MultiEtlApiConfig.__init__`
    unfoldable pub new_multi : String → String → List OtherApi → String → Multi
    new_multi default_root_url env_var apis job_option_field = add_others apis (record {
      default_root_url = default_root_url;
      job_option_field = job_option_field;
      other_root_urls = [];
      credentials = default_credentials default_root_url env_var;
    })

  abbrev pub other_or_default : Option String → String → String
  other_or_default none default_url = default_url
  other_or_default (some url) default_url = url

  -- The URL for the value of the job option; an id that is a list or a dict cannot be looked up.
  abbrev pub root_url_for : Multi → Json R.Float → Result String
  root_url_for m (str id) =
      if id == ""
      then ok m.default_root_url
      else ok (other_or_default (lookup id m.other_root_urls) m.default_root_url)
  root_url_for m (arr (cons x xs)) = err type_error
  root_url_for m (obj (field k v d)) = err type_error
  root_url_for m _ = ok m.default_root_url

  -- `MultiEtlApiConfig.get_root_url`
  unfoldable pub get_root_url : Multi → Option (Fields R.Float) → Result String
  get_root_url m none = ok m.default_root_url
  get_root_url m (some options) = root_url_for m (get_or_null m.job_option_field options)

  -- `MultiEtlApiConfig.get_client_credentials`
  pub get_client_credentials : Multi → String → Result Credentials
  get_client_credentials m root_url = elim (lookup root_url m.credentials) [
    | none ↦ err etl_config
    | some creds ↦ ok creds
  ]

  -- What `get_etl_api` builds an `EtlApi` of, without a cache: the endpoint and the credentials.
  abbrev pub endpoint_of : EtlApiConfig → String → Result (String × Option Credentials)
  endpoint_of config url = elim (config.get_client_credentials url) [
    | err e ↦ err e
    | ok creds ↦ ok (url, creds)
  ]

  abbrev pub static_endpoint : String → Result Credentials → Result (String × Option Credentials)
  static_endpoint url (ok creds) = ok (url, some creds)
  static_endpoint url (err e) = err e

  pub get_etl_api :
      Option EtlApiConfig
      → String
      → Result Credentials
      → Option String
      → Option (Fields R.Float)
      → Bool
      → Result (String × Option Credentials)
  get_etl_api (some config) static_url environ (some root_url) options true =
      endpoint_of config root_url
  get_etl_api (some config) static_url environ none options true =
      elim (config.get_root_url options) [ err e ↦ err e | ok url ↦ endpoint_of config url ]
  get_etl_api config static_url environ root_url options dynamic =
      static_endpoint static_url environ

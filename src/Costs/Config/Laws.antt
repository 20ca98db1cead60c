-- ===== src/Costs/Config/Laws.antt =====
-- What a `MultiEtlApiConfig` selects.
use openeo_geopyspark_driver.Prelude.{
  String, ◌==◌, ◌≡◌, refl, sym, ap, false≢true, ◌∙◌, ◌⊎◌, true, Option, none, some, List, [], ◌∷◌,
  arith, is_some, eq_iff, Bool-cases, Option-cases, inl, inr,
}
use openeo_geopyspark_driver.Outcome.{Result, ok, Result-cases}
use openeo_geopyspark_driver.Floats.{Floats}
use openeo_geopyspark_driver.Json.{
  Json, null, bool, num, str, arr, obj, nil, cons, Fields, end, field, get_or_null,
}
use openeo_geopyspark_driver.Dict.{Dict, lookup, insert, member, lookup-insert}
use openeo_geopyspark_driver.Costs.Config.{
  OtherApi, Multi, add_other, add_others, default_credentials, new_multi, root_url_for,
  get_root_url, get_client_credentials,
}

module _ (R : Floats) (Credentials : Type 0) where
  -- Each other ETL API that can be selected has credentials.
  abbrev Covered : Dict String → Dict Credentials → Type 0
  Covered others credentials =
      (id url : String) → lookup id others ≡ some url → member url credentials ≡ true

  insert-Covered :
      (id url : String) (creds : Credentials) (others : Dict String)
      (credentials : Dict Credentials)
      → Covered others credentials
      → Covered (insert id url others) (insert url creds credentials)
  insert-Covered id url creds others credentials covered id' url' h = ground (
    arith,
    lookup-insert id id' url others,
    lookup-insert url url' creds credentials,
    eq_iff url url',
    covered id' url',
  )

  module _ (from_environ : String → Result Credentials) where
    add_other-Covered :
        (api : OtherApi R Credentials) (m : Multi R Credentials)
        → Covered m.other_root_urls m.credentials
        → let m' = add_other R Credentials from_environ api m in
          Covered m'.other_root_urls m'.credentials
    add_other-Covered api m covered = elim (Result-cases (from_environ api.cred_var)) [
      | inr (e, failed) ↦ rw (failed, add_other) covered
      | inl (creds, found) ↦
          rw (found, add_other)
            (insert-Covered api.etl_id api.etl_url creds m.other_root_urls m.credentials covered)
    ]

    add_others-Covered :
        (apis : List (OtherApi R Credentials)) (m : Multi R Credentials)
        → Covered m.other_root_urls m.credentials
        → let m' = add_others R Credentials from_environ apis m in
          Covered m'.other_root_urls m'.credentials
    add_others-Covered [] m covered = covered
    add_others-Covered (api ∷ apis) m covered =
        add_others-Covered apis (add_other R Credentials from_environ api m)
          (add_other-Covered api m covered)

    add_others-default :
        (apis : List (OtherApi R Credentials)) (m : Multi R Credentials)
        → (add_others R Credentials from_environ apis m).default_root_url ≡ m.default_root_url
    add_others-default [] m = refl
    add_others-default (api ∷ apis) m = elim (Result-cases (from_environ api.cred_var)) [
      | inr (e, failed) ↦ ground (arith, add_others-default apis m)
      | inl (creds, found) ↦
          add_others-default apis (add_other R Credentials from_environ api m)
          ∙ rw (found, add_other) refl
    ]

    selected_by :
        (m : Multi R Credentials) (v : Json R.Float) (url : String)
        → Covered m.other_root_urls m.credentials
        → root_url_for R Credentials m v ≡ ok url
        → (url ≡ m.default_root_url) ⊎ (member url m.credentials ≡ true)
    selected_by m (str id) url covered h = elim (Bool-cases (id == "")) [
      | inl empty ↦ inl (ground arith)
      | inr given ↦ elim (Option-cases (lookup id m.other_root_urls)) [
        | inl missing ↦ inl (ground arith)
        | inr (other, found) ↦ inr (covered id url (found ∙ ground arith))
      ]
    ]
    selected_by m null url covered h = inl (ground arith)
    selected_by m (bool b) url covered h = inl (ground arith)
    selected_by m (num x) url covered h = inl (ground arith)
    selected_by m (arr nil) url covered h = inl (ground arith)
    selected_by m (obj end) url covered h = inl (ground arith)
    selected_by m (arr (cons x xs)) url covered h = inl (ground arith)
    selected_by m (obj (field k v d)) url covered h = inl (ground arith)

    selected :
        (m : Multi R Credentials) (options : Option (Fields R.Float)) (url : String)
        → Covered m.other_root_urls m.credentials
        → get_root_url R Credentials m options ≡ ok url
        → (url ≡ m.default_root_url) ⊎ (member url m.credentials ≡ true)
    unfolding get_root_url
    selected m none url covered h = inl (ground arith)
    selected m (some options) url covered h =
        selected_by m (get_or_null m.job_option_field options) url covered h

    abbrev initial : String → String → String → Multi R Credentials
    initial default_root_url env_var job_option_field = record {
      default_root_url = default_root_url;
      job_option_field = job_option_field;
      other_root_urls = [];
      credentials = default_credentials R Credentials from_environ default_root_url env_var;
    }

    known :
        (m : Multi R Credentials) (url : String)
        → member url m.credentials ≡ true
        → (creds : Credentials) × (get_client_credentials R Credentials m url ≡ ok creds)
    unfolding get_client_credentials
    known m url h = elim (Option-cases (lookup url m.credentials)) [
      | inl missing ↦ absurd (false≢true (sym (ap is_some missing) ∙ h))
      | inr (creds, found) ↦ (creds, rw (found, get_client_credentials) refl)
    ]

    -- A `MultiEtlApiConfig` that is made from any list of other ETL APIs and any environment: the
    -- root URL that it selects for any job options, where that does not raise, is the default one
    -- or one for which `get_client_credentials` returns credentials.
    pub get_root_url-credentials :
        (default_root_url env_var : String) (apis : List (OtherApi R Credentials))
        (job_option_field : String) (options : Option (Fields R.Float)) (url : String)
        → get_root_url R Credentials
            (new_multi R Credentials from_environ default_root_url env_var apis job_option_field)
            options
          ≡ ok url
        → (url ≡ default_root_url)
          ⊎ ((creds : Credentials) × (get_client_credentials R Credentials
                  (new_multi R Credentials from_environ default_root_url env_var apis
                    job_option_field)
                  url
                ≡ ok creds))
    unfolding new_multi
    get_root_url-credentials default_root_url env_var apis job_option_field options url h =
        let m = initial default_root_url env_var job_option_field in
        elim (selected (add_others R Credentials from_environ apis m) options url
          (add_others-Covered apis m (λ id url found. absurd (false≢true (ap is_some found)))) h) [
            | inl default ↦ inl (default ∙ add_others-default apis m)
            | inr covered ↦ inr (known (add_others R Credentials from_environ apis m) url covered)
          ]

-- ===== src/Tracker/Sync/Loop.antt =====
-- The loop of `update_statuses` in openeogeotrellis/job_tracker_v2.py.
use openeo_geopyspark_driver.Prelude.{
  ℕ, suc, String, ◌≡◌, refl, false≢true, and_left, and_right, Bool, true, false, ◌&&◌, none, List,
  [], ◌∷◌, length, ◌+◌, arith, Bool-cases, inl, inr, if◌then◌else◌,
}
use openeo_geopyspark_driver.Outcome.{ok, Result-cases}
use openeo_geopyspark_driver.Floats.{Floats}
use openeo_geopyspark_driver.Json.{Json, null, bool, num, str, arr, obj, Fields, get_or_null, has}
use openeo_geopyspark_driver.Registry.Info.{required, require_str}
use openeo_geopyspark_driver.Tracker.Metadata.{Times}
use openeo_geopyspark_driver.Tracker.Services.{TrackedRegistry, CostsDetails, Services, World, Stat}
use openeo_geopyspark_driver.Tracker.Sync.{
  Run, job_costs, sync_job_status, guarded, is_valid, track, track_valid, track_all,
  update_statuses,
}
use openeo_geopyspark_driver.Tracker.Sync.Views.{is_collected, sync_job_status-Relates, IsBlind}

-- stats["collected jobs"]
abbrev pub collected : {F : Type 0} → List (Stat F) → ℕ
collected [] = 0
collected (x ∷ xs) = let rest = collected xs in if is_collected x then suc rest else rest

abbrev is_text : {F : Type 0} → Json F → Bool
is_text (str s) = true
is_text _ = false

all_three : (b c d : Bool) → (b && c && d) ≡ true → (b ≡ true) × (c ≡ true) × (d ≡ true)
all_three b c d h = ground arith

if_true : (b x y : Bool) → b ≡ true → (if b then x else y) ≡ true → x ≡ true
if_true true x y e h = h
if_true false x y e h = absurd (false≢true e)

abbrev text_of : {F : Type 0} → Json F → String
text_of (str s) = s
text_of _ = ""

module _ (R : Floats) (T : Times R) (J : TrackedRegistry R.Float) (V : Services R T) where
  -- A job info that is refused as invalid, or whose ids are texts and that has an application id.
  abbrev pub is_trackable : Json R.Float → Bool
  is_trackable (obj info) =
      if is_valid R T J V info
      then is_text (get_or_null "job_id" info)
        && is_text (get_or_null "user_id" info)
        && has "application_id" info
      else true
  is_trackable _ = true

  abbrev pub all_trackable : List (Json R.Float) → Bool
  all_trackable [] = true
  all_trackable (info ∷ infos) = is_trackable info && all_trackable infos

  abbrev tally : World R T J V → ℕ
  tally w = collected w.stats

  tally-costs :
      (details : CostsDetails R T) (w : World R T J V)
      → tally (job_costs R T J V details w).1 ≡ tally w
  tally-costs details w = elim (Result-cases (V.calculate_costs details w.etl).0) [
    | inl (costs, runs) ↦ rw (runs, job_costs) refl
    | inr (e, raised) ↦ rw (raised, job_costs) refl
  ]

  tally-IsBlind : IsBlind R T J V tally
  tally-IsBlind = record {
    counts = λ x other w. rw other refl;
    removes = λ job user w. refl;
    schedules = λ job user sources w. refl;
    costs = tally-costs;
    writes = λ job user costs usage results w. refl;
  }

  guarded_lem :
      (m : Run R T J V) (w : World R T J V)
      → tally (m w).1 ≡ tally w
      → ((guarded R T J V false m w).0 ≡ ok tt) × (tally (guarded R T J V false m w).1 ≡ tally w)
  guarded_lem m w kept = elim (Result-cases (m w).0) [
    | inl (a, runs) ↦ rw runs (refl, kept)
    | inr (e, raised) ↦ rw raised (refl, kept)
  ]

  require_str-text :
      (k : String) (info : Fields R.Float)
      → is_text (get_or_null k info) ≡ true
      → require_str k info ≡ ok (text_of (get_or_null k info))
  require_str-text k info h = ground arith

  required-has :
      (k : String) (info : Fields R.Float)
      → has k info ≡ true
      → required k info ≡ ok (get_or_null k info)
  required-has k info h = ground arith

  track_valid_lem :
      (now : String) (info : Fields R.Float) (w : World R T J V)
      → (is_text (get_or_null "job_id" info)
          && is_text (get_or_null "user_id" info)
          && has "application_id" info)
        ≡ true
      → ((track_valid R T J V false now info w).0 ≡ ok tt)
        × (tally (track_valid R T J V false now info w).1 ≡ tally w)
  unfolding track_valid
  track_valid_lem now info w h =
      let ids =
        all_three (is_text (get_or_null "job_id" info)) (is_text (get_or_null "user_id" info))
          (has "application_id" info) h in
      rw
        (
          require_str-text "job_id" info ids.0,
          require_str-text "user_id" info ids.1,
          required-has "application_id" info ids.2,
        )
        (guarded_lem
          (sync_job_status R T J V now (text_of (get_or_null "job_id" info))
            (text_of (get_or_null "user_id" info)) (get_or_null "application_id" info) info)
          w
          (sync_job_status-Relates R T J V tally (λ v r. tally r.1 ≡ v) (λ r w. refl) tally-IsBlind
            now (text_of (get_or_null "job_id" info)) (text_of (get_or_null "user_id" info))
            (get_or_null "application_id" info) info (λ h w. refl) (λ m is w. refl) w))

  trackable_ids :
      (info : Fields R.Float)
      → is_valid R T J V info ≡ true
      → is_trackable (obj info) ≡ true
      → (is_text (get_or_null "job_id" info)
          && is_text (get_or_null "user_id" info)
          && has "application_id" info)
        ≡ true
  trackable_ids info valid h = if_true _ _ _ valid h

  track_lem :
      (now : String) (info : Json R.Float) (w : World R T J V)
      → is_trackable info ≡ true
      → ((track R T J V false now info w).0 ≡ ok tt)
        × (tally (track R T J V false now info w).1 ≡ suc (tally w))
  unfolding track
  track_lem now (obj info) w h = elim (Bool-cases (is_valid R T J V info)) [
    | inl valid ↦ rw valid (track_valid_lem now info _ (trackable_ids info valid h))
    | inr refused ↦ rw refused (refl, refl)
  ]
  track_lem now null w h = (refl, refl)
  track_lem now (bool b) w h = (refl, refl)
  track_lem now (num x) w h = (refl, refl)
  track_lem now (str s) w h = (refl, refl)
  track_lem now (arr xs) w h = (refl, refl)

  track_all_lem :
      (clock : ℕ → String) (n : ℕ) (infos : List (Json R.Float)) (w : World R T J V)
      → all_trackable infos ≡ true
      → ((track_all R T J V false clock n infos w).0 ≡ ok tt)
        × (tally (track_all R T J V false clock n infos w).1 ≡ length infos + tally w)
  unfolding track_all
  track_all_lem clock n [] w h = (refl, omega arith)
  track_all_lem clock n (info ∷ infos) w h =
      let (runs, counted) = track_lem (clock n) info w (and_left _ _ h) in
      let rest =
        track_all_lem clock (suc n) infos (track R T J V false (clock n) info w).1
          (and_right _ _ h) in
      rw runs (rest.0, omega (arith, rest.1, counted))

  -- Without `fail_fast`, and where the scan of the active jobs ends without an exception and each
  -- job info that is not refused has ids that are texts and an application id: the loop over the
  -- jobs never raises, whatever the services and the registry do, and the counter of collected
  -- jobs goes up by the number of jobs.
  pub update_statuses_lem :
      (clock : ℕ → String) (infos : List (Json R.Float)) (w : World R T J V)
      → all_trackable infos ≡ true
      → ((update_statuses R T J V false clock (infos, none) w).0 ≡ ok tt)
        × (collected (update_statuses R T J V false clock (infos, none) w).1.stats
            ≡ length infos + collected w.stats)
  unfolding update_statuses
  update_statuses_lem clock infos w h =
      let (runs, counted) = track_all_lem clock 0 infos w h in rw runs (refl, counted)

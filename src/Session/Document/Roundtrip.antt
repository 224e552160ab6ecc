-- ===== src/Session/Document/Roundtrip.antt =====
-- session/models.py: a manifest that was written is read back.
use tuner_os.Prelude.{
  ℕ, ◌≡◌, refl, sym, ap, ◌∙◌, subst, String, true, Option, string_eq, ok, ℤ, pos,
}
use tuner_os.Prelude.Dict.{get}
use tuner_os.Prelude.Values.{int, str}
use tuner_os.Session.Models.{SessionManifest, session_format_name}
use tuner_os.Session.Manifest.{validate_consistency}
use tuner_os.Session.Document.{
  object, status_text, optional_text, optional_count, string_of, optional_string_of,
  nonnegative_integer_of, positive_integer_of, optional_nonnegative_integer_of, hash_of,
  optional_hash_of, status_of, item_of, to_dict, calibration_fields, version_of, has_names,
  has_format_name, provenance_of, construct, from_dict, expected_names, includes,
}
use tuner_os.Session.Document.Fields.{
  Provenance, uncalibrated, calibrated, IsStorable, string_of-str, hash_of-str,
  optional_hash_of-text, optional_string_of-text, optional_nonnegative_integer_of-count,
  nonnegative_integer_of-int, status_of-text, item_of-get, get-can_network, get-created_at_utc,
  get-dbc_name, get-dbc_sha256, get-duration_microseconds, get-failure_reason,
  get-first_timestamp_microseconds, get-frame_count, get-frames_sha256,
  get-last_timestamp_microseconds, get-name, get-scenario, get-session_id, get-status,
  get-vehicle_profile_id,
}

module _ (m : SessionManifest) where
  construct-to_dict :
      (version : ℕ) (id : Option String) (revision : Option ℤ)
      → IsStorable m
      → provenance_of (to_dict m) version ≡ ok (id, revision)
      → construct (to_dict m) version
        ≡ ok (record m {
          format_name = session_format_name;
          format_version = version;
          calibration_id = id;
          calibration_revision = revision;
        })
  unfolding construct
  construct-to_dict version id revision h p =
      rw
        (
          item_of-get string_of m "session_id" (str m.session_id) (get-session_id m)
              ∙ string_of-str m.session_id h.session_id,
          item_of-get string_of m "created_at_utc" (str m.created_at_utc) (get-created_at_utc m)
              ∙ string_of-str m.created_at_utc h.created_at_utc,
          item_of-get optional_string_of m "name" (optional_text m.name) (get-name m)
              ∙ optional_string_of-text m.name,
          item_of-get optional_string_of m "scenario" (optional_text m.scenario) (get-scenario m)
              ∙ optional_string_of-text m.scenario,
          item_of-get string_of m "vehicle_profile_id" (str m.vehicle_profile_id)
                (get-vehicle_profile_id m)
              ∙ string_of-str m.vehicle_profile_id h.vehicle_profile_id,
          item_of-get string_of m "can_network" (str m.can_network) (get-can_network m)
              ∙ string_of-str m.can_network h.can_network,
          item_of-get string_of m "dbc_name" (str m.dbc_name) (get-dbc_name m)
              ∙ string_of-str m.dbc_name h.dbc_name,
          item_of-get hash_of m "dbc_sha256" (str m.dbc_sha256) (get-dbc_sha256 m)
              ∙ hash_of-str m.dbc_sha256 h.dbc_sha256,
          item_of-get optional_hash_of m "frames_sha256" (optional_text m.frames_sha256)
                (get-frames_sha256 m)
              ∙ optional_hash_of-text m.frames_sha256 h.frames_sha256,
          item_of-get status_of m "status" (str (status_text m.status)) (get-status m)
              ∙ status_of-text m.status,
          item_of-get optional_string_of m "failure_reason" (optional_text m.failure_reason)
                (get-failure_reason m)
              ∙ optional_string_of-text m.failure_reason,
          item_of-get nonnegative_integer_of m "frame_count" (int (pos m.frame_count))
                (get-frame_count m)
              ∙ nonnegative_integer_of-int m.frame_count,
          item_of-get optional_nonnegative_integer_of m "first_timestamp_microseconds"
                (optional_count m.first_timestamp_microseconds) (get-first_timestamp_microseconds m)
              ∙ optional_nonnegative_integer_of-count m.first_timestamp_microseconds,
          item_of-get optional_nonnegative_integer_of m "last_timestamp_microseconds"
                (optional_count m.last_timestamp_microseconds) (get-last_timestamp_microseconds m)
              ∙ optional_nonnegative_integer_of-count m.last_timestamp_microseconds,
          item_of-get nonnegative_integer_of m "duration_microseconds"
                (int (pos m.duration_microseconds)) (get-duration_microseconds m)
              ∙ nonnegative_integer_of-int m.duration_microseconds,
          p,
        )
        refl

module _ (m : SessionManifest) where
  -- The manifest with these format fields.
  abbrev formatted : ℕ → Option String → Option ℤ → SessionManifest
  formatted version id revision = record m {
    format_name = session_format_name;
    format_version = version;
    calibration_id = id;
    calibration_revision = revision;
  }

  has_format_name-to_dict :
      (version : ℕ) (id : Option String) (revision : Option ℤ)
      → has_format_name (get (to_dict (formatted version id revision)) "format_name") ≡ true
  unfolding has_format_name get to_dict
  has_format_name-to_dict version id revision = refl

  has_names-to_dict :
      {version : ℕ} {id : Option String} {revision : Option ℤ}
      → Provenance version id revision
      → has_names (to_dict (formatted version id revision)) version ≡ true
  unfolding has_names to_dict calibration_fields expected_names includes
  has_names-to_dict uncalibrated = refl
  has_names-to_dict (calibrated text n t) = refl

  version_of-to_dict :
      {version : ℕ} {id : Option String} {revision : Option ℤ}
      → Provenance version id revision
      → version_of (get (to_dict (formatted version id revision)) "format_version") ≡ ok version
  unfolding version_of get to_dict
  version_of-to_dict uncalibrated = refl
  version_of-to_dict (calibrated text n t) = refl

  provenance_of-to_dict :
      {version : ℕ} {id : Option String} {revision : Option ℤ}
      → Provenance version id revision
      → provenance_of (to_dict (formatted version id revision)) version ≡ ok (id, revision)
  unfolding provenance_of get to_dict calibration_fields item_of positive_integer_of
  provenance_of-to_dict uncalibrated = refl
  provenance_of-to_dict (calibrated text n t) = rw (string_of-str text t) refl

  formatted-to_dict :
      (version : ℕ) (id : Option String) (revision : Option ℤ) (uuid : String → Option String)
      → IsStorable (formatted version id revision)
      → validate_consistency uuid (formatted version id revision) ≡ ok tt
      → from_dict uuid (object (to_dict (formatted version id revision)))
        ≡ ok (formatted version id revision)
  unfolding from_dict
  formatted-to_dict version id revision uuid h valid =
      rw
        (
          version_of-to_dict h.provenance,
          has_names-to_dict h.provenance,
          has_format_name-to_dict version id revision,
          construct-to_dict (formatted version id revision) version id revision h
              (provenance_of-to_dict h.provenance),
          valid,
        )
        refl

-- A manifest that is consistent, and whose fields have the forms that the reader asks for, is read
-- back from the object that is written for it, in either version.
pub from_dict-to_dict :
    (uuid : String → Option String) (m : SessionManifest)
    → IsStorable m
    → validate_consistency uuid m ≡ ok tt
    → from_dict uuid (object (to_dict m)) ≡ ok m
from_dict-to_dict uuid m h valid =
    let named : record m { format_name = session_format_name } ≡ m =
      ap (λ (x : String). record m { format_name = x }) (sym h.format_name) in
    subst (λ (x : SessionManifest). from_dict uuid (object (to_dict x)) ≡ ok x) named
      (formatted-to_dict m m.format_version m.calibration_id m.calibration_revision uuid
        (subst IsStorable (sym named) h)
        (subst (λ (x : SessionManifest). validate_consistency uuid x ≡ ok tt) (sym named) valid))

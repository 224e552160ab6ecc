-- ===== src/Session/Recording/Created.antt =====
-- session: the first manifest of a recording is one that its reader accepts.
use tuner_os.Prelude.{
  ℕ, zero, suc, ◌≡◌, refl, sym, subst, String, Bool, string_eq, beq_refl, Option, none, some, ok, ℤ,
  pos, negsuc, >>=-eq-ok, raise_if-passed, ok_injective, ok-ne-err,
}
use tuner_os.Session.Models.{
  SessionManifest, recording, session_format_name, reference_vehicle_profile_id,
  synthetic_can_network,
}
use tuner_os.Session.Manifest.{validate_consistency}
use tuner_os.Session.Document.Fields.{Provenance, uncalibrated, calibrated}
use tuner_os.Session.Format.{encode_session_header}
use tuner_os.Session.Recorder.{
  SessionRecorder, session_recorder, check_calibration, normalize_session_name, is_missing,
}
use tuner_os.Session.Recording.Stored.{IsReadable, Stored}

-- The provenance that the constructor accepts, for a positive revision.
check_calibration-Provenance :
    (id : Option String) (revision : Option ℤ) {version : ℕ}
    → ((n : ℤ) → revision ≡ some n → (k : ℕ) × (n ≡ pos (suc k)))
    → check_calibration id revision ≡ ok version
    → Provenance version id revision
unfolding check_calibration
check_calibration-Provenance none none positive h =
    subst (λ v. Provenance v none none) (ok_injective h) uncalibrated
check_calibration-Provenance none (some n) positive h = absurd (ok-ne-err (sym h))
check_calibration-Provenance (some id) none positive h = absurd (ok-ne-err (sym h))
check_calibration-Provenance (some id) (some (pos (zero))) positive h = absurd (ok-ne-err (sym h))
check_calibration-Provenance (some id) (some (pos (suc k))) positive h =
    let (text, h1) = raise_if-passed (is_missing id (pos (suc k))) _ _ h in
    subst (λ v. Provenance v (some id) (some (pos (suc k)))) (ok_injective h1)
      (calibrated id k text)
check_calibration-Provenance (some id) (some (negsuc k)) positive h =
    let (j, e) = positive (negsuc k) refl in cc

module _ (uuid : String → Option String) (id created : String) (name scenario : Option String)
    (dbc_name dbc_sha256 : String) where
  -- The first manifest of a recording.
  abbrev first_manifest : ℕ → Option String → Option ℤ → SessionManifest
  first_manifest version calibration_id calibration_revision = record {
    format_name = session_format_name;
    format_version = version;
    session_id = id;
    created_at_utc = created;
    name = name;
    scenario = scenario;
    vehicle_profile_id = reference_vehicle_profile_id;
    can_network = synthetic_can_network;
    dbc_name = dbc_name;
    dbc_sha256 = dbc_sha256;
    frames_sha256 = none;
    status = recording;
    failure_reason = none;
    frame_count = 0;
    first_timestamp_microseconds = none;
    last_timestamp_microseconds = none;
    duration_microseconds = 0;
    calibration_id = calibration_id;
    calibration_revision = calibration_revision;
  }

  first_manifest-consistent :
      {version : ℕ} {calibration_id : Option String} {calibration_revision : Option ℤ}
      → uuid id ≡ some id
      → Provenance version calibration_id calibration_revision
      → validate_consistency uuid (first_manifest version calibration_id calibration_revision)
        ≡ ok tt
  unfolding validate_consistency
  first_manifest-consistent canonical uncalibrated = rw (canonical, beq_refl id) refl
  first_manifest-consistent canonical (calibrated text n t) = rw (canonical, beq_refl id, t) refl

  first_manifest-Stored :
      (version : ℕ) (calibration_id : Option String) (calibration_revision : Option ℤ)
      → IsReadable uuid id created dbc_name dbc_sha256 calibration_revision
      → Provenance version calibration_id calibration_revision
      → Stored uuid dbc_sha256 (first_manifest version calibration_id calibration_revision)
  first_manifest-Stored version calibration_id calibration_revision h p = record {
    storable = record {
      format_name = refl;
      session_id = h.identifier;
      created_at_utc = h.created;
      vehicle_profile_id = refl;
      can_network = refl;
      dbc_name = h.dbc_name;
      dbc_sha256 = h.dbc_sha256;
      frames_sha256 = tt;
      provenance = p;
    };
    consistent = first_manifest-consistent h.canonical p;
    same_dbc = refl;
  }

pub new-Stored :
    (collapse : String → String) (exists : Bool) (id created : String)
    (name scenario : Option String) (dbc_name dbc_sha256 : String) (calibration_id : Option String)
    (calibration_revision : Option ℤ) (r : SessionRecorder)
    → session_recorder collapse exists id created name scenario dbc_name dbc_sha256 calibration_id
        calibration_revision
      ≡ ok r
    → (uuid : String → Option String)
    → IsReadable uuid id created dbc_name dbc_sha256 calibration_revision
    → Stored uuid dbc_sha256 r.manifest
unfolding session_recorder
new-Stored collapse exists id created name scenario dbc_name dbc_sha256 calibration_id
      calibration_revision r new uuid readable =
    let (fresh, h1) = raise_if-passed exists _ _ new in
    let (version, v, h2) = >>=-eq-ok (check_calibration calibration_id calibration_revision) _ h1 in
    let (n, nv, h3) = >>=-eq-ok (normalize_session_name collapse name) _ h2 in
    let (s, sv, h4) = >>=-eq-ok (normalize_session_name collapse scenario) _ h3 in
    let (header, e, h5) = >>=-eq-ok (encode_session_header version) _ h4 in
    subst (λ (x : SessionRecorder). Stored uuid dbc_sha256 x.manifest) (ok_injective h5)
      (first_manifest-Stored uuid id created n s dbc_name dbc_sha256 version calibration_id
        calibration_revision readable
        (check_calibration-Provenance calibration_id calibration_revision readable.positive v))

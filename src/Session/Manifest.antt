-- ===== src/Session/Manifest.antt =====
-- session/models.py, `_validate_consistency`: what a manifest must satisfy to be read.
pub mod Recorded
use tuner_os.Prelude.{
  ℕ, ◌-◌, String, Bool, true, false, not, ◌||◌, Option, none, some, ◌==◌, string_eq, Result, ok,
  session_format_error, ◌>>=◌, ◌>>◌, raise_if, eqb, ltb, if◌then◌else◌, err, length, ℤ,
}
use tuner_os.Prelude.Values.{codes}
use tuner_os.Telemetry.Catalog.{is_some}
use tuner_os.Session.Models.{
  SessionManifest, SessionStatus, recording, complete, incomplete, session_format_version,
}

-- not text, for a text that may be absent
abbrev pub is_blank : Option String → Bool
is_blank none = true
is_blank (some s) = ltb (length (codes s)) 1

-- str(UUID(session_id)) != session_id, where `uuid` is str(UUID(...)), or none for a ValueError.
abbrev pub is_canonical : Option String → String → Bool
is_canonical none id = false
is_canonical (some s) id = s == id

-- The timestamps of a session that is not empty.
check_span : Option ℕ → Option ℕ → ℕ → Result (Unit {0})
check_span none last duration = err session_format_error
check_span (some first) none duration = err session_format_error
check_span (some first) (some last) duration = do
  raise_if (ltb last first) session_format_error
  raise_if (not (eqb duration (last - first))) session_format_error

check_empty : SessionManifest → Result (Unit {0})
check_empty m = do
  raise_if (is_some m.first_timestamp_microseconds || is_some m.last_timestamp_microseconds)
      session_format_error
  raise_if (not (eqb m.duration_microseconds 0)) session_format_error

pub check_times : SessionManifest → Result (Unit {0})
unfolding check_span check_empty
check_times m =
    if eqb m.frame_count 0
    then check_empty m
    else check_span m.first_timestamp_microseconds m.last_timestamp_microseconds
        m.duration_microseconds

pub check_status : SessionStatus → Option String → Option String → Result (Unit {0})
check_status recording sha reason = raise_if (is_some sha || is_some reason) session_format_error
check_status complete sha reason = do
  raise_if (not (is_some sha)) session_format_error
  raise_if (is_some reason) session_format_error
check_status incomplete sha reason =
    raise_if (not (is_some sha) || is_blank reason) session_format_error

check_provenance : SessionManifest → Result (Unit {0})
check_provenance m =
    if eqb m.format_version session_format_version
    then raise_if (is_some m.calibration_id || is_some m.calibration_revision) session_format_error
    else raise_if (is_blank m.calibration_id || not (is_some m.calibration_revision))
        session_format_error

unfoldable pub validate_consistency : (String → Option String) → SessionManifest → Result (Unit {0})
unfolding check_times check_status check_provenance
validate_consistency uuid m = do
  raise_if (not (is_canonical (uuid m.session_id) m.session_id)) session_format_error
  check_times m
  check_status m.status m.frames_sha256 m.failure_reason
  check_provenance m

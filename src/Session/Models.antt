-- ===== src/Session/Models.antt =====
-- session/models.py: the manifest of a recording.
use tuner_os.Prelude.{ℕ, String, Bool, true, false, Option, ℤ}

pub data SessionStatus : Type 0 where
  recording complete incomplete : SessionStatus

abbrev pub is_recording : SessionStatus → Bool
is_recording recording = true
is_recording _ = false

abbrev pub is_complete : SessionStatus → Bool
is_complete complete = true
is_complete _ = false

abbrev pub session_format_name : String
session_format_name = "tuneros.raw_can_session"

abbrev pub session_format_version : ℕ
session_format_version = 1

abbrev pub session_format_version_calibration : ℕ
session_format_version_calibration = 2

abbrev pub reference_vehicle_profile_id : String
reference_vehicle_profile_id = "bmw-e90-335i-n54-2010-manual"

abbrev pub synthetic_can_network : String
synthetic_can_network = "TunerOS synthetic Classic CAN"

pub record SessionManifest : Type 0 where
  pub format_name : String
  pub format_version : ℕ
  pub session_id : String
  pub created_at_utc : String
  pub name : Option String
  pub scenario : Option String
  pub vehicle_profile_id : String
  pub can_network : String
  pub dbc_name : String
  pub dbc_sha256 : String
  pub frames_sha256 : Option String
  pub status : SessionStatus
  pub failure_reason : Option String
  pub frame_count : ℕ
  pub first_timestamp_microseconds : Option ℕ
  pub last_timestamp_microseconds : Option ℕ
  pub duration_microseconds : ℕ
  pub calibration_id : Option String
  pub calibration_revision : Option ℤ

-- ===== src/Session/Recorder.antt =====
-- session/recorder.py: recording frames into an artifact. `written` is what the frame file holds
-- and `hashed` what the hasher was fed; `on_disk` is the manifest in the artifact.
pub mod Completion
use tuner_os.Prelude.{
  ℕ, ◌+◌, ◌-◌, String, Bool, true, false, not, ◌&&◌, Option, none, some, ◌++◌, Result, ok, err,
  session_recording_error, value_error, os_error, ◌>>=◌, ◌>>◌, raise_if, if◌then◌else◌, ltb, length,
  any, ℤ, pos, zero,
}
use tuner_os.Prelude.Values.{Bytes, codes}
use tuner_os.Can.Models.{RawCanFrame}
use tuner_os.Can.Codec.{encode_raw_can_record}
use tuner_os.Telemetry.Engine.{precedes}
use tuner_os.Session.Models.{
  recording, complete, incomplete, is_recording, SessionManifest, session_format_name,
  session_format_version, session_format_version_calibration, reference_vehicle_profile_id,
  synthetic_can_network,
}
use tuner_os.Session.Format.{encode_session_header}

pub record SessionRecorder : Type 0 where
  pub manifest : SessionManifest
  pub written : Bytes
  pub hashed : Bytes
  pub closed : Bool
  pub on_disk : SessionManifest
  pub published : Bool

-- How a write of the frame file ends: an `OSError` may leave a part of the bytes in it.
pub data Write : Type 0 where
  succeeds : Write
  fails_after : Bytes → Write

-- `normalize_session_name`, where `collapse` is " ".join(name.split())
unfoldable pub normalize_session_name : (String → String) → Option String → Result (Option String)
normalize_session_name collapse none = ok none
normalize_session_name collapse (some name) = do
  raise_if (ltb (length (codes (collapse name))) 1) value_error
  raise_if (ltb 120 (length (codes (collapse name)))) value_error
  raise_if (any (λ c. ltb c 32) (codes (collapse name))) value_error
  ok (some (collapse name))

-- not calibration_id or not calibration_revision
abbrev pub is_missing : String → ℤ → Bool
is_missing id (pos (zero)) = true
is_missing id n = ltb (length (codes id)) 1

-- The provenance of a recording: both parts or none.
unfoldable pub check_calibration : Option String → Option ℤ → Result ℕ
check_calibration none none = ok session_format_version
check_calibration none (some n) = err value_error
check_calibration (some id) none = err value_error
check_calibration (some id) (some n) = do
  raise_if (is_missing id n) value_error
  ok session_format_version_calibration

-- A recorder that has written its header and its first manifest.
abbrev pub started : Bytes → SessionManifest → SessionRecorder
started header manifest = record {
  manifest = manifest;
  written = header;
  hashed = header;
  closed = false;
  on_disk = manifest;
  published = false;
}

-- `SessionRecorder.__init__`, for an identifier, a creation time and a DBC that are given.
unfoldable pub session_recorder :
    (String → String)
    → Bool
    → String
    → String
    → Option String
    → Option String
    → String
    → String
    → Option String
    → Option ℤ
    → Result SessionRecorder
unfolding check_calibration normalize_session_name
session_recorder collapse exists identifier created name scenario dbc_name dbc_sha256 calibration_id
      calibration_revision =
    do
      raise_if exists session_recording_error
      version ← check_calibration calibration_id calibration_revision
      n ← normalize_session_name collapse name
      s ← normalize_session_name collapse scenario
      header ← encode_session_header version
      ok (
          started header (record {
            format_name = session_format_name;
            format_version = version;
            session_id = identifier;
            created_at_utc = created;
            name = n;
            scenario = s;
            vehicle_profile_id = reference_vehicle_profile_id;
            can_network = synthetic_can_network;
            dbc_name = dbc_name;
            dbc_sha256 = dbc_sha256;
            frames_sha256 = none;
            status = recording;
            failure_reason = none;
            frame_count = 0;
            first_timestamp_microseconds = none;
            last_timestamp_microseconds = none;
            duration_microseconds = 0;
            calibration_id = calibration_id;
            calibration_revision = calibration_revision;
          }))

-- The first timestamp of the recording, when a frame at `now` is added.
abbrev pub first_or : Option ℕ → ℕ → ℕ
first_or none now = now
first_or (some t) now = t

abbrev pub can_record : SessionRecorder → Bool
can_record r = not r.closed && is_recording r.manifest.status

-- The manifest with one more frame. The first timestamp does not follow the new one.
abbrev pub count_frame : SessionManifest → ℕ → SessionManifest
count_frame m t = record m {
  frame_count = m.frame_count + 1;
  first_timestamp_microseconds = some (first_or m.first_timestamp_microseconds t);
  last_timestamp_microseconds = some t;
  duration_microseconds = t - first_or m.first_timestamp_microseconds t;
}

unfoldable pub store_record :
    SessionRecorder → ℕ → Bytes → Write → Result (Unit {0}) × SessionRecorder
store_record r t encoded succeeds = (
  ok tt,
  record r {
    written = r.written ++ encoded;
    hashed = r.hashed ++ encoded;
    manifest = count_frame r.manifest t;
  },
)
store_record r t encoded (fails_after part) =
    (err session_recording_error, record r { written = r.written ++ part })

unfoldable pub write_record :
    SessionRecorder → ℕ → Result Bytes → Write → Result (Unit {0}) × SessionRecorder
unfolding store_record
write_record r t (err e) w = (err e, r)
write_record r t (ok encoded) w = store_record r t encoded w

-- `SessionRecorder.record`
unfoldable pub record_frame :
    RawCanFrame → Write → SessionRecorder → Result (Unit {0}) × SessionRecorder
unfolding write_record
record_frame f w r =
    if not (can_record r)
    then (err session_recording_error, r)
    else if precedes f.timestamp_microseconds r.manifest.last_timestamp_microseconds
    then (err session_recording_error, r)
    else write_record r f.timestamp_microseconds (encode_raw_can_record f) w

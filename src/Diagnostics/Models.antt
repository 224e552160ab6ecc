-- ===== src/Diagnostics/Models.antt =====
-- diagnostics/models.py. `F` is Python's float.
use tuner_os.Prelude.{ℕ, String, Bool, Option, List, ℤ}
use tuner_os.Can.Models.{SignalValue}
use tuner_os.Telemetry.Models.{SignalKey}

pub data DiagnosticStatus : Type 0 where
  pending active historical cleared : DiagnosticStatus

pub data DiagnosticSeverity : Type 0 where
  info warning critical : DiagnosticSeverity

pub data DiagnosticEventType : Type 0 where
  condition_detected condition_cleared dtc_confirmed dtc_recovered dtc_cleared : DiagnosticEventType

pub record DiagnosticDefinition : Type 0 where
  pub code : String
  pub rule_id : String
  pub name : String
  pub description : String
  pub severity : DiagnosticSeverity
  pub source_system : String
  pub required_signals : List SignalKey
  pub confirmation_duration_microseconds : ℤ
  pub recovery_duration_microseconds : ℤ
  pub activation_description : String
  pub recovery_description : String

pub record DiagnosticTroubleCode : Type 0 where
  pub definition : DiagnosticDefinition
  pub status : DiagnosticStatus
  pub first_detected_timestamp_microseconds : ℕ
  pub confirmed_timestamp_microseconds : Option ℕ
  pub last_seen_timestamp_microseconds : ℕ
  pub resolved_timestamp_microseconds : Option ℕ
  pub cleared_timestamp_microseconds : Option ℕ
  pub occurrence_count : ℕ
  pub freeze_frame_available : Bool

pub record DiagnosticEvent : Type 0 where
  pub sequence : ℕ
  pub timestamp_microseconds : ℕ
  pub code : String
  pub event_type : DiagnosticEventType
  pub prior_status : Option DiagnosticStatus
  pub new_status : Option DiagnosticStatus

pub record FreezeFrameSignal (F : Type 0) : Type 0 where
  pub key : SignalKey
  pub value : SignalValue F
  pub unit : String
  pub source_ecu : String
  pub arbitration_id : ℕ
  pub timestamp_microseconds : ℕ
  pub telemetry_frame_sequence : ℕ

pub record DiagnosticFreezeFrame (F : Type 0) : Type 0 where
  pub code : String
  pub capture_timestamp_microseconds : ℕ
  pub telemetry_frame_sequence : ℕ
  pub signals : List (FreezeFrameSignal F)

pub record DiagnosticSnapshot : Type 0 where
  pub observation_timestamp_microseconds : Option ℕ
  pub latest_telemetry_frame_sequence : Option ℕ
  pub dtcs : List DiagnosticTroubleCode
  pub retained_event_count : ℕ
  pub total_event_count : ℕ
  pub latest_event_sequence : Option ℕ
  pub pending_count : ℕ
  pub active_count : ℕ
  pub historical_count : ℕ
  pub cleared_count : ℕ

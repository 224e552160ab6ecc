-- ===== src/Investigation/Models.antt =====
-- investigation/models.py: what an investigation returns. `F` is Python's float.
use tuner_os.Prelude.{ℕ, ◌-◌, String, Bool, Option, List}
use tuner_os.Can.Models.{SignalValue}
use tuner_os.Can.Explorer.{CanExplorerFrame}
use tuner_os.Telemetry.Models.{SignalKey, SignalSample}
use tuner_os.Telemetry.Catalog.{SignalDefinition}
use tuner_os.Diagnostics.Models.{
  DiagnosticDefinition, DiagnosticEvent, DiagnosticFreezeFrame, DiagnosticStatus,
  DiagnosticTroubleCode,
}
use tuner_os.Session.Models.{SessionManifest}

abbrev pub investigation_format_name : String
investigation_format_name = "tuneros.diagnostic_investigation"

abbrev pub investigation_format_version : ℕ
investigation_format_version = 1

abbrev pub max_investigation_window_microseconds : ℕ
max_investigation_window_microseconds = 30000000

abbrev pub max_investigation_raw_frames : ℕ
max_investigation_raw_frames = 8192

abbrev pub max_selected_signals : ℕ
max_selected_signals = 6

pub record InvestigationWindow : Type 0 where
  pub requested_center_timestamp_microseconds : ℕ
  pub center_timestamp_microseconds : ℕ
  pub requested_before_microseconds : ℕ
  pub requested_after_microseconds : ℕ
  pub start_timestamp_microseconds : ℕ
  pub end_timestamp_microseconds : ℕ

-- The end never precedes the start in a resolved window.
abbrev pub window_duration : InvestigationWindow → ℕ
window_duration w = w.end_timestamp_microseconds - w.start_timestamp_microseconds

pub record InvestigationSignalSeries (F : Type 0) : Type 0 where
  pub definition : SignalDefinition
  pub samples : List (SignalSample F)

pub data ValueType : Type 0 where
  numeric boolean unobserved : ValueType

pub record InvestigationSignalSummary (F : Type 0) : Type 0 where
  pub key : SignalKey
  pub value_type : ValueType
  pub observation_count : ℕ
  pub first : Option (SignalValue F)
  pub last : Option (SignalValue F)
  pub minimum : Option F
  pub maximum : Option F
  pub mean : Option F
  pub distinct_values : List (SignalValue F)

pub record DiagnosticStateAtTime : Type 0 where
  pub definition : DiagnosticDefinition
  pub status : Option DiagnosticStatus
  pub trouble_code : Option DiagnosticTroubleCode

pub record InvestigationStatistics : Type 0 where
  pub raw_frame_count : ℕ
  pub decoded_signal_update_count : ℕ
  pub diagnostic_event_count : ℕ
  pub selected_signal_counts : List (SignalKey × ℕ)
  pub window_duration_microseconds : ℕ

pub record InvestigationResult (F : Type 0) : Type 0 where
  pub session : SessionManifest
  pub window : InvestigationWindow
  pub available_signals : List SignalDefinition
  pub selected_signals : List SignalKey
  pub start_context : List (SignalSample F)
  pub raw_frames : List (CanExplorerFrame F)
  pub telemetry_series : List (InvestigationSignalSeries F)
  pub signal_summaries : List (InvestigationSignalSummary F)
  pub diagnostic_events : List DiagnosticEvent
  pub diagnostic_states_at_center : List DiagnosticStateAtTime
  pub freeze_frames_at_center : List (DiagnosticFreezeFrame F)
  pub statistics : InvestigationStatistics

pub record SignalComparison (F : Type 0) : Type 0 where
  pub key : SignalKey
  pub primary : InvestigationSignalSummary F
  pub baseline : InvestigationSignalSummary F
  pub mean_difference : Option F

pub record InvestigationComparison (F : Type 0) : Type 0 where
  pub primary : InvestigationResult F
  pub baseline : InvestigationResult F
  pub signal_comparisons : List (SignalComparison F)
  pub diagnostic_code : Option String
  pub primary_has_diagnostic_event : Option Bool
  pub baseline_has_diagnostic_event : Option Bool

pub record InvestigationEvidenceExport (F : Type 0) : Type 0 where
  pub format_name : String
  pub format_version : ℕ
  pub investigation : InvestigationResult F
  pub baseline : Option (InvestigationResult F)
  pub signal_comparisons : List (SignalComparison F)
  pub diagnostic_code : Option String
  pub primary_has_diagnostic_event : Option Bool
  pub baseline_has_diagnostic_event : Option Bool

-- ===== src/Service/Models.antt =====
-- telemetry/service.py: the states of the service and the events that it publishes. `F` is Python's
-- float.
use tuner_os.Prelude.{ℕ, String, Bool, true, false, ◌&&◌, Option, List, Error}
use tuner_os.Can.Explorer.{CanExplorerFrame}
use tuner_os.Can.Explorer.Queries.{CanExplorerStatistics, CanMessageStatistics}
use tuner_os.Telemetry.Models.{SignalFreshness, SignalSample, TelemetryStatistics}

pub data TelemetryServiceState : Type 0 where
  stopped connecting running completed failed : TelemetryServiceState

pub data TelemetrySourceMode : Type 0 where
  live replay : TelemetrySourceMode

-- The text of an error: of the failure, and of the one that finalizing the recording raised then.
pub record Failure : Type 0 where
  pub error : Error
  pub recording_error : Option Error

pub record TelemetryUpdate (F : Type 0) : Type 0 where
  pub timestamp_microseconds : ℕ
  pub frame_sequence : ℕ
  pub arbitration_id : ℕ
  pub message_name : String
  pub source_ecu : String
  pub samples : List (SignalSample F)
  pub freshness : List SignalFreshness

pub record CanExplorerUpdate (F : Type 0) : Type 0 where
  pub frame : CanExplorerFrame F
  pub statistics : CanExplorerStatistics
  pub message_statistics : CanMessageStatistics F

-- `ServiceEvent`; a `TelemetryServiceStateUpdate` is its state and its error.
pub data ServiceEvent (F : Type 0) : Type 0 where
  telemetry_update : TelemetryUpdate F → ServiceEvent F
  can_explorer_update : CanExplorerUpdate F → ServiceEvent F
  state_update : TelemetryServiceState → Option Failure → ServiceEvent F

-- state in (TelemetryServiceState.CONNECTING, TelemetryServiceState.RUNNING)
abbrev pub is_active : TelemetryServiceState → Bool
is_active connecting = true
is_active running = true
is_active _ = false

abbrev pub is_stopped : TelemetryServiceState → Bool
is_stopped stopped = true
is_stopped _ = false

abbrev pub is_running : TelemetryServiceState → Bool
is_running running = true
is_running _ = false

abbrev pub is_live : TelemetrySourceMode → Bool
is_live live = true
is_live replay = false

pub record TelemetryServiceStatus : Type 0 where
  pub state : TelemetryServiceState
  pub last_error : Option Failure
  pub statistics : TelemetryStatistics
  pub source_mode : TelemetrySourceMode

abbrev pub gateway_connected : TelemetryServiceStatus → Bool
gateway_connected s = is_live s.source_mode && is_running s.state

pub record TelemetrySourceStatus : Type 0 where
  pub mode : TelemetrySourceMode
  pub session_id : Option String
  pub session_name : Option String
  pub recording : Bool
  pub recorded_frame_count : ℕ

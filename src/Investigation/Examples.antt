-- ===== src/Investigation/Examples.antt =====
-- investigation/: the recordings and the database of the examples.
mod Windows
mod Evidence
mod Loop
mod Comparisons
use tuner_os.Prelude.{
  ℕ, String, err, ◌-◌, ◌≤◌, ◌≡◌, refl, true, none, some, List, [], ◌∷◌, arith, Result, ok, pos, ltb,
  length, string_eq, nat_eq,
}
use tuner_os.Prelude.Values.{int}
use tuner_os.Can.Models.{RawCanFrame}
use tuner_os.Can.Decoder.{TunerOsDbcDecoder, decode}
use tuner_os.Telemetry.Catalog.{SignalCatalog, no_signals, signal_catalog}
use tuner_os.Prelude.Dict.{get, put}
use tuner_os.Can.Metadata.{CanSignalMetadata, CanMessageMetadata}
use tuner_os.Telemetry.Engine.{new_engine}
use tuner_os.Diagnostics.Rules.{FloatOps}
use tuner_os.Diagnostics.Engine.{DiagnosticEngine}
use tuner_os.Diagnostics.Engine.States.{HasStates}
use tuner_os.Session.Models.{SessionManifest, complete}
use tuner_os.Investigation.Models.{InvestigationWindow}
use tuner_os.Investigation.Window.{resolve_window, clamp_center}
use tuner_os.Investigation.Window.Bounds.{IsAround, resolve_window-IsAround, clamp_center-resolves}
use tuner_os.Investigation.Analysis.{Pipeline, Observation, Analysis, analyse, observe}
use tuner_os.Investigation.Analysis.Gathering.{observe_all, from_start}
use tuner_os.Investigation.Analysis.Outcome.{not_after}
use tuner_os.Investigation.Analysis.Progress.{analyse-returns}
use tuner_os.Prelude.{◌++◌, ◌>>=◌}
use tuner_os.Session.Replay.{replay_all}
use tuner_os.Session.Catalog.{
  Artifact, reader, canonical_id, open_artifact, compatibility, is_supported_dbc_sha256,
}
use tuner_os.Session.Reader.{session_reader, validate_integrity}
use tuner_os.Investigation.Analysis.Replay.{replayed, forget}
use tuner_os.Investigation.Selection.{require_compatible, has_event}
use tuner_os.Investigation.Summary.{compare_summaries}
use tuner_os.Investigation.Models.{InvestigationComparison}
use tuner_os.Investigation.Service.{investigate, compare}
use tuner_os.Investigation.Service.Comparison.{IsComparisonOf}
use tuner_os.Prelude.Struct.{of_be}
use tuner_os.Can.Codec.{decode_raw_can_record}
use tuner_os.Can.Models.{raw_can_frame}
use tuner_os.Can.Explorer.{can_explorer, annotate, ingest as explorer_ingest}
use tuner_os.Telemetry.Catalog.{definitions_for_frame, definitions_of_signals, definition_of}
use tuner_os.Telemetry.Engine.{
  telemetry_engine, ingest as engine_ingest, prepare, samples_of, sample_of, record_samples,
  record_sample, snapshot, statuses, freshness, statistics,
}
use tuner_os.Diagnostics.Catalog.{diagnostic_catalog, DiagnosticRule}
use tuner_os.Diagnostics.Models.{warning}
use tuner_os.Diagnostics.Catalog.Defaults.{default_rules, create_default_diagnostic_catalog}
use tuner_os.Diagnostics.Engine.{diagnostic_engine, dtc, freeze_frame, ingest as diagnostics_ingest}
use tuner_os.Diagnostics.Rules.{truth, number, evaluate, high_threshold}
use tuner_os.Diagnostics.RuleState.{append_event, new_rule_state}
use tuner_os.Diagnostics.Lifecycle.{advance, handle_normal, handle_violation}
use tuner_os.Diagnostics.Lifecycle.Evaluation.{
  evaluate_rule, inputs_are_fresh, observe as observe_rule,
}
use tuner_os.Session.Format.{decode_session_header}
use tuner_os.Session.Reader.{
  frames, scan_file, check_header, check_totals, scan_records, scan_record, yield_frame,
}
use tuner_os.Investigation.Selection.{resolve_signals, repeats, require_all}
use tuner_os.Investigation.Summary.{
  summarize, summarize_all, float_of, floats_of, least, greatest, distinct,
}
use tuner_os.Investigation.Analysis.{
  analyse_frame, include_frame, collect, gather, include, capture_center, states_now, add_sample,
  add_samples, note_sample, note_context,
}
use tuner_os.Investigation.Service.{
  new_analysis, empty_series, analyse_session, frozen_series, ordered_context,
}
use tuner_os.Prelude.Values.{Bytes}
use tuner_os.Session.Catalog.{SessionReader, read_frames}
use tuner_os.Diagnostics.Catalog.Defaults.{coolant}
use tuner_os.Investigation.Models.{InvestigationResult}
use tuner_os.Investigation.Summary.{MeanOps}
use tuner_os.Investigation.Service.{InvestigationService, Query, investigate_session}
use tuner_os.Investigation.Service.Evidence.{IsEvidenceOf, investigate_session-IsEvidenceOf}

abbrev pub manifest : SessionManifest
manifest = record {
  format_name = "tuneros.raw_can_session";
  format_version = 1;
  session_id = "0b8e0d7a-3c1f-4f53-9a51-3f2c0a4b8e11";
  created_at_utc = "2026-01-01T00:00:00Z";
  name = none;
  scenario = none;
  vehicle_profile_id = "bmw-e90-335i-n54-2010-manual";
  can_network = "TunerOS synthetic Classic CAN";
  dbc_name = "tuneros.dbc";
  dbc_sha256 = "abc";
  frames_sha256 = some "hash";
  status = complete;
  failure_reason = none;
  frame_count = 3;
  first_timestamp_microseconds = some 1000000;
  last_timestamp_microseconds = some 3000000;
  duration_microseconds = 2000000;
  calibration_id = none;
  calibration_revision = none;
}

abbrev pub window : InvestigationWindow
window = record {
  requested_center_timestamp_microseconds = 2000000;
  center_timestamp_microseconds = 2000000;
  requested_before_microseconds = 500000;
  requested_after_microseconds = 5000000;
  start_timestamp_microseconds = 1500000;
  end_timestamp_microseconds = 3000000;
}

-- The floats of the examples are natural numbers.
instance abbrev pub nat_floats : FloatOps ℕ
nat_floats = record {
  less = ltb;
  minus = λ a b. a - b;
  magnitude = λ a. a;
  of_int = λ z. 0;
  tenths = λ n. n;
}

abbrev pub signal : String → CanSignalMetadata
signal name = record { signal_name = name; unit = "" }

abbrev pub message : ℕ → String → List CanSignalMetadata → CanMessageMetadata
message id name signals = record {
  arbitration_id = id;
  message_name = name;
  transmitter = "DME";
  cycle_time_microseconds = 10000;
  signals = signals;
}

-- A database with the signals of the default rules, of which one message is decoded.
abbrev pub decoder : TunerOsDbcDecoder ℕ
decoder = record {
  frames_by_id =
      (
        0x501,
        record {
          arbitration_id = 0x501;
          name = "DmeThermalElectrical";
          size = 0;
          transmitters = "DME" ∷ [];
          cycle_time = pos 10;
          signals =
              signal "CoolantTemperature" ∷ signal "OilTemperature" ∷ signal "BatteryVoltage" ∷ [];
          decode_payload = λ b. some (
              ("CoolantTemperature", record { raw_truth = true; phys_value = 1000 })
              ∷ ("OilTemperature", record { raw_truth = true; phys_value = 900 })
              ∷ ("BatteryVoltage", record { raw_truth = true; phys_value = 140 })
              ∷ []);
        },
      )
      ∷ [];
  database_metadata = record {
    messages =
        message 0x501 "DmeThermalElectrical"
          (signal "CoolantTemperature" ∷ signal "OilTemperature" ∷ signal "BatteryVoltage" ∷ [])
        ∷ message 0x500 "DmeFastEngine" (signal "EngineRunning" ∷ [])
        ∷ message 0x502 "DmeAirLoad" (signal "ManifoldPressureAbsolute" ∷ [])
        ∷ message 0x503 "DscVehicleMotion" (signal "VehicleSpeed" ∷ [])
        ∷ message 0x504 "DscWheelSpeeds" (
            signal "FrontLeftWheelSpeed"
            ∷ signal "FrontRightWheelSpeed"
            ∷ signal "RearLeftWheelSpeed"
            ∷ signal "RearRightWheelSpeed"
            ∷ [])
        ∷ [];
  };
}

abbrev pub frame_at : ℕ → RawCanFrame
frame_at t = record { arbitration_id = 0x501; payload = []; timestamp_microseconds = t }

abbrev pub value_or {ℓ} : {A : Type ℓ} → A → Result A → A
value_or d (ok a) = a
value_or d (err e) = d

abbrev pub no_catalog : SignalCatalog
no_catalog = value_or no_signals (signal_catalog decoder.database_metadata)

catalog_works : signal_catalog decoder.database_metadata ≡ ok no_catalog
unfolding signal_catalog get put
catalog_works = refl

-- Three frames, of which the window of the query holds the last two.
abbrev pub record_at : ℕ → Bytes
record_at t = 0 ∷ 0 ∷ 0 ∷ 0 ∷ 0 ∷ 0 ∷ 0 ∷ t ∷ 5 ∷ 1 ∷ 0 ∷ 0 ∷ 0 ∷ 0 ∷ 0 ∷ 0 ∷ 0 ∷ 0 ∷ 0 ∷ []

abbrev pub session : SessionReader
session = record {
  manifest = record manifest {
    first_timestamp_microseconds = some 16;
    last_timestamp_microseconds = some 48;
  };
  frame_file =
      some (84 ∷ 78 ∷ 83 ∷ 82 ∷ 1 ∷ 0 ∷ 0 ∷ 0 ∷ record_at 16 ++ record_at 32 ++ record_at 48);
}

abbrev pub service : InvestigationService ℕ
service = record {
  sessions = record {
    uuid = λ s. some s;
    sha256 = λ b. "hash";
    authoritative_dbc_sha256 = "abc";
    artifacts = [];
  };
  decoder = ok decoder;
}

abbrev pub query : Query
query = record {
  before_microseconds = int (pos 8);
  after_microseconds = int (pos 16);
  selected_signals = some (coolant ∷ []);
  diagnostic_code = none;
}

instance abbrev pub nat_means : MeanOps ℕ
nat_means = record { sum = λ xs. 0; over = λ x n. x }

abbrev pub nothing : InvestigationResult ℕ
nothing = record {
  session = manifest;
  window = window;
  available_signals = [];
  selected_signals = [];
  start_context = [];
  raw_frames = [];
  telemetry_series = [];
  signal_summaries = [];
  diagnostic_events = [];
  diagnostic_states_at_center = [];
  freeze_frames_at_center = [];
  statistics = record {
    raw_frame_count = 0;
    decoded_signal_update_count = 0;
    diagnostic_event_count = 0;
    selected_signal_counts = [];
    window_duration_microseconds = 0;
  };
}

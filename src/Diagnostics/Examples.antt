-- ===== src/Diagnostics/Examples.antt =====
-- diagnostics/: a drive in which a fault is confirmed, recovers, returns for a moment, and is cleared.
use tuner_os.Prelude.{ℕ, ◌≡◌, refl, none, some, List, [], ◌∷◌, pos, ok, string_eq, ◌*◌}
use tuner_os.Telemetry.Models.{TelemetrySnapshot}
use tuner_os.Diagnostics.Models.{historical, warning, DiagnosticDefinition}
use tuner_os.Diagnostics.Rules.{normal, violation, high_threshold}
use tuner_os.Diagnostics.RuleState.{EventLog, Observation, met, unusable, status_of, Work}
use tuner_os.Diagnostics.FreezeFrame.{capture_freeze_frame, sort_by_key}
use tuner_os.Diagnostics.Lifecycle.{advance, handle_violation, handle_normal}
use tuner_os.Diagnostics.Lifecycle.Run.{Evaluation, run, run-expected}
use tuner_os.Diagnostics.Lifecycle.Returns.{Fed}
use tuner_os.Can.Models.{DecodedCanFrame}
use tuner_os.Telemetry.Catalog.{
  SignalCatalog, no_signals, definitions_for_frame, definitions_of_signals,
}
use tuner_os.Telemetry.Engine.{
  new_engine, ingest, prepare, samples_of, record_samples, snapshot, statuses, statistics,
}
use tuner_os.Telemetry.Engine.History.{run as run_telemetry}
use tuner_os.Prelude.Dict.{get, put}
use tuner_os.Prelude.{nat_eq}
use tuner_os.Diagnostics.Catalog.Defaults.{coolant}
use tuner_os.Diagnostics.Engine.{DiagnosticEngine, clear, dtc}
use tuner_os.Diagnostics.Engine.Clear.{Clears, clear-Clears}

abbrev overheat : DiagnosticDefinition
overheat = record {
  code = "TOS-P0217";
  rule_id = "engine_overheat";
  name = "Engine overheat";
  description = "Coolant is hot";
  severity = warning;
  source_system = "DME";
  required_signals = coolant ∷ [];
  confirmation_duration_microseconds = pos 2000000;
  recovery_duration_microseconds = pos 1000000;
  activation_description = "hot";
  recovery_description = "cool";
}

abbrev at_frame : ℕ → TelemetrySnapshot ℕ
at_frame n = record {
  observation_timestamp_microseconds = some (n * 1000000);
  last_frame_sequence = some n;
  samples = [];
  freshness = [];
  statistics = record {
    total_frames = n;
    total_signal_updates = n;
    latest_timestamp_microseconds = none;
    last_frame_sequence = some n;
    frames_by_arbitration_id = [];
  };
}

abbrev at_second : ℕ → Observation → Evaluation ℕ
at_second n o = record {
  snapshot = at_frame n;
  frame_sequence = n;
  numbered = refl;
  timestamp = n * 1000000;
  observation = o;
}

abbrev log : EventLog
log = record { capacity = 100; events = []; next_event_sequence = 0 }

-- The newest first. The inputs that are missing in second 2 make the confirmation start again.
abbrev confirmed_drive : List (Evaluation ℕ)
confirmed_drive =
    at_second 5 (met violation)
    ∷ at_second 4 (met violation)
    ∷ at_second 3 (met violation)
    ∷ at_second 2 unusable
    ∷ at_second 1 (met violation)
    ∷ []

abbrev drive : List (Evaluation ℕ)
drive =
    at_second 9 (met normal)
    ∷ at_second 8 (met violation)
    ∷ at_second 7 (met normal)
    ∷ at_second 6 (met normal)
    ∷ confirmed_drive

run-expected_example : status_of (run overheat log drive).state.dtc ≡ some historical
run-expected_example = run-expected overheat log drive

-- A telemetry engine that has one message, without signals.
abbrev beacon_only : SignalCatalog
beacon_only = record no_signals {
  messages_by_id =
      (
        0x100,
        record {
          arbitration_id = 0x100;
          message_name = "Beacon";
          transmitter = "DME";
          cycle_time_microseconds = 10000;
          signals = [];
        },
      )
      ∷ [];
}

abbrev beacons : List (DecodedCanFrame ℕ)
beacons =
    record {
      arbitration_id = 0x100;
      message_name = "Beacon";
      timestamp_microseconds = 10000000;
      signals = [];
    }
    ∷ []

abbrev beacon_shot : TelemetrySnapshot ℕ
beacon_shot = record {
  observation_timestamp_microseconds = some 10000000;
  last_frame_sequence = some 0;
  samples = [];
  freshness = [];
  statistics = record {
    total_frames = 1;
    total_signal_updates = 0;
    latest_timestamp_microseconds = some 10000000;
    last_frame_sequence = some 0;
    frames_by_arbitration_id = (0x100, 1) ∷ [];
  };
}

beacon_taken : snapshot (run_telemetry (new_engine beacon_only 16) beacons).1 none ≡ ok beacon_shot
unfolding run_telemetry snapshot ingest prepare definitions_for_frame definitions_of_signals
    samples_of record_samples statuses statistics get put
beacon_taken = refl

abbrev fed : Observation → Fed ℕ
fed o = record {
  catalog = beacon_only;
  capacity = 16;
  frames = beacons;
  keys = none;
  snapshot = beacon_shot;
  taken = beacon_taken;
  timestamp = 10000000;
  timed = refl;
  observation = o;
}

driven : Work ℕ
unfolding run advance handle_violation handle_normal capture_freeze_frame sort_by_key
driven = run overheat log drive

abbrev workshop : DiagnosticEngine ℕ
workshop = record {
  catalog = record {
    rules = record { definition = overheat; condition = high_threshold coolant 115 110 } ∷ [];
    by_code =
        ("TOS-P0217", record { definition = overheat; condition = high_threshold coolant 115 110 })
        ∷ [];
  };
  states = ("TOS-P0217", driven.state) ∷ [];
  log = driven.log;
  observation_timestamp_microseconds = some 9000000;
  latest_telemetry_frame_sequence = some 9;
}

clear-Clears_example :
    Clears workshop "TOS-P0217"
      (dtc workshop "TOS-P0217")
      (clear workshop "TOS-P0217").0
      (clear workshop "TOS-P0217").1
clear-Clears_example = clear-Clears workshop "TOS-P0217"

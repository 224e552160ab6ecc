-- ===== src/Telemetry/Engine/Examples.antt =====
-- telemetry/: the theorems on a small database, two frames and a frame that is refused.
use tuner_os.Prelude.{
  ℕ, ◌≡◌, refl, none, List, [], ◌∷◌, arith, Result, ok, err, pos, keep_last, length, get_last?,
  out_of_order_telemetry_error,
}
use tuner_os.Prelude.Dict.{get, put}
use tuner_os.Can.Metadata.{CanDatabaseMetadata}
use tuner_os.Can.Models.{DecodedCanFrame, integer}
use tuner_os.Telemetry.Models.{SignalKey, key_eq, SignalSample, TelemetrySnapshot}
use tuner_os.Telemetry.Catalog.{
  SignalCatalog, SignalDefinition, signal_catalog, no_signals, definitions_of_signals,
  definitions_for_frame,
}
use tuner_os.Telemetry.Catalog.Lookup.{definitions_of, keyed, IsUnique, signal_catalog-definitions}
use tuner_os.Telemetry.Engine.{
  TelemetryEngine, new_engine, history_of, ingest, prepare, samples_of, sample_of, record_samples,
  record_sample, snapshot,
}
use tuner_os.Telemetry.Engine.History.{run, of_key, run-Shows}
use tuner_os.Telemetry.Engine.Snapshot.{Reads, snapshot_total, snapshot-by_age}

abbrev metadata : CanDatabaseMetadata
metadata = record {
  messages =
      record {
        arbitration_id = 0x520;
        message_name = "DscVehicleMotion";
        transmitter = "TunerOsSimulatedDsc";
        cycle_time_microseconds = 20000;
        signals =
            record { signal_name = "VehicleSpeed"; unit = "m/s" }
            ∷ record { signal_name = "CurrentGear"; unit = "gear" }
            ∷ [];
      }
      ∷ [];
}

abbrev gear : SignalKey
gear = record { message_name = "DscVehicleMotion"; signal_name = "CurrentGear" }

catalog_or : SignalCatalog → Result SignalCatalog → SignalCatalog
catalog_or c (ok c') = c'
catalog_or c (err e) = c

catalog : SignalCatalog
unfolding signal_catalog catalog_or get put
catalog = catalog_or no_signals (signal_catalog metadata)

built : signal_catalog metadata ≡ ok catalog
unfolding catalog
built = refl

motion : ℕ → ℕ → DecodedCanFrame ℕ
motion t g = record {
  arbitration_id = 0x520;
  message_name = "DscVehicleMotion";
  timestamp_microseconds = t;
  signals = ("CurrentGear", integer (pos g)) ∷ [];
}

-- The second frame is refused, since it goes back in time.
abbrev frames : List (DecodedCanFrame ℕ)
frames = motion 20000 1 ∷ motion 10000 2 ∷ motion 40000 3 ∷ motion 90000 4 ∷ []

fed : TelemetryEngine ℕ
unfolding catalog motion run ingest definitions_for_frame definitions_of_signals samples_of
    sample_of record_samples record_sample prepare
fed = (run (new_engine catalog 2) frames).1

out_of_order :
    (ingest (run (new_engine catalog 2) (motion 20000 1 ∷ [])).1 (motion 10000 2)).0
    ≡ err out_of_order_telemetry_error
unfolding fed
out_of_order = refl

counted : (fed.total_frames ≡ 3) × (length (history_of fed gear) ≡ 2)
unfolding fed
counted = (refl, refl)

signal_catalog-definitions_example :
    (catalog.definitions ≡ definitions_of metadata.messages)
    × (catalog.definitions_by_key ≡ keyed catalog.definitions)
    × IsUnique catalog.definitions
signal_catalog-definitions_example = signal_catalog-definitions metadata catalog built

run-Shows_example :
    (history_of (run (new_engine catalog 2) frames).1 gear
      ≡ keep_last 2 (of_key gear (run (new_engine catalog 2) frames).0))
    × (get (run (new_engine catalog 2) frames).1.latest_samples gear
        ≡ get_last? (of_key gear (run (new_engine catalog 2) frames).0))
run-Shows_example = run-Shows catalog 2 frames gear (omega arith)

snapshot_total_example :
    (s : TelemetrySnapshot ℕ) × (snapshot (run (new_engine catalog 2) frames).1 none ≡ ok s)
snapshot_total_example = snapshot_total metadata catalog 2 frames built

last_gear : SignalSample ℕ
last_gear = record {
  key = gear;
  value = integer (pos 4);
  timestamp_microseconds = 90000;
  frame_sequence = 2;
  arbitration_id = 0x520;
  message_name = "DscVehicleMotion";
  source_ecu = "TunerOsSimulatedDsc";
  unit = "gear";
}

snapshot-by_age_example :
    (t : ℕ) × (d : SignalDefinition) × Reads catalog gear last_gear t d
      (snapshot_total metadata catalog 2 frames built).0
unfolding fed last_gear
snapshot-by_age_example =
    snapshot-by_age metadata catalog 2 frames (snapshot_total metadata catalog 2 frames built).0
      gear last_gear built (snapshot_total metadata catalog 2 frames built).1 refl

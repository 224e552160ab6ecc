-- ===== src/Diagnostics/Lifecycle/Returns.antt =====
-- diagnostics/engine.py, fed with the snapshots of telemetry/engine.py: the assertions of a rule's
-- evaluation.
use tuner_os.Prelude.{ℕ, ◌≡◌, Option, some, List, ok}
use tuner_os.Can.Models.{DecodedCanFrame}
use tuner_os.Telemetry.Models.{SignalKey, TelemetrySnapshot}
use tuner_os.Telemetry.Catalog.{SignalCatalog}
use tuner_os.Telemetry.Engine
use tuner_os.Telemetry.Engine.{new_engine}
use tuner_os.Telemetry.Engine.Numbered.{snapshot-IsNumbered}
use tuner_os.Telemetry.Engine.History.{run as run_telemetry}
use tuner_os.Diagnostics.RuleState.{Observation}
use tuner_os.Diagnostics.Lifecycle.Run.{Evaluation, run}

-- A snapshot that an engine took after some frames, its time, and what the rule saw in it.
pub record Fed (F : Type 0) : Type 0 where
  pub catalog : SignalCatalog
  pub capacity : ℕ
  pub frames : List (DecodedCanFrame F)
  pub keys : Option (List SignalKey)
  pub snapshot : TelemetrySnapshot F
  pub taken :
      Engine.snapshot (run_telemetry (new_engine catalog capacity) frames).1 keys ≡ ok snapshot
  pub timestamp : ℕ
  pub timed : snapshot.observation_timestamp_microseconds ≡ some timestamp
  pub observation : Observation

abbrev pub evaluation : {F : Type 0} → Fed F → Evaluation F
evaluation x =
    let (n, last) =
      snapshot-IsNumbered x.catalog x.capacity x.frames x.keys x.snapshot x.timestamp x.taken
        x.timed in
    record {
      snapshot = x.snapshot;
      frame_sequence = n;
      numbered = last;
      timestamp = x.timestamp;
      observation = x.observation;
    }

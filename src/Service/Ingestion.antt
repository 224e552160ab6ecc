-- ===== src/Service/Ingestion.antt =====
-- telemetry/service.py: the state of `TelemetryService`, what a frame does to it, and its reads.
-- `F` is Python's float, and `R` the injected recorder.
pub mod Kept
pub mod Reads
use tuner_os.Prelude.{
  ℕ, zero, suc, String, Bool, true, false, not, Option, none, some, List, [], ◌∷◌, ◌++◌, Result, ok,
  err, Error, telemetry_schema_error, assertion_error, index_error, ◌>>=◌, or_raise, if◌then◌else◌,
  keep_last, drop, ℤ, pos, negsuc, nat_eq,
}
use tuner_os.Prelude.Dict.{Dict}
use tuner_os.Prelude.Values.{Value, int}
use tuner_os.Can.Models.{RawCanFrame, DecodedCanFrame, SignalValue}
use tuner_os.Can.Decoder.{TunerOsDbcDecoder, decode}
use tuner_os.Can.Explorer.{CanExplorer, CanExplorerFrame}
use tuner_os.Can.Explorer
use tuner_os.Can.Explorer.Queries
use tuner_os.Can.Explorer.Queries.{PeriodOps, CanMessageStatistics, CanExplorerSnapshot}
use tuner_os.Telemetry.Models.{SignalKey, SignalSample, SignalFreshness, TelemetrySnapshot}
use tuner_os.Telemetry.Engine
use tuner_os.Telemetry.Engine.{TelemetryEngine}
use tuner_os.Diagnostics.Rules.{FloatOps}
use tuner_os.Diagnostics.Engine.{DiagnosticEngine, ingest as diagnostics_ingest}
use tuner_os.Diagnostics.Models.{DiagnosticEvent}
use tuner_os.Service.Broadcaster
use tuner_os.Service.Broadcaster.{TelemetryBroadcaster, new_broadcaster}
use tuner_os.Service.Config.{TelemetryServiceConfig}
use tuner_os.Service.Models.{
  TelemetryServiceState, stopped, TelemetrySourceMode, live, is_live, Failure, TelemetryUpdate,
  CanExplorerUpdate, ServiceEvent, telemetry_update, can_explorer_update, state_update,
  TelemetryServiceStatus, TelemetrySourceStatus,
}

-- `RawFrameRecorder`: each operation may raise, and leaves a recorder.
pub record RecorderOps (R : Type 0) : Type 0 where
  pub frame_count : R → ℕ
  pub recording : R → Bool
  pub record_frame : R → RawCanFrame → Result (Unit {0}) × R
  pub complete : R → Result (Unit {0}) × R
  pub abort : R → Result (Unit {0}) × R

-- Where a worker thread stands: in `_run_gateway` before the connection, in its loop, and in its
-- `finally`; in `_run_replay` before its loop and in it; or at its end.
pub data Worker : Type 0 where
  gateway_connecting gateway_streaming gateway_finishing : Worker
  replay_waiting replay_streaming : Worker
  ended : Worker

-- `has_client` is `self._client is not None`. The two events are their flags.
pub record TelemetryService (F R : Type 0) : Type 0 where
  pub config : TelemetryServiceConfig
  pub decoder : TunerOsDbcDecoder F
  pub engine : TelemetryEngine F
  pub recorder : Option R
  pub explorer : CanExplorer F
  pub diagnostics : DiagnosticEngine F
  pub broadcaster : TelemetryBroadcaster (ServiceEvent F)
  pub can_broadcaster : TelemetryBroadcaster (ServiceEvent F)
  pub state : TelemetryServiceState
  pub state_transitions : List TelemetryServiceState
  pub last_error : Option Failure
  pub worker : Option Worker
  pub has_client : Bool
  pub stop_requested : Bool
  pub live_started_once : Bool
  pub source_mode : TelemetrySourceMode
  pub source_session_id : Option String
  pub source_session_name : Option String
  pub replay_start : Bool

module _ {F R : Type 0} where
  -- `__init__`, for an engine, an explorer and diagnostics that fit the configuration.
  unfoldable pub telemetry_service :
      TelemetryServiceConfig
      → TunerOsDbcDecoder F
      → TelemetryEngine F
      → Option R
      → CanExplorer F
      → DiagnosticEngine F
      → TelemetryService F R
  telemetry_service config decoder engine recorder explorer diagnostics = record {
    config = config;
    decoder = decoder;
    engine = engine;
    recorder = recorder;
    explorer = explorer;
    diagnostics = diagnostics;
    broadcaster = new_broadcaster config.subscriber_queue_capacity;
    can_broadcaster = new_broadcaster config.can_subscriber_queue_capacity;
    state = stopped;
    state_transitions = stopped ∷ [];
    last_error = none;
    worker = none;
    has_client = false;
    stop_requested = false;
    live_started_once = false;
    source_mode = live;
    source_session_id = none;
    source_session_name = none;
    replay_start = false;
  }

  -- `_transition_locked`
  unfoldable pub transition :
      TelemetryServiceState → Option Failure → TelemetryService F R → TelemetryService F R
  transition state error s = record s {
    state = state;
    last_error = error;
    state_transitions = s.state_transitions ++ state ∷ [];
    broadcaster = Broadcaster.publish (state_update state error) s.broadcaster;
    can_broadcaster = Broadcaster.publish (state_update state error) s.can_broadcaster;
  }

module _ {F : Type 0} where
  -- for sample in samples: the freshness of each, which must not be None
  freshness_of : TelemetryEngine F → List (SignalSample F) → Result (List SignalFreshness)
  freshness_of e [] = ok []
  freshness_of e (sample ∷ rest) = do
    status ← Engine.freshness e sample.key none
    fresh ← or_raise status assertion_error
    others ← freshness_of e rest
    ok (fresh ∷ others)

  -- TelemetryUpdate(...), where `samples[0]` of no samples is an IndexError. The samples of a frame
  -- are as many as its signals, which are not empty.
  update_of :
      DecodedCanFrame F → List (SignalSample F) → List SignalFreshness → Result (TelemetryUpdate F)
  update_of frame [] freshness = err index_error
  update_of frame (first ∷ rest) freshness = ok (record {
    timestamp_microseconds = frame.timestamp_microseconds;
    frame_sequence = first.frame_sequence;
    arbitration_id = frame.arbitration_id;
    message_name = frame.message_name;
    source_ecu = first.source_ecu;
    samples = first ∷ rest;
    freshness = freshness;
  })

  -- What follows `self._engine.ingest(frame)` up to the update.
  prepare_update :
      DecodedCanFrame F
      → Result (List (SignalSample F))
      → TelemetryEngine F
      → Result (TelemetryUpdate F)
  unfolding freshness_of update_of
  prepare_update frame ingested e = do
    samples ← ingested
    freshness ← freshness_of e samples
    update_of frame samples freshness

module _ {F R : Type 0} ⦃ops : FloatOps F⦄ where
  publish_diagnosed :
      TelemetryUpdate F
      → Result (List DiagnosticEvent) × DiagnosticEngine F
      → TelemetryService F R
      → Result (TelemetryUpdate F) × TelemetryService F R
  publish_diagnosed update (err x, d) s = (err x, record s { diagnostics = d })
  publish_diagnosed update (ok events, d) s = (
    ok update,
    record s {
      diagnostics = d;
      broadcaster = Broadcaster.publish (telemetry_update update) s.broadcaster;
    },
  )

  publish_update :
      TelemetryUpdate F
      → Result (TelemetrySnapshot F)
      → TelemetryService F R
      → Result (TelemetryUpdate F) × TelemetryService F R
  unfolding publish_diagnosed
  publish_update update (err x) s = (err x, s)
  publish_update update (ok snapshot) s =
      publish_diagnosed update (diagnostics_ingest snapshot s.diagnostics) s

  after_ingest :
      Result (TelemetryUpdate F)
      → TelemetryService F R
      → Result (TelemetryUpdate F) × TelemetryService F R
  unfolding publish_update
  after_ingest (err x) s = (err x, s)
  after_ingest (ok update) s = publish_update update (Engine.snapshot s.engine none) s

  -- not frame.signals: raise
  ingest_signals :
      Dict String (SignalValue F)
      → DecodedCanFrame F
      → TelemetryService F R
      → Result (TelemetryUpdate F) × TelemetryService F R
  unfolding after_ingest prepare_update
  ingest_signals [] frame s = (err telemetry_schema_error, s)
  ingest_signals (signal ∷ rest) frame s =
      let (ingested, e) = Engine.ingest s.engine frame in
      after_ingest (prepare_update frame ingested e) (record s { engine = e })

  -- `ingest_decoded`
  unfoldable pub ingest_decoded :
      DecodedCanFrame F → TelemetryService F R → Result (TelemetryUpdate F) × TelemetryService F R
  unfolding ingest_signals
  ingest_decoded frame s = ingest_signals frame.signals frame s

module _ {F : Type 0} where
  can_update :
      CanExplorerFrame F
      → CanExplorer F
      → Result (CanMessageStatistics F)
      → Result (CanExplorerUpdate F)
  can_update frame e (err x) = err x
  can_update frame e (ok m) =
      ok (record { frame = frame; statistics = Queries.statistics e; message_statistics = m })

module _ {F R : Type 0} where
  publish_can_update :
      Result (CanExplorerUpdate F)
      → TelemetryService F R
      → Result (CanExplorerUpdate F) × TelemetryService F R
  publish_can_update (err x) s = (err x, s)
  publish_can_update (ok update) s = (
    ok update,
    record s {
      can_broadcaster = Broadcaster.publish (can_explorer_update update) s.can_broadcaster;
    },
  )

module _ {F R : Type 0} (periods : PeriodOps F) where
  -- `_ingest_can_explorer`
  unfoldable pub ingest_can_explorer :
      RawCanFrame → TelemetryService F R → Result (CanExplorerUpdate F) × TelemetryService F R
  unfolding publish_can_update can_update
  ingest_can_explorer f s =
      let (ingested, explorer) = Explorer.ingest s.explorer f in
      publish_can_update
        (ingested >>= λ frame.
          can_update frame explorer (Queries.message_statistic periods explorer f.arbitration_id))
        (record s { explorer = explorer })

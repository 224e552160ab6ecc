-- ===== src/Service/Ingestion/Kept.antt =====
-- telemetry/service.py: what a frame leaves alone, the state of the service and its worker.
use tuner_os.Prelude.{String, ◌≡◌, refl, Bool, Option, List, [], ◌∷◌, Result, ok, err}
use tuner_os.Can.Models.{RawCanFrame, DecodedCanFrame, SignalValue}
use tuner_os.Prelude.Dict.{Dict}
use tuner_os.Can.Explorer.Queries.{PeriodOps}
use tuner_os.Telemetry.Models.{TelemetrySnapshot}
use tuner_os.Diagnostics.Models.{DiagnosticEvent}
use tuner_os.Diagnostics.Rules.{FloatOps}
use tuner_os.Diagnostics.Engine.{DiagnosticEngine, ingest as diagnostics_ingest}
use tuner_os.Service.Models.{TelemetryServiceState, Failure, TelemetryUpdate, CanExplorerUpdate}
use tuner_os.Service.Ingestion.{
  Worker, TelemetryService, ingest_decoded, ingest_signals, after_ingest, publish_update,
  publish_diagnosed, ingest_can_explorer, publish_can_update,
}

-- The fields of the state machine.
pub record View : Type 0 where
  pub transitions : List TelemetryServiceState
  pub state : TelemetryServiceState
  pub last_error : Option Failure
  pub worker : Option Worker
  pub live_started_once : Bool
  pub stop_requested : Bool

module _ {F R : Type 0} where
  abbrev pub view : TelemetryService F R → View
  view s = record {
    transitions = s.state_transitions;
    state = s.state;
    last_error = s.last_error;
    worker = s.worker;
    live_started_once = s.live_started_once;
    stop_requested = s.stop_requested;
  }

  publish_can_update-view :
      (u : Result (CanExplorerUpdate F)) (s : TelemetryService F R)
      → view (publish_can_update u s).1 ≡ view s
  unfolding publish_can_update
  publish_can_update-view (err x) s = refl
  publish_can_update-view (ok u) s = refl

  pub ingest_can_explorer-view :
      (periods : PeriodOps F) (f : RawCanFrame) (s : TelemetryService F R)
      → view (ingest_can_explorer periods f s).1 ≡ view s
  unfolding ingest_can_explorer
  ingest_can_explorer-view periods f s = publish_can_update-view _ _

module _ {F R : Type 0} ⦃ops : FloatOps F⦄ where
  publish_diagnosed-view :
      (u : TelemetryUpdate F) (d : Result (List DiagnosticEvent) × DiagnosticEngine F)
      (s : TelemetryService F R)
      → view (publish_diagnosed u d s).1 ≡ view s
  unfolding publish_diagnosed
  publish_diagnosed-view u (err x, d) s = refl
  publish_diagnosed-view u (ok es, d) s = refl

  publish_update-view :
      (u : TelemetryUpdate F) (x : Result (TelemetrySnapshot F)) (s : TelemetryService F R)
      → view (publish_update u x s).1 ≡ view s
  unfolding publish_update
  publish_update-view u (err x) s = refl
  publish_update-view u (ok x) s = publish_diagnosed-view u (diagnostics_ingest x s.diagnostics) s

  after_ingest-view :
      (u : Result (TelemetryUpdate F)) (s : TelemetryService F R)
      → view (after_ingest u s).1 ≡ view s
  unfolding after_ingest
  after_ingest-view (err x) s = refl
  after_ingest-view (ok u) s = publish_update-view u _ s

  ingest_signals-view :
      (signals : Dict String (SignalValue F)) (f : DecodedCanFrame F) (s : TelemetryService F R)
      → view (ingest_signals signals f s).1 ≡ view s
  unfolding ingest_signals
  ingest_signals-view [] f s = refl
  ingest_signals-view (signal ∷ rest) f s = after_ingest-view _ _

  pub ingest_decoded-view :
      (f : DecodedCanFrame F) (s : TelemetryService F R) → view (ingest_decoded f s).1 ≡ view s
  unfolding ingest_decoded
  ingest_decoded-view f s = ingest_signals-view f.signals f s

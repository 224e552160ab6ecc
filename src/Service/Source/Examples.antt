-- ===== src/Service/Source/Examples.antt =====
-- telemetry/service.py: a service that is started, whose gateway connects, and
-- that is stopped.
use tuner_os.Prelude.{ℕ, ◌≡◌, refl, false, none, some, [], ◌∷◌, ◌-◌, ltb, ok, err}
use tuner_os.Can.Explorer.Queries.{PeriodOps}
use tuner_os.Telemetry.Catalog.{no_signals}
use tuner_os.Telemetry.Engine.{new_engine}
use tuner_os.Diagnostics.Rules.{FloatOps}
use tuner_os.Service.Models.{stopped, connecting, running}
use tuner_os.Service.Ingestion.{
  RecorderOps, Worker, TelemetryService, telemetry_service, transition,
}
use tuner_os.Service.Source.{
  start, gateway_connected, gateway_exhausted, gateway_finally, request_stop, finish_stop,
}
use tuner_os.Service.Source.Transitions.{Threads, forget, Call, Work, Step, Steps}

instance abbrev nat_floats : FloatOps ℕ
nat_floats = record {
  less = ltb;
  minus = λ a b. a - b;
  magnitude = λ a. a;
  of_int = λ z. 0;
  tenths = λ n. n;
}

abbrev periods : PeriodOps ℕ
periods = record { quotient = λ z n. 0; is_positive = λ x. false; frequency = λ x. x }

-- A recorder that is never in the service.
abbrev recorders : RecorderOps ℕ
recorders = record {
  frame_count = λ r. r;
  recording = λ r. false;
  record_frame = λ r f. (ok tt, r);
  complete = λ r. (ok tt, r);
  abort = λ r. (ok tt, r);
}

abbrev new : TelemetryService ℕ ℕ
new =
    telemetry_service
      (record {
        gateway_host = "127.0.0.1";
        gateway_port = 47335;
        history_capacity = 256;
        subscriber_queue_capacity = 256;
        replay_subscriber_queue_capacity = 65536;
        can_explorer_capacity = 4096;
        can_subscriber_queue_capacity = 32768;
        can_replay_subscriber_queue_capacity = 65536;
        diagnostic_event_capacity = 1024;
      })
      (record { frames_by_id = []; database_metadata = record { messages = [] } })
      (new_engine no_signals 256) none
      (record {
        decoder = record { frames_by_id = []; database_metadata = record { messages = [] } };
        metadata_by_id = [];
        capacity = 4096;
        frames = [];
        messages = [];
        next_sequence = 0;
      })
      (record {
        catalog = record { rules = []; by_code = [] };
        states = [];
        log = record { capacity = 1024; events = []; next_event_sequence = 0 };
        observation_timestamp_microseconds = none;
        latest_telemetry_frame_sequence = none;
      })

abbrev started : TelemetryService ℕ ℕ
started = elim (start new) [ ok s ↦ s | err e ↦ new ]

starts : start new ≡ ok started
unfolding start telemetry_service
starts = refl

connects : started.worker ≡ some Worker.gateway_connecting
unfolding start telemetry_service
connects = refl

abbrev connected : TelemetryService ℕ ℕ
connected = gateway_connected recorders (ok tt) started

announced : connected.state_transitions ≡ stopped ∷ connecting ∷ running ∷ []
unfolding start telemetry_service gateway_connected transition
announced = refl

-- It is stopped: the worker leaves its loop and ends, and then the stop does.
abbrev exhausted : TelemetryService ℕ ℕ
exhausted = gateway_exhausted recorders (request_stop connected)

abbrev finished : TelemetryService ℕ ℕ
finished = gateway_finally recorders exhausted

streams : (request_stop connected).worker ≡ some Worker.gateway_streaming
unfolding start telemetry_service gateway_connected request_stop transition
streams = refl

finishes : exhausted.worker ≡ some Worker.gateway_finishing
unfolding start telemetry_service gateway_connected request_stop gateway_exhausted transition
finishes = refl

abbrev no_threads : TelemetryService ℕ ℕ → Threads ℕ ℕ
no_threads s = record { service = s; forgotten = [] }

abbrev stopped_again : Threads ℕ ℕ
stopped_again = record { service = finish_stop finished; forgotten = forget finished.worker [] }

abbrev steps : Steps periods recorders (no_threads new) stopped_again
steps =
    Steps.then
      (Steps.then
        (Steps.then
          (Steps.then
            (Steps.then (Steps.then Steps.still (Step.calls (Call.starts starts)))
              (Step.works (Work.connects (ok tt) connects)))
            (Step.calls Call.requests_stop))
          (Step.works (Work.exhausts streams)))
        (Step.works (Work.finalizes finishes)))
      Step.finishes_stop

-- ===== src/Service/Source/Transitions.antt =====
-- telemetry/service.py: the threads that share a service, as steps, and what holds after any of them.
pub mod Frames
pub mod Diagram
pub mod Kept
pub mod Workers
pub mod Invariant
use tuner_os.Prelude.{
  ℕ, String, ◌≡◌, true, Bool, Option, none, some, List, ◌∷◌, ◌++◌, Result, ok, Error, if◌then◌else◌,
}
use tuner_os.Can.Models.{RawCanFrame, DecodedCanFrame}
use tuner_os.Can.Explorer.Queries.{PeriodOps}
use tuner_os.Prelude.Values.{Value}
use tuner_os.Diagnostics.Rules.{FloatOps}
use tuner_os.Service.Ingestion.{
  RecorderOps, Worker, gateway_connecting, gateway_streaming, gateway_finishing, replay_waiting,
  replay_streaming, TelemetryService, ingest_decoded,
}
use tuner_os.Service.Ingestion.Reads.{subscribe, subscribe_can, clear_diagnostic}
use tuner_os.Service.Source.{
  is_alive, start, start_replay, request_stop, join_worker, finish_stop, gateway_connected,
  gateway_frame, gateway_failed, gateway_exhausted, gateway_finally, replay_released, replay_frame,
  replay_exhausted,
}

-- A service and the threads that still run and that `self._worker` no longer refers to.
pub record Threads (F R : Type 0) : Type 0 where
  pub service : TelemetryService F R
  pub forgotten : List Worker

-- What is forgotten when `self._worker` is set to None.
abbrev pub forget : Option Worker → List Worker → List Worker
forget none forgotten = forgotten
forget (some w) forgotten = if is_alive (some w) then w ∷ forgotten else forgotten

module _ {F R : Type 0} ⦃ops : FloatOps F⦄ (periods : PeriodOps F) (recorders : RecorderOps R) where
  -- What callers do, other than the last section of a stop.
  pub data Call (s : TelemetryService F R) : TelemetryService F R → Type 0 where
    starts : {s' : TelemetryService F R} → start s ≡ ok s' → Call s s'
    replays :
        (id : String) (name : Option String) (wait : Bool) {s' : TelemetryService F R}
        → start_replay id name wait s ≡ ok s'
        → Call s s'
    requests_stop : Call s (request_stop s)
    subscribes : Call s (subscribe s).1
    subscribes_can : (limit : Option Value) → Call s (subscribe_can periods recorders limit s).1
    clears : (code : String) → Call s (clear_diagnostic code s).1
    ingests : (f : DecodedCanFrame F) → Call s (ingest_decoded f s).1

  -- What a worker does, from where it stands. What the gateway and the frames of a replay give is
  -- arbitrary.
  pub data Work (s : TelemetryService F R) : TelemetryService F R → Type 0 where
    connects :
        (c : Result (Unit {0}))
        → s.worker ≡ some gateway_connecting
        → Work s (gateway_connected recorders c s)
    receives :
        (f : RawCanFrame)
        → s.worker ≡ some gateway_streaming
        → Work s (gateway_frame periods recorders f s)
    breaks : (e : Error) → s.worker ≡ some gateway_streaming → Work s (gateway_failed recorders e s)
    exhausts : s.worker ≡ some gateway_streaming → Work s (gateway_exhausted recorders s)
    finalizes : s.worker ≡ some gateway_finishing → Work s (gateway_finally recorders s)
    releases : s.worker ≡ some replay_waiting → s.replay_start ≡ true → Work s (replay_released s)
    replays_frame :
        (f : RawCanFrame) → s.worker ≡ some replay_streaming → Work s (replay_frame periods f s)
    replays_end :
        (r : Result (Unit {0})) → s.worker ≡ some replay_streaming → Work s (replay_exhausted r s)

  -- The last section of a stop may come at any time. A thread that is forgotten goes on from where
  -- it stands, on the service that it shares with the others.
  pub data Step (t : Threads F R) : Threads F R → Type 0 where
    calls : {s' : TelemetryService F R} → Call t.service s' → Step t (record t { service = s' })
    finishes_stop : Step t (record {
      service = finish_stop t.service;
      forgotten = forget t.service.worker t.forgotten;
    })
    works : {s' : TelemetryService F R} → Work t.service s' → Step t (record t { service = s' })
    works_forgotten :
        (w w' : Worker) (before after : List Worker) {s' : TelemetryService F R}
        → t.forgotten ≡ before ++ w ∷ after
        → Work (record t.service { worker = some w }) s'
        → s'.worker ≡ some w'
        → Step t (record {
          service = record s' { worker = t.service.worker };
          forgotten = before ++ w' ∷ after;
        })

  -- Any number of steps.
  pub data Steps (t : Threads F R) : Threads F R → Type 0 where
    still : Steps t t
    then : {m e : Threads F R} → Steps t m → Step m e → Steps t e

  -- A last section of a stop finds the worker ended, as its join did; any other step may come.
  abbrev pub IsSerialStep : {t e : Threads F R} → Step t e → Type 0
  IsSerialStep (Step.calls c) = Unit
  IsSerialStep {t} Step.finishes_stop = join_worker t.service.worker ≡ ok tt
  IsSerialStep (Step.works w) = Unit
  IsSerialStep (Step.works_forgotten w w' before after at work now) = Unit

  -- No caller starts a source between the join of a stop and its last section, and no worker stops
  -- its own service, which it would do without a join.
  abbrev pub IsSerial : {t e : Threads F R} → Steps t e → Type 0
  IsSerial Steps.still = Unit
  IsSerial (Steps.then before last) = IsSerial before × IsSerialStep last

-- ===== src/Service/Source.antt =====
-- telemetry/service.py: the sources of `TelemetryService`, its worker thread and its state machine.
-- The parts that hold the lock are one step each. A worker's step under the lock and what it does on
-- its own before the next are one step too: another thread cannot tell, since it takes the lock to
-- read what the worker changes.
pub mod Transitions
mod Examples
use tuner_os.Prelude.{
  ℕ, String, Bool, true, false, not, ◌||◌, ◌&&◌, Option, none, some, List, [], ◌∷◌, Result, ok, err,
  Error, runtime_error, ◌>>=◌, ◌>>◌, raise_if, if◌then◌else◌, eqb,
}
use tuner_os.Can.Models.{RawCanFrame, DecodedCanFrame}
use tuner_os.Can.Decoder.{decode}
use tuner_os.Can.Explorer.{reset as reset_explorer}
use tuner_os.Can.Explorer.Queries.{PeriodOps}
use tuner_os.Telemetry.Engine.{reset as reset_engine}
use tuner_os.Diagnostics.Engine.{reset as reset_diagnostics}
use tuner_os.Diagnostics.Rules.{FloatOps}
use tuner_os.Service.Broadcaster.{new_broadcaster, subscriber_count}
use tuner_os.Service.Config.{TelemetryServiceConfig}
use tuner_os.Service.Models.{
  TelemetryServiceState, stopped, connecting, running, completed, failed, TelemetrySourceMode, live,
  replay, Failure, is_active, is_stopped,
}
use tuner_os.Service.Ingestion.{
  RecorderOps, Worker, gateway_connecting, gateway_streaming, gateway_finishing, replay_waiting,
  replay_streaming, ended, TelemetryService, transition, ingest_decoded, ingest_can_explorer,
}

-- worker is not None and worker.is_alive()
abbrev pub is_alive : Option Worker → Bool
is_alive none = false
is_alive (some ended) = false
is_alive (some _) = true

-- The join of `stop`, of the worker that it saw: whether that has ended within the timeout.
unfoldable pub join_worker : Option Worker → Result (Unit {0})
join_worker worker = raise_if (is_alive worker) runtime_error

module _ {F R : Type 0} where
  begin_live : TelemetryService F R → TelemetryService F R
  begin_live s = record s {
    live_started_once = true;
    source_mode = live;
    source_session_id = none;
    source_session_name = none;
    explorer = reset_explorer s.explorer;
    diagnostics = reset_diagnostics s.diagnostics;
    stop_requested = false;
  }

  -- `start`
  unfoldable pub start : TelemetryService F R → Result (TelemetryService F R)
  unfolding begin_live
  start s = do
    raise_if s.live_started_once runtime_error
    raise_if (is_active s.state) runtime_error
    ok (record (transition connecting none (begin_live s)) { worker = some gateway_connecting })

  begin_replay : String → Option String → Bool → TelemetryService F R → TelemetryService F R
  begin_replay session_id session_name wait_for_subscriber s = record s {
    broadcaster = new_broadcaster s.config.replay_subscriber_queue_capacity;
    can_broadcaster = new_broadcaster s.config.can_replay_subscriber_queue_capacity;
    stop_requested = false;
    engine = reset_engine s.engine;
    explorer = reset_explorer s.explorer;
    diagnostics = reset_diagnostics s.diagnostics;
    last_error = none;
    source_mode = replay;
    source_session_id = some session_id;
    source_session_name = session_name;
    replay_start = not wait_for_subscriber;
  }

  -- `start_replay`
  unfoldable pub start_replay :
      String → Option String → Bool → TelemetryService F R → Result (TelemetryService F R)
  unfolding begin_replay
  start_replay session_id session_name wait s = do
    raise_if (is_active s.state) runtime_error
    raise_if (is_alive s.worker) runtime_error
    raise_if
        (not (eqb (subscriber_count s.broadcaster) 0)
          || not (eqb (subscriber_count s.can_broadcaster) 0))
        runtime_error
    ok (record (transition running none (begin_replay session_id session_name wait s)) {
      worker = some replay_waiting;
    })

  -- `stop`, up to the join.
  unfoldable pub request_stop : TelemetryService F R → TelemetryService F R
  request_stop s = record s { stop_requested = true; replay_start = true }

  -- The last section of `stop`. It looks at the worker no more.
  unfoldable pub finish_stop : TelemetryService F R → TelemetryService F R
  finish_stop s =
      let cleared = record s { has_client = false; worker = none } in
      if is_stopped s.state then cleared else transition stopped none cleared

  -- with self._lock: if not self._stop_requested.is_set(): self._transition_locked(...)
  unfoldable pub announce :
      TelemetryServiceState → Option Failure → TelemetryService F R → TelemetryService F R
  announce state error s = if s.stop_requested then s else transition state error s

  abbrev pub goes_to : Worker → TelemetryService F R → TelemetryService F R
  goes_to w s = record s { worker = some w }

module _ {F R : Type 0} (recorders : RecorderOps R) where
  -- self._recorder.abort(failure)
  unfoldable pub abort_recording : Error → TelemetryService F R → Failure × TelemetryService F R
  abort_recording error s = elim s.recorder [
    | none ↦ (record { error = error; recording_error = none }, s)
    | some r ↦
        let (aborted, r') = recorders.abort r in
        (
          record { error = error; recording_error = elim aborted [ ok u ↦ none | err e ↦ some e ] },
          record s { recorder = some r' },
        )
  ]

  -- `_run_gateway`, except Exception
  unfoldable pub gateway_failed : Error → TelemetryService F R → TelemetryService F R
  unfolding abort_recording announce
  gateway_failed error s =
      let (failure, aborted) = abort_recording error s in
      goes_to gateway_finishing (announce failed (some failure) aborted)

  -- `_run_gateway`, up to its loop: what the connector gave.
  unfoldable pub gateway_connected : Result (Unit {0}) → TelemetryService F R → TelemetryService F R
  unfolding gateway_failed
  gateway_connected (err e) s = gateway_failed e s
  gateway_connected (ok u) s =
      if s.stop_requested
      then goes_to gateway_finishing (record s { has_client = true })
      else goes_to gateway_streaming (transition running none (record s { has_client = true }))

  unfoldable pub record_in :
      RawCanFrame → TelemetryService F R → Result (Unit {0}) × TelemetryService F R
  record_in f s = elim s.recorder [
    | none ↦ (ok tt, s)
    | some r ↦
        let (recorded, r') = recorders.record_frame r f in
        (recorded, record s { recorder = some r' })
  ]

  unfoldable pub complete_in : TelemetryService F R → Result (Unit {0}) × TelemetryService F R
  complete_in s = elim s.recorder [
    | none ↦ (ok tt, s)
    | some r ↦
        let (finished, r') = recorders.complete r in (finished, record s { recorder = some r' })
  ]

  completed_or_failed : Result (Unit {0}) × TelemetryService F R → TelemetryService F R
  unfolding gateway_failed announce
  completed_or_failed (err e, s) = gateway_failed e s
  completed_or_failed (ok u, s) = goes_to gateway_finishing (announce completed none s)

  -- `_run_gateway`, after its loop.
  unfoldable pub gateway_exhausted : TelemetryService F R → TelemetryService F R
  unfolding completed_or_failed complete_in
  gateway_exhausted s = completed_or_failed (complete_in s)

  -- An exception of the recorder ends the thread before the client is forgotten.
  close_recording : Result (Unit {0}) × R → TelemetryService F R → TelemetryService F R
  close_recording (ok u, r) s = goes_to ended (record s { recorder = some r; has_client = false })
  close_recording (err e, r) s = goes_to ended (record s { recorder = some r })

  finally_in : Option R → TelemetryService F R → TelemetryService F R
  unfolding close_recording
  finally_in none s = goes_to ended (record s { has_client = false })
  finally_in (some r) s =
      if recorders.recording r
      then close_recording (recorders.abort r) s
      else goes_to ended (record s { has_client = false })

  -- `_run_gateway`, finally
  unfoldable pub gateway_finally : TelemetryService F R → TelemetryService F R
  unfolding finally_in
  gateway_finally s = finally_in s.recorder s

  -- Whether the loop goes on after a frame.
  next_or_failed : Result (Unit {0}) × TelemetryService F R → TelemetryService F R
  unfolding gateway_failed
  next_or_failed (ok u, s) = s
  next_or_failed (err e, s) = gateway_failed e s

module _ {F R : Type 0} where
  -- What an exception passes over.
  abbrev pub and_then :
      {A B : Type 0}
      → Result A × TelemetryService F R
      → (TelemetryService F R → Result B × TelemetryService F R)
      → Result B × TelemetryService F R
  and_then (err x, s) next = (err x, s)
  and_then (ok a, s) next = next s

module _ {F R : Type 0} where
  replay_failed : Error → TelemetryService F R → TelemetryService F R
  unfolding announce
  replay_failed e s =
      goes_to ended (announce failed (some (record { error = e; recording_error = none })) s)

  next_or_ended : Result (Unit {0}) × TelemetryService F R → TelemetryService F R
  unfolding replay_failed
  next_or_ended (ok u, s) = s
  next_or_ended (err e, s) = replay_failed e s

module _ {F R : Type 0} ⦃ops : FloatOps F⦄ where
  ingest_if_decoded :
      Result (DecodedCanFrame F) → TelemetryService F R → Result (Unit {0}) × TelemetryService F R
  ingest_if_decoded (err x) s = (err x, s)
  ingest_if_decoded (ok d) s = let (r, s') = ingest_decoded d s in (r >>= λ u. ok tt, s')

  -- self.ingest_decoded(self._decoder.decode(raw_frame))
  ingest_decode : RawCanFrame → TelemetryService F R → Result (Unit {0}) × TelemetryService F R
  unfolding ingest_if_decoded
  ingest_decode f s = ingest_if_decoded (decode s.decoder f) s

module _ {F R : Type 0} ⦃ops : FloatOps F⦄ (periods : PeriodOps F) where
  -- _ingest_can_explorer(raw_frame), and then ingest_decoded
  unfoldable pub ingest_raw :
      RawCanFrame → TelemetryService F R → Result (Unit {0}) × TelemetryService F R
  unfolding ingest_decode
  ingest_raw f s = and_then (ingest_can_explorer periods f s) (ingest_decode f)

  -- The body of the loop of `_run_gateway`.
  unfoldable pub gateway_frame :
      RecorderOps R → RawCanFrame → TelemetryService F R → TelemetryService F R
  unfolding ingest_raw next_or_failed
  gateway_frame recorders f s =
      if s.stop_requested
      then goes_to gateway_finishing s
      else next_or_failed recorders (and_then (record_in recorders f s) (ingest_raw f))

  -- The body of the loop of `_run_replay`, and its except.
  unfoldable pub replay_frame : RawCanFrame → TelemetryService F R → TelemetryService F R
  unfolding ingest_raw next_or_ended
  replay_frame f s = if s.stop_requested then goes_to ended s else next_or_ended (ingest_raw f s)

module _ {F R : Type 0} where
  -- `_run_replay`, when its wait is over.
  unfoldable pub replay_released : TelemetryService F R → TelemetryService F R
  replay_released s = if s.stop_requested then goes_to ended s else goes_to replay_streaming s

  -- `_run_replay`, after its loop: the frames ended, or raised.
  unfoldable pub replay_exhausted : Result (Unit {0}) → TelemetryService F R → TelemetryService F R
  unfolding announce replay_failed
  replay_exhausted (ok u) s = goes_to ended (announce completed none s)
  replay_exhausted (err e) s = replay_failed e s

-- ===== src/Service/Source/Transitions/Workers.antt =====
-- telemetry/service.py: the steps of the workers keep to the diagram.
use tuner_os.Prelude.{
  ◌≡◌, refl, sym, ap, ◌∙◌, true, false, Option, none, some, Result, ok, err, Error, Bool-cases, inl,
  inr, subst,
}
use tuner_os.Can.Models.{RawCanFrame}
use tuner_os.Can.Explorer.Queries.{PeriodOps}
use tuner_os.Diagnostics.Rules.{FloatOps}
use tuner_os.Service.Models.{running, completed, failed}
use tuner_os.Service.Ingestion.{
  RecorderOps, gateway_connecting, gateway_streaming, gateway_finishing, replay_waiting,
  replay_streaming, ended, TelemetryService, transition,
}
use tuner_os.Service.Ingestion.Kept.{View, view}
use tuner_os.Service.Source.{
  goes_to, abort_recording, gateway_connected, gateway_frame, gateway_failed, gateway_exhausted,
  complete_in, gateway_finally, replay_released, replay_frame, replay_exhausted, ingest_raw,
  record_in, and_then, completed_or_failed, next_or_failed, close_recording, finally_in,
  next_or_ended, replay_failed,
}
use tuner_os.Service.Source.Transitions.Diagram.{follows, Phase, IsValid, moved, stayed}
use tuner_os.Service.Source.Transitions.Frames.{
  abort_recording-view, complete_in-view, ingest_raw-view, recorded_and_ingested-view,
}
use tuner_os.Service.Source.Transitions.Kept.{
  either_branch, Valid, announce-Valid, same_view-Valid, worker-Phase,
}

module _ {F R : Type 0} (recorders : RecorderOps R) where
  -- A failure, from a state in which the gateway is used.
  pub gateway_failed-Valid :
      (e : Error) (s : TelemetryService F R)
      → Valid s
      → follows s.state failed ≡ true
      → s.live_started_once ≡ true
      → Valid (gateway_failed recorders e s)
  unfolding gateway_failed
  gateway_failed-Valid e s valid f live =
      let (failure, aborted) = abort_recording recorders e s in
      let same = abort_recording-view recorders e s in
      announce-Valid failed (some failure) gateway_finishing aborted
        (same_view-Valid s aborted same valid) (ap (λ (v : View). follows v.state failed) same ∙ f)
        refl (ap (λ (v : View). v.live_started_once) same ∙ live)
        (ap (λ (v : View). v.live_started_once) same ∙ live)

  pub gateway_connected-Valid :
      (c : Result (Unit {0})) (s : TelemetryService F R)
      → s.worker ≡ some gateway_connecting
      → Valid s
      → Valid (gateway_connected recorders c s)
  unfolding gateway_connected transition Valid
  gateway_connected-Valid (err e) s at valid =
      let (c, live) = worker-Phase s gateway_connecting at valid in
      gateway_failed-Valid e s valid (rw c refl) live
  gateway_connected-Valid (ok u) s at valid =
      let (c, live) = worker-Phase s gateway_connecting at valid in
      elim (Bool-cases s.stop_requested) [
        | inl asked ↦
            rw asked (stayed (view s) (some gateway_finishing) s.live_started_once true valid live)
        | inr free ↦ rw free (
            moved (view s) running none (some gateway_streaming) s.live_started_once false valid
              (ap (λ x. follows x running) c) refl (refl, live))
      ]

  completed_or_failed-Valid :
      (r : Result (Unit {0}) × TelemetryService F R)
      → Phase (some gateway_streaming) r.1.state r.1.live_started_once
      → Valid r.1
      → Valid (completed_or_failed recorders r)
  unfolding completed_or_failed
  completed_or_failed-Valid (err e, s) (running', live) valid =
      gateway_failed-Valid e s valid (ap (λ x. follows x failed) running') live
  completed_or_failed-Valid (ok u, s) (running', live) valid =
      announce-Valid completed none gateway_finishing s valid
        (ap (λ x. follows x completed) running') refl live live

  next_or_failed-Valid :
      (r : Result (Unit {0}) × TelemetryService F R)
      → Phase (some gateway_streaming) r.1.state r.1.live_started_once
      → Valid r.1
      → Valid (next_or_failed recorders r)
  unfolding next_or_failed
  next_or_failed-Valid (err e, s) (running', live) valid =
      gateway_failed-Valid e s valid (ap (λ x. follows x failed) running') live
  next_or_failed-Valid (ok u, s) phase valid = valid

  pub gateway_exhausted-Valid :
      (s : TelemetryService F R)
      → s.worker ≡ some gateway_streaming
      → Valid s
      → Valid (gateway_exhausted recorders s)
  unfolding gateway_exhausted
  gateway_exhausted-Valid s at valid =
      let same = complete_in-view recorders s in
      completed_or_failed-Valid (complete_in recorders s)
        (subst (λ (v : View). Phase (some gateway_streaming) v.state v.live_started_once) (sym same)
          (worker-Phase s gateway_streaming at valid))
        (same_view-Valid s (complete_in recorders s).1 same valid)

  pub ended-Valid :
      (s : TelemetryService F R) → Valid s → IsValid (record (view s) { worker = some ended })
  unfolding Valid
  ended-Valid s valid = stayed (view s) (some ended) s.live_started_once s.stop_requested valid tt

  close_recording-Valid :
      (r : Result (Unit {0}) × R) (s : TelemetryService F R)
      → Valid s
      → Valid (close_recording recorders r s)
  unfolding close_recording Valid
  close_recording-Valid (ok u, r) s valid = ended-Valid s valid
  close_recording-Valid (err e, r) s valid = ended-Valid s valid

  finally_in-Valid :
      (r : Option R) (s : TelemetryService F R) → Valid s → Valid (finally_in recorders r s)
  unfolding finally_in Valid
  finally_in-Valid none s valid = ended-Valid s valid
  finally_in-Valid (some r) s valid = elim (Bool-cases (recorders.recording r)) [
    | inl h ↦ rw h (close_recording-Valid (recorders.abort r) s valid)
    | inr h ↦ rw h (ended-Valid s valid)
  ]

  pub gateway_finally-Valid :
      (s : TelemetryService F R) → Valid s → Valid (gateway_finally recorders s)
  unfolding gateway_finally
  gateway_finally-Valid s valid = finally_in-Valid s.recorder s valid

module _ {F R : Type 0} where
  replay_failed-Valid :
      (e : Error) (s : TelemetryService F R)
      → s.state ≡ running
      → Valid s
      → Valid (replay_failed e s)
  unfolding replay_failed
  replay_failed-Valid e s at valid =
      announce-Valid failed _ ended s valid (ap (λ x. follows x failed) at) refl tt tt

  next_or_ended-Valid :
      (r : Result (Unit {0}) × TelemetryService F R)
      → r.1.state ≡ running
      → Valid r.1
      → Valid (next_or_ended r)
  unfolding next_or_ended
  next_or_ended-Valid (ok u, s) at valid = valid
  next_or_ended-Valid (err e, s) at valid = replay_failed-Valid e s at valid

  pub replay_exhausted-Valid :
      (r : Result (Unit {0})) (s : TelemetryService F R)
      → s.state ≡ running
      → Valid s
      → Valid (replay_exhausted r s)
  unfolding replay_exhausted
  replay_exhausted-Valid (ok u) s at valid =
      announce-Valid completed none ended s valid (ap (λ x. follows x completed) at) refl tt tt
  replay_exhausted-Valid (err e) s at valid = replay_failed-Valid e s at valid

  pub goes_to_ended-Valid : (s : TelemetryService F R) → Valid s → Valid (goes_to ended s)
  unfolding Valid
  goes_to_ended-Valid s valid =
      stayed (view s) (some ended) s.live_started_once s.stop_requested valid tt

  pub finishing-Valid :
      (s : TelemetryService F R)
      → s.live_started_once ≡ true
      → Valid s
      → Valid (goes_to gateway_finishing s)
  unfolding Valid
  finishing-Valid s live valid =
      stayed (view s) (some gateway_finishing) s.live_started_once s.stop_requested valid live

  pub replay_released-Valid :
      (s : TelemetryService F R)
      → s.worker ≡ some replay_waiting
      → Valid s
      → Valid (replay_released s)
  unfolding replay_released Valid
  replay_released-Valid s at valid = elim (Bool-cases s.stop_requested) [
    | inl asked ↦ rw asked (stayed (view s) (some ended) s.live_started_once true valid tt)
    | inr free ↦ rw free (
        stayed (view s) (some replay_streaming) s.live_started_once false valid
          (worker-Phase s replay_waiting at valid))
  ]

module _ {F R : Type 0} ⦃ops : FloatOps F⦄ (periods : PeriodOps F) where
  pub gateway_frame-Valid :
      (recorders : RecorderOps R) (f : RawCanFrame) (s : TelemetryService F R)
      → s.worker ≡ some gateway_streaming
      → Valid s
      → Valid (gateway_frame periods recorders f s)
  unfolding gateway_frame
  gateway_frame-Valid recorders f s at valid =
      let same = recorded_and_ingested-view periods recorders f s in
      let phase = worker-Phase s gateway_streaming at valid in
      either_branch Valid s.stop_requested (goes_to gateway_finishing s)
        (next_or_failed recorders (and_then (record_in recorders f s) (ingest_raw periods f)))
        (λ asked. finishing-Valid s phase.1 valid)
        (λ free.
          next_or_failed-Valid recorders (and_then (record_in recorders f s) (ingest_raw periods f))
            (subst (λ (v : View). Phase (some gateway_streaming) v.state v.live_started_once)
              (sym same) phase)
            (same_view-Valid s (and_then (record_in recorders f s) (ingest_raw periods f)).1 same
              valid))

  pub replay_frame-Valid :
      (f : RawCanFrame) (s : TelemetryService F R)
      → s.worker ≡ some replay_streaming
      → Valid s
      → Valid (replay_frame periods f s)
  unfolding replay_frame
  replay_frame-Valid f s at valid =
      let same = ingest_raw-view periods f s in
      either_branch Valid s.stop_requested (goes_to ended s)
        (next_or_ended (ingest_raw periods f s)) (λ asked. goes_to_ended-Valid s valid)
        (λ free.
          next_or_ended-Valid (ingest_raw periods f s)
            (ap (λ (v : View). v.state) same ∙ worker-Phase s replay_streaming at valid)
            (same_view-Valid s (ingest_raw periods f s).1 same valid))

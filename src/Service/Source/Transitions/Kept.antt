-- ===== src/Service/Source/Transitions/Kept.antt =====
-- telemetry/service.py: the steps of the callers keep to the diagram.
use tuner_os.Prelude.{
  String, ◌≡◌, refl, sym, Bool, true, false, not, ◌||◌, Option, none, some, Result, ok, err,
  runtime_error, Bool-cases, inl, inr, subst, raise_if-passed, ok_injective, if◌then◌else◌, eqb,
}
use tuner_os.Telemetry.Catalog.{is_some}
use tuner_os.Service.Models.{
  TelemetryServiceState, stopped, connecting, running, completed, failed, Failure, is_active,
  is_stopped, is_live,
}
use tuner_os.Service.Broadcaster.{subscriber_count}
use tuner_os.Service.Ingestion.{
  Worker, gateway_connecting, replay_waiting, TelemetryService, transition,
}
use tuner_os.Service.Ingestion.Kept.{view}
use tuner_os.Service.Ingestion.Reads.{if_read}
use tuner_os.Service.Source.{
  is_alive, start, begin_live, start_replay, begin_replay, finish_stop, announce, goes_to,
}
use tuner_os.Service.Source.Transitions.Diagram.{follows, is_failed, Phase, IsValid, moved, stayed}

-- From a state in which no source is active, one can start.
pub begins :
    (s : TelemetryServiceState)
    → is_active s ≡ false
    → (follows s connecting ≡ true) × (follows s running ≡ true)
begins stopped h = (refl, refl)
begins connecting h = cc
begins running h = cc
begins completed h = (refl, refl)
begins failed h = (refl, refl)

pub stops : (s : TelemetryServiceState) → is_stopped s ≡ false → follows s stopped ≡ true
stops stopped h = cc
stops connecting h = refl
stops running h = refl
stops completed h = refl
stops failed h = refl

pub either_branch {ℓ} :
    {A : Type 0} (P : A → Type ℓ) (b : Bool) (x y : A)
    → (b ≡ true → P x)
    → (b ≡ false → P y)
    → P (if b then x else y)
either_branch P true x y first second = first refl
either_branch P false x y first second = second refl

module _ {F R : Type 0} where
  unfoldable pub Valid : TelemetryService F R → Type 0
  Valid s = IsValid (view s)

  pub start-Valid : (s s' : TelemetryService F R) → start s ≡ ok s' → Valid s → Valid s'
  unfolding start transition begin_live Valid
  start-Valid s s' h valid =
      let (first, h1) = raise_if-passed s.live_started_once runtime_error _ h in
      let (idle, h2) = raise_if-passed (is_active s.state) runtime_error _ h1 in
      subst (λ (x : TelemetryService F R). IsValid (view x)) (ok_injective h2)
        (moved (view s) connecting none (some gateway_connecting) true false valid
          (begins s.state idle).0 refl (refl, refl))

  pub start_replay-Valid :
      (id : String) (name : Option String) (wait : Bool) (s s' : TelemetryService F R)
      → start_replay id name wait s ≡ ok s'
      → Valid s
      → Valid s'
  unfolding start_replay transition begin_replay Valid
  start_replay-Valid id name wait s s' h valid =
      let (idle, h1) = raise_if-passed (is_active s.state) runtime_error _ h in
      let (dead, h2) = raise_if-passed (is_alive s.worker) runtime_error _ h1 in
      let (alone, h3) =
        raise_if-passed
          (not (eqb (subscriber_count s.broadcaster) 0)
            || not (eqb (subscriber_count s.can_broadcaster) 0))
          runtime_error _ h2 in
      subst (λ (x : TelemetryService F R). IsValid (view x)) (ok_injective h3)
        (moved (view s) running none (some replay_waiting) s.live_started_once false valid
          (begins s.state idle).1 refl refl)

  pub finish_stop-Valid : (s : TelemetryService F R) → Valid s → Valid (finish_stop s)
  unfolding finish_stop transition Valid
  finish_stop-Valid s valid = elim (Bool-cases (is_stopped s.state)) [
    | inl already ↦ rw already (stayed (view s) none s.live_started_once s.stop_requested valid tt)
    | inr not_yet ↦ rw not_yet (
        moved (view s) stopped none none s.live_started_once s.stop_requested valid
          (stops s.state not_yet) refl tt)
  ]

  -- A worker that announces the end of its source, unless a stop was requested.
  pub announce-Valid :
      (state : TelemetryServiceState) (error : Option Failure) (w : Worker)
      (s : TelemetryService F R)
      → Valid s
      → follows s.state state ≡ true
      → is_failed state ≡ is_some error
      → Phase (some w) state s.live_started_once
      → Phase (some w) s.state s.live_started_once
      → Valid (goes_to w (announce state error s))
  unfolding announce transition Valid
  announce-Valid state error w s valid f e after before = elim (Bool-cases s.stop_requested) [
    | inl asked ↦ rw asked (stayed (view s) (some w) s.live_started_once true valid before)
    | inr free ↦
        rw free (moved (view s) state error (some w) s.live_started_once false valid f e after)
  ]

  pub same_view-Valid : (s s' : TelemetryService F R) → view s' ≡ view s → Valid s → Valid s'
  unfolding Valid
  same_view-Valid s s' e valid = subst IsValid (sym e) valid

  -- The phase of the worker that a step finds.
  pub worker-Phase :
      (s : TelemetryService F R) (w : Worker)
      → s.worker ≡ some w
      → Valid s
      → Phase (some w) s.state s.live_started_once
  unfolding Valid
  worker-Phase s w h valid = subst (λ o. Phase o s.state s.live_started_once) h valid.phase

  pub if_read-Valid :
      {A : Type 0} (r : Result A) (s : TelemetryService F R) → Valid s → Valid (if_read r s).1
  unfolding Valid
  if_read-Valid (err e) s valid = valid
  if_read-Valid (ok a) s valid = elim (Bool-cases (is_live s.source_mode)) [
    | inl h ↦ rw h valid
    | inr h ↦ rw h (stayed (view s) s.worker s.live_started_once s.stop_requested valid valid.phase)
  ]

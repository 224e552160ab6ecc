-- ===== src/Service/Interleaving.antt =====
-- telemetry/service.py, `TelemetrySubscription`: publishers and the event loop of the client, in any
-- order that the locks allow.
pub mod Bounds
pub mod Delivery
use tuner_os.Prelude.{
  ℕ, ◌+◌, ◌≤◌, ◌<◌, ◌≡◌, String, Bool, true, false, Option, none, some, List, [], ◌∷◌, ◌++◌, Result,
  ok, err, length,
}
use tuner_os.Service.Subscription.{
  SubscriberItem, event, subscriber_closed, Callback, deliver, deliver_closed, LoopWork, idle,
  putting, acknowledging, TelemetrySubscription, Scheduled, ignored, scheduled, slow, unreachable,
  new_subscription, schedule, deactivate, run_callback, put_nowait, take_item, acknowledge,
}

-- `publish` and `disconnect` are of other threads, `close_loop` of the environment. The others are
-- the loop's: it runs a callback or takes an item when it is idle, and finishes what it began.
pub data Action (E : Type 0) : Type 0 where
  publish : E → Action E
  disconnect : Option String → Action E
  close_loop : Action E
  run_next : Action E
  put : Action E
  take : Action E
  finish_receive : Action E

-- A client with what was scheduled for it, what `receive` gave it, and whether a put ever raised.
pub record Client (E : Type 0) : Type 0 where
  pub subscription : TelemetrySubscription E
  pub accepted : List E
  pub received : List (SubscriberItem E)
  pub overflowed : Bool

module _ {E : Type 0} where
  abbrev pub connected : ℕ → Client E
  connected capacity = record {
    subscription = new_subscription capacity;
    accepted = [];
    received = [];
    overflowed = false;
  }

  abbrev pub publishes : E → Client E → Scheduled × TelemetrySubscription E → Client E
  publishes e c (scheduled, s) = record c { subscription = s; accepted = c.accepted ++ e ∷ [] }
  publishes e c (ignored, s) = record c { subscription = s }
  publishes e c (slow, s) = record c { subscription = s }
  publishes e c (unreachable, s) = record c { subscription = s }

  abbrev pub puts : Client E → Result (Unit {0}) × TelemetrySubscription E → Client E
  puts c (ok u, s) = record c { subscription = s }
  puts c (err x, s) = record c { subscription = s; overflowed = true }

  abbrev pub receives : Client E → Option (SubscriberItem E) × TelemetrySubscription E → Client E
  receives c (none, s) = record c { subscription = s }
  receives c (some i, s) = record c { subscription = s; received = c.received ++ i ∷ [] }

  -- An action of the loop, by what the loop is in the middle of.
  abbrev pub loop_act : Action E → LoopWork E → Client E → Client E
  loop_act run_next idle c = record c {
    subscription = run_callback c.subscription.callbacks c.subscription;
  }
  loop_act take idle c = receives c (take_item c.subscription.queue c.subscription)
  loop_act put (putting e) c = puts c (put_nowait e c.subscription)
  loop_act finish_receive acknowledging c = record c { subscription = acknowledge c.subscription }
  loop_act _ _ c = c

  unfoldable pub act : Action E → Client E → Client E
  act (publish e) c = publishes e c (schedule e c.subscription)
  act (disconnect reason) c = record c { subscription = deactivate reason c.subscription }
  act close_loop c = record c { subscription = record c.subscription { loop_closed = true } }
  act a c = loop_act a c.subscription.work c

  -- The newest action first.
  unfoldable pub run : ℕ → List (Action E) → Client E
  run capacity [] = connected capacity
  run capacity (a ∷ earlier) = act a (run capacity earlier)

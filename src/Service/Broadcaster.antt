-- ===== src/Service/Broadcaster.antt =====
-- telemetry/service.py, `TelemetryBroadcaster`: the subscriptions of all clients. An object is an
-- entry of `heap` under its identity; `subscriptions` is the broadcaster's set of them.
pub mod Publishing
use tuner_os.Prelude.{
  ℕ, ◌+◌, String, Bool, true, false, not, Option, none, some, List, [], ◌∷◌, ◌==◌, nat_eq, filter,
  any, length, if◌then◌else◌,
}
use tuner_os.Prelude.Dict.{Dict, get, put}
use tuner_os.Service.Subscription.{
  TelemetrySubscription, Scheduled, ignored, scheduled, slow, unreachable, new_subscription,
  schedule, deactivate,
}

pub record TelemetryBroadcaster (E : Type 0) : Type 0 where
  pub queue_capacity : ℕ
  pub subscriptions : List ℕ
  pub heap : Dict ℕ (TelemetrySubscription E)
  pub next_identity : ℕ

abbrev pub contains : ℕ → List ℕ → Bool
contains i = any (λ j. j == i)

abbrev pub discard : ℕ → List ℕ → List ℕ
discard i = filter (λ j. not (j == i))

module _ {E : Type 0} where
  -- `__init__`
  abbrev pub new_broadcaster : ℕ → TelemetryBroadcaster E
  new_broadcaster capacity = record {
    queue_capacity = capacity;
    subscriptions = [];
    heap = [];
    next_identity = 0;
  }

  abbrev pub subscriber_count : TelemetryBroadcaster E → ℕ
  subscriber_count b = length b.subscriptions

  abbrev pub store : ℕ → TelemetrySubscription E → TelemetryBroadcaster E → TelemetryBroadcaster E
  store i s b = record b { heap = put b.heap i s }

  unfoldable pub subscribe : TelemetryBroadcaster E → ℕ × TelemetryBroadcaster E
  subscribe b = (
    b.next_identity,
    record b {
      subscriptions = b.next_identity ∷ b.subscriptions;
      heap = put b.heap b.next_identity (new_subscription b.queue_capacity);
      next_identity = b.next_identity + 1;
    },
  )

  -- subscription._deactivate(reason)
  abbrev pub deactivate_at :
      ℕ
      → Option String
      → Option (TelemetrySubscription E)
      → TelemetryBroadcaster E
      → TelemetryBroadcaster E
  deactivate_at i reason none b = b
  deactivate_at i reason (some s) b = store i (deactivate reason s) b

  unfoldable pub unsubscribe : ℕ → TelemetryBroadcaster E → TelemetryBroadcaster E
  unsubscribe i b =
      deactivate_at i none (get b.heap i) (record b { subscriptions = discard i b.subscriptions })

  unfoldable pub disconnect_slow_subscriber : ℕ → TelemetryBroadcaster E → TelemetryBroadcaster E
  disconnect_slow_subscriber i b =
      if contains i b.subscriptions
      then deactivate_at i (some "slow_client") (get b.heap i)
          (record b { subscriptions = discard i b.subscriptions })
      else b

  -- What `_schedule` makes the broadcaster do.
  abbrev pub react : ℕ → Scheduled → TelemetryBroadcaster E → TelemetryBroadcaster E
  react i ignored b = b
  react i scheduled b = b
  react i slow b = disconnect_slow_subscriber i b
  react i unreachable b = unsubscribe i b

  abbrev pub schedule_at :
      E → ℕ → Option (TelemetrySubscription E) → TelemetryBroadcaster E → TelemetryBroadcaster E
  schedule_at e i none b = b
  schedule_at e i (some s) b = let (how, s') = schedule e s in react i how (store i s' b)

  abbrev pub schedule_on : E → ℕ → TelemetryBroadcaster E → TelemetryBroadcaster E
  schedule_on e i b = schedule_at e i (get b.heap i) b

  -- for subscription in subscriptions
  unfoldable pub publish_to : E → List ℕ → TelemetryBroadcaster E → TelemetryBroadcaster E
  publish_to e [] b = b
  publish_to e (i ∷ rest) b = publish_to e rest (schedule_on e i b)

  unfoldable pub publish : E → TelemetryBroadcaster E → TelemetryBroadcaster E
  unfolding publish_to
  publish e b = publish_to e b.subscriptions b

-- ===== src/Service/Examples.antt =====
-- telemetry/service.py: a client that is slow, and another that closes.
use tuner_os.Prelude.{
  ℕ, ◌≡◌, ◌≤◌, refl, true, false, some, List, [], ◌∷◌, ◌++◌, arith, length, nat_eq, if◌then◌else◌,
  ◌&&◌,
}
use tuner_os.Service.Subscription.{
  event, subscriber_closed, schedule, deactivate, put_nowait, acknowledge, new_subscription,
}
use tuner_os.Service.Interleaving.{
  Action, publish, disconnect, run_next, put, take, finish_receive, run, act,
}
use tuner_os.Prelude.{pos}
use tuner_os.Prelude.Values.{int}
use tuner_os.Service.Config.{validate_positive_integer}
use tuner_os.Service.Config.Validated.{IsVerdict, validate_positive_integer-IsVerdict}
use tuner_os.Service.Broadcaster
use tuner_os.Service.Broadcaster.{TelemetryBroadcaster, contains}
use tuner_os.Service.Broadcaster.Publishing.{after, stays, publish-pointwise}
use tuner_os.Prelude.Dict.{get}
use tuner_os.Service.Interleaving.Bounds.{run-bounded, delivers}
use tuner_os.Service.Interleaving.Delivery.{run-delivers, events, under_put}

-- The newest first: two events are accepted, the first is received, and the client is disconnected
-- while the second is being put.
abbrev actions : List (Action ℕ)
actions =
    take
    ∷ run_next
    ∷ put
    ∷ disconnect (some "slow_client")
    ∷ run_next
    ∷ publish 12
    ∷ finish_receive
    ∷ take
    ∷ put
    ∷ run_next
    ∷ publish 11
    ∷ []

told : (run 1 actions).received ≡ event 11 ∷ subscriber_closed "slow_client" ∷ []
unfolding run act schedule deactivate put_nowait acknowledge
told = refl

run-bounded_example :
    (length (run 1 actions).subscription.queue ≤ 1) × ((run 1 actions).overflowed ≡ false)
run-bounded_example = run-bounded 1 actions (omega arith)

run-delivers_example :
    (let c = run 1 actions in
      ((rest : List ℕ) × (c.accepted ≡ events c.received ++ rest))
      × (c.subscription.active ≡ true
          → c.accepted
            ≡ events c.received
              ++ ((events c.subscription.queue ++ under_put c.subscription.work)
                  ++ delivers c.subscription.callbacks)))
run-delivers_example = run-delivers 1 actions (omega arith)

abbrev seven : ℕ
seven = 7

-- Two clients: the first has room for no more events.
abbrev two_clients : TelemetryBroadcaster ℕ
two_clients = record {
  queue_capacity = 1;
  subscriptions = 0 ∷ 1 ∷ [];
  heap =
      (0, record (new_subscription 1) { outstanding_deliveries = 1 })
      ∷ (1, new_subscription 1)
      ∷ [];
  next_identity = 2;
}

publish-pointwise_example :
    (get (Broadcaster.publish seven two_clients).heap 1
      ≡ some (
          if contains 1 (0 ∷ 1 ∷ [])
          then after (schedule seven (new_subscription 1))
          else new_subscription 1))
    × (contains 1 (Broadcaster.publish seven two_clients).subscriptions
        ≡ (contains 1 (0 ∷ 1 ∷ []) && stays (schedule seven (new_subscription 1)).0))
unfolding get
publish-pointwise_example =
    publish-pointwise seven two_clients 1 (new_subscription 1) (refl, (refl, tt)) refl

validate_positive_integer-IsVerdict_example :
    IsVerdict
      (some 65535)
      (int (pos 65536))
      (validate_positive_integer (int (pos 65536)) (some 65535))
validate_positive_integer-IsVerdict_example =
    validate_positive_integer-IsVerdict (int (pos 65536)) (some 65535)

-- ===== src/Service/Subscription.antt =====
-- telemetry/service.py, `TelemetrySubscription`: the bounded event stream of one client. Publishers
-- call `_schedule` and `_deactivate` from their threads; the callbacks and `receive` run on the
-- client's event loop, one at a time.
use tuner_os.Prelude.{
  ℕ, ◌+◌, ◌-◌, String, Bool, true, false, Option, none, some, List, [], ◌∷◌, ◌++◌, Result, ok, err,
  queue_full, length, leb, ltb, if◌then◌else◌,
}

-- `SubscriberItem`: an event, or `SubscriberClosed`.
pub data SubscriberItem (E : Type 0) : Type 0 where
  event : E → SubscriberItem E
  subscriber_closed : String → SubscriberItem E

-- A call that `call_soon_threadsafe` has put on the loop.
pub data Callback (E : Type 0) : Type 0 where
  deliver : E → Callback E
  deliver_closed : String → Callback E

-- What the loop is in the middle of: `_deliver` between its test and its put, or `receive` between
-- its get and the lock.
pub data LoopWork (E : Type 0) : Type 0 where
  idle : LoopWork E
  putting : E → LoopWork E
  acknowledging : LoopWork E

pub record TelemetrySubscription (E : Type 0) : Type 0 where
  pub capacity : ℕ
  pub queue : List (SubscriberItem E)
  pub active : Bool
  pub outstanding_deliveries : ℕ
  pub callbacks : List (Callback E)
  pub work : LoopWork E
  pub loop_closed : Bool

-- How `_schedule` ends: the last two make the broadcaster act.
pub data Scheduled : Type 0 where
  ignored scheduled slow unreachable : Scheduled

module _ {E : Type 0} where
  -- `__init__`
  abbrev pub new_subscription : ℕ → TelemetrySubscription E
  new_subscription capacity = record {
    capacity = capacity;
    queue = [];
    active = true;
    outstanding_deliveries = 0;
    callbacks = [];
    work = idle;
    loop_closed = false;
  }

  -- The call of `call_soon_threadsafe`, which raises `RuntimeError` on a loop that is closed.
  abbrev pub call_soon : Callback E → TelemetrySubscription E → TelemetrySubscription E
  call_soon c s = record s { callbacks = s.callbacks ++ c ∷ [] }

  -- `_schedule`
  unfoldable pub schedule : E → TelemetrySubscription E → Scheduled × TelemetrySubscription E
  schedule e s =
      let counted = record s { outstanding_deliveries = s.outstanding_deliveries + 1 } in
      if s.active
      then if leb s.capacity s.outstanding_deliveries
        then (slow, s)
        else if s.loop_closed
        then (unreachable, counted)
        else (scheduled, call_soon (deliver e) counted)
      else (ignored, s)

  abbrev closing : Option String → TelemetrySubscription E → TelemetrySubscription E
  closing none s = s
  closing (some reason) s = if s.loop_closed then s else call_soon (deliver_closed reason) s

  -- `_deactivate`
  unfoldable pub deactivate : Option String → TelemetrySubscription E → TelemetrySubscription E
  deactivate reason s =
      let stopped = record s { active = false; outstanding_deliveries = 0 } in
      if s.active then closing reason stopped else s

  -- The start of `_deliver`, and the whole of `_deliver_closed`.
  abbrev pub start_callback : Callback E → TelemetrySubscription E → TelemetrySubscription E
  start_callback (deliver e) s = if s.active then record s { work = putting e } else s
  start_callback (deliver_closed reason) s = record s { queue = subscriber_closed reason ∷ [] }

  -- The loop runs its oldest callback.
  abbrev pub run_callback : List (Callback E) → TelemetrySubscription E → TelemetrySubscription E
  run_callback [] s = s
  run_callback (c ∷ rest) s = start_callback c (record s { callbacks = rest })

  -- self._queue.put_nowait(event), which raises `QueueFull` on a full queue
  unfoldable pub put_nowait :
      E → TelemetrySubscription E → Result (Unit {0}) × TelemetrySubscription E
  put_nowait e s =
      if ltb (length s.queue) s.capacity
      then (ok tt, record s { work = idle; queue = s.queue ++ event e ∷ [] })
      else (err queue_full, record s { work = idle })

  -- item = await self._queue.get(): an event still has to be acknowledged.
  abbrev pub take_item :
      List (SubscriberItem E)
      → TelemetrySubscription E
      → Option (SubscriberItem E) × TelemetrySubscription E
  take_item [] s = (none, s)
  take_item (event e ∷ rest) s = (some (event e), record s { queue = rest; work = acknowledging })
  take_item (subscriber_closed reason ∷ rest) s =
      (some (subscriber_closed reason), record s { queue = rest })

  -- The end of `receive`.
  unfoldable pub acknowledge : TelemetrySubscription E → TelemetrySubscription E
  acknowledge s = record s {
    work = idle;
    outstanding_deliveries =
        if s.active then s.outstanding_deliveries - 1 else s.outstanding_deliveries;
  }

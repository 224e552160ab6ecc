-- ===== src/Service/Interleaving/Bounds.antt =====
-- telemetry/service.py, `TelemetrySubscription`: the queue never overflows.
use tuner_os.Prelude.{
  ok-ne-err, sym, ℕ, ◌+◌, ◌≤◌, ◌<◌, ◌≡◌, refl, String, Bool, true, false, Option, none, some, List,
  [], ◌∷◌, ◌++◌, arith, Result, ok, err, length, length-append,
}
use tuner_os.Service.Subscription.{
  SubscriberItem, event, subscriber_closed, Callback, deliver, deliver_closed, LoopWork, idle,
  putting, acknowledging, TelemetrySubscription, Scheduled, ignored, scheduled, slow, unreachable,
  schedule, deactivate, run_callback, start_callback, put_nowait, take_item, acknowledge,
}
use tuner_os.Service.Interleaving.{
  Action, publish, disconnect, close_loop, run_next, put, take, finish_receive, Client, act, run,
  publishes, puts, receives, loop_act,
}

module _ {E : Type 0} where
  abbrev pub delivers : List (Callback E) → List E
  delivers [] = []
  delivers (deliver e ∷ cs) = e ∷ delivers cs
  delivers (deliver_closed r ∷ cs) = delivers cs

  abbrev pub closings : List (Callback E) → ℕ
  closings [] = 0
  closings (deliver e ∷ cs) = closings cs
  closings (deliver_closed r ∷ cs) = closings cs + 1

  -- What is under way between the loop and the queue.
  abbrev in_put : LoopWork E → ℕ
  in_put idle = 0
  in_put (putting e) = 1
  in_put acknowledging = 0

  abbrev in_receive : LoopWork E → ℕ
  in_receive idle = 0
  in_receive (putting e) = 0
  in_receive acknowledging = 1

  -- While the subscription is active, `_outstanding_deliveries` covers all that is on its way, and
  -- no closing is scheduled; after that the queue has room for what is being put.
  abbrev pub Bounded : Bool → TelemetrySubscription E → Type 0
  Bounded true s =
      (closings s.callbacks ≡ 0)
      × (in_put s.work + in_receive s.work + length s.queue + length (delivers s.callbacks)
          ≤ s.outstanding_deliveries)
      × (s.outstanding_deliveries ≤ s.capacity)
  Bounded false s = in_put s.work + length s.queue ≤ s.capacity

  pub record IsBounded (n : ℕ) (s : TelemetrySubscription E) : Type 0 where
    pub same : s.capacity ≡ n
    pub bounds : Bounded s.active s

  closings-append : (cs ds : List (Callback E)) → closings (cs ++ ds) ≡ closings cs + closings ds
  closings-append [] ds = omega arith
  closings-append (deliver e ∷ cs) ds = closings-append cs ds
  closings-append (deliver_closed r ∷ cs) ds = omega (arith, closings-append cs ds)

  pub delivers-append :
      (cs ds : List (Callback E)) → delivers (cs ++ ds) ≡ delivers cs ++ delivers ds
  delivers-append [] ds = refl
  delivers-append (deliver e ∷ cs) ds = rw (delivers-append cs ds)
  delivers-append (deliver_closed r ∷ cs) ds = delivers-append cs ds

  schedule-IsBounded :
      (n : ℕ) (e : E) (s : TelemetrySubscription E) → IsBounded n s → IsBounded n (schedule e s).1
  unfolding schedule
  schedule-IsBounded n e s h = ground (
    arith,
    closings-append s.callbacks (deliver e ∷ []),
    delivers-append s.callbacks (deliver e ∷ []),
    length-append (delivers s.callbacks) (e ∷ []),
  )

  deactivate-IsBounded :
      (n : ℕ) (r : Option String) (s : TelemetrySubscription E)
      → IsBounded n s
      → IsBounded n (deactivate r s)
  unfolding deactivate
  deactivate-IsBounded n r s h = ground arith

  start_callback-IsBounded :
      (n : ℕ) (c : Callback E) (cs : List (Callback E)) (s : TelemetrySubscription E)
      → 0 < n
      → s.work ≡ idle
      → s.callbacks ≡ c ∷ cs
      → IsBounded n s
      → IsBounded n (start_callback c (record s { callbacks = cs }))
  start_callback-IsBounded n (deliver e) cs s p i q h = ground arith
  start_callback-IsBounded n (deliver_closed r) cs s p i q h = ground arith

  -- A put finds room, and keeps the bounds.
  put_nowait-IsBounded :
      (n : ℕ) (e : E) (s : TelemetrySubscription E)
      → s.work ≡ putting e
      → IsBounded n s
      → ((put_nowait e s).0 ≡ ok tt) × IsBounded n (put_nowait e s).1
  unfolding put_nowait
  put_nowait-IsBounded n e s i h = ground (arith, length-append s.queue (event e ∷ []))

  take_item-IsBounded :
      (n : ℕ) (q : List (SubscriberItem E)) (s : TelemetrySubscription E)
      → s.work ≡ idle
      → s.queue ≡ q
      → IsBounded n s
      → IsBounded n (take_item q s).1
  take_item-IsBounded n [] s i e h = h
  take_item-IsBounded n (event x ∷ rest) s i e h = ground arith
  take_item-IsBounded n (subscriber_closed r ∷ rest) s i e h = ground arith

  acknowledge-IsBounded :
      (n : ℕ) (s : TelemetrySubscription E)
      → s.work ≡ acknowledging
      → IsBounded n s
      → IsBounded n (acknowledge s)
  unfolding acknowledge
  acknowledge-IsBounded n s i h = ground arith

  -- Within the bounds, and no put has raised.
  pub record Fits (n : ℕ) (c : Client E) : Type 0 where
    pub bounded : IsBounded n c.subscription
    pub quiet : c.overflowed ≡ false

  Fits-publishes :
      (n : ℕ) (e : E) (c : Client E) (r : Scheduled × TelemetrySubscription E)
      → IsBounded n r.1
      → c.overflowed ≡ false
      → Fits n (publishes e c r)
  Fits-publishes n e c (ignored, s) b q = record { bounded = b; quiet = q }
  Fits-publishes n e c (scheduled, s) b q = record { bounded = b; quiet = q }
  Fits-publishes n e c (slow, s) b q = record { bounded = b; quiet = q }
  Fits-publishes n e c (unreachable, s) b q = record { bounded = b; quiet = q }

  Fits-puts :
      (n : ℕ) (c : Client E) (r : Result (Unit {0}) × TelemetrySubscription E)
      → r.0 ≡ ok tt
      → IsBounded n r.1
      → c.overflowed ≡ false
      → Fits n (puts c r)
  Fits-puts n c (ok u, s) e b q = record { bounded = b; quiet = q }
  Fits-puts n c (err x, s) e b q = absurd (ok-ne-err (sym e))

  Fits-receives :
      (n : ℕ) (c : Client E) (r : Option (SubscriberItem E) × TelemetrySubscription E)
      → IsBounded n r.1
      → c.overflowed ≡ false
      → Fits n (receives c r)
  Fits-receives n c (none, s) b q = record { bounded = b; quiet = q }
  Fits-receives n c (some i, s) b q = record { bounded = b; quiet = q }

  run_callback-IsBounded :
      (n : ℕ) (cs : List (Callback E)) (s : TelemetrySubscription E)
      → 0 < n
      → s.work ≡ idle
      → s.callbacks ≡ cs
      → IsBounded n s
      → IsBounded n (run_callback cs s)
  run_callback-IsBounded n [] s p i e h = h
  run_callback-IsBounded n (c ∷ cs) s p i e h = start_callback-IsBounded n c cs s p i e h

  Fits-loop_act :
      (n : ℕ) (a : Action E) (w : LoopWork E) (c : Client E)
      → 0 < n
      → c.subscription.work ≡ w
      → Fits n c
      → Fits n (loop_act a w c)
  Fits-loop_act n run_next idle c p i h = record {
    bounded = run_callback-IsBounded n c.subscription.callbacks c.subscription p i refl h.bounded;
    quiet = h.quiet;
  }
  Fits-loop_act n take idle c p i h =
      Fits-receives n c (take_item c.subscription.queue c.subscription)
        (take_item-IsBounded n c.subscription.queue c.subscription i refl h.bounded) h.quiet
  Fits-loop_act n put (putting e) c p i h =
      let (done, kept) = put_nowait-IsBounded n e c.subscription i h.bounded in
      Fits-puts n c (put_nowait e c.subscription) done kept h.quiet
  Fits-loop_act n finish_receive acknowledging c p i h = record {
    bounded = acknowledge-IsBounded n c.subscription i h.bounded;
    quiet = h.quiet;
  }
  Fits-loop_act n _ _ c p i h = h

  Bounded-close_loop :
      (b : Bool) (s : TelemetrySubscription E)
      → Bounded b s
      → Bounded b (record s { loop_closed = true })
  Bounded-close_loop true s h = h
  Bounded-close_loop false s h = h

  Fits-act : (n : ℕ) (a : Action E) (c : Client E) → 0 < n → Fits n c → Fits n (act a c)
  unfolding act
  Fits-act n (publish e) c p h =
      Fits-publishes n e c (schedule e c.subscription)
        (schedule-IsBounded n e c.subscription h.bounded) h.quiet
  Fits-act n (disconnect r) c p h = record {
    bounded = deactivate-IsBounded n r c.subscription h.bounded;
    quiet = h.quiet;
  }
  Fits-act n close_loop c p h = record {
    bounded = record {
      same = h.bounded.same;
      bounds = Bounded-close_loop c.subscription.active c.subscription h.bounded.bounds;
    };
    quiet = h.quiet;
  }
  Fits-act n run_next c p h = Fits-loop_act n run_next c.subscription.work c p refl h
  Fits-act n put c p h = Fits-loop_act n put c.subscription.work c p refl h
  Fits-act n take c p h = Fits-loop_act n take c.subscription.work c p refl h
  Fits-act n finish_receive c p h = Fits-loop_act n finish_receive c.subscription.work c p refl h

  pub Fits-run : (n : ℕ) (acts : List (Action E)) → 0 < n → Fits n (run n acts)
  unfolding run
  Fits-run n [] p = record {
    bounded = record { same = refl; bounds = (refl, omega arith, omega arith) };
    quiet = refl;
  }
  Fits-run n (a ∷ earlier) p = Fits-act n a (run n earlier) p (Fits-run n earlier p)

  Bounded-le : (b : Bool) (s : TelemetrySubscription E) → Bounded b s → length s.queue ≤ s.capacity
  Bounded-le true s h = omega (arith, h)
  Bounded-le false s h = omega (arith, h)

  -- In whatever order publishers, closings and the loop of a client of positive capacity act: the
  -- queue holds at most that many items, and no put ever raises `QueueFull`.
  pub run-bounded :
      (n : ℕ) (acts : List (Action E))
      → 0 < n
      → (length (run n acts).subscription.queue ≤ n) × ((run n acts).overflowed ≡ false)
  run-bounded n acts p =
      let f = Fits-run n acts p in
      let le =
        Bounded-le (run n acts).subscription.active (run n acts).subscription f.bounded.bounds in
      (omega (arith, le, f.bounded.same), f.quiet)

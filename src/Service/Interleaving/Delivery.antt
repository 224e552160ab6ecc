-- ===== src/Service/Interleaving/Delivery.antt =====
-- telemetry/service.py, `TelemetrySubscription`: what a client receives.
use mathlib.Core.List.{append_assoc, append-nil}
use tuner_os.Prelude.{
  ℕ, ◌<◌, ◌≡◌, refl, sym, ◌∙◌, subst, String, Bool, true, false, Option, none, some, List, [], ◌∷◌,
  ◌++◌, arith, length, leb, ltb, Bool-cases, inl, inr,
}
use tuner_os.Service.Subscription.{
  SubscriberItem, event, subscriber_closed, Callback, deliver, deliver_closed, LoopWork, idle,
  putting, acknowledging, TelemetrySubscription, schedule, deactivate, run_callback, start_callback,
  put_nowait, take_item, acknowledge,
}
use tuner_os.Service.Interleaving.{
  Action, publish, disconnect, close_loop, run_next, put, take, finish_receive, Client, act, run,
  publishes, puts, receives, loop_act,
}
use tuner_os.Service.Interleaving.Bounds.{
  delivers, delivers-append, Fits, Fits-run, IsBounded, Bounded,
}

module _ {E : Type 0} where
  abbrev pub events : List (SubscriberItem E) → List E
  events [] = []
  events (event e ∷ is) = e ∷ events is
  events (subscriber_closed r ∷ is) = events is

  abbrev pub under_put : LoopWork E → List E
  under_put idle = []
  under_put (putting e) = e ∷ []
  under_put acknowledging = []

  -- What was accepted and not yet taken, as far as it is in the queue or on its way there.
  abbrev on_way : TelemetrySubscription E → List E
  on_way s = events s.queue ++ under_put s.work

  -- While the subscription is active, all that was accepted was received or is on its way, in order;
  -- after that, a first part of it.
  abbrev Delivers : Bool → List E → TelemetrySubscription E → List (SubscriberItem E) → Type 0
  Delivers true accepted s received =
      accepted ≡ events received ++ (on_way s ++ delivers s.callbacks)
  Delivers false accepted s received =
      (lost : List E) × (accepted ≡ events received ++ (on_way s ++ lost))

  events-append : (is js : List (SubscriberItem E)) → events (is ++ js) ≡ events is ++ events js
  events-append [] js = refl
  events-append (event e ∷ is) js = rw (events-append is js)
  events-append (subscriber_closed r ∷ is) js = events-append is js

  abbrev IsDelivered : Client E → Type 0
  IsDelivered c = Delivers c.subscription.active c.accepted c.subscription c.received

  -- A publisher's call, while the subscription is active.
  scheduled-Delivers :
      (e : E) (c : Client E)
      → Delivers true c.accepted c.subscription c.received
      → c.accepted ++ e ∷ []
        ≡ events c.received
          ++ (on_way c.subscription ++ delivers (c.subscription.callbacks ++ deliver e ∷ []))
  scheduled-Delivers e c h =
      rw (delivers-append c.subscription.callbacks (deliver e ∷ []), h) (simp append_assoc)

  schedule-Delivers :
      (e : E) (c : Client E)
      → IsDelivered c
      → IsDelivered (publishes e c (schedule e c.subscription))
  unfolding schedule
  schedule-Delivers e c h = elim (Bool-cases c.subscription.active) [
    | inr off ↦ rw off (rw off at h)
    | inl on ↦
        elim (Bool-cases (leb c.subscription.capacity c.subscription.outstanding_deliveries)) [
          | inl full ↦ rw (on, full) (rw on at h)
          | inr room ↦ elim (Bool-cases c.subscription.loop_closed) [
            | inl gone ↦ rw (on, room, gone) (rw on at h)
            | inr there ↦ rw (on, room, there) (scheduled-Delivers e c (rw on at h))
          ]
        ]
  ]

  deactivate-Delivers :
      (r : Option String) (b : Bool) (c : Client E)
      → c.subscription.active ≡ b
      → Delivers b c.accepted c.subscription c.received
      → IsDelivered (record c { subscription = deactivate r c.subscription })
  unfolding deactivate
  deactivate-Delivers r false c a h = rw a h
  deactivate-Delivers none true c a h = rw a (delivers c.subscription.callbacks, h)
  deactivate-Delivers (some r) true c a h = elim (Bool-cases c.subscription.loop_closed) [
    | inl gone ↦ rw (a, gone) (delivers c.subscription.callbacks, h)
    | inr there ↦ rw (a, there) (delivers c.subscription.callbacks, h)
  ]

  -- The loop starts a callback, of those that are scheduled.
  started-Delivers :
      (cb : Callback E) (cs : List (Callback E)) (b : Bool) (c : Client E)
      → c.subscription.active ≡ b
      → c.subscription.work ≡ idle
      → c.subscription.callbacks ≡ cb ∷ cs
      → Bounded b c.subscription
      → Delivers b c.accepted c.subscription c.received
      → IsDelivered
          (record c { subscription = start_callback cb (record c.subscription { callbacks = cs }) })
  started-Delivers (deliver e) cs true c a i q l h = rw a (rw (i, q) at h ∙ simp append_assoc)
  started-Delivers (deliver e) cs false c a i q l h = rw a h
  started-Delivers (deliver_closed r) cs true c a i q l h =
      let (open_still, room, full) = l in absurd (omega (arith, rw q at open_still))
  started-Delivers (deliver_closed r) cs false c a i q l h =
      rw a (on_way c.subscription ++ h.0, h.1 ∙ rw i refl)

  room :
      (s : TelemetrySubscription E) (n : ℕ) (e : E)
      → s.work ≡ putting e
      → IsBounded n s
      → ltb (length s.queue) s.capacity ≡ true
  room s n e i b = ground arith

  put-Delivers :
      (e : E) (b : Bool) (c : Client E)
      → c.subscription.active ≡ b
      → c.subscription.work ≡ putting e
      → ltb (length c.subscription.queue) c.subscription.capacity ≡ true
      → Delivers b c.accepted c.subscription c.received
      → IsDelivered (puts c (put_nowait e c.subscription))
  unfolding put_nowait
  put-Delivers e true c a i l h =
      rw (l, a)
        (rw i at h
          ∙ rw (events-append c.subscription.queue (event e ∷ []))
              (simp (append_assoc, append-nil)))
  put-Delivers e false c a i l h =
      rw (l, a)
        (
          h.0,
          rw i at h.1
              ∙ rw (events-append c.subscription.queue (event e ∷ []))
                  (simp (append_assoc, append-nil)),
        )

  take-Delivers :
      (q : List (SubscriberItem E)) (b : Bool) (c : Client E)
      → c.subscription.active ≡ b
      → c.subscription.work ≡ idle
      → c.subscription.queue ≡ q
      → Delivers b c.accepted c.subscription c.received
      → IsDelivered (receives c (take_item q c.subscription))
  take-Delivers [] b c a i e h =
      subst (λ x. Delivers x c.accepted c.subscription c.received) (sym a) h
  take-Delivers (event x ∷ q) true c a i e h =
      rw a (rw (i, e) at h ∙ rw (events-append c.received (event x ∷ [])) (simp append_assoc))
  take-Delivers (event x ∷ q) false c a i e h =
      rw a
        (h.0, rw (i, e) at h.1 ∙ rw (events-append c.received (event x ∷ [])) (simp append_assoc))
  take-Delivers (subscriber_closed r ∷ q) true c a i e h = rw a (
      rw (i, e) at h
      ∙ rw (events-append c.received (subscriber_closed r ∷ []), i) (simp append-nil))
  take-Delivers (subscriber_closed r ∷ q) false c a i e h = rw a (
    h.0,
    rw (i, e) at h.1
        ∙ rw (events-append c.received (subscriber_closed r ∷ []), i) (simp append-nil),
  )

  finish-Delivers :
      (b : Bool) (c : Client E)
      → c.subscription.active ≡ b
      → c.subscription.work ≡ acknowledging
      → Delivers b c.accepted c.subscription c.received
      → IsDelivered (record c { subscription = acknowledge c.subscription })
  unfolding acknowledge
  finish-Delivers true c a i h = rw a (rw i at h)
  finish-Delivers false c a i h = rw a (h.0, rw i at h.1)

  run_callback-Delivers :
      (cs : List (Callback E)) (b : Bool) (c : Client E)
      → c.subscription.active ≡ b
      → c.subscription.work ≡ idle
      → c.subscription.callbacks ≡ cs
      → Bounded b c.subscription
      → Delivers b c.accepted c.subscription c.received
      → IsDelivered (record c { subscription = run_callback cs c.subscription })
  run_callback-Delivers [] b c a i q l h =
      subst (λ x. Delivers x c.accepted c.subscription c.received) (sym a) h
  run_callback-Delivers (cb ∷ cs) b c a i q l h = started-Delivers cb cs b c a i q l h

  loop_act-Delivers :
      (a : Action E) (w : LoopWork E) (c : Client E) (n : ℕ)
      → c.subscription.work ≡ w
      → Fits n c
      → IsDelivered c
      → IsDelivered (loop_act a w c)
  loop_act-Delivers run_next idle c n i f h =
      run_callback-Delivers c.subscription.callbacks c.subscription.active c refl i refl
        f.bounded.bounds h
  loop_act-Delivers take idle c n i f h =
      take-Delivers c.subscription.queue c.subscription.active c refl i refl h
  loop_act-Delivers put (putting e) c n i f h =
      put-Delivers e c.subscription.active c refl i (room c.subscription n e i f.bounded) h
  loop_act-Delivers finish_receive acknowledging c n i f h =
      finish-Delivers c.subscription.active c refl i h
  loop_act-Delivers _ _ c n i f h = h

  act-Delivers :
      (a : Action E) (c : Client E) (n : ℕ) → Fits n c → IsDelivered c → IsDelivered (act a c)
  unfolding act
  act-Delivers (publish e) c n f h = schedule-Delivers e c h
  act-Delivers (disconnect r) c n f h = deactivate-Delivers r c.subscription.active c refl h
  act-Delivers close_loop c n f h = closed c.subscription.active c h
    where
      closed :
          (b : Bool) (c : Client E)
          → Delivers b c.accepted c.subscription c.received
          → Delivers b c.accepted (record c.subscription { loop_closed = true }) c.received
      closed true c h = h
      closed false c h = h
  act-Delivers run_next c n f h = loop_act-Delivers run_next c.subscription.work c n refl f h
  act-Delivers put c n f h = loop_act-Delivers put c.subscription.work c n refl f h
  act-Delivers take c n f h = loop_act-Delivers take c.subscription.work c n refl f h
  act-Delivers finish_receive c n f h =
      loop_act-Delivers finish_receive c.subscription.work c n refl f h

  IsDelivered-run : (n : ℕ) (acts : List (Action E)) → 0 < n → IsDelivered (run n acts)
  unfolding run
  IsDelivered-run n [] p = refl
  IsDelivered-run n (a ∷ earlier) p =
      act-Delivers a (run n earlier) n (Fits-run n earlier p) (IsDelivered-run n earlier p)

  any-Delivers :
      (b : Bool) (accepted : List E) (s : TelemetrySubscription E)
      (received : List (SubscriberItem E))
      → Delivers b accepted s received
      → (rest : List E) × (accepted ≡ events received ++ rest)
  any-Delivers true accepted s received h = (on_way s ++ delivers s.callbacks, h)
  any-Delivers false accepted s received h = (on_way s ++ h.0, h.1)

  -- In whatever order publishers, closings and the loop of a client of positive capacity act: the
  -- events that the client received are a first part of those that were accepted for it, in order
  -- and without a gap; and while the subscription is active, the others are all in the queue, being
  -- put, or scheduled on the loop, in this order.
  pub run-delivers :
      (n : ℕ) (acts : List (Action E))
      → 0 < n
      → (let c = run n acts in
          ((rest : List E) × (c.accepted ≡ events c.received ++ rest))
          × (c.subscription.active ≡ true
              → c.accepted
                ≡ events c.received
                  ++ ((events c.subscription.queue ++ under_put c.subscription.work)
                      ++ delivers c.subscription.callbacks)))
  run-delivers n acts p =
      let h = IsDelivered-run n acts p in
      (
        any-Delivers (run n acts).subscription.active (run n acts).accepted
            (run n acts).subscription (run n acts).received h,
        λ on. rw on at h,
      )

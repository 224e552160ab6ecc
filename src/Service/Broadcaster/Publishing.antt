-- ===== src/Service/Broadcaster/Publishing.antt =====
-- telemetry/service.py, `publish`: every subscription gets its own treatment.
use tuner_os.Prelude.{
  ℕ, ◌≡◌, refl, sym, ap, ◌∙◌, Bool, true, false, ◌&&◌, none, some, List, [], ◌∷◌, ◌==◌, nat_eq,
  eqb_iff, arith, if◌then◌else◌, Bool-cases, Option-cases, inl, inr, beq_refl, All,
}
use tuner_os.Prelude.Dict.{Dict, get, put, get-put, get-put_self}
use tuner_os.Service.Subscription.{
  TelemetrySubscription, Scheduled, ignored, scheduled, slow, unreachable, schedule, deactivate,
}
use tuner_os.Service.Broadcaster.{
  TelemetryBroadcaster, contains, discard, store, unsubscribe, disconnect_slow_subscriber, react,
  schedule_on, publish_to, publish,
}

contains-discard :
    (i j : ℕ) (is : List ℕ) → contains j (discard i is) ≡ (if i == j then false else contains j is)
contains-discard i j [] = ground arith
contains-discard i j (k ∷ is) =
    ground (arith, contains-discard i j is, eqb_iff i j, eqb_iff k i, eqb_iff k j)

-- Whether it stays in the set.
abbrev pub stays : Scheduled → Bool
stays ignored = true
stays scheduled = true
stays slow = false
stays unreachable = false

abbrev pub Distinct : List ℕ → Type 0
Distinct [] = Unit
Distinct (i ∷ is) = (contains i is ≡ false) × Distinct is

module _ {E : Type 0} where
  -- What publishing an event makes of one subscription that the set holds.
  abbrev pub after : Scheduled × TelemetrySubscription E → TelemetrySubscription E
  after (ignored, s) = s
  after (scheduled, s) = s
  after (slow, s) = deactivate (some "slow_client") s
  after (unreachable, s) = deactivate none s

  put_twice :
      (d : Dict ℕ (TelemetrySubscription E)) (i j : ℕ) (s s' : TelemetrySubscription E)
      → get (put (put d i s) i s') j ≡ (if i == j then some s' else get d j)
  put_twice d i j s s' = elim (Bool-cases (i == j)) [
    | inl t ↦ rw (get-put (put d i s) i j s', t) refl
    | inr f ↦ rw (get-put (put d i s) i j s', f) (get-put d i j s ∙ rw f refl)
  ]

  react-get :
      (i j : ℕ) (r : Scheduled × TelemetrySubscription E) (b : TelemetryBroadcaster E)
      → contains i b.subscriptions ≡ true
      → get (react i r.0 (store i r.1 b)).heap j ≡ (if i == j then some (after r) else get b.heap j)
  unfolding unsubscribe disconnect_slow_subscriber
  react-get i j (ignored, s) b m = get-put b.heap i j s
  react-get i j (scheduled, s) b m = get-put b.heap i j s
  react-get i j (slow, s) b m = rw (m, get-put_self b.heap i s) (put_twice b.heap i j s _)
  react-get i j (unreachable, s) b m = rw (get-put_self b.heap i s) (put_twice b.heap i j s _)

  react-contains :
      (i j : ℕ) (r : Scheduled × TelemetrySubscription E) (b : TelemetryBroadcaster E)
      → contains i b.subscriptions ≡ true
      → contains j (react i r.0 (store i r.1 b)).subscriptions
        ≡ (if i == j then stays r.0 else contains j b.subscriptions)
  unfolding unsubscribe disconnect_slow_subscriber
  react-contains i j (ignored, s) b m = kept
    where
      kept : contains j b.subscriptions ≡ (if i == j then true else contains j b.subscriptions)
      kept = ground (arith, eqb_iff i j)
  react-contains i j (scheduled, s) b m = kept
    where
      kept : contains j b.subscriptions ≡ (if i == j then true else contains j b.subscriptions)
      kept = ground (arith, eqb_iff i j)
  react-contains i j (slow, s) b m =
      rw (m, get-put_self b.heap i s) (contains-discard i j b.subscriptions)
  react-contains i j (unreachable, s) b m =
      rw (get-put_self b.heap i s) (contains-discard i j b.subscriptions)

  -- One step of the loop, for a subscription `j` and one that the loop is at.
  module _ (e : E) (i j : ℕ) (s : TelemetrySubscription E) (b : TelemetryBroadcaster E)
      (held : get b.heap j ≡ some s) (member : contains i b.subscriptions ≡ true) where
    same : (i == j) ≡ true → get b.heap i ≡ some s
    same hit = ap (get b.heap) ((eqb_iff i j).0 hit) ∙ held

    schedule_on-get :
        get (schedule_on e i b).heap j ≡ some (if i == j then after (schedule e s) else s)
    schedule_on-get = elim (Bool-cases (i == j)) [
      | inl hit ↦ rw (same hit, hit) (react-get i j (schedule e s) b member ∙ rw hit refl)
      | inr miss ↦ elim (Option-cases (get b.heap i)) [
        | inl absent ↦ rw (absent, miss) held
        | inr (t, there) ↦ rw (there, miss) (react-get i j (schedule e t) b member ∙ rw miss held)
      ]
    ]

    schedule_on-contains :
        contains j (schedule_on e i b).subscriptions
        ≡ (if i == j then stays (schedule e s).0 else contains j b.subscriptions)
    schedule_on-contains = elim (Bool-cases (i == j)) [
      | inl hit ↦ rw (same hit, hit) (react-contains i j (schedule e s) b member ∙ rw hit refl)
      | inr miss ↦ elim (Option-cases (get b.heap i)) [
        | inl absent ↦ rw (absent, miss) refl
        | inr (t, there) ↦
            rw (there, miss) (react-contains i j (schedule e t) b member ∙ rw miss refl)
      ]
    ]

  schedule_on-other :
      (e : E) (i k : ℕ) (b : TelemetryBroadcaster E)
      → contains i b.subscriptions ≡ true
      → (i == k) ≡ false
      → contains k (schedule_on e i b).subscriptions ≡ contains k b.subscriptions
  schedule_on-other e i k b m n = elim (Option-cases (get b.heap i)) [
    | inl absent ↦ rw absent refl
    | inr (t, there) ↦ rw there (react-contains i k (schedule e t) b m ∙ rw n refl)
  ]

  -- The rest of the loop still finds its subscriptions in the set.
  still-members :
      (e : E) (i : ℕ) (b : TelemetryBroadcaster E) (is : List ℕ)
      → contains i b.subscriptions ≡ true
      → contains i is ≡ false
      → All (λ k. contains k b.subscriptions ≡ true) is
      → All (λ k. contains k (schedule_on e i b).subscriptions ≡ true) is
  still-members e i b [] m n h = tt
  still-members e i b (k ∷ is) m n h =
      let differ : (i == k) ≡ false = ground (arith, eqb_iff i k, eqb_iff k i) in
      let later : contains i is ≡ false = ground arith in
      (schedule_on-other e i k b m differ ∙ h.0, still-members e i b is m later h.1)

  publish_to-pointwise :
      (e : E) (is : List ℕ) (b : TelemetryBroadcaster E) (j : ℕ) (s : TelemetrySubscription E)
      → Distinct is
      → All (λ k. contains k b.subscriptions ≡ true) is
      → get b.heap j ≡ some s
      → (get (publish_to e is b).heap j ≡ some (if contains j is then after (schedule e s) else s))
        × (contains j (publish_to e is b).subscriptions
            ≡ (if contains j is then stays (schedule e s).0 else contains j b.subscriptions))
  unfolding publish_to
  publish_to-pointwise e [] b j s d m h = (h, refl)
  publish_to-pointwise e (i ∷ is) b j s d m h =
      let members = still-members e i b is m.0 d.0 m.1 in
      elim (Bool-cases (i == j)) [
        | inl hit ↦
            let gone : contains j is ≡ false =
              ap (λ k. contains k is) (sym ((eqb_iff i j).0 hit)) ∙ d.0 in
            let (g, c) =
              publish_to-pointwise e is (schedule_on e i b) j (after (schedule e s)) d.1 members
                (schedule_on-get e i j s b h m.0 ∙ rw hit refl) in
            rw hit (rw gone at g, rw gone at c ∙ schedule_on-contains e i j s b h m.0 ∙ rw hit refl)
        | inr miss ↦
            let (g, c) =
              publish_to-pointwise e is (schedule_on e i b) j s d.1 members
                (schedule_on-get e i j s b h m.0 ∙ rw miss refl) in
            rw miss (g, c ∙ rw (schedule_on-other e i j b m.0 miss) refl)
      ]

  -- In a broadcaster whose set holds no subscription twice, publishing treats every subscription by
  -- itself: each one in the set gets the event scheduled, or is deactivated and leaves the set if it
  -- is too slow or its loop is closed, whatever the others do; all others stay as they are.
  pub publish-pointwise :
      (e : E) (b : TelemetryBroadcaster E) (j : ℕ) (s : TelemetrySubscription E)
      → Distinct b.subscriptions
      → get b.heap j ≡ some s
      → (get (publish e b).heap j
          ≡ some (if contains j b.subscriptions then after (schedule e s) else s))
        × (contains j (publish e b).subscriptions
            ≡ (contains j b.subscriptions && stays (schedule e s).0))
  unfolding publish
  publish-pointwise e b j s d h =
      let (g, c) =
        publish_to-pointwise e b.subscriptions b j s d
          (all_members b.subscriptions b.subscriptions (λ k m. m)) h in
      (g, c ∙ same (contains j b.subscriptions) (stays (schedule e s).0))
    where
      same : (x y : Bool) → (if x then y else x) ≡ (x && y)
      same true y = refl
      same false y = refl

      all_members :
          (is set : List ℕ)
          → ((k : ℕ) → contains k is ≡ true → contains k set ≡ true)
          → All (λ k. contains k set ≡ true) is
      all_members [] set h = tt
      all_members (i ∷ is) set h =
          (h i (rw (beq_refl i) refl), all_members is set (λ k m. h k (ground arith)))

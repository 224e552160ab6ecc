-- ===== src/Telemetry/Engine/Snapshot.antt =====
-- telemetry/engine.py, `freshness` and `snapshot`: on an engine that was only fed by `ingest` they
-- do not raise, and the freshness is that of the age at the latest timestamp.
use tuner_os.Prelude.{
  ℕ, ◌-◌, ◌*◌, ◌≤◌, ◌≡◌, refl, sym, ap, subst, ◌∙◌, inl, inr, false, Option, none, some, List, [],
  ◌∷◌, arith, ◌==◌, ok, >>=-eq-ok, ok_injective, ltb, leb, if◌then◌else◌, Bool-cases, Option-cases,
  All, some-ne-none,
}
use tuner_os.Prelude.Dict.{Dict, get, All-get}
use tuner_os.Can.Metadata.{CanDatabaseMetadata}
use tuner_os.Can.Models.{DecodedCanFrame}
use tuner_os.Telemetry.Models.{
  SignalKey, key_eq, key_beq_iff, SignalSample, SignalFreshness, fresh, stale, TelemetrySnapshot,
}
use tuner_os.Telemetry.Catalog.{SignalCatalog, SignalDefinition, signal_catalog, find}
use tuner_os.Telemetry.Catalog.Lookup.{key_of_find, signal_catalog-definitions}
use tuner_os.Telemetry.Engine.{
  TelemetryEngine, new_engine, freshness, statuses, snapshot, statistics,
}
use tuner_os.Telemetry.Engine.History.{run}
use tuner_os.Telemetry.Engine.Coherence.{Known, Entry, Entries, Sound, Sound-run}

module _ {F : Type 0} where
  -- The freshness of a sample of period `period` at the time `t`.
  abbrev pub by_age : ℕ → ℕ → SignalSample F → SignalFreshness
  by_age period t s = if leb (t - s.timestamp_microseconds) (period * 2) then fresh else stale

  module _ (e : TelemetryEngine F) (t : ℕ) (now : e.latest_timestamp_microseconds ≡ some t) where
    freshness-by_age :
        (k : SignalKey) (s : SignalSample F)
        → Entry e.catalog t (k, s)
        → get e.latest_samples k ≡ some s
        → (d : SignalDefinition) × (find e.catalog k ≡ some d)
          × (freshness e k none ≡ ok (some (by_age d.expected_period_microseconds t s)))
    unfolding freshness
    freshness-by_age k s entry g =
        let (d, found) = entry.0 in
        let on_time : ltb t s.timestamp_microseconds ≡ false = ground (arith, entry.1) in
        (d, found, rw (found, g, now, on_time) refl)

    -- The comprehension over the entries: it succeeds, and holds what `freshness` returns.
    statuses-total :
        (l : Dict SignalKey (SignalSample F))
        → All (Entry e.catalog t) e.latest_samples
        → All (λ (p : SignalKey × SignalSample F). Known e.catalog p.0) l
        → (m : Dict SignalKey (Option SignalFreshness)) × (statuses e l ≡ ok m)
    unfolding statuses
    statuses-total [] h k = ([], refl)
    statuses-total ((key, s) ∷ l) h k =
        let (v, q) = status_of key k.0 in
        let (m, r) = statuses-total l h k.1 in ((key, v) ∷ m, rw (q, r) refl)
      where
        status_of :
            (key : SignalKey)
            → Known e.catalog key
            → (v : Option SignalFreshness) × (freshness e key none ≡ ok v)
        status_of key (d, found) = elim (Option-cases (get e.latest_samples key)) [
          | inl absent ↦ (none, unfold freshness in rw (found, absent) refl)
          | inr (s, g) ↦
              let (d', found', q) =
                freshness-by_age key s (All-get (Entry e.catalog t) e.latest_samples key s h g) g in
              (some (by_age d'.expected_period_microseconds t s), q)
        ]

    statuses-get :
        (l : Dict SignalKey (SignalSample F)) (m : Dict SignalKey (Option SignalFreshness))
        (k : SignalKey) (s : SignalSample F)
        → statuses e l ≡ ok m
        → get l k ≡ some s
        → (v : Option SignalFreshness) × (freshness e k none ≡ ok v) × (get m k ≡ some v)
    unfolding statuses get
    statuses-get [] m k s h g = absurd (some-ne-none g)
    statuses-get ((j, x) ∷ l) m k s h g =
        let (v, q, tail) = >>=-eq-ok (freshness e j none) _ h in
        let (others, r, e') = >>=-eq-ok (statuses e l) _ tail in
        elim (Bool-cases (j == k)) [
          | inl hit ↦ (
            v,
            subst (λ y. freshness e y none ≡ ok v) ((key_beq_iff j k).0 hit) q,
            subst (λ y. get y k ≡ some v) (ok_injective e') (rw hit refl),
          )
          | inr miss ↦
              let (v', q', g') = statuses-get l others k s r (rw miss at g) in
              (v', q', subst (λ y. get y k ≡ some v') (ok_injective e') (rw miss g'))
        ]

  reached :
      (metadata : CanDatabaseMetadata) (c : SignalCatalog) (capacity : ℕ)
      (fs : List (DecodedCanFrame F))
      → signal_catalog metadata ≡ ok c
      → Sound c (run (new_engine c capacity) fs).1
  reached metadata c capacity fs h =
      let (_, indexed, _) = signal_catalog-definitions metadata c h in
      Sound-run c fs (new_engine c capacity)
        (λ k d g. key_of_find c.definitions k d (subst (λ l. get l k ≡ some d) indexed g))
        (refl, refl)

  Known-entries :
      (c : SignalCatalog) (t : ℕ) (l : Dict SignalKey (SignalSample F))
      → All (Entry c t) l
      → All (λ (p : SignalKey × SignalSample F). Known c p.0) l
  Known-entries c t [] h = tt
  Known-entries c t (x ∷ l) h = (h.0.0, Known-entries c t l h.1)

  entries_at :
      (c : SignalCatalog) (e : TelemetryEngine F) (t : ℕ)
      → Sound c e
      → e.latest_timestamp_microseconds ≡ some t
      → All (Entry e.catalog t) e.latest_samples
  entries_at c e t s now =
      subst (λ y. All (Entry y t) e.latest_samples) (sym s.0)
        (subst (λ o. Entries c o e.latest_samples) now s.1)

  -- The snapshot of all signals, with `m` for its freshness.
  abbrev shot : TelemetryEngine F → Dict SignalKey (Option SignalFreshness) → TelemetrySnapshot F
  shot e m = record {
    observation_timestamp_microseconds = e.latest_timestamp_microseconds;
    last_frame_sequence = e.last_frame_sequence;
    samples = e.latest_samples;
    freshness = m;
    statistics = statistics e;
  }

  shot_of :
      (e : TelemetryEngine F) (m : Dict SignalKey (Option SignalFreshness))
      → statuses e e.latest_samples ≡ ok m
      → snapshot e none ≡ ok (shot e m)
  unfolding snapshot
  shot_of e m q = rw q refl

  Sound-snapshot :
      (c : SignalCatalog) (e : TelemetryEngine F)
      → Sound c e
      → (s : TelemetrySnapshot F) × (snapshot e none ≡ ok s)
  Sound-snapshot c e s = elim (Option-cases e.latest_timestamp_microseconds) [
    | inl empty ↦
        let bare : e.latest_samples ≡ [] = subst (λ o. Entries c o e.latest_samples) empty s.1 in
        (shot e [], shot_of e [] (rw bare (unfold statuses in refl)))
    | inr (t, now) ↦
        let entries = entries_at c e t s now in
        let (m, q) =
          statuses-total e t now e.latest_samples entries
            (Known-entries e.catalog t e.latest_samples entries) in
        (shot e m, shot_of e m q)
  ]

  -- A snapshot of all signals never raises, whatever frames the engine was fed with.
  pub snapshot_total :
      (metadata : CanDatabaseMetadata) (c : SignalCatalog) (capacity : ℕ)
      (fs : List (DecodedCanFrame F))
      → signal_catalog metadata ≡ ok c
      → (s : TelemetrySnapshot F) × (snapshot (run (new_engine c capacity) fs).1 none ≡ ok s)
  snapshot_total metadata c capacity fs h =
      Sound-snapshot c (run (new_engine c capacity) fs).1 (reached metadata c capacity fs h)

  -- The snapshot `s` was observed at `t`, and shows under the key `k`, whose definition is `d`, the
  -- sample `x` with the freshness of its age.
  pub record Reads (c : SignalCatalog) (k : SignalKey) (x : SignalSample F) (t : ℕ)
      (d : SignalDefinition) (s : TelemetrySnapshot F) : Type 0 where
    pub observed : s.observation_timestamp_microseconds ≡ some t
    pub past : x.timestamp_microseconds ≤ t
    pub defined : find c k ≡ some d
    pub sampled : get s.samples k ≡ some x
    pub aged : get s.freshness k ≡ some (some (by_age d.expected_period_microseconds t x))

  get-nil : (k : SignalKey) (x : SignalSample F) → get [] k ≡ some x → ⊥
  unfolding get
  get-nil k x h = some-ne-none h

  Sound-by_age :
      (c : SignalCatalog) (e : TelemetryEngine F) (s : TelemetrySnapshot F) (k : SignalKey)
      (x : SignalSample F)
      → Sound c e
      → snapshot e none ≡ ok s
      → get e.latest_samples k ≡ some x
      → (t : ℕ) × (d : SignalDefinition) × Reads c k x t d s
  unfolding snapshot
  Sound-by_age c e s k x sound h g = elim (Option-cases e.latest_timestamp_microseconds) [
    | inl empty ↦
        let bare : e.latest_samples ≡ [] =
          subst (λ o. Entries c o e.latest_samples) empty sound.1 in
        absurd (get-nil k x (subst (λ l. get l k ≡ some x) bare g))
    | inr (t, now) ↦
        let (m, q, e') = >>=-eq-ok (statuses e e.latest_samples) _ h in
        let entries = entries_at c e t sound now in
        let entry = All-get (Entry e.catalog t) e.latest_samples k x entries g in
        let (d, found, judged) = freshness-by_age e t now k x entry g in
        let (v, judged', held) = statuses-get e t now e.latest_samples m k x q g in
        (
          t,
          d,
          subst (Reads c k x t d) (ok_injective e') (record {
            observed = now;
            past = entry.1;
            defined = subst (λ y. find y k ≡ some d) sound.0 found;
            sampled = g;
            aged = held ∙ ap some (ok_injective (sym judged' ∙ judged));
          }),
        )
  ]

  -- In a snapshot, a signal with a latest sample shows that sample. It is not later than the
  -- observation, and is fresh exactly if its age there is at most twice its expected period.
  pub snapshot-by_age :
      (metadata : CanDatabaseMetadata) (c : SignalCatalog) (capacity : ℕ)
      (fs : List (DecodedCanFrame F)) (s : TelemetrySnapshot F) (k : SignalKey) (x : SignalSample F)
      → signal_catalog metadata ≡ ok c
      → snapshot (run (new_engine c capacity) fs).1 none ≡ ok s
      → get (run (new_engine c capacity) fs).1.latest_samples k ≡ some x
      → (t : ℕ) × (d : SignalDefinition) × Reads c k x t d s
  snapshot-by_age metadata c capacity fs s k x h q g =
      Sound-by_age c (run (new_engine c capacity) fs).1 s k x (reached metadata c capacity fs h) q g

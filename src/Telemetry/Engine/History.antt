-- ===== src/Telemetry/Engine/History.antt =====
-- telemetry/engine.py, `ingest`: the latest values and the histories are a function of the samples
-- that were accepted.
use mathlib.Core.List.{append_assoc, append-nil}
use tuner_os.Prelude.{
  ℕ, ◌<◌, ◌≡◌, refl, sym, ap, subst, ◌∙◌, inl, inr, Bool, true, false, some, List, [], ◌∷◌, ◌++◌,
  ◌==◌, Result, ok, err, keep_last, append_bounded, append_bounded-keep_last, filter, filter-append,
  get_last?, get_last?-snoc, if◌then◌else◌, Bool-cases, Result-cases,
}
use tuner_os.Prelude.Dict.{get, get-put}
use tuner_os.Can.Models.{DecodedCanFrame}
use tuner_os.Telemetry.Models.{SignalKey, key_eq, key_beq_iff, SignalSample}
use tuner_os.Telemetry.Catalog.{SignalCatalog, get_list}
use tuner_os.Telemetry.Engine.{
  TelemetryEngine, new_engine, history_of, record_sample, record_samples, count_frame, prepare,
  ingest,
}

module _ {F : Type 0} where
  -- The samples of one key, in the order in which they came.
  abbrev pub of_key : SignalKey → List (SignalSample F) → List (SignalSample F)
  of_key k = filter (λ s. s.key == k)

  -- What an engine shows, after the samples `log` were accepted.
  pub record Shows (e : TelemetryEngine F) (log : List (SignalSample F)) : Type 0 where
    pub bounded : 0 < e.history_capacity
    pub recent : (k : SignalKey) → history_of e k ≡ keep_last e.history_capacity (of_key k log)
    pub newest : (k : SignalKey) → get e.latest_samples k ≡ get_last? (of_key k log)

  module _ (e : TelemetryEngine F) (log : List (SignalSample F)) (s : SignalSample F) where
    appended : SignalKey → List (SignalSample F)
    appended k =
        if s.key == k
        then append_bounded e.history_capacity (history_of e s.key) s
        else history_of e k

    history_of-record_sample : (k : SignalKey) → history_of (record_sample s e) k ≡ appended k
    unfolding record_sample appended
    history_of-record_sample k =
        rw (get-put e.histories s.key k (append_bounded e.history_capacity (history_of e s.key) s))
          (if_get_list (s.key == k))
      where
        if_get_list :
            (b : Bool)
            → get_list (
                if b
                then some (append_bounded e.history_capacity (history_of e s.key) s)
                else get e.histories k)
              ≡ (if b
                  then append_bounded e.history_capacity (history_of e s.key) s
                  else history_of e k)
        if_get_list true = refl
        if_get_list false = refl

    module _ (h : Shows e log) (k : SignalKey) where
      recent_hit :
          s.key ≡ k
          → append_bounded e.history_capacity (history_of e s.key) s
            ≡ keep_last e.history_capacity (of_key k log ++ s ∷ [])
      recent_hit same =
          ap (λ x. append_bounded e.history_capacity x s)
            (h.recent s.key ∙ ap (λ j. keep_last e.history_capacity (of_key j log)) same)
          ∙ append_bounded-keep_last e.history_capacity (of_key k log) s h.bounded

      recent-record_sample :
          history_of (record_sample s e) k ≡ keep_last e.history_capacity (of_key k (log ++ s ∷ []))
      unfolding appended
      recent-record_sample =
          history_of-record_sample k
          ∙ rw (filter-append (λ x. x.key == k) log (s ∷ [])) (elim (Bool-cases (s.key == k)) [
            | inl hit ↦ rw hit (recent_hit ((key_beq_iff s.key k).0 hit))
            | inr miss ↦ rw (miss, append-nil (of_key k log)) (h.recent k)
          ])

      newest-record_sample :
          get (record_sample s e).latest_samples k ≡ get_last? (of_key k (log ++ s ∷ []))
      unfolding record_sample
      newest-record_sample =
          get-put e.latest_samples s.key k s
          ∙ rw (filter-append (λ x. x.key == k) log (s ∷ [])) (elim (Bool-cases (s.key == k)) [
            | inl hit ↦ rw hit (sym (get_last?-snoc (of_key k log) s))
            | inr miss ↦ rw (miss, append-nil (of_key k log)) (h.newest k)
          ])

    Shows-record_sample : Shows e log → Shows (record_sample s e) (log ++ s ∷ [])
    Shows-record_sample h = record {
      bounded = unfold record_sample in h.bounded;
      recent = λ k. unfold record_sample in recent-record_sample h k;
      newest = newest-record_sample h;
    }

  Shows-record_samples :
      (samples : List (SignalSample F)) (e : TelemetryEngine F) (log : List (SignalSample F))
      → Shows e log
      → Shows (record_samples samples e) (log ++ samples)
  unfolding record_samples
  Shows-record_samples [] e log h = rw (append-nil log) h
  Shows-record_samples (s ∷ rest) e log h =
      subst (Shows (record_samples rest (record_sample s e))) (append_assoc log (s ∷ []) rest) (
        Shows-record_samples rest (record_sample s e) (log ++ s ∷ [])
          (Shows-record_sample e log s h))

  -- The samples that a call of `ingest` returned.
  abbrev pub accepted : Result (List (SignalSample F)) → List (SignalSample F)
  accepted (ok samples) = samples
  accepted (err x) = []

  Shows-ingest :
      (e : TelemetryEngine F) (log : List (SignalSample F)) (f : DecodedCanFrame F)
      → Shows e log
      → Shows (ingest e f).1 (log ++ accepted (ingest e f).0)
  unfolding ingest count_frame
  Shows-ingest e log f h = elim (Result-cases (prepare e f)) [
    | inl (samples, p) ↦ rw p (record {
      bounded = (Shows-record_samples samples e log h).bounded;
      recent = (Shows-record_samples samples e log h).recent;
      newest = (Shows-record_samples samples e log h).newest;
    })
    | inr (x, p) ↦ rw (p, append-nil log) h
  ]

  -- A sequence of calls of `ingest`; a call that raises ends nothing but itself.
  unfoldable pub run :
      TelemetryEngine F → List (DecodedCanFrame F) → List (SignalSample F) × TelemetryEngine F
  run e [] = ([], e)
  run e (f ∷ fs) =
      let (r, e') = ingest e f in let (samples, e'') = run e' fs in (accepted r ++ samples, e'')

  Shows-run :
      (fs : List (DecodedCanFrame F)) (e : TelemetryEngine F) (log : List (SignalSample F))
      → Shows e log
      → Shows (run e fs).1 (log ++ (run e fs).0)
  unfolding run
  Shows-run [] e log h = rw (append-nil log) h
  Shows-run (f ∷ fs) e log h =
      subst (Shows (run (ingest e f).1 fs).1)
        (append_assoc log (accepted (ingest e f).0) (run (ingest e f).1 fs).0)
        (Shows-run fs (ingest e f).1 (log ++ accepted (ingest e f).0) (Shows-ingest e log f h))

  pub keep-record_samples :
      (samples : List (SignalSample F)) (e : TelemetryEngine F)
      → record_samples samples e ≡ record e {
        histories = (record_samples samples e).histories;
        latest_samples = (record_samples samples e).latest_samples;
      }
  unfolding record_samples record_sample
  keep-record_samples [] e = refl
  keep-record_samples (s ∷ rest) e = keep-record_samples rest (record_sample s e)

  pub capacity-ingest :
      (e : TelemetryEngine F) (f : DecodedCanFrame F)
      → (ingest e f).1.history_capacity ≡ e.history_capacity
  unfolding ingest count_frame
  capacity-ingest e f = elim (Result-cases (prepare e f)) [
    | inl (samples, p) ↦
        rw p (ap (λ (x : TelemetryEngine F). x.history_capacity) (keep-record_samples samples e))
    | inr (x, p) ↦ rw p refl
  ]

  capacity-run :
      (fs : List (DecodedCanFrame F)) (e : TelemetryEngine F)
      → (run e fs).1.history_capacity ≡ e.history_capacity
  unfolding run
  capacity-run [] e = refl
  capacity-run (f ∷ fs) e = capacity-run fs (ingest e f).1 ∙ capacity-ingest e f

  Shows-new_engine :
      (catalog : SignalCatalog) (capacity : ℕ)
      → 0 < capacity
      → Shows (new_engine catalog capacity) []
  unfolding get
  Shows-new_engine catalog capacity h = record {
    bounded = h;
    recent = λ k. refl;
    newest = λ k. refl;
  }

  -- After any frames, accepted or refused, from a fresh engine of positive capacity: the history
  -- of a key is the last `capacity` of its samples that were accepted, oldest first, and the
  -- latest sample of the key is the last of them.
  pub run-Shows :
      (catalog : SignalCatalog) (capacity : ℕ) (fs : List (DecodedCanFrame F)) (k : SignalKey)
      → 0 < capacity
      → let (samples, e) = run (new_engine catalog capacity) fs in
        (history_of e k ≡ keep_last capacity (of_key k samples))
        × (get e.latest_samples k ≡ get_last? (of_key k samples))
  run-Shows catalog capacity fs k h =
      let e = new_engine catalog capacity in
      let shown = Shows-run fs e [] (Shows-new_engine catalog capacity h) in
      (
        shown.recent k ∙ ap (λ n. keep_last n (of_key k (run e fs).0)) (capacity-run fs e),
        shown.newest k,
      )

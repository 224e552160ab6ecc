-- ===== src/Investigation/Service/Evidence.antt =====
-- investigation/service.py: the evidence in the result of a query.
use tuner_os.Prelude.{
  ◌≤◌, ◌≡◌, refl, sym, ap, ap₂, ◌∙◌, Option, none, some, List, [], ◌∷◌, arith, Result, ok, or_raise,
  length, filter, map, ok_injective, >>=-eq-ok, or_raise-found, ok-ne-err, subst, All, beq_refl,
  Bool-cases, inl, inr, ◌==◌, some_injective, key_error, pos,
}
use tuner_os.Prelude.Dict.{Dict, get}
use tuner_os.Prelude.Values.{Value, int}
use tuner_os.Can.Models.{RawCanFrame}
use tuner_os.Can.Decoder.{TunerOsDbcDecoder}
use tuner_os.Can.Explorer.{can_explorer}
use tuner_os.Telemetry.Models.{SignalKey, key_eq, SignalSample}
use tuner_os.Telemetry.Catalog.{SignalCatalog, signal_catalog, require}
use tuner_os.Telemetry.Engine.{telemetry_engine}
use tuner_os.Diagnostics.Rules.{FloatOps}
use tuner_os.Diagnostics.Catalog.{DiagnosticCatalog}
use tuner_os.Diagnostics.Catalog.Defaults.{create_default_diagnostic_catalog}
use tuner_os.Diagnostics.Engine.{diagnostic_engine, default_diagnostic_event_capacity}
use tuner_os.Session.Models.{SessionManifest}
use tuner_os.Session.Catalog.{SessionReader, read_frames}
use tuner_os.Investigation.Models.{
  InvestigationWindow, InvestigationSignalSeries, InvestigationResult, max_investigation_raw_frames,
}
use tuner_os.Investigation.Window.{resolve_window}
use tuner_os.Investigation.Selection.{resolve_signals}
use tuner_os.Investigation.Summary.{MeanOps, summarize_all}
use tuner_os.Investigation.Analysis.{
  Pipeline, Observation, Analysis, Findings, CenterStates, analyse, is_late,
}
use tuner_os.Telemetry.Engine.History.{of_key}
use tuner_os.Investigation.Analysis.Gathering.{
  observe_all, from_start, all_samples, all_events, all_annotated, IsReadingOf,
}
use tuner_os.Investigation.Analysis.Outcome.{
  not_after, analyse-reads, WithinLimit, capture_center-keeps,
}
use tuner_os.Investigation.Service.{
  InvestigationService, Query, empty_series, frozen_series, new_analysis, analyse_session,
  result_of, investigate_session,
}

All-map {ℓ κ μ} :
    {A : Type ℓ} (P : A → Type κ) (Q : A → Type μ) (xs : List A)
    → ((x : A) → P x → Q x)
    → All P xs
    → All Q xs
All-map P Q [] f h = tt
All-map P Q (x ∷ xs) f h = (f x h.0, All-map P Q xs f h.1)

get-empty_series :
    (F : Type 0) (keys : List SignalKey)
    → All (λ k. get (empty_series {F = F} keys) k ≡ some []) keys
unfolding empty_series get
get-empty_series F [] = tt
get-empty_series F (key ∷ rest) = (
  rw (beq_refl key) refl,
  All-map _ _ rest (λ k h. elim (Bool-cases (key == k)) [ inl t ↦ rw t refl | inr f ↦ rw f h ])
      (get-empty_series F rest),
)

module _ {F : Type 0} where
  frozen_series-samples :
      (catalog : SignalCatalog) (series : Dict SignalKey (List (SignalSample F)))
      (of : SignalKey → List (SignalSample F)) (keys : List SignalKey)
      {frozen : List (InvestigationSignalSeries F)}
      → All (λ k. get series k ≡ some (of k)) keys
      → frozen_series catalog series keys ≡ ok frozen
      → map (λ (s : InvestigationSignalSeries F). s.samples) frozen ≡ map of keys
  unfolding frozen_series
  frozen_series-samples catalog series of [] h e =
      ap (map (λ (s : InvestigationSignalSeries F). s.samples)) (sym (ok_injective e))
  frozen_series-samples catalog series of (key ∷ rest) h e =
      let (definition, d, e1) = >>=-eq-ok (require catalog key) _ e in
      let (samples, s, e2) = >>=-eq-ok (or_raise (get series key) key_error) _ e1 in
      let (others, o, e3) = >>=-eq-ok (frozen_series catalog series rest) _ e2 in
      let here : samples ≡ of key = some_injective (sym (or_raise-found _ _ s) ∙ h.0) in
      ap (map (λ (x : InvestigationSignalSeries F). x.samples)) (sym (ok_injective e3))
      ∙ ap₂ (λ x xs. x ∷ xs) here (frozen_series-samples catalog series of rest h.1 o)

module _ {F : Type 0} ⦃ops : FloatOps F⦄ where
  new_analysis-findings :
      (decoder : TunerOsDbcDecoder F) (signals : SignalCatalog) (diagnostics : DiagnosticCatalog F)
      (selected : List SignalKey) {a : Analysis F}
      → new_analysis decoder signals diagnostics selected ≡ ok a
      → (a.findings ≡ record {
        series = empty_series selected;
        context = [];
        raw_frames = [];
        window_events = [];
        decoded_signal_updates = 0;
      })
        × (a.center ≡ none)
  unfolding new_analysis
  new_analysis-findings decoder signals diagnostics selected h =
      let (e, is_e, h1) = >>=-eq-ok (telemetry_engine signals (int (pos 1))) _ h in
      let (d, is_d, h2) =
        >>=-eq-ok (diagnostic_engine diagnostics (int (pos default_diagnostic_event_capacity))) _
          h1 in
      let (x, is_x, h3) = >>=-eq-ok (can_explorer decoder (int (pos 1))) _ h2 in
      (
        ap (λ (a : Analysis F). a.findings) (sym (ok_injective h3)),
        ap (λ (a : Analysis F). a.center) (sym (ok_injective h3)),
      )

  -- The loop and the last capture, on a fresh start.
  analyse_session-reads :
      (w : InvestigationWindow) (fs : List RawCanFrame) (ended : Result (Unit {0})) (a : Analysis F)
      {c : Analysis F}
      → analyse_session w (fs, ended) a ≡ ok c
      → WithinLimit a.findings
      → (os : List (Observation F)) × (end : Pipeline F) × (observe_all (not_after w fs) a.pipeline
          ≡ ok (os, end))
        × IsReadingOf w os a.findings c.findings
        × WithinLimit c.findings
  unfolding analyse_session
  analyse_session-reads w fs ended a h l =
      let (b, first, h1) = >>=-eq-ok (analyse w fs a) _ h in
      let (u, over, h2) = >>=-eq-ok ended _ h1 in
      let (p, s) = capture_center-keeps b h2 in
      let (os, observed, reading, limit) = analyse-reads w fs a b first l in
      (
        os,
        b.pipeline,
        observed,
        subst (IsReadingOf w os a.findings) s reading,
        subst WithinLimit s limit,
      )

module _ {F : Type 0} ⦃ops : FloatOps F⦄ ⦃means : MeanOps F⦄ where
  -- The evidence in a result, of the frames of a session.
  pub record IsEvidenceOf (fs : List RawCanFrame) (r : InvestigationResult F) : Type 0 where
    pub decoder : TunerOsDbcDecoder F
    pub signals : SignalCatalog
    pub diagnostics : DiagnosticCatalog F
    pub start : Analysis F
    pub fresh : new_analysis decoder signals diagnostics r.selected_signals ≡ ok start
    pub end : Pipeline F
    pub observations : List (Observation F)
    pub observed : observe_all (not_after r.window fs) start.pipeline ≡ ok (observations, end)
    pub raw_frames : r.raw_frames ≡ all_annotated (from_start r.window observations)
    pub events :
        r.diagnostic_events
        ≡ filter (is_late r.window) (all_events (from_start r.window observations))
    pub series :
        map (λ (s : InvestigationSignalSeries F). s.samples) r.telemetry_series
        ≡ map (λ k. of_key k (all_samples (from_start r.window observations))) r.selected_signals
    pub updates :
        r.statistics.decoded_signal_update_count
        ≡ length (all_samples (from_start r.window observations))
    pub bounded : length r.raw_frames ≤ max_investigation_raw_frames

  result_of-fields :
      (m : SessionManifest) (w : InvestigationWindow) (signals : SignalCatalog)
      (selected : List SignalKey) (s : Findings F) (center : Option (CenterStates F))
      {result : InvestigationResult F}
      → result_of m w signals selected s center ≡ ok result
      → (result.window ≡ w)
        × (result.selected_signals ≡ selected)
        × (result.raw_frames ≡ s.raw_frames)
        × (result.diagnostic_events ≡ s.window_events)
        × (result.statistics.decoded_signal_update_count ≡ s.decoded_signal_updates)
        × (frozen_series signals s.series selected ≡ ok result.telemetry_series)
  unfolding result_of
  result_of-fields m w signals selected s none h = absurd (ok-ne-err (sym h))
  result_of-fields m w signals selected s (some center) {result} h =
      let (frozen, is_frozen, h1) = >>=-eq-ok (frozen_series signals s.series selected) _ h in
      let (summaries, sums, h2) = >>=-eq-ok (summarize_all frozen) _ h1 in
      let e = ok_injective h2 in
      (
        ap (λ (x : InvestigationResult F). x.window) (sym e),
        ap (λ (x : InvestigationResult F). x.selected_signals) (sym e),
        ap (λ (x : InvestigationResult F). x.raw_frames) (sym e),
        ap (λ (x : InvestigationResult F). x.diagnostic_events) (sym e),
        ap (λ (x : InvestigationResult F). x.statistics.decoded_signal_update_count) (sym e),
        is_frozen ∙ ap (λ (x : InvestigationResult F). ok x.telemetry_series) e,
      )

  evidence :
      (m : SessionManifest) (w : InvestigationWindow) (fs : List RawCanFrame)
      (ended : Result (Unit {0})) (decoder : TunerOsDbcDecoder F) (signals : SignalCatalog)
      (diagnostics : DiagnosticCatalog F) (selected : List SignalKey) (a c : Analysis F)
      (result : InvestigationResult F)
      → new_analysis decoder signals diagnostics selected ≡ ok a
      → analyse_session w (fs, ended) a ≡ ok c
      → result_of m w signals selected c.findings c.center ≡ ok result
      → (result.window ≡ w) × IsEvidenceOf fs result
  unfolding WithinLimit
  evidence m w fs ended decoder signals diagnostics selected a c result is_a is_c h =
      let (fresh, no_center) = new_analysis-findings decoder signals diagnostics selected is_a in
      let (os, end, observed, reading, limit) =
        analyse_session-reads w fs ended a is_c (subst WithinLimit (sym fresh) (omega arith)) in
      let read = subst (λ x. IsReadingOf w os x c.findings) fresh reading in
      let (win, sel, raw, events, updates, frozen) =
        result_of-fields m w signals selected c.findings c.center h in
      (
        win,
        record {
          decoder = decoder;
          signals = signals;
          diagnostics = diagnostics;
          start = a;
          fresh = ap (new_analysis decoder signals diagnostics) sel ∙ is_a;
          end = end;
          observations = os;
          observed = ap (λ x. observe_all (not_after x fs) a.pipeline) win ∙ observed;
          raw_frames = raw ∙ read.raw_frames ∙ ap (λ x. all_annotated (from_start x os)) (sym win);
          events =
              events
              ∙ read.window_events
              ∙ ap (λ x. filter (is_late x) (all_events (from_start x os))) (sym win);
          series =
              frozen_series-samples signals c.findings.series
                (λ k. of_key k (all_samples (from_start w os))) selected
                (All-map _ _ selected (λ k g. read.series k [] g) (get-empty_series F selected))
                frozen
              ∙ ap (map (λ k. of_key k (all_samples (from_start w os)))) (sym sel)
              ∙ ap
                  (λ x. map (λ k. of_key k (all_samples (from_start x os))) result.selected_signals)
                  (sym win);
          updates = omega (
            arith,
            updates,
            read.decoded_signal_updates,
            ap (λ x. length (all_samples (from_start x os))) (sym win),
          );
          bounded = subst (λ xs. length xs ≤ max_investigation_raw_frames) (sym raw) limit;
        },
      )

  -- When a query on a session returns, its window is the one that `_resolve_window` gives, and its
  -- evidence is what the session's frames show in that window: no raw frame, event or sample of a
  -- selected signal is left out or added, and there are at most 8192 raw frames.
  pub investigate_session-IsEvidenceOf :
      (i : InvestigationService F) (r : SessionReader) (center : Option Value) (q : Query)
      {result : InvestigationResult F}
      → investigate_session i r center q ≡ ok result
      → (resolve_window r.manifest center q.before_microseconds q.after_microseconds
          ≡ ok result.window)
        × IsEvidenceOf (read_frames i.sessions r).0 result
  unfolding investigate_session
  investigate_session-IsEvidenceOf i r center q h =
      let (w, is_w, h1) =
        >>=-eq-ok (resolve_window r.manifest center q.before_microseconds q.after_microseconds) _
          h in
      let (decoder, is_decoder, h2) = >>=-eq-ok i.decoder _ h1 in
      let (signals, is_signals, h3) = >>=-eq-ok (signal_catalog decoder.database_metadata) _ h2 in
      let (diagnostics, is_diagnostics, h4) =
        >>=-eq-ok (create_default_diagnostic_catalog signals) _ h3 in
      let (selected, is_selected, h5) =
        >>=-eq-ok (resolve_signals signals diagnostics q.selected_signals q.diagnostic_code) _ h4 in
      let (a, is_a, h6) = >>=-eq-ok (new_analysis decoder signals diagnostics selected) _ h5 in
      let (c, is_c, h7) = >>=-eq-ok (analyse_session w (read_frames i.sessions r) a) _ h6 in
      let (same, e) =
        evidence r.manifest w (read_frames i.sessions r).0 (read_frames i.sessions r).1 decoder
          signals diagnostics selected a c _ is_a is_c h7 in
      (is_w ∙ ap ok (sym same), e)

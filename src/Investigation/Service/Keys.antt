-- ===== src/Investigation/Service/Keys.antt =====
-- investigation/service.py: the summaries of a result are of its selected signals.
use tuner_os.Prelude.{
  String, ◌≡◌, sym, ap, ap₂, ◌∙◌, subst, Bool-cases, inl, inr, true, Option, none, some, List, [],
  ◌∷◌, ok, or_raise, map, all, ok_injective, >>=-eq-ok, or_raise-found, ok-ne-err, key_error,
  raise_if-passed, eqb, ltb, length, investigation_query_error,
}
use tuner_os.Prelude.Dict.{Dict, get}
use tuner_os.Prelude.Values.{Value}
use tuner_os.Can.Models.{SignalValue}
use tuner_os.Telemetry.Models.{SignalKey, key_eq, SignalSample}
use tuner_os.Telemetry.Catalog.{SignalCatalog, SignalDefinition, signal_catalog, require, find}
use tuner_os.Telemetry.Catalog.Lookup.{key_of_find, signal_catalog-definitions}
use tuner_os.Diagnostics.Rules.{FloatOps}
use tuner_os.Diagnostics.Catalog.{DiagnosticCatalog}
use tuner_os.Diagnostics.Catalog.Defaults.{create_default_diagnostic_catalog}
use tuner_os.Session.Models.{SessionManifest}
use tuner_os.Session.Catalog.{SessionReader, reader, read_frames}
use tuner_os.Investigation.Models.{
  InvestigationWindow, InvestigationSignalSeries, InvestigationSignalSummary, InvestigationResult,
  max_selected_signals,
}
use tuner_os.Investigation.Window.{resolve_window}
use tuner_os.Investigation.Selection.{resolve_signals, rule_of, repeats, require_all}
use tuner_os.Investigation.Summary.{
  MeanOps, summarize, summarize_all, summarize_values, numeric_summary, floats_of, is_boolean,
}
use tuner_os.Investigation.Analysis.{Findings, CenterStates}
use tuner_os.Investigation.Service.{
  InvestigationService, Query, frozen_series, new_analysis, analyse_session, result_of,
  investigate_session, investigate,
}

module _ {F : Type 0} where
  abbrev pub summary_keys : List (InvestigationSignalSummary F) → List SignalKey
  summary_keys = map (λ s. s.key)

  abbrev series_keys : List (InvestigationSignalSeries F) → List SignalKey
  series_keys = map (λ s. s.definition.key)

  frozen_series-keys :
      (c : SignalCatalog) (series : Dict SignalKey (List (SignalSample F))) (keys : List SignalKey)
      {frozen : List (InvestigationSignalSeries F)}
      → ((k : SignalKey) (d : SignalDefinition) → find c k ≡ some d → d.key ≡ k)
      → frozen_series c series keys ≡ ok frozen
      → series_keys frozen ≡ keys
  unfolding frozen_series
  frozen_series-keys c series [] keyed h = ap series_keys (sym (ok_injective h))
  frozen_series-keys c series (key ∷ rest) keyed h =
      let (d, found, h1) = >>=-eq-ok (require c key) _ h in
      let (samples, there, h2) = >>=-eq-ok (or_raise (get series key) key_error) _ h1 in
      let (others, later, h3) = >>=-eq-ok (frozen_series c series rest) _ h2 in
      ap series_keys (sym (ok_injective h3))
      ∙ ap₂ (λ x xs. x ∷ xs) (keyed key d (or_raise-found (find c key) _ found))
          (frozen_series-keys c series rest keyed later)

  -- Signals that are asked for are the ones that are selected.
  resolve_signals-asked :
      (signals : SignalCatalog) (diagnostics : DiagnosticCatalog F) (keys : List SignalKey)
      (code : Option String) {selected : List SignalKey}
      → resolve_signals signals diagnostics (some keys) code ≡ ok selected
      → selected ≡ keys
  unfolding resolve_signals
  resolve_signals-asked signals diagnostics keys code h =
      let (rule, is_rule, h1) = >>=-eq-ok (rule_of diagnostics code) _ h in
      let (some_key, h2) = raise_if-passed (eqb (length keys) 0) investigation_query_error _ h1 in
      let (few, h3) =
        raise_if-passed (ltb max_selected_signals (length keys)) investigation_query_error _ h2 in
      let (distinct, h4) = raise_if-passed (repeats keys) investigation_query_error _ h3 in
      let (u, known, h5) = >>=-eq-ok (require_all signals keys) _ h4 in sym (ok_injective h5)

module _ {F : Type 0} ⦃ops : FloatOps F⦄ ⦃means : MeanOps F⦄ where
  numeric_summary-key :
      (s : InvestigationSignalSeries F) (vs : List (SignalValue F)) (xs : List F)
      {x : InvestigationSignalSummary F}
      → numeric_summary s vs xs ≡ ok x
      → x.key ≡ s.definition.key
  unfolding numeric_summary
  numeric_summary-key s vs [] h = absurd (ok-ne-err (sym h))
  numeric_summary-key s vs (y ∷ ys) h =
      ap (λ (x : InvestigationSignalSummary F). x.key) (sym (ok_injective h))

  summarize_values-key :
      (s : InvestigationSignalSeries F) (vs : List (SignalValue F))
      {x : InvestigationSignalSummary F}
      → summarize_values s vs ≡ ok x
      → x.key ≡ s.definition.key
  unfolding summarize_values
  summarize_values-key s [] h =
      ap (λ (x : InvestigationSignalSummary F). x.key) (sym (ok_injective h))
  summarize_values-key s (v ∷ vs) h = elim (Bool-cases (all is_boolean (v ∷ vs))) [
    | inl b ↦ ap (λ (x : InvestigationSignalSummary F). x.key) (sym (ok_injective (rw b at h)))
    | inr b ↦
        let (xs, are_floats, h1) = >>=-eq-ok (floats_of (v ∷ vs)) _ (rw b at h) in
        numeric_summary-key s (v ∷ vs) xs h1
  ]

  summarize_all-keys :
      (ss : List (InvestigationSignalSeries F)) {xs : List (InvestigationSignalSummary F)}
      → summarize_all ss ≡ ok xs
      → summary_keys xs ≡ series_keys ss
  unfolding summarize_all summarize
  summarize_all-keys [] h = ap summary_keys (sym (ok_injective h))
  summarize_all-keys (s ∷ ss) h =
      let (x, one, h1) = >>=-eq-ok (summarize s) _ h in
      let (xs, others, h2) = >>=-eq-ok (summarize_all ss) _ h1 in
      ap summary_keys (sym (ok_injective h2))
      ∙ ap₂ (λ y ys. y ∷ ys)
          (summarize_values-key s (map (λ (x : SignalSample F). x.value) s.samples) one)
          (summarize_all-keys ss others)

  result_of-keys :
      (m : SessionManifest) (w : InvestigationWindow) (signals : SignalCatalog)
      (selected : List SignalKey) (s : Findings F) (center : Option (CenterStates F))
      {r : InvestigationResult F}
      → ((k : SignalKey) (d : SignalDefinition) → find signals k ≡ some d → d.key ≡ k)
      → result_of m w signals selected s center ≡ ok r
      → (r.selected_signals ≡ selected) × (summary_keys r.signal_summaries ≡ selected)
  unfolding result_of
  result_of-keys m w signals selected s none keyed h = absurd (ok-ne-err (sym h))
  result_of-keys m w signals selected s (some center) keyed h =
      let (frozen, is_frozen, h1) = >>=-eq-ok (frozen_series signals s.series selected) _ h in
      let (summaries, sums, h2) = >>=-eq-ok (summarize_all frozen) _ h1 in
      let e = sym (ok_injective h2) in
      (
        ap (λ (x : InvestigationResult F). x.selected_signals) e,
        ap (λ (x : InvestigationResult F). summary_keys x.signal_summaries) e
            ∙ summarize_all-keys frozen sums
            ∙ frozen_series-keys signals s.series selected keyed is_frozen,
      )

  -- What the signals of a result are.
  pub record Summarises (q : Query) (r : InvestigationResult F) : Type 0 where
    pub keys : summary_keys r.signal_summaries ≡ r.selected_signals
    pub asked : (ks : List SignalKey) → q.selected_signals ≡ some ks → r.selected_signals ≡ ks

  investigate_session-Summarises :
      (i : InvestigationService F) (s : SessionReader) (center : Option Value) (q : Query)
      {r : InvestigationResult F}
      → investigate_session i s center q ≡ ok r
      → Summarises q r
  unfolding investigate_session
  investigate_session-Summarises i s center q h =
      let (w, is_w, h1) =
        >>=-eq-ok (resolve_window s.manifest center q.before_microseconds q.after_microseconds) _
          h in
      let (decoder, is_decoder, h2) = >>=-eq-ok i.decoder _ h1 in
      let (signals, is_signals, h3) = >>=-eq-ok (signal_catalog decoder.database_metadata) _ h2 in
      let (diagnostics, is_diagnostics, h4) =
        >>=-eq-ok (create_default_diagnostic_catalog signals) _ h3 in
      let (selected, is_selected, h5) =
        >>=-eq-ok (resolve_signals signals diagnostics q.selected_signals q.diagnostic_code) _ h4 in
      let (a, is_a, h6) = >>=-eq-ok (new_analysis decoder signals diagnostics selected) _ h5 in
      let (c, is_c, h7) = >>=-eq-ok (analyse_session w (read_frames i.sessions s) a) _ h6 in
      let (_, indexed, _) =
        signal_catalog-definitions decoder.database_metadata signals is_signals in
      let (sel, keys) =
        result_of-keys s.manifest w signals selected c.findings c.center
          (λ k d g. key_of_find signals.definitions k d (subst (λ l. get l k ≡ some d) indexed g))
          h7 in
      record {
        keys = keys ∙ sym sel;
        asked = λ ks asks.
            sel
            ∙ resolve_signals-asked signals diagnostics ks q.diagnostic_code (
                subst (λ x. resolve_signals signals diagnostics x q.diagnostic_code ≡ ok selected)
                  asks is_selected);
      }

  pub investigate-Summarises :
      (i : InvestigationService F) (id : String) (center : Option Value) (q : Query)
      {r : InvestigationResult F}
      → investigate i id center q ≡ ok r
      → Summarises q r
  unfolding investigate
  investigate-Summarises i id center q h =
      let (s, is_s, h1) = >>=-eq-ok (reader i.sessions id true) _ h in
      investigate_session-Summarises i s center q h1

-- ===== src/Investigation/Service.antt =====
-- investigation/service.py: `InvestigationService`, which queries recorded sessions.
pub mod Evidence
pub mod Keys
pub mod Comparison
use tuner_os.Prelude.{
  ℕ, String, true, Option, none, some, List, [], ◌∷◌, Result, ok, err, assertion_error, ◌>>=◌, ◌>>◌,
  or_raise, length, pos, key_error,
}
use tuner_os.Prelude.Dict.{Dict, get, put}
use tuner_os.Prelude.Values.{Value, int}
use tuner_os.Can.Models.{RawCanFrame}
use tuner_os.Can.Decoder.{TunerOsDbcDecoder}
use tuner_os.Can.Explorer.{can_explorer}
use tuner_os.Telemetry.Models.{SignalKey, key_eq, SignalSample}
use tuner_os.Telemetry.Catalog.{SignalCatalog, signal_catalog, require}
use tuner_os.Telemetry.Engine.{telemetry_engine}
use tuner_os.Diagnostics.Rules.{FloatOps}
use tuner_os.Diagnostics.Catalog.{DiagnosticCatalog}
use tuner_os.Diagnostics.Catalog.Defaults.{create_default_diagnostic_catalog}
use tuner_os.Diagnostics.Engine.{diagnostic_engine, default_diagnostic_event_capacity}
use tuner_os.Session.Models.{SessionManifest}
use tuner_os.Session.Catalog.{SessionCatalog, SessionReader, reader, read_frames}
use tuner_os.Investigation.Models
use tuner_os.Investigation.Models.{
  InvestigationWindow, InvestigationSignalSeries, InvestigationResult, InvestigationComparison,
  InvestigationEvidenceExport, investigation_format_name, investigation_format_version,
  window_duration,
}
use tuner_os.Investigation.Window.{resolve_window, clamp_center}
use tuner_os.Investigation.Selection.{resolve_signals, require_compatible, has_event}
use tuner_os.Investigation.Summary.{MeanOps, summarize_all, compare_summaries}
use tuner_os.Investigation.Analysis.{Analysis, Findings, CenterStates, analyse, capture_center}

-- The keyword arguments of a query.
pub record Query : Type 0 where
  pub before_microseconds : Value
  pub after_microseconds : Value
  pub selected_signals : Option (List SignalKey)
  pub diagnostic_code : Option String

module _ {F : Type 0} where
  -- {key: [] for key in selected}
  unfoldable pub empty_series : List SignalKey → Dict SignalKey (List (SignalSample F))
  empty_series [] = []
  empty_series (key ∷ rest) = (key, []) ∷ empty_series rest

  -- (InvestigationSignalSeries(signal_catalog.require(key), tuple(series[key])) for key in selected)
  unfoldable pub frozen_series :
      SignalCatalog
      → Dict SignalKey (List (SignalSample F))
      → List SignalKey
      → Result (List (InvestigationSignalSeries F))
  frozen_series catalog series [] = ok []
  frozen_series catalog series (key ∷ rest) = do
    definition ← require catalog key
    samples ← or_raise (get series key) key_error
    others ← frozen_series catalog series rest
    ok (record { definition = definition; samples = samples } ∷ others)

  -- (context[key] for key in selected if key in context)
  unfoldable pub ordered_context :
      Dict SignalKey (SignalSample F) → List SignalKey → List (SignalSample F)
  ordered_context context [] = []
  ordered_context context (key ∷ rest) = elim (get context key) [
    | none ↦ ordered_context context rest
    | some sample ↦ sample ∷ ordered_context context rest
  ]

  abbrev pub selected_signal_counts :
      List SignalKey → List (InvestigationSignalSeries F) → List (SignalKey × ℕ)
  selected_signal_counts [] series = []
  selected_signal_counts (key ∷ keys) [] = []
  selected_signal_counts (key ∷ keys) (s ∷ series) =
      (key, length s.samples) ∷ selected_signal_counts keys series

-- What the service's modules construct: the session catalog and the decoder.
pub record InvestigationService (F : Type 0) : Type 0 where
  pub sessions : SessionCatalog
  pub decoder : Result (TunerOsDbcDecoder F)

module _ {F : Type 0} ⦃ops : FloatOps F⦄ where
  -- The objects that a query starts with: its own engine, explorer and diagnostics.
  unfoldable pub new_analysis :
      TunerOsDbcDecoder F
      → SignalCatalog
      → DiagnosticCatalog F
      → List SignalKey
      → Result (Analysis F)
  unfolding empty_series
  new_analysis decoder signals diagnostic_catalog selected = do
    engine ← telemetry_engine signals (int (pos 1))
    diagnostics ← diagnostic_engine diagnostic_catalog (int (pos default_diagnostic_event_capacity))
    explorer ← can_explorer decoder (int (pos 1))
    ok (record {
      pipeline = record {
        decoder = decoder;
        explorer = explorer;
        engine = engine;
        diagnostics = diagnostics;
      };
      findings = record {
        series = empty_series selected;
        context = [];
        raw_frames = [];
        window_events = [];
        decoded_signal_updates = 0;
      };
      center = none;
    })

  -- The loop over `reader.frames()`, which may end with an exception, and the last capture.
  unfoldable pub analyse_session :
      InvestigationWindow → List RawCanFrame × Result (Unit {0}) → Analysis F → Result (Analysis F)
  analyse_session w (frames, ended) a = do
    analysed ← analyse w frames a
    ended
    capture_center analysed

-- The center that the comparison asks of its baseline.
abbrev pub baseline_center : Option Value → ℕ → Value
baseline_center none primary_center = int (pos primary_center)
baseline_center (some center) primary_center = center

module _ {F : Type 0} ⦃ops : FloatOps F⦄ ⦃means : MeanOps F⦄ where
  -- The end of `investigate`, for center states that were captured.
  result_of :
      SessionManifest
      → InvestigationWindow
      → SignalCatalog
      → List SignalKey
      → Findings F
      → Option (CenterStates F)
      → Result (InvestigationResult F)
  unfolding frozen_series ordered_context
  result_of manifest window signals selected s none = err assertion_error
  result_of manifest window signals selected s (some center) = do
    frozen ← frozen_series signals s.series selected
    summaries ← summarize_all frozen
    ok (record {
      session = manifest;
      window = window;
      available_signals = signals.definitions;
      selected_signals = selected;
      start_context = ordered_context s.context selected;
      raw_frames = s.raw_frames;
      telemetry_series = frozen;
      signal_summaries = summaries;
      diagnostic_events = s.window_events;
      diagnostic_states_at_center = center.states;
      freeze_frames_at_center = center.freeze_frames;
      statistics = record {
        raw_frame_count = length s.raw_frames;
        decoded_signal_update_count = s.decoded_signal_updates;
        diagnostic_event_count = length s.window_events;
        selected_signal_counts = selected_signal_counts selected frozen;
        window_duration_microseconds = window_duration window;
      };
    })

  -- `investigate` on a reader.
  unfoldable pub investigate_session :
      InvestigationService F → SessionReader → Option Value → Query → Result (InvestigationResult F)
  unfolding result_of
  investigate_session i r center q = do
    window ← resolve_window r.manifest center q.before_microseconds q.after_microseconds
    decoder ← i.decoder
    signals ← signal_catalog decoder.database_metadata
    diagnostic_catalog ← create_default_diagnostic_catalog signals
    selected ← resolve_signals signals diagnostic_catalog q.selected_signals q.diagnostic_code
    start ← new_analysis decoder signals diagnostic_catalog selected
    a ← analyse_session window (read_frames i.sessions r) start
    result_of r.manifest window signals selected a.findings a.center

  unfoldable pub investigate :
      InvestigationService F → String → Option Value → Query → Result (InvestigationResult F)
  unfolding investigate_session
  investigate i session_id center q = do
    r ← reader i.sessions session_id true
    investigate_session i r center q

  unfoldable pub compare :
      InvestigationService F
      → String
      → String
      → Option Value
      → Option Value
      → Query
      → Result (InvestigationComparison F)
  compare i primary_id baseline_id primary_center requested q = do
    primary_reader ← reader i.sessions primary_id true
    baseline_reader ← reader i.sessions baseline_id true
    require_compatible primary_reader.manifest baseline_reader.manifest
    primary ← investigate i primary_id primary_center q
    center ←
        clamp_center baseline_reader.manifest
          (baseline_center requested primary.window.center_timestamp_microseconds)
    baseline ←
        investigate i baseline_id (some (int (pos center)))
          (record q { selected_signals = some primary.selected_signals })
    comparisons ← compare_summaries primary.signal_summaries baseline.signal_summaries
    ok (record {
      primary = primary;
      baseline = baseline;
      signal_comparisons = comparisons;
      diagnostic_code = q.diagnostic_code;
      primary_has_diagnostic_event = has_event primary.diagnostic_events q.diagnostic_code;
      baseline_has_diagnostic_event = has_event baseline.diagnostic_events q.diagnostic_code;
    })

  export_alone : InvestigationResult F → Option String → InvestigationEvidenceExport F
  export_alone investigation code = record {
    format_name = investigation_format_name;
    format_version = investigation_format_version;
    investigation = investigation;
    baseline = none;
    signal_comparisons = [];
    diagnostic_code = code;
    primary_has_diagnostic_event = none;
    baseline_has_diagnostic_event = none;
  }

  export_comparison : InvestigationComparison F → Option String → InvestigationEvidenceExport F
  export_comparison comparison code = record {
    format_name = investigation_format_name;
    format_version = investigation_format_version;
    investigation = comparison.primary;
    baseline = some comparison.baseline;
    signal_comparisons = comparison.signal_comparisons;
    diagnostic_code = code;
    primary_has_diagnostic_event = comparison.primary_has_diagnostic_event;
    baseline_has_diagnostic_event = comparison.baseline_has_diagnostic_event;
  }

  unfoldable pub export :
      InvestigationService F
      → String
      → Option String
      → Option Value
      → Option Value
      → Query
      → Result (InvestigationEvidenceExport F)
  unfolding export_alone export_comparison
  export i session_id none center requested q = do
    investigation ← investigate i session_id center q
    ok (export_alone investigation q.diagnostic_code)
  export i session_id (some baseline_id) center requested q = do
    comparison ← compare i session_id baseline_id center requested q
    ok (export_comparison comparison q.diagnostic_code)

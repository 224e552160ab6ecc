-- ===== src/Investigation/Examples/Loop.antt =====
-- investigation/service.py: the loop over two frames, with one rule.
use tuner_os.Prelude.{ℕ, ◌≡◌, refl, none, List, [], ◌∷◌, arith, ok, pos, length, string_eq, nat_eq}
use tuner_os.Can.Models.{RawCanFrame}
use tuner_os.Can.Decoder.{decode}
use tuner_os.Telemetry.Catalog.{signal_catalog}
use tuner_os.Prelude.Dict.{get, put}
use tuner_os.Telemetry.Engine.{new_engine}
use tuner_os.Diagnostics.Engine.{DiagnosticEngine}
use tuner_os.Diagnostics.Engine.States.{HasStates}
use tuner_os.Investigation.Window.{resolve_window}
use tuner_os.Investigation.Analysis.{Pipeline, Observation, Analysis, analyse, observe}
use tuner_os.Investigation.Analysis.Gathering.{observe_all, from_start}
use tuner_os.Investigation.Analysis.Outcome.{not_after}
use tuner_os.Investigation.Analysis.Progress.{analyse-returns}
use tuner_os.Session.Replay.{replay_all}
use tuner_os.Investigation.Analysis.Replay.{replayed, replay_all-analyse}
use tuner_os.Prelude.Struct.{of_be}
use tuner_os.Can.Codec.{decode_raw_can_record}
use tuner_os.Can.Models.{raw_can_frame}
use tuner_os.Can.Explorer.{can_explorer, annotate, ingest as explorer_ingest}
use tuner_os.Telemetry.Catalog.{definitions_for_frame, definitions_of_signals, definition_of}
use tuner_os.Telemetry.Engine.{
  telemetry_engine, ingest as engine_ingest, prepare, samples_of, sample_of, record_samples,
  record_sample, snapshot, statuses, freshness, statistics,
}
use tuner_os.Diagnostics.Catalog.{diagnostic_catalog, DiagnosticRule}
use tuner_os.Diagnostics.Models.{warning}
use tuner_os.Diagnostics.Catalog.Defaults.{default_rules, create_default_diagnostic_catalog}
use tuner_os.Diagnostics.Engine.{diagnostic_engine, dtc, freeze_frame, ingest as diagnostics_ingest}
use tuner_os.Diagnostics.Rules.{truth, number, evaluate, high_threshold}
use tuner_os.Diagnostics.RuleState.{append_event, new_rule_state}
use tuner_os.Diagnostics.Lifecycle.{advance, handle_normal, handle_violation}
use tuner_os.Diagnostics.Lifecycle.Evaluation.{
  evaluate_rule, inputs_are_fresh, observe as observe_rule,
}
use tuner_os.Session.Format.{decode_session_header}
use tuner_os.Session.Reader.{
  frames, scan_file, check_header, check_totals, scan_records, scan_record, yield_frame,
}
use tuner_os.Investigation.Selection.{resolve_signals, repeats, require_all}
use tuner_os.Investigation.Summary.{
  summarize, summarize_all, float_of, floats_of, least, greatest, distinct,
}
use tuner_os.Investigation.Analysis.{
  analyse_frame, include_frame, collect, gather, include, capture_center, states_now, add_sample,
  add_samples, note_sample, note_context,
}
use tuner_os.Investigation.Service.{
  new_analysis, empty_series, analyse_session, frozen_series, ordered_context,
}
use tuner_os.Diagnostics.Catalog.Defaults.{coolant}
use tuner_os.Investigation.Service.{investigate_session}
use tuner_os.Investigation.Examples.{
  window, nat_floats, decoder, frame_at, value_or, no_catalog, nat_means,
}

abbrev rule : DiagnosticRule ℕ
rule = record {
  definition = record {
    code = "HOT";
    rule_id = "hot";
    name = "";
    description = "";
    severity = warning;
    source_system = "DME";
    required_signals = coolant ∷ [];
    confirmation_duration_microseconds = pos 1000000;
    recovery_duration_microseconds = pos 1000000;
    activation_description = "";
    recovery_description = "";
  };
  condition = high_threshold coolant 900 800;
}

abbrev one_rule : DiagnosticEngine ℕ
one_rule = record {
  catalog = record { rules = rule ∷ []; by_code = ("HOT", rule) ∷ [] };
  states = ("HOT", new_rule_state ℕ) ∷ [];
  log = record { capacity = 1; events = []; next_event_sequence = 0 };
  observation_timestamp_microseconds = none;
  latest_telemetry_frame_sequence = none;
}

abbrev no_analysis : Analysis ℕ
no_analysis = record {
  pipeline = record {
    decoder = decoder;
    explorer = record {
      decoder = decoder;
      metadata_by_id = [];
      capacity = 1;
      frames = [];
      messages = [];
      next_sequence = 0;
    };
    engine = new_engine no_catalog 1;
    diagnostics = one_rule;
  };
  findings = record {
    series = (coolant, []) ∷ [];
    context = [];
    raw_frames = [];
    window_events = [];
    decoded_signal_updates = 0;
  };
  center = none;
}

abbrev two_frames : List RawCanFrame
two_frames = frame_at 2500000 ∷ frame_at 9000000 ∷ []

abbrev observed : List (Observation ℕ) × Pipeline ℕ
observed =
    value_or ([], no_analysis.pipeline)
      (observe_all (not_after window two_frames) no_analysis.pipeline)

all_observed : observe_all (not_after window two_frames) no_analysis.pipeline ≡ ok observed
unfolding observe_all investigate_session resolve_window signal_catalog get put
    create_default_diagnostic_catalog diagnostic_catalog default_rules resolve_signals repeats
    require_all new_analysis empty_series telemetry_engine diagnostic_engine can_explorer
    analyse_session analyse analyse_frame include_frame collect gather include observe
    capture_center states_now frames scan_file check_header check_totals scan_records scan_record
    yield_frame decode_session_header of_be decode_raw_can_record raw_can_frame decode annotate
    explorer_ingest engine_ingest prepare definitions_for_frame definitions_of_signals definition_of
    samples_of sample_of record_samples record_sample snapshot statuses freshness statistics
    diagnostics_ingest evaluate_rule inputs_are_fresh observe_rule truth number evaluate advance
    handle_normal handle_violation append_event dtc freeze_frame add_sample add_samples note_sample
    note_context frozen_series ordered_context summarize summarize_all float_of floats_of least
    greatest distinct
all_observed = refl

one_observation : length (from_start window observed.0) ≡ 1
unfolding observe_all investigate_session resolve_window signal_catalog get put
    create_default_diagnostic_catalog diagnostic_catalog default_rules resolve_signals repeats
    require_all new_analysis empty_series telemetry_engine diagnostic_engine can_explorer
    analyse_session analyse analyse_frame include_frame collect gather include observe
    capture_center states_now frames scan_file check_header check_totals scan_records scan_record
    yield_frame decode_session_header of_be decode_raw_can_record raw_can_frame decode annotate
    explorer_ingest engine_ingest prepare definitions_for_frame definitions_of_signals definition_of
    samples_of sample_of record_samples record_sample snapshot statuses freshness statistics
    diagnostics_ingest evaluate_rule inputs_are_fresh observe_rule truth number evaluate advance
    handle_normal handle_violation append_event dtc freeze_frame add_sample add_samples note_sample
    note_context frozen_series ordered_context summarize summarize_all float_of floats_of least
    greatest distinct
one_observation = refl

has_states : HasStates one_rule
unfolding HasStates get
has_states = ((refl, refl), tt)

analyse-returns_example : (c : Analysis ℕ) × (analyse window two_frames no_analysis ≡ ok c)
analyse-returns_example =
    analyse-returns window two_frames no_analysis observed.0 observed.1 has_states all_observed
      (omega (arith, one_observation))

abbrev analysed : Analysis ℕ
analysed = value_or no_analysis (analyse window two_frames no_analysis)

analyses : analyse window two_frames no_analysis ≡ ok analysed
unfolding observe_all investigate_session resolve_window signal_catalog get put
    create_default_diagnostic_catalog diagnostic_catalog default_rules resolve_signals repeats
    require_all new_analysis empty_series telemetry_engine diagnostic_engine can_explorer
    analyse_session analyse analyse_frame include_frame collect gather include observe
    capture_center states_now frames scan_file check_header check_totals scan_records scan_record
    yield_frame decode_session_header of_be decode_raw_can_record raw_can_frame decode annotate
    explorer_ingest engine_ingest prepare definitions_for_frame definitions_of_signals definition_of
    samples_of sample_of record_samples record_sample snapshot statuses freshness statistics
    diagnostics_ingest evaluate_rule inputs_are_fresh observe_rule truth number evaluate advance
    handle_normal handle_violation append_event dtc freeze_frame add_sample add_samples note_sample
    note_context frozen_series ordered_context summarize summarize_all float_of floats_of least
    greatest distinct
analyses = refl

replay_all-analyse_example :
    replay_all decoder (not_after window two_frames) (replayed no_analysis.pipeline)
    ≡ ok (replayed analysed.pipeline)
replay_all-analyse_example = replay_all-analyse window two_frames no_analysis analysed analyses

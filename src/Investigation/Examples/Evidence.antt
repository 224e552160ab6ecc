-- ===== src/Investigation/Examples/Evidence.antt =====
-- investigation/service.py: a query whose window holds two frames.
use tuner_os.Prelude.{ℕ, ◌≡◌, refl, none, ok, string_eq, nat_eq}
use tuner_os.Can.Decoder.{decode}
use tuner_os.Telemetry.Catalog.{signal_catalog}
use tuner_os.Prelude.Dict.{get, put}
use tuner_os.Investigation.Window.{resolve_window}
use tuner_os.Investigation.Analysis.{analyse, observe}
use tuner_os.Prelude.Struct.{of_be}
use tuner_os.Can.Codec.{decode_raw_can_record}
use tuner_os.Can.Models.{raw_can_frame}
use tuner_os.Can.Explorer.{can_explorer, annotate, ingest as explorer_ingest}
use tuner_os.Telemetry.Catalog.{definitions_for_frame, definitions_of_signals, definition_of}
use tuner_os.Telemetry.Engine.{
  telemetry_engine, ingest as engine_ingest, prepare, samples_of, sample_of, record_samples,
  record_sample, snapshot, statuses, freshness, statistics,
}
use tuner_os.Diagnostics.Catalog.{diagnostic_catalog}
use tuner_os.Diagnostics.Catalog.Defaults.{default_rules, create_default_diagnostic_catalog}
use tuner_os.Diagnostics.Engine.{diagnostic_engine, dtc, freeze_frame, ingest as diagnostics_ingest}
use tuner_os.Diagnostics.Rules.{truth, number, evaluate}
use tuner_os.Diagnostics.RuleState.{append_event}
use tuner_os.Diagnostics.Lifecycle.{advance, handle_normal, handle_violation}
use tuner_os.Diagnostics.Lifecycle.Evaluation.{
  evaluate_rule, inputs_are_fresh, observe as observe_rule,
}
use tuner_os.Session.Format.{decode_session_header}
use tuner_os.Session.Reader.{
  frames, scan_file, check_header, check_totals, scan_records, scan_record, yield_frame,
}
use tuner_os.Investigation.Selection.{resolve_signals, repeats, require_all}
use tuner_os.Investigation.Summary.{
  summarize, summarize_all, float_of, floats_of, least, greatest, distinct,
}
use tuner_os.Investigation.Analysis.{
  analyse_frame, include_frame, collect, gather, include, capture_center, states_now, add_sample,
  add_samples, note_sample, note_context,
}
use tuner_os.Investigation.Service.{
  new_analysis, empty_series, analyse_session, frozen_series, ordered_context,
}
use tuner_os.Session.Catalog.{read_frames}
use tuner_os.Investigation.Models.{InvestigationResult}
use tuner_os.Investigation.Service.{investigate_session}
use tuner_os.Investigation.Service.Evidence.{IsEvidenceOf, investigate_session-IsEvidenceOf}
use tuner_os.Investigation.Examples.{
  nat_floats, value_or, session, service, query, nat_means, nothing,
}

abbrev found : InvestigationResult ℕ
found = value_or nothing (investigate_session service session none query)

returned : investigate_session service session none query ≡ ok found
unfolding investigate_session resolve_window signal_catalog get put
    create_default_diagnostic_catalog diagnostic_catalog default_rules resolve_signals repeats
    require_all new_analysis empty_series telemetry_engine diagnostic_engine can_explorer
    analyse_session analyse analyse_frame include_frame collect gather include observe
    capture_center states_now frames scan_file check_header check_totals scan_records scan_record
    yield_frame decode_session_header of_be decode_raw_can_record raw_can_frame decode annotate
    explorer_ingest engine_ingest prepare definitions_for_frame definitions_of_signals definition_of
    samples_of sample_of record_samples record_sample snapshot statuses freshness statistics
    diagnostics_ingest evaluate_rule inputs_are_fresh observe_rule truth number evaluate advance
    handle_normal handle_violation append_event dtc freeze_frame add_sample add_samples note_sample
    note_context frozen_series ordered_context summarize summarize_all float_of floats_of least
    greatest distinct
returned = refl

investigate_session-IsEvidenceOf_example :
    (resolve_window session.manifest none query.before_microseconds query.after_microseconds
      ≡ ok found.window)
    × IsEvidenceOf (read_frames service.sessions session).0 found
investigate_session-IsEvidenceOf_example =
    investigate_session-IsEvidenceOf service session none query returned

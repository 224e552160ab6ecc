-- ===== src/Investigation/Examples/Comparisons.antt =====
-- investigation/service.py: two recordings of the same drive.
use tuner_os.Prelude.{ℕ, String, true, none, [], ◌∷◌, ok, string_eq, nat_eq}
use tuner_os.Investigation.Analysis.{observe}
use tuner_os.Session.Catalog.{Artifact}
use tuner_os.Investigation.Models.{InvestigationComparison}
use tuner_os.Investigation.Service.{compare}
use tuner_os.Can.Explorer.{ingest as explorer_ingest}
use tuner_os.Telemetry.Engine.{ingest as engine_ingest}
use tuner_os.Diagnostics.Engine.{ingest as diagnostics_ingest}
use tuner_os.Diagnostics.Lifecycle.Evaluation.{observe as observe_rule}
use tuner_os.Investigation.Service.{InvestigationService}
use tuner_os.Investigation.Examples.{
  nat_floats, value_or, session, service, query, nat_means, nothing,
}

-- Two recordings of the same drive.
abbrev artifact : String → Artifact
artifact id = record {
  contained = true;
  manifest = ok (record session.manifest { session_id = id });
  frame_file = session.frame_file;
}

abbrev two_sessions : InvestigationService ℕ
two_sessions = record service {
  sessions = record service.sessions {
    artifacts = ("first", artifact "first") ∷ ("second", artifact "second") ∷ [];
  };
}

abbrev compared : InvestigationComparison ℕ
compared =
    value_or
      (record {
        primary = nothing;
        baseline = nothing;
        signal_comparisons = [];
        diagnostic_code = none;
        primary_has_diagnostic_event = none;
        baseline_has_diagnostic_event = none;
      })
      (compare two_sessions "first" "second" none none query)

-- ===== src/Diagnostics/Lifecycle/Evaluation.antt =====
-- diagnostics/engine.py, `_evaluate_rule`: what a rule sees in a snapshot, and what follows.
use tuner_os.Prelude.{
  ℕ, Bool, true, false, ◌&&◌, Option, some, string_eq, Result, ok, err, if◌then◌else◌, all, ◌>>=◌,
}
use tuner_os.Prelude.Dict.{get}
use tuner_os.Telemetry.Models.{key_eq, SignalFreshness, fresh, TelemetrySnapshot}
use tuner_os.Diagnostics.Models.{DiagnosticDefinition}
use tuner_os.Telemetry.Catalog.{is_some}
use tuner_os.Diagnostics.Rules.{FloatOps, evaluate}
use tuner_os.Diagnostics.Catalog.{DiagnosticRule}
use tuner_os.Diagnostics.RuleState.{status_of, is_active, Observation, unusable, met, Work, Step}
use tuner_os.Diagnostics.Lifecycle.{advance}

is_fresh : Option (Option SignalFreshness) → Bool
is_fresh (some (some fresh)) = true
is_fresh _ = false

module _ {F : Type 0} where
  unfoldable pub inputs_are_fresh : DiagnosticDefinition → TelemetrySnapshot F → Bool
  unfolding is_fresh
  inputs_are_fresh definition snapshot =
      all (λ key. is_some (get snapshot.samples key) && is_fresh (get snapshot.freshness key))
        definition.required_signals

module _ {F : Type 0} ⦃ops : FloatOps F⦄ where
  unfoldable pub observe : DiagnosticRule F → TelemetrySnapshot F → Bool → Result Observation
  observe rule snapshot was_active =
      let seen = evaluate rule.condition snapshot was_active >>= λ c. ok (met c) in
      if inputs_are_fresh rule.definition snapshot then seen else ok unusable

  advance_by : DiagnosticRule F → TelemetrySnapshot F → ℕ → Work F → Result Observation → Step F
  advance_by rule snapshot timestamp w (err x) = (err x, w)
  advance_by rule snapshot timestamp w (ok o) = advance rule.definition snapshot timestamp o w

  -- `_evaluate_rule`
  unfoldable pub evaluate_rule : DiagnosticRule F → TelemetrySnapshot F → ℕ → Work F → Step F
  unfolding advance_by
  evaluate_rule rule snapshot timestamp w =
      advance_by rule snapshot timestamp w
        (observe rule snapshot (is_active (status_of w.state.dtc)))

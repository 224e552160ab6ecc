-- ===== src/Diagnostics/Rules.antt =====
-- diagnostics/rules.py: the four conditions. Python's floats are a parameter: their comparison,
-- difference and magnitude, and the float of an integer and of a literal.
use tuner_os.Prelude.{
  ℕ, Bool, true, false, ◌||◌, List, [], ◌∷◌, ℤ, Result, ok, err, key_error, type_error, value_error,
  ◌>>=◌, if◌then◌else◌, or_raise,
}
use tuner_os.Prelude.Dict.{get}
use tuner_os.Can.Models.{SignalValue, float, integer, boolean, object}
use tuner_os.Telemetry.Models.{SignalKey, key_eq, TelemetrySnapshot}

-- `tenths n` is the literal n / 10.
pub record FloatOps (F : Type 0) : Type 0 where
  pub less : F → F → Bool
  pub minus : F → F → F
  pub magnitude : F → F
  pub of_int : ℤ → F
  pub tenths : ℕ → F

pub data ConditionResult : Type 0 where
  normal violation : ConditionResult

pub data DiagnosticCondition (F : Type 0) : Type 0 where
  high_threshold : SignalKey → F → F → DiagnosticCondition F
  low_while_true : SignalKey → SignalKey → F → F → DiagnosticCondition F
  outside_range_while_true : SignalKey → SignalKey → F → F → F → F → DiagnosticCondition F
  signal_disagreement : List SignalKey → SignalKey → F → F → DiagnosticCondition F

abbrev pub violation_if : Bool → ConditionResult
violation_if true = violation
violation_if false = normal

module _ {F : Type 0} where
  -- snapshot.samples[key].value
  value_at : TelemetrySnapshot F → SignalKey → Result (SignalValue F)
  value_at snapshot key = or_raise (get snapshot.samples key) key_error >>= λ s. ok s.value

  as_truth : SignalValue F → Result Bool
  as_truth (boolean b) = ok b
  as_truth (float x) = err type_error
  as_truth (integer n) = err type_error
  as_truth object = err type_error

  -- `_boolean`
  unfoldable pub truth : TelemetrySnapshot F → SignalKey → Result Bool
  unfolding value_at as_truth
  truth snapshot key = value_at snapshot key >>= as_truth

module _ {F : Type 0} ⦃ops : FloatOps F⦄ where
  as_number : SignalValue F → Result F
  as_number (float x) = ok x
  as_number (integer n) = ok (ops.of_int n)
  as_number (boolean b) = err type_error
  as_number object = err type_error

  -- `_number`
  unfoldable pub number : TelemetrySnapshot F → SignalKey → Result F
  unfolding value_at as_number
  number snapshot key = value_at snapshot key >>= as_number

  -- max(abs(number(signal) - reference) for signal in signals), after the first one
  greatest_delta : TelemetrySnapshot F → F → F → List SignalKey → Result F
  greatest_delta snapshot reference most [] = ok most
  greatest_delta snapshot reference most (key ∷ rest) = number snapshot key >>= λ x.
      let delta = ops.magnitude (ops.minus x reference) in
      greatest_delta snapshot reference (if ops.less most delta then delta else most) rest

  maximum_delta : TelemetrySnapshot F → F → List SignalKey → Result F
  unfolding greatest_delta
  maximum_delta snapshot reference [] = err value_error
  maximum_delta snapshot reference (key ∷ rest) = number snapshot key >>= λ x.
      greatest_delta snapshot reference (ops.magnitude (ops.minus x reference)) rest

  unfoldable pub evaluate :
      DiagnosticCondition F → TelemetrySnapshot F → Bool → Result ConditionResult
  unfolding maximum_delta
  evaluate (high_threshold signal activation_above recovery_below) snapshot active =
      let threshold = if active then recovery_below else activation_above in
      number snapshot signal >>= λ x. ok (violation_if (ops.less threshold x))
  evaluate (low_while_true signal context activation_below recovery_above) snapshot active =
      truth snapshot context >>= λ running.
      let threshold = if active then recovery_above else activation_below in
      let tested = number snapshot signal >>= λ x. ok (violation_if (ops.less x threshold)) in
      if running then tested else ok normal
  evaluate
        (outside_range_while_true signal context activation_minimum activation_maximum
          recovery_minimum recovery_maximum)
        snapshot active =
      truth snapshot context >>= λ running.
      let minimum = if active then recovery_minimum else activation_minimum in
      let maximum = if active then recovery_maximum else activation_maximum in
      let tested =
        (number snapshot signal >>= λ x.
        ok (violation_if (ops.less x minimum || ops.less maximum x))) in
      if running then tested else ok normal
  evaluate (signal_disagreement compared reference activation_delta recovery_delta) snapshot
        active =
      number snapshot reference >>= λ r. maximum_delta snapshot r compared >>= λ most.
      let threshold = if active then recovery_delta else activation_delta in
      ok (violation_if (ops.less threshold most))

-- ===== src/Diagnostics/Catalog.antt =====
-- diagnostics/catalog.py: the ordered rules, validated, and the default ones.
pub mod Defaults
use tuner_os.Prelude.{
  ℕ, String, Bool, true, false, ◌||◌, Option, none, some, List, [], ◌∷◌, ◌==◌, string_eq, any,
  Result, ok, err, value_error, unknown_diagnostic_code_error, ◌>>=◌, ◌>>◌, raise_if, or_raise,
  is_negative,
}
use tuner_os.Prelude.Dict.{Dict, get, put}
use tuner_os.Telemetry.Models.{SignalKey}
use tuner_os.Telemetry.Catalog
use tuner_os.Telemetry.Catalog.{SignalCatalog}
use tuner_os.Diagnostics.Models.{DiagnosticDefinition}
use tuner_os.Diagnostics.Rules.{DiagnosticCondition}

pub record DiagnosticRule (F : Type 0) : Type 0 where
  pub definition : DiagnosticDefinition
  pub condition : DiagnosticCondition F

pub record DiagnosticCatalog (F : Type 0) : Type 0 where
  pub rules : List (DiagnosticRule F)
  pub by_code : Dict String (DiagnosticRule F)

-- name in names
abbrev pub among : String → List String → Bool
among name = any (λ n. n == name)

-- for key in definition.required_signals: signal_catalog.require(key)
require_all : SignalCatalog → List SignalKey → Result (Unit {0})
require_all c [] = ok tt
require_all c (key ∷ rest) = Catalog.require c key >>= λ _. require_all c rest

module _ {F : Type 0} where
  -- The loop of `__init__`, with the codes and the rule IDs seen so far.
  validate : SignalCatalog → List (DiagnosticRule F) → List String → List String → Result (Unit {0})
  unfolding require_all
  validate c [] codes rule_ids = ok tt
  validate c (rule ∷ rest) codes rule_ids = do
    let d = rule.definition
    raise_if (among d.code codes) value_error
    raise_if (among d.rule_id rule_ids) value_error
    raise_if (is_negative d.confirmation_duration_microseconds) value_error
    raise_if (is_negative d.recovery_duration_microseconds) value_error
    require_all c d.required_signals
    validate c rest (d.code ∷ codes) (d.rule_id ∷ rule_ids)

  -- {rule.definition.code: rule for rule in rules}
  index : List (DiagnosticRule F) → Dict String (DiagnosticRule F) → Dict String (DiagnosticRule F)
  index [] d = d
  index (rule ∷ rest) d = index rest (put d rule.definition.code rule)

  unfoldable pub diagnostic_catalog :
      List (DiagnosticRule F) → SignalCatalog → Result (DiagnosticCatalog F)
  unfolding validate index
  diagnostic_catalog rules c = do
    validate c rules [] []
    ok (record { rules = rules; by_code = index rules [] })

  abbrev pub find : DiagnosticCatalog F → String → Option (DiagnosticRule F)
  find c code = get c.by_code code

  abbrev pub require : DiagnosticCatalog F → String → Result (DiagnosticRule F)
  require c code = or_raise (find c code) unknown_diagnostic_code_error

-- ===== src/Investigation/Selection.antt =====
-- investigation/service.py: `_resolve_signals`, `_require_compatible` and `_has_event`.
use tuner_os.Prelude.{
  String, Bool, false, not, ◌||◌, Option, none, some, List, [], ◌∷◌, Result, ok,
  investigation_query_error, investigation_compatibility_error, ◌>>=◌, ◌>>◌, raise_if, ltb, eqb,
  length, take, any, map, ◌==◌, string_eq,
}
use tuner_os.Telemetry.Models.{SignalKey, key_eq}
use tuner_os.Diagnostics.Catalog
use tuner_os.Telemetry.Catalog.{SignalCatalog, SignalDefinition, require as require_signal}
use tuner_os.Diagnostics.Catalog.{DiagnosticCatalog, DiagnosticRule}
use tuner_os.Diagnostics.Models.{DiagnosticEvent}
use tuner_os.Session.Models.{SessionManifest}
use tuner_os.Investigation.Models.{max_selected_signals}

-- len(set(keys)) != len(keys)
unfoldable pub repeats : List SignalKey → Bool
repeats [] = false
repeats (k ∷ ks) = any (λ j. k == j) ks || repeats ks

-- for key in keys: signal_catalog.require(key)
unfoldable pub require_all : SignalCatalog → List SignalKey → Result (Unit {0})
require_all catalog [] = ok tt
require_all catalog (key ∷ rest) = require_signal catalog key >>= λ _. require_all catalog rest

module _ {F : Type 0} where
  -- rule = diagnostic_catalog.require(diagnostic_code) if diagnostic_code is not None else None
  pub rule_of : DiagnosticCatalog F → Option String → Result (Option (DiagnosticRule F))
  rule_of catalog none = ok none
  rule_of catalog (some code) = Catalog.require catalog code >>= λ rule. ok (some rule)

  chosen_keys : SignalCatalog → Option (DiagnosticRule F) → Option (List SignalKey) → List SignalKey
  chosen_keys signals rule (some keys) = keys
  chosen_keys signals (some rule) none = rule.definition.required_signals
  chosen_keys signals none none =
      map (λ (d : SignalDefinition). d.key) (take max_selected_signals signals.definitions)

  unfoldable pub resolve_signals :
      SignalCatalog
      → DiagnosticCatalog F
      → Option (List SignalKey)
      → Option String
      → Result (List SignalKey)
  unfolding rule_of chosen_keys
  resolve_signals signals diagnostics selected code = do
    rule ← rule_of diagnostics code
    let keys = chosen_keys signals rule selected
    raise_if (eqb (length keys) 0) investigation_query_error
    raise_if (ltb max_selected_signals (length keys)) investigation_query_error
    raise_if (repeats keys) investigation_query_error
    require_all signals keys
    ok keys

-- Two sessions can be compared: the same DBC, network and vehicle.
unfoldable pub require_compatible : SessionManifest → SessionManifest → Result (Unit {0})
require_compatible primary baseline =
    raise_if
      (not (primary.dbc_sha256 == baseline.dbc_sha256)
        || (not (primary.can_network == baseline.can_network)
            || not (primary.vehicle_profile_id == baseline.vehicle_profile_id)))
      investigation_compatibility_error

unfoldable pub has_event : List DiagnosticEvent → Option String → Option Bool
has_event events none = none
has_event events (some code) = some (any (λ e. e.code == code) events)

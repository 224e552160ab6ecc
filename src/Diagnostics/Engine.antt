-- ===== src/Diagnostics/Engine.antt =====
-- diagnostics/engine.py: `DiagnosticEngine`, which evaluates every rule on each snapshot.
pub mod Clear
pub mod States
use tuner_os.Prelude.{
  ℕ, zero, suc, ◌-◌, String, Bool, true, false, Option, none, some, List, [], ◌∷◌, ◌++◌, string_eq,
  Result, ok, err, type_error, value_error, key_error, assertion_error,
  unknown_diagnostic_code_error, diagnostic_clear_error, ◌>>=◌, or_raise, if◌then◌else◌, ltb,
  length, filter, keep_last, ℤ, pos, negsuc,
}
use tuner_os.Prelude.Dict.{Dict, get, put}
use tuner_os.Prelude.Values.{Value, expect_int}
use tuner_os.Telemetry.Models.{TelemetrySnapshot}
use tuner_os.Telemetry.Engine.{precedes}
use tuner_os.Diagnostics.Models.{
  DiagnosticStatus, pending, active, historical, cleared, dtc_cleared, DiagnosticTroubleCode,
  DiagnosticEvent, DiagnosticFreezeFrame, DiagnosticSnapshot,
}
use tuner_os.Diagnostics.Rules.{FloatOps}
use tuner_os.Diagnostics.Catalog
use tuner_os.Diagnostics.Catalog.{DiagnosticRule, DiagnosticCatalog}
use tuner_os.Diagnostics.RuleState.{
  RuleState, new_rule_state, EventLog, event_of, append_event, Work, Step,
}
use tuner_os.Diagnostics.Lifecycle.Evaluation.{evaluate_rule}

abbrev pub default_diagnostic_event_capacity : ℕ
default_diagnostic_event_capacity = 1024

pub record DiagnosticEngine (F : Type 0) : Type 0 where
  pub catalog : DiagnosticCatalog F
  pub states : Dict String (RuleState F)
  pub log : EventLog
  pub observation_timestamp_microseconds : Option ℕ
  pub latest_telemetry_frame_sequence : Option ℕ

abbrev pub status_beq : DiagnosticStatus → DiagnosticStatus → Bool
status_beq pending pending = true
status_beq active active = true
status_beq historical historical = true
status_beq cleared cleared = true
status_beq _ _ = false

-- How many records have a status.
abbrev pub count : DiagnosticStatus → List DiagnosticTroubleCode → ℕ
count s ds = length (filter (λ d. status_beq d.status s) ds)

-- self._next_event_sequence - 1 if self._next_event_sequence else None
abbrev pub last_sequence : ℕ → Option ℕ
last_sequence zero = none
last_sequence (suc n) = some n

module _ {F : Type 0} where
  -- {rule.definition.code: _RuleState() for rule in self._catalog.rules}
  new_states : List (DiagnosticRule F) → Dict String (RuleState F) → Dict String (RuleState F)
  new_states [] d = d
  new_states (rule ∷ rest) d = new_states rest (put d rule.definition.code (new_rule_state F))

  unfoldable pub reset : DiagnosticEngine F → DiagnosticEngine F
  unfolding new_states
  reset e = record {
    catalog = e.catalog;
    states = new_states e.catalog.rules [];
    log = record { capacity = e.log.capacity; events = []; next_event_sequence = 0 };
    observation_timestamp_microseconds = none;
    latest_telemetry_frame_sequence = none;
  }

  new_engine : DiagnosticCatalog F → ℕ → DiagnosticEngine F
  unfolding new_states
  new_engine catalog capacity = record {
    catalog = catalog;
    states = new_states catalog.rules [];
    log = record { capacity = capacity; events = []; next_event_sequence = 0 };
    observation_timestamp_microseconds = none;
    latest_telemetry_frame_sequence = none;
  }

  -- `__init__`
  unfoldable pub diagnostic_engine : DiagnosticCatalog F → Value → Result (DiagnosticEngine F)
  unfolding new_engine
  diagnostic_engine catalog event_capacity = expect_int event_capacity >>= λ n. elim n [
    | pos (zero) ↦ err value_error
    | pos (suc k) ↦ ok (new_engine catalog (suc k))
    | negsuc k ↦ err value_error
  ]

  records : DiagnosticEngine F → List (DiagnosticRule F) → Result (List DiagnosticTroubleCode)
  records e [] = ok []
  records e (rule ∷ rest) = or_raise (get e.states rule.definition.code) key_error >>= λ state.
      records e rest >>= λ others. ok (elim state.dtc [ none ↦ others | some d ↦ d ∷ others ])

  unfoldable pub dtcs :
      DiagnosticEngine F → Option DiagnosticStatus → Result (List DiagnosticTroubleCode)
  unfolding records
  dtcs e none = records e e.catalog.rules
  dtcs e (some status) =
      records e e.catalog.rules >>= λ ds. ok (filter (λ d. status_beq d.status status) ds)

  abbrev pub state_of : DiagnosticEngine F → String → Result (RuleState F)
  state_of e code = Catalog.require e.catalog code >>= λ _. or_raise (get e.states code) key_error

  unfoldable pub dtc : DiagnosticEngine F → String → Result (Option DiagnosticTroubleCode)
  dtc e code = state_of e code >>= λ state. ok state.dtc

  unfoldable pub freeze_frame :
      DiagnosticEngine F → String → Result (Option (DiagnosticFreezeFrame F))
  freeze_frame e code = state_of e code >>= λ state. ok state.freeze_frame

  unfoldable pub events : DiagnosticEngine F → Option Value → Result (List DiagnosticEvent)
  events e none = ok e.log.events
  events e (some limit) = expect_int limit >>= λ n. elim n [
    | pos (zero) ↦ err value_error
    | pos (suc k) ↦ ok (keep_last (suc k) e.log.events)
    | negsuc k ↦ err value_error
  ]

  unfoldable pub snapshot : DiagnosticEngine F → Result DiagnosticSnapshot
  unfolding dtcs
  snapshot e = dtcs e none >>= λ ds. ok (record {
    observation_timestamp_microseconds = e.observation_timestamp_microseconds;
    latest_telemetry_frame_sequence = e.latest_telemetry_frame_sequence;
    dtcs = ds;
    retained_event_count = length e.log.events;
    total_event_count = e.log.next_event_sequence;
    latest_event_sequence = last_sequence e.log.next_event_sequence;
    pending_count = count pending ds;
    active_count = count active ds;
    historical_count = count historical ds;
    cleared_count = count cleared ds;
  })

  -- The end of `clear`, for a historical record.
  unfoldable clear_record :
      DiagnosticEngine F
      → String
      → RuleState F
      → DiagnosticTroubleCode
      → Option ℕ
      → Result DiagnosticTroubleCode × DiagnosticEngine F
  clear_record e code state d none = (err assertion_error, e)
  clear_record e code state d (some timestamp) =
      let d' = record d { status = cleared; cleared_timestamp_microseconds = some timestamp } in
      (
        ok d',
        record e {
          states = put e.states code (record state { dtc = some d' });
          log =
              append_event
                (event_of e.log timestamp code dtc_cleared (some historical) (some cleared)) e.log;
        },
      )

  unfoldable clear_status :
      DiagnosticStatus
      → DiagnosticEngine F
      → String
      → RuleState F
      → DiagnosticTroubleCode
      → Result DiagnosticTroubleCode × DiagnosticEngine F
  unfolding clear_record
  clear_status cleared e code state d = (ok d, e)
  clear_status pending e code state d = (err diagnostic_clear_error, e)
  clear_status active e code state d = (err diagnostic_clear_error, e)
  clear_status historical e code state d =
      clear_record e code state d e.observation_timestamp_microseconds

  unfoldable clear_dtc :
      DiagnosticEngine F
      → String
      → RuleState F
      → Option DiagnosticTroubleCode
      → Result DiagnosticTroubleCode × DiagnosticEngine F
  unfolding clear_status
  clear_dtc e code state none = (err unknown_diagnostic_code_error, e)
  clear_dtc e code state (some d) = clear_status d.status e code state d

  unfoldable clear_state :
      DiagnosticEngine F
      → String
      → Result (RuleState F)
      → Result DiagnosticTroubleCode × DiagnosticEngine F
  unfolding clear_dtc
  clear_state e code (err x) = (err x, e)
  clear_state e code (ok state) = clear_dtc e code state state.dtc

  unfoldable pub clear :
      DiagnosticEngine F → String → Result DiagnosticTroubleCode × DiagnosticEngine F
  unfolding clear_state
  clear e code = clear_state e code (state_of e code)

module _ {F : Type 0} ⦃ops : FloatOps F⦄ where
  keep_step :
      DiagnosticEngine F → String → Step F → Result (List DiagnosticEvent) × DiagnosticEngine F
  keep_step e code (r, w) = (r, record e { states = put e.states code w.state; log = w.log })

  evaluate_in :
      DiagnosticRule F
      → TelemetrySnapshot F
      → ℕ
      → DiagnosticEngine F
      → Option (RuleState F)
      → Result (List DiagnosticEvent) × DiagnosticEngine F
  unfolding keep_step
  evaluate_in rule snapshot timestamp e none = (err key_error, e)
  evaluate_in rule snapshot timestamp e (some state) =
      keep_step e rule.definition.code
        (evaluate_rule rule snapshot timestamp (record { state = state; log = e.log }))

  -- What is left after a rule, unless it raised.
  then_rules :
      (DiagnosticEngine F → Result (List DiagnosticEvent) × DiagnosticEngine F)
      → Result (List DiagnosticEvent) × DiagnosticEngine F
      → Result (List DiagnosticEvent) × DiagnosticEngine F
  then_rules rest (err x, e) = (err x, e)
  then_rules rest (ok generated, e) =
      let r = rest e in (r.0 >>= λ later. ok (generated ++ later), r.1)

  -- for rule in self._catalog.rules
  evaluate_rules :
      List (DiagnosticRule F)
      → TelemetrySnapshot F
      → ℕ
      → DiagnosticEngine F
      → Result (List DiagnosticEvent) × DiagnosticEngine F
  unfolding evaluate_in then_rules
  evaluate_rules [] snapshot timestamp e = (ok [], e)
  evaluate_rules (rule ∷ rest) snapshot timestamp e =
      then_rules (evaluate_rules rest snapshot timestamp)
        (evaluate_in rule snapshot timestamp e (get e.states rule.definition.code))

  ingest_at :
      TelemetrySnapshot F
      → DiagnosticEngine F
      → Option ℕ
      → Result (List DiagnosticEvent) × DiagnosticEngine F
  unfolding evaluate_rules
  ingest_at snapshot e none = (ok [], e)
  ingest_at snapshot e (some timestamp) =
      let after = evaluate_rules e.catalog.rules snapshot timestamp (record e {
        observation_timestamp_microseconds = some timestamp;
        latest_telemetry_frame_sequence = snapshot.last_frame_sequence;
      }) in
      if precedes timestamp e.observation_timestamp_microseconds
      then (err value_error, e)
      else after

  unfoldable pub ingest :
      TelemetrySnapshot F → DiagnosticEngine F → Result (List DiagnosticEvent) × DiagnosticEngine F
  unfolding ingest_at
  ingest snapshot e = ingest_at snapshot e snapshot.observation_timestamp_microseconds

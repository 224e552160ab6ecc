-- ===== src/Diagnostics/RuleState.antt =====
-- diagnostics/engine.py: the state that a rule keeps, the log of events, and what steps return.
use tuner_os.Prelude.{
  ℕ, ◌+◌, String, Bool, true, false, Option, none, some, List, string_eq, Result, append_bounded,
}
use tuner_os.Telemetry.Models.{key_eq}
use tuner_os.Diagnostics.Models.{
  DiagnosticStatus, pending, active, DiagnosticEventType, DiagnosticDefinition,
  DiagnosticTroubleCode, DiagnosticEvent, DiagnosticFreezeFrame,
}
use tuner_os.Diagnostics.Rules.{ConditionResult}

-- `_RuleState`
pub record RuleState (F : Type 0) : Type 0 where
  pub dtc : Option DiagnosticTroubleCode
  pub condition_started : Option ℕ
  pub recovery_started : Option ℕ
  pub pending_origin : Option DiagnosticStatus
  pub freeze_frame : Option (DiagnosticFreezeFrame F)

abbrev pub new_rule_state : (F : Type 0) → RuleState F
new_rule_state F = record {
  dtc = none;
  condition_started = none;
  recovery_started = none;
  pending_origin = none;
  freeze_frame = none;
}

-- The engine's `_events`, bounded by `event_capacity`, and `_next_event_sequence`.
pub record EventLog : Type 0 where
  pub capacity : ℕ
  pub events : List DiagnosticEvent
  pub next_event_sequence : ℕ

-- The status of the record, if there is one.
abbrev pub status_of : Option DiagnosticTroubleCode → Option DiagnosticStatus
status_of none = none
status_of (some d) = some d.status

abbrev pub event_of :
    EventLog
    → ℕ
    → String
    → DiagnosticEventType
    → Option DiagnosticStatus
    → Option DiagnosticStatus
    → DiagnosticEvent
event_of log timestamp code event_type prior new = record {
  sequence = log.next_event_sequence;
  timestamp_microseconds = timestamp;
  code = code;
  event_type = event_type;
  prior_status = prior;
  new_status = new;
}

-- `_append_event`
unfoldable pub append_event : DiagnosticEvent → EventLog → EventLog
append_event event log = record log {
  next_event_sequence = log.next_event_sequence + 1;
  events = append_bounded log.capacity log.events event;
}

-- `_pending_record`
abbrev pub pending_record :
    DiagnosticDefinition → Option DiagnosticTroubleCode → ℕ → DiagnosticTroubleCode
pending_record definition none timestamp = record {
  definition = definition;
  status = pending;
  first_detected_timestamp_microseconds = timestamp;
  confirmed_timestamp_microseconds = none;
  last_seen_timestamp_microseconds = timestamp;
  resolved_timestamp_microseconds = none;
  cleared_timestamp_microseconds = none;
  occurrence_count = 0;
  freeze_frame_available = false;
}
pending_record definition (some d) timestamp = record d {
  status = pending;
  last_seen_timestamp_microseconds = timestamp;
}

-- status is DiagnosticStatus.ACTIVE
abbrev pub is_active : Option DiagnosticStatus → Bool
is_active (some active) = true
is_active _ = false

-- The start of a span that is running, or now.
abbrev pub or_now : Option ℕ → ℕ → ℕ
or_now none now = now
or_now (some started) now = started

-- What a rule sees in a snapshot: inputs that are missing or stale, or its condition.
pub data Observation : Type 0 where
  unusable : Observation
  met : ConditionResult → Observation

-- The state of the rule and the log that it writes to.
pub record Work (F : Type 0) : Type 0 where
  pub state : RuleState F
  pub log : EventLog

-- The events of a step, or what it raised, and what it leaves.
abbrev pub Step : Type 0 → Type 0
Step F = Result (List DiagnosticEvent) × Work F

-- ===== src/Diagnostics/Lifecycle.antt =====
-- diagnostics/engine.py: what one rule does with one snapshot. Each step takes and returns the
-- state of the rule together with the log of events, which it writes to.
pub mod Timing
pub mod Advance
pub mod Run
pub mod Returns
pub mod Evaluation
use tuner_os.Prelude.{
  ℕ, ◌+◌, String, Bool, true, false, ◌&&◌, Option, none, some, List, [], ◌∷◌, ◌++◌, spans,
  string_eq, Result, ok, err, assertion_error, if◌then◌else◌, all, ◌>>=◌,
}
use tuner_os.Prelude.Dict.{get}
use tuner_os.Telemetry.Models.{key_eq, SignalFreshness, fresh, TelemetrySnapshot}
use tuner_os.Diagnostics.Models.{
  DiagnosticStatus, pending, active, historical, cleared, condition_detected, condition_cleared,
  dtc_confirmed, dtc_recovered, DiagnosticDefinition, DiagnosticTroubleCode, DiagnosticEvent,
  DiagnosticFreezeFrame,
}
use tuner_os.Diagnostics.FreezeFrame.{capture_freeze_frame}
use tuner_os.Telemetry.Catalog.{is_some}
use tuner_os.Diagnostics.Rules.{FloatOps, normal, violation, evaluate}
use tuner_os.Diagnostics.Catalog.{DiagnosticRule}
use tuner_os.Diagnostics.RuleState.{
  status_of, event_of, append_event, pending_record, is_active, or_now, Observation, unusable, met,
  Work, Step,
}

-- A pending record falls back to its origin.
fall_back : Option DiagnosticStatus → DiagnosticTroubleCode → Option DiagnosticTroubleCode
fall_back none d = none
fall_back (some origin) d = some (record d { status = origin })

module _ {F : Type 0} where
  -- A violation that starts a new pending record, from `origin`.
  begin_pending :
      DiagnosticDefinition → Option DiagnosticStatus → ℕ → Work F → List DiagnosticEvent × Work F
  begin_pending definition origin timestamp w =
      let e = event_of w.log timestamp definition.code condition_detected origin (some pending) in
      (
        e ∷ [],
        record {
          state = record w.state {
            pending_origin = origin;
            condition_started = some timestamp;
            dtc = some (pending_record definition w.state.dtc timestamp);
          };
          log = append_event e w.log;
        },
      )

  -- A violation of a record that is pending already.
  continue_pending : DiagnosticTroubleCode → ℕ → Work F → List DiagnosticEvent × Work F
  continue_pending d timestamp w = (
    [],
    record w {
      state = record w.state {
        condition_started = some (or_now w.state.condition_started timestamp);
        dtc = some (record d { last_seen_timestamp_microseconds = timestamp });
      };
    },
  )

  freeze :
      String
      → TelemetrySnapshot F
      → ℕ
      → Option (DiagnosticFreezeFrame F)
      → Result (DiagnosticFreezeFrame F)
  freeze code snapshot timestamp none = capture_freeze_frame code snapshot timestamp
  freeze code snapshot timestamp (some frame) = ok frame

  activate :
      DiagnosticDefinition
      → ℕ
      → List DiagnosticEvent
      → Work F
      → DiagnosticTroubleCode
      → Result (DiagnosticFreezeFrame F)
      → Step F
  activate definition timestamp generated w d (err x) = (err x, w)
  activate definition timestamp generated w d (ok frame) =
      let e = event_of w.log timestamp definition.code dtc_confirmed (some pending) (some active) in
      (
        ok (generated ++ e ∷ []),
        record {
          state = record w.state {
            freeze_frame = some frame;
            dtc = some (record d {
              status = active;
              confirmed_timestamp_microseconds = some timestamp;
              last_seen_timestamp_microseconds = timestamp;
              resolved_timestamp_microseconds = none;
              cleared_timestamp_microseconds = none;
              occurrence_count = d.occurrence_count + 1;
              freeze_frame_available = true;
            });
            condition_started = none;
            pending_origin = none;
          };
          log = append_event e w.log;
        },
      )

  activate_record :
      DiagnosticDefinition
      → TelemetrySnapshot F
      → ℕ
      → List DiagnosticEvent
      → Work F
      → Option DiagnosticTroubleCode
      → Step F
  unfolding activate freeze
  activate_record definition snapshot timestamp generated w none = (err assertion_error, w)
  activate_record definition snapshot timestamp generated w (some d) =
      activate definition timestamp generated w d
        (freeze definition.code snapshot timestamp w.state.freeze_frame)

  confirm_since :
      DiagnosticDefinition
      → TelemetrySnapshot F
      → ℕ
      → List DiagnosticEvent
      → Work F
      → Option ℕ
      → Step F
  unfolding activate_record
  confirm_since definition snapshot timestamp generated w none = (err assertion_error, w)
  confirm_since definition snapshot timestamp generated w (some started) =
      if spans started timestamp definition.confirmation_duration_microseconds
      then activate_record definition snapshot timestamp generated w w.state.dtc
      else (ok generated, w)

  -- The end of `_handle_violation`: the record is confirmed once its condition has lasted.
  confirm : DiagnosticDefinition → TelemetrySnapshot F → ℕ → List DiagnosticEvent × Work F → Step F
  unfolding confirm_since
  confirm definition snapshot timestamp (generated, w) =
      confirm_since definition snapshot timestamp generated w w.state.condition_started

  violation_at :
      DiagnosticStatus
      → DiagnosticTroubleCode
      → DiagnosticDefinition
      → TelemetrySnapshot F
      → ℕ
      → Work F
      → Step F
  unfolding begin_pending continue_pending confirm
  violation_at active d definition snapshot timestamp w = (
    ok [],
    record w {
      state = record w.state {
        dtc = some (record d { last_seen_timestamp_microseconds = timestamp });
      };
    },
  )
  violation_at pending d definition snapshot timestamp w =
      confirm definition snapshot timestamp (continue_pending d timestamp w)
  violation_at historical d definition snapshot timestamp w =
      confirm definition snapshot timestamp (begin_pending definition (some historical) timestamp w)
  violation_at cleared d definition snapshot timestamp w =
      confirm definition snapshot timestamp (begin_pending definition (some cleared) timestamp w)

  violation_of :
      Option DiagnosticTroubleCode
      → DiagnosticDefinition
      → TelemetrySnapshot F
      → ℕ
      → Work F
      → Step F
  unfolding violation_at
  violation_of none definition snapshot timestamp w =
      confirm definition snapshot timestamp (begin_pending definition none timestamp w)
  violation_of (some d) definition snapshot timestamp w =
      violation_at d.status d definition snapshot timestamp w

  unfoldable pub handle_violation : DiagnosticDefinition → TelemetrySnapshot F → ℕ → Work F → Step F
  unfolding violation_of
  handle_violation definition snapshot timestamp w =
      violation_of w.state.dtc definition snapshot timestamp w

  recover : DiagnosticDefinition → ℕ → ℕ → DiagnosticTroubleCode → Work F → Step F
  recover definition started timestamp d w =
      let e =
        event_of w.log timestamp definition.code dtc_recovered (some active) (some historical) in
      if spans started timestamp definition.recovery_duration_microseconds
      then (
        ok (e ∷ []),
        record {
          state = record w.state {
            dtc = some (record d {
              status = historical;
              resolved_timestamp_microseconds = some timestamp;
            });
            recovery_started = none;
          };
          log = append_event e w.log;
        },
      )
      else (ok [], record w { state = record w.state { recovery_started = some started } })

  normal_at : DiagnosticStatus → DiagnosticTroubleCode → DiagnosticDefinition → ℕ → Work F → Step F
  unfolding fall_back recover
  normal_at pending d definition timestamp w =
      let origin = w.state.pending_origin in
      let e = event_of w.log timestamp definition.code condition_cleared (some pending) origin in
      (
        ok (e ∷ []),
        record {
          state = record w.state { dtc = fall_back origin d; pending_origin = none };
          log = append_event e w.log;
        },
      )
  normal_at active d definition timestamp w =
      recover definition (or_now w.state.recovery_started timestamp) timestamp d w
  normal_at historical d definition timestamp w =
      (ok [], record w { state = record w.state { recovery_started = none } })
  normal_at cleared d definition timestamp w =
      (ok [], record w { state = record w.state { recovery_started = none } })

  normal_of : Option DiagnosticTroubleCode → DiagnosticDefinition → ℕ → Work F → Step F
  unfolding normal_at
  normal_of none definition timestamp w = (ok [], w)
  normal_of (some d) definition timestamp w = normal_at d.status d definition timestamp w

  unfoldable pub handle_normal : DiagnosticDefinition → ℕ → Work F → Step F
  unfolding normal_of
  handle_normal definition timestamp w =
      normal_of w.state.dtc definition timestamp
        (record w { state = record w.state { condition_started = none } })

  -- What `_evaluate_rule` does with what the rule saw.
  unfoldable pub advance :
      DiagnosticDefinition → TelemetrySnapshot F → ℕ → Observation → Work F → Step F
  advance definition snapshot timestamp unusable w = (
    ok [],
    record w { state = record w.state { condition_started = none; recovery_started = none } },
  )
  advance definition snapshot timestamp (met violation) w =
      handle_violation definition snapshot timestamp
        (record w { state = record w.state { recovery_started = none } })
  advance definition snapshot timestamp (met normal) w = handle_normal definition timestamp w

-- ===== src/Diagnostics/Lifecycle/Timing.antt =====
-- diagnostics/engine.py: when a trouble code is confirmed and when it recovers, by what the rule
-- saw so far.
use tuner_os.Prelude.{
  ℕ, ◌≡◌, Bool, true, false, Option, none, some, List, [], ◌∷◌, ℤ, spans, ok, if◌then◌else◌,
}
use tuner_os.Diagnostics.Models.{
  DiagnosticStatus, pending, active, historical, cleared, DiagnosticDefinition,
  DiagnosticTroubleCode, DiagnosticEvent, DiagnosticFreezeFrame,
}
use tuner_os.Diagnostics.Rules.{normal, violation}
use tuner_os.Diagnostics.RuleState.{
  RuleState, EventLog, Observation, unusable, met, Work, Step, status_of, or_now,
}

-- What a rule saw and when, the newest first.
abbrev pub Seen : Type 0
Seen = List (ℕ × Observation)

-- The start of the violations, or of the normal results, that nothing has interrupted up to now.
abbrev pub violation_since : Seen → Option ℕ
violation_since [] = none
violation_since ((t, met violation) ∷ h) = some (or_now (violation_since h) t)
violation_since ((t, met normal) ∷ h) = none
violation_since ((t, unusable) ∷ h) = none

abbrev pub normal_since : Seen → Option ℕ
normal_since [] = none
normal_since ((t, met normal) ∷ h) = some (or_now (normal_since h) t)
normal_since ((t, met violation) ∷ h) = none
normal_since ((t, unusable) ∷ h) = none

abbrev pub sustained : Option ℕ → ℕ → ℤ → Bool
sustained none t d = false
sustained (some started) t d = spans started t d

-- The status after an observation at `t` that `h` begins with, by the status before and by the
-- status that a pending record came from.
abbrev pub next_status :
    DiagnosticDefinition
    → Seen
    → ℕ
    → Observation
    → Option DiagnosticStatus
    → Option DiagnosticStatus
    → Option DiagnosticStatus
next_status d h t unusable s origin = s
next_status d h t (met violation) (some active) origin = some active
next_status d h t (met violation) s origin =
    if sustained (violation_since h) t d.confirmation_duration_microseconds
    then some active
    else some pending
next_status d h t (met normal) none origin = none
next_status d h t (met normal) (some pending) origin = origin
next_status d h t (met normal) (some active) origin =
    if sustained (normal_since h) t d.recovery_duration_microseconds
    then some historical
    else some active
next_status d h t (met normal) (some historical) origin = some historical
next_status d h t (met normal) (some cleared) origin = some cleared

-- A pending record came from no record, or from one that was historical or cleared.
abbrev pub is_origin : Option DiagnosticStatus → Bool
is_origin none = true
is_origin (some historical) = true
is_origin (some cleared) = true
is_origin (some pending) = false
is_origin (some active) = false

-- The timers of a rule are the starts of what it saw.
abbrev pub Timers :
    Option DiagnosticStatus → Seen → Option ℕ → Option ℕ → Option DiagnosticStatus → Type 0
Timers (some pending) h cs rs origin = (cs ≡ violation_since h) × (is_origin origin ≡ true)
Timers (some active) h cs rs origin = rs ≡ normal_since h
Timers s h cs rs origin = violation_since h ≡ none

-- The status that a record which turns pending, or stays pending, came from.
abbrev pub entered : Option DiagnosticStatus → Option DiagnosticStatus → Option DiagnosticStatus
entered (some pending) origin = origin
entered s origin = s

abbrev pub Kept :
    Option DiagnosticStatus → Option DiagnosticStatus → Option DiagnosticStatus → Type 0
Kept (some pending) new old = new ≡ old
Kept s new old = Unit

module _ {F : Type 0} where
  abbrev pub Timed : Seen → RuleState F → Type 0
  Timed h s = Timers (status_of s.dtc) h s.condition_started s.recovery_started s.pending_origin

  -- The step returns, to the expected status, with the timers right.
  pub record Advances (d : DiagnosticDefinition) (h : Seen) (t : ℕ) (o : Observation)
      (s : RuleState F) (r : Step F) : Type 0 where
    pub returns : (es : List DiagnosticEvent) × (r.0 ≡ ok es)
    pub reaches :
        status_of r.1.state.dtc ≡ next_status d ((t, o) ∷ h) t o (status_of s.dtc) s.pending_origin
    pub origin_kept :
        Kept
          (status_of r.1.state.dtc)
          r.1.state.pending_origin
          (entered (status_of s.dtc) s.pending_origin)
    pub timed : Timed ((t, o) ∷ h) r.1.state

  abbrev pub work :
      Option DiagnosticTroubleCode
      → Option ℕ
      → Option ℕ
      → Option DiagnosticStatus
      → Option (DiagnosticFreezeFrame F)
      → EventLog
      → Work F
  work dtc cs rs origin frame log = record {
    state = record {
      dtc = dtc;
      condition_started = cs;
      recovery_started = rs;
      pending_origin = origin;
      freeze_frame = frame;
    };
    log = log;
  }

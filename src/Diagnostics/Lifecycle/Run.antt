-- ===== src/Diagnostics/Lifecycle/Run.antt =====
-- diagnostics/engine.py: a rule over all that it observed, from the state of a new engine.
use tuner_os.Prelude.{ℕ, ◌≡◌, refl, ap, ◌∙◌, Option, none, some, List, [], ◌∷◌, map, ok}
use tuner_os.Telemetry.Models.{TelemetrySnapshot}
use tuner_os.Diagnostics.Models.{
  DiagnosticStatus, pending, active, historical, cleared, DiagnosticDefinition, DiagnosticEvent,
}
use tuner_os.Diagnostics.Rules.{normal, violation}
use tuner_os.Diagnostics.RuleState.{
  new_rule_state, EventLog, Observation, unusable, met, Work, status_of,
}
use tuner_os.Diagnostics.Lifecycle.{advance}
use tuner_os.Diagnostics.Lifecycle.Timing.{Seen, next_status, entered, Kept, Timed}
use tuner_os.Diagnostics.Lifecycle.Advance.{advance-Advances}

-- The status that a history of observations, the newest first, calls for, and the status that a
-- pending record came from.
abbrev pub expected :
    DiagnosticDefinition → Seen → Option DiagnosticStatus × Option DiagnosticStatus
expected d [] = (none, none)
expected d ((t, o) ∷ h) =
    let before = expected d h in
    (next_status d ((t, o) ∷ h) t o before.0 before.1, entered before.0 before.1)

next_status-Kept :
    (d : DiagnosticDefinition) (h : Seen) (t : ℕ) (o : Observation) (s : Option DiagnosticStatus)
    (a b : Option DiagnosticStatus)
    → Kept s a b
    → next_status d h t o s a ≡ next_status d h t o s b
next_status-Kept d h t unusable s a b k = refl
next_status-Kept d h t (met violation) none a b k = refl
next_status-Kept d h t (met violation) (some pending) a b k = refl
next_status-Kept d h t (met violation) (some active) a b k = refl
next_status-Kept d h t (met violation) (some historical) a b k = refl
next_status-Kept d h t (met violation) (some cleared) a b k = refl
next_status-Kept d h t (met normal) none a b k = refl
next_status-Kept d h t (met normal) (some pending) a b k = k
next_status-Kept d h t (met normal) (some active) a b k = refl
next_status-Kept d h t (met normal) (some historical) a b k = refl
next_status-Kept d h t (met normal) (some cleared) a b k = refl

entered-Kept :
    (s : Option DiagnosticStatus) (a b : Option DiagnosticStatus)
    → Kept s a b
    → entered s a ≡ entered s b
entered-Kept none a b k = refl
entered-Kept (some pending) a b k = k
entered-Kept (some active) a b k = refl
entered-Kept (some historical) a b k = refl
entered-Kept (some cleared) a b k = refl

Kept-trans :
    (s : Option DiagnosticStatus) (a b c : Option DiagnosticStatus)
    → Kept s a b
    → b ≡ c
    → Kept s a c
Kept-trans none a b c k e = tt
Kept-trans (some pending) a b c k e = k ∙ e
Kept-trans (some active) a b c k e = tt
Kept-trans (some historical) a b c k e = tt
Kept-trans (some cleared) a b c k e = tt

-- A snapshot with the frame that it follows, the time of it, and what the rule saw in it.
pub record Evaluation (F : Type 0) : Type 0 where
  pub snapshot : TelemetrySnapshot F
  pub frame_sequence : ℕ
  pub numbered : snapshot.last_frame_sequence ≡ some frame_sequence
  pub timestamp : ℕ
  pub observation : Observation

module _ {F : Type 0} where
  abbrev pub seen : List (Evaluation F) → Seen
  seen = map (λ e. (e.timestamp, e.observation))

  unfoldable pub run : DiagnosticDefinition → EventLog → List (Evaluation F) → Work F
  run d log [] = record { state = new_rule_state F; log = log }
  run d log (e ∷ es) = (advance d e.snapshot e.timestamp e.observation (run d log es)).1

  record Follows (d : DiagnosticDefinition) (h : Seen) (w : Work F) : Type 0 where
    same : status_of w.state.dtc ≡ (expected d h).0
    origin : Kept (status_of w.state.dtc) w.state.pending_origin (expected d h).1
    timed : Timed h w.state

  Follows-run :
      (d : DiagnosticDefinition) (log : EventLog) (es : List (Evaluation F))
      → Follows d (seen es) (run d log es)
  unfolding run
  Follows-run d log [] = record { same = refl; origin = tt; timed = refl }
  Follows-run d log (e ∷ es) =
      let f = Follows-run d log es in
      let a =
        advance-Advances d e.snapshot e.frame_sequence e.numbered (seen es) e.timestamp
          e.observation (run d log es) f.timed in
      record {
        same =
            a.reaches
            ∙ next_status-Kept d (seen (e ∷ es)) e.timestamp e.observation _ _ _ f.origin
            ∙ ap
                (λ s.
                  next_status d (seen (e ∷ es)) e.timestamp e.observation s
                    (expected d (seen es)).1)
                f.same;
        origin =
            Kept-trans _ _ _ _ a.origin_kept
              (entered-Kept _ _ _ f.origin ∙ ap (λ s. entered s (expected d (seen es)).1) f.same);
        timed = a.timed;
      }

  -- However a rule's evaluations interleave violations, normal results and inputs that are missing
  -- or stale, the status of its record is the one that the observations call for: a violation makes
  -- it pending, and active once violations alone have lasted the confirmation duration; a normal
  -- result takes a pending record back to what it came from, and makes an active one historical
  -- once normal results alone have lasted the recovery duration.
  pub run-expected :
      (d : DiagnosticDefinition) (log : EventLog) (es : List (Evaluation F))
      → status_of (run d log es).state.dtc ≡ (expected d (seen es)).0
  run-expected d log es = (Follows-run d log es).same

  -- Every evaluation of a rule on numbered snapshots returns its events.
  pub advance-returns :
      (d : DiagnosticDefinition) (log : EventLog) (es : List (Evaluation F)) (e : Evaluation F)
      → (events : List DiagnosticEvent) × ((advance d e.snapshot e.timestamp e.observation
            (run d log es)).0
          ≡ ok events)
  advance-returns d log es e =
      (advance-Advances d e.snapshot e.frame_sequence e.numbered (seen es) e.timestamp e.observation
        (run d log es) (Follows-run d log es).timed).returns

-- ===== src/Diagnostics/Lifecycle/Advance.antt =====
-- diagnostics/engine.py, `_evaluate_rule`: each step reaches the status that the observations call
-- for.
use tuner_os.Prelude.{
  ℕ, ◌≡◌, refl, sym, ap, ◌∙◌, Result-cases, ok-ne-err, true, Option, none, some, List, [], ◌∷◌,
  spans, ok, if◌then◌else◌, inl, inr, Bool-cases,
}
use tuner_os.Telemetry.Models.{TelemetrySnapshot}
use tuner_os.Diagnostics.Models.{
  condition_detected, DiagnosticStatus, pending, active, historical, cleared, DiagnosticDefinition,
  DiagnosticTroubleCode, DiagnosticEvent, DiagnosticFreezeFrame,
}
use tuner_os.Diagnostics.Rules.{normal, violation}
use tuner_os.Diagnostics.FreezeFrame.{capture_freeze_frame}
use tuner_os.Diagnostics.RuleState.{
  RuleState, EventLog, Observation, unusable, met, Work, status_of, or_now, append_event, event_of,
  pending_record,
}
use tuner_os.Diagnostics.Lifecycle.{advance, handle_violation, handle_normal, freeze, activate}
use tuner_os.Diagnostics.Lifecycle.Timing.{
  Seen, violation_since, normal_since, sustained, next_status, is_origin, entered, Timed, Advances,
  work,
}

module _ {F : Type 0} where
  module _ (def : DiagnosticDefinition) (snap : TelemetrySnapshot F) (n : ℕ)
      (numbered : snap.last_frame_sequence ≡ some n) (h : Seen) (t : ℕ) (cs rs : Option ℕ)
      (po : Option DiagnosticStatus) (ff : Option (DiagnosticFreezeFrame F)) (log : EventLog) where
    abbrev detected : Option DiagnosticStatus → DiagnosticEvent
    detected origin = event_of log t def.code condition_detected origin (some pending)

    frozen : (f : DiagnosticFreezeFrame F) × (freeze def.code snap t ff ≡ ok f)
    unfolding freeze capture_freeze_frame
    frozen = elim ff as (λ k. (f : DiagnosticFreezeFrame F) × (freeze def.code snap t k ≡ ok f)) [
      | none ↦ elim (Result-cases (capture_freeze_frame def.code snap t)) [
        | inl done ↦ done
        | inr (x, e) ↦ absurd (ok-ne-err (rw numbered at e))
      ]
      | some f ↦ (f, refl)
    ]

    confirming :
        (s : RuleState F) (g : List DiagnosticEvent) (d : DiagnosticTroubleCode) (started : ℕ)
        (origin : Option DiagnosticStatus) (l : EventLog)
        → is_origin origin ≡ true
        → or_now (violation_since h) t ≡ started
        → origin ≡ entered (status_of s.dtc) s.pending_origin
        → next_status def
            ((t, met violation) ∷ h)
            t
            (met violation)
            (status_of s.dtc)
            s.pending_origin
          ≡ (if sustained
                (some (or_now (violation_since h) t))
                t
                def.confirmation_duration_microseconds
              then some active
              else some pending)
        → Advances def h t (met violation) s (
            if spans started t def.confirmation_duration_microseconds
            then activate def t g
                (work (some (record d { status = pending })) (some started) none origin ff l)
                (record d { status = pending })
                (freeze def.code snap t ff)
            else (
              ok g,
              work (some (record d { status = pending })) (some started) none origin ff l,
            ))
    unfolding activate
    confirming s g d started origin l from since from_old next =
        elim (Bool-cases (spans started t def.confirmation_duration_microseconds)) [
          | inl long ↦
              rw (long, frozen.1)
                (record {
                  returns = (_, refl);
                  reaches = sym (next ∙ rw (since, long));
                  origin_kept = tt;
                  timed = refl;
                })
          | inr short ↦ rw short (record {
            returns = (g, refl);
            reaches = sym (next ∙ rw (since, short));
            origin_kept = from_old;
            timed = (ap some (sym since), from);
          })
        ]

    advance-none :
        (o : Observation)
        → Timed h (work none cs rs po ff log).state
        → Advances def h t o
            (work none cs rs po ff log).state
            (advance def snap t o (work none cs rs po ff log))
    unfolding advance handle_violation handle_normal
    advance-none unusable v = record {
      returns = ([], refl);
      reaches = refl;
      origin_kept = tt;
      timed = refl;
    }
    advance-none (met normal) v = record {
      returns = ([], refl);
      reaches = refl;
      origin_kept = tt;
      timed = refl;
    }
    advance-none (met violation) v =
        confirming (work none cs rs po ff log).state (detected none ∷ [])
          (pending_record def none t) t none (append_event (detected none) log) refl (rw v) refl
          refl

    fallen :
        (o : Option DiagnosticStatus) (d : DiagnosticTroubleCode)
        → is_origin o ≡ true
        → Advances def h t
            (met normal)
            (work (some (record d { status = pending })) cs rs o ff log).state
            (advance def snap t
              (met normal)
              (work (some (record d { status = pending })) cs rs o ff log))
    unfolding advance handle_normal
    fallen none d from = record {
      returns = (_, refl);
      reaches = refl;
      origin_kept = tt;
      timed = refl;
    }
    fallen (some historical) d from = record {
      returns = (_, refl);
      reaches = refl;
      origin_kept = tt;
      timed = refl;
    }
    fallen (some cleared) d from = record {
      returns = (_, refl);
      reaches = refl;
      origin_kept = tt;
      timed = refl;
    }
    fallen (some pending) d from = absurd (cc)
    fallen (some active) d from = absurd (cc)

    recovering :
        (d : DiagnosticTroubleCode)
        → rs ≡ normal_since h
        → Advances def h t
            (met normal)
            (work (some (record d { status = active })) cs rs po ff log).state
            (advance def snap t
              (met normal)
              (work (some (record d { status = active })) cs rs po ff log))
    unfolding advance handle_normal
    recovering d since =
        elim (Bool-cases (spans (or_now rs t) t def.recovery_duration_microseconds)) [
          | inl long ↦ rw long (record {
            returns = (_, refl);
            reaches = rw (sym since, long);
            origin_kept = tt;
            timed = refl;
          })
          | inr short ↦ rw short (record {
            returns = (_, refl);
            reaches = rw (sym since, short);
            origin_kept = tt;
            timed = rw (sym since);
          })
        ]

    advance-some :
        (s : DiagnosticStatus) (d : DiagnosticTroubleCode) (o : Observation)
        → Timed h (work (some (record d { status = s })) cs rs po ff log).state
        → Advances def h t o
            (work (some (record d { status = s })) cs rs po ff log).state
            (advance def snap t o (work (some (record d { status = s })) cs rs po ff log))
    unfolding advance handle_violation handle_normal
    advance-some pending d unusable v = record {
      returns = ([], refl);
      reaches = refl;
      origin_kept = refl;
      timed = (refl, v.1);
    }
    advance-some active d unusable v = record {
      returns = ([], refl);
      reaches = refl;
      origin_kept = tt;
      timed = refl;
    }
    advance-some historical d unusable v = record {
      returns = ([], refl);
      reaches = refl;
      origin_kept = tt;
      timed = refl;
    }
    advance-some cleared d unusable v = record {
      returns = ([], refl);
      reaches = refl;
      origin_kept = tt;
      timed = refl;
    }
    advance-some pending d (met normal) v = fallen po d v.1
    advance-some active d (met normal) v = recovering d v
    advance-some historical d (met normal) v = record {
      returns = (_, refl);
      reaches = refl;
      origin_kept = tt;
      timed = refl;
    }
    advance-some cleared d (met normal) v = record {
      returns = (_, refl);
      reaches = refl;
      origin_kept = tt;
      timed = refl;
    }
    advance-some pending d (met violation) v =
        confirming (work (some (record d { status = pending })) cs rs po ff log).state []
          (record d { last_seen_timestamp_microseconds = t }) (or_now cs t) po log v.1 (rw v.0) refl
          refl
    advance-some active d (met violation) v = record {
      returns = (_, refl);
      reaches = refl;
      origin_kept = tt;
      timed = refl;
    }
    advance-some historical d (met violation) v =
        confirming (work (some (record d { status = historical })) cs rs po ff log).state
          (detected (some historical) ∷ [])
          (pending_record def (some (record d { status = historical })) t) t (some historical)
          (append_event (detected (some historical)) log) refl (rw v) refl refl
    advance-some cleared d (met violation) v =
        confirming (work (some (record d { status = cleared })) cs rs po ff log).state
          (detected (some cleared) ∷ [])
          (pending_record def (some (record d { status = cleared })) t) t (some cleared)
          (append_event (detected (some cleared)) log) refl (rw v) refl refl

    advance-any :
        (dtc : Option DiagnosticTroubleCode) (o : Observation)
        → Timed h (work dtc cs rs po ff log).state
        → Advances def h t o
            (work dtc cs rs po ff log).state
            (advance def snap t o (work dtc cs rs po ff log))
    advance-any none o v = advance-none o v
    advance-any (some d) o v = advance-some d.status d o v

-- A step from timers that are right returns, to the status that the observations call for, and
-- leaves the timers right.
pub advance-Advances :
    {F : Type 0} (def : DiagnosticDefinition) (snap : TelemetrySnapshot F) (n : ℕ)
    → snap.last_frame_sequence ≡ some n
    → (h : Seen) (t : ℕ) (o : Observation) (w : Work F) → Timed h w.state
    → Advances def h t o w.state (advance def snap t o w)
advance-Advances def snap n numbered h t o w =
    advance-any def snap n numbered h t w.state.condition_started w.state.recovery_started
      w.state.pending_origin w.state.freeze_frame w.log w.state.dtc o

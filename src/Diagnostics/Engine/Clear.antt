-- ===== src/Diagnostics/Engine/Clear.antt =====
-- diagnostics/engine.py, `clear`: which records may be cleared, and what that
-- changes.
use tuner_os.Prelude.{
  ℕ, String, ◌≡◌, refl, false, Option, none, some, ◌==◌, string_eq, Result, ok, err, Result-cases,
  >>=-eq-ok, inl, inr, assertion_error, diagnostic_clear_error, unknown_diagnostic_code_error,
}
use tuner_os.Prelude.Dict.{get, get-put, get-put_self}
use tuner_os.Diagnostics.Models.{
  DiagnosticStatus, pending, active, historical, cleared, dtc_cleared, DiagnosticTroubleCode,
}
use tuner_os.Diagnostics.Catalog
use tuner_os.Diagnostics.RuleState.{RuleState, event_of, append_event}
use tuner_os.Diagnostics.Engine.{
  DiagnosticEngine, clear, dtc, state_of, clear_state, clear_dtc, clear_status, clear_record,
}

-- The record that clearing a historical one at a time leaves.
abbrev pub as_cleared : DiagnosticTroubleCode → ℕ → DiagnosticTroubleCode
as_cleared d t = record d { status = cleared; cleared_timestamp_microseconds = some t }

module _ {F : Type 0} where
  -- What clearing a historical record does at the last observation.
  abbrev pub ClearsAt :
      DiagnosticEngine F
      → String
      → DiagnosticTroubleCode
      → Option ℕ
      → Result DiagnosticTroubleCode
      → DiagnosticEngine F
      → Type 0
  ClearsAt e code d none r e' = (r ≡ err assertion_error) × (e' ≡ e)
  ClearsAt e code d (some t) r e' =
      (r ≡ ok (as_cleared d t))
      × (dtc e' code ≡ ok (some (as_cleared d t)))
      × ((other : String) → (code == other) ≡ false → get e'.states other ≡ get e.states other)
      × (e'.log
          ≡ append_event (event_of e.log t code dtc_cleared (some historical) (some cleared)) e.log)

  -- What `clear` does, by the status of the record that is kept.
  abbrev pub ClearsStatus :
      DiagnosticEngine F
      → String
      → DiagnosticTroubleCode
      → DiagnosticStatus
      → Result DiagnosticTroubleCode
      → DiagnosticEngine F
      → Type 0
  ClearsStatus e code d pending r e' = (r ≡ err diagnostic_clear_error) × (e' ≡ e)
  ClearsStatus e code d active r e' = (r ≡ err diagnostic_clear_error) × (e' ≡ e)
  ClearsStatus e code d historical r e' =
      ClearsAt e code d e.observation_timestamp_microseconds r e'
  ClearsStatus e code d cleared r e' = (r ≡ ok d) × (e' ≡ e)

  -- What `clear` does, by what `dtc` returned before it.
  abbrev pub Clears :
      DiagnosticEngine F
      → String
      → Result (Option DiagnosticTroubleCode)
      → Result DiagnosticTroubleCode
      → DiagnosticEngine F
      → Type 0
  Clears e code (err x) r e' = (r ≡ err x) × (e' ≡ e)
  Clears e code (ok none) r e' = (r ≡ err unknown_diagnostic_code_error) × (e' ≡ e)
  Clears e code (ok (some d)) r e' = ClearsStatus e code d d.status r e'

  module _ (e : DiagnosticEngine F) (code : String) (state : RuleState F)
      (h : state_of e code ≡ ok state) where
    record-Clears :
        (d : DiagnosticTroubleCode) (t : Option ℕ)
        → ClearsAt e code d t (clear_record e code state d t).0 (clear_record e code state d t).1
    unfolding clear_record dtc
    record-Clears d none = (refl, refl)
    record-Clears d (some t) =
        let (rule, found, r) = >>=-eq-ok (Catalog.require e.catalog code) _ h in
        (
          refl,
          rw (found, get-put_self e.states code) refl,
          (λ other n. rw (get-put e.states code other, n) refl),
          refl,
        )

    status-Clears :
        (s : DiagnosticStatus) (d : DiagnosticTroubleCode)
        → ClearsStatus e code d s
            (clear_status s e code state d).0
            (clear_status s e code state d).1
    unfolding clear_status
    status-Clears pending d = (refl, refl)
    status-Clears active d = (refl, refl)
    status-Clears historical d = record-Clears d e.observation_timestamp_microseconds
    status-Clears cleared d = (refl, refl)

    dtc-Clears :
        (o : Option DiagnosticTroubleCode)
        → Clears e code (ok o) (clear_dtc e code state o).0 (clear_dtc e code state o).1
    unfolding clear_dtc
    dtc-Clears none = (refl, refl)
    dtc-Clears (some d) = status-Clears d.status d

  -- Clearing a code, by the record that `dtc` gave before. A code that `dtc` refuses is refused with
  -- the same error, one without a record is unknown, and a pending or active record is not cleared:
  -- each of these raises and changes nothing. A cleared record is returned and nothing changes. A
  -- historical record is returned as cleared at the time of the last observation, which is what
  -- `dtc` then gives; one event is appended and the other codes stay as they were; only with no
  -- observation at all does it raise, and change nothing.
  pub clear-Clears :
      (e : DiagnosticEngine F) (code : String)
      → Clears e code (dtc e code) (clear e code).0 (clear e code).1
  unfolding clear clear_state dtc
  clear-Clears e code = elim (Result-cases (state_of e code)) [
    | inl (state, h) ↦ rw h (dtc-Clears e code state h state.dtc)
    | inr (x, h) ↦ rw h (refl, refl)
  ]

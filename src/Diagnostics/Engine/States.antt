-- ===== src/Diagnostics/Engine/States.antt =====
-- diagnostics/engine.py: the state of each rule stays where it was put.
use tuner_os.Prelude.{
  ℕ, String, ◌≡◌, refl, sym, ◌∙◌, true, Option, none, some, List, [], ◌∷◌, Result, ok, err, Error,
  string_eq, ◌==◌, Bool-cases, inl, inr, or_raise, unknown_diagnostic_code_error, key_error, All,
  subst,
}
use tuner_os.Prelude.Dict.{get, get-put}
use tuner_os.Telemetry.Models.{TelemetrySnapshot}
use tuner_os.Telemetry.Catalog.{is_some}
use tuner_os.Telemetry.Engine.{precedes}
use tuner_os.Diagnostics.Models.{DiagnosticEvent, DiagnosticTroubleCode, DiagnosticFreezeFrame}
use tuner_os.Diagnostics.Rules.{FloatOps}
use tuner_os.Diagnostics.Catalog.{DiagnosticRule, find}
use tuner_os.Diagnostics.RuleState.{RuleState, Step}
use tuner_os.Diagnostics.Lifecycle.Evaluation.{evaluate_rule}
use tuner_os.Diagnostics.Engine.{
  DiagnosticEngine, ingest, ingest_at, evaluate_rules, evaluate_in, then_rules, keep_step, dtc,
  freeze_frame,
}

module _ {F : Type 0} where
  -- Each rule of the catalog is found by its code, and has a state.
  unfoldable pub HasStates : DiagnosticEngine F → Type 0
  HasStates e =
      All
        (λ (rule : DiagnosticRule F).
          (is_some (find e.catalog rule.definition.code) ≡ true)
          × (is_some (get e.states rule.definition.code) ≡ true))
        e.catalog.rules

  -- The same catalog, and no state is lost.
  Keeps : DiagnosticEngine F → DiagnosticEngine F → Type 0
  Keeps a b =
      (b.catalog ≡ a.catalog)
      × ((code : String) → is_some (get a.states code) ≡ true → is_some (get b.states code) ≡ true)

  Keeps-refl : (a : DiagnosticEngine F) → Keeps a a
  unfolding Keeps
  Keeps-refl a = (refl, λ code h. h)

  Keeps-trans : (a b c : DiagnosticEngine F) → Keeps a b → Keeps b c → Keeps a c
  unfolding Keeps
  Keeps-trans a b c (p, f) (q, g) = (q ∙ p, λ code h. g code (f code h))

  All-map :
      (rules : List (DiagnosticRule F)) (P Q : DiagnosticRule F → Type 0)
      → ((rule : DiagnosticRule F) → P rule → Q rule)
      → All P rules
      → All Q rules
  All-map [] P Q f h = tt
  All-map (rule ∷ rest) P Q f h = (f rule h.0, All-map rest P Q f h.1)

  HasStates-Keeps : (a b : DiagnosticEngine F) → Keeps a b → HasStates a → HasStates b
  unfolding Keeps HasStates
  HasStates-Keeps a b (same, kept) h =
      subst
        (λ c.
          All
            (λ (rule : DiagnosticRule F).
              (is_some (find c rule.definition.code) ≡ true)
              × (is_some (get b.states rule.definition.code) ≡ true))
            c.rules)
        (sym same) (All-map a.catalog.rules _ _ (λ rule r. (r.0, kept rule.definition.code r.1)) h)

module _ {F : Type 0} ⦃ops : FloatOps F⦄ where
  keep_step-Keeps :
      (e : DiagnosticEngine F) (code : String) (step : Step F) → Keeps e (keep_step e code step).1
  unfolding Keeps keep_step
  keep_step-Keeps e code (r, w) = (
    refl,
    λ j h.
        subst (λ o. is_some o ≡ true) (sym (get-put e.states code j w.state))
          (elim (Bool-cases (code == j)) [ inl t ↦ rw t refl | inr f ↦ rw f h ]),
  )

  evaluate_in-Keeps :
      (rule : DiagnosticRule F) (s : TelemetrySnapshot F) (t : ℕ) (e : DiagnosticEngine F)
      (state : Option (RuleState F))
      → Keeps e (evaluate_in rule s t e state).1
  unfolding evaluate_in
  evaluate_in-Keeps rule s t e none = Keeps-refl e
  evaluate_in-Keeps rule s t e (some state) =
      keep_step-Keeps e rule.definition.code
        (evaluate_rule rule s t (record { state = state; log = e.log }))

  then_rules-Keeps :
      (e : DiagnosticEngine F)
      (rest : DiagnosticEngine F → Result (List DiagnosticEvent) × DiagnosticEngine F)
      (first : Result (List DiagnosticEvent) × DiagnosticEngine F)
      → ((e : DiagnosticEngine F) → Keeps e (rest e).1)
      → Keeps e first.1
      → Keeps e (then_rules rest first).1
  unfolding then_rules
  then_rules-Keeps e rest (err x, e') all_rest k = k
  then_rules-Keeps e rest (ok events, e') all_rest k = Keeps-trans e e' (rest e').1 k (all_rest e')

  evaluate_rules-Keeps :
      (rules : List (DiagnosticRule F)) (s : TelemetrySnapshot F) (t : ℕ) (e : DiagnosticEngine F)
      → Keeps e (evaluate_rules rules s t e).1
  unfolding evaluate_rules
  evaluate_rules-Keeps [] s t e = Keeps-refl e
  evaluate_rules-Keeps (rule ∷ rest) s t e =
      then_rules-Keeps e (evaluate_rules rest s t)
        (evaluate_in rule s t e (get e.states rule.definition.code)) (evaluate_rules-Keeps rest s t)
        (evaluate_in-Keeps rule s t e (get e.states rule.definition.code))

  ingest_at-Keeps :
      (s : TelemetrySnapshot F) (e : DiagnosticEngine F) (t : Option ℕ)
      → Keeps e (ingest_at s e t).1
  unfolding ingest_at Keeps
  ingest_at-Keeps s e none = Keeps-refl e
  ingest_at-Keeps s e (some t) =
      elim (Bool-cases (precedes t e.observation_timestamp_microseconds)) [
        | inl early ↦ rw early (Keeps-refl e)
        | inr fine ↦ rw fine (evaluate_rules-Keeps e.catalog.rules s t _)
      ]

  pub ingest-HasStates :
      (s : TelemetrySnapshot F) (e : DiagnosticEngine F) → HasStates e → HasStates (ingest s e).1
  unfolding ingest
  ingest-HasStates s e h =
      HasStates-Keeps e _ (ingest_at-Keeps s e s.observation_timestamp_microseconds) h

found {ℓ} :
    {A : Type ℓ} (o : Option A) (x : Error) → is_some o ≡ true → (a : A) × (or_raise o x ≡ ok a)
found none x h = cc
found (some a) x h = (a, refl)

module _ {F : Type 0} where
  -- The state of a code that has one: its record and its freeze frame can be read.
  pub reads_state :
      (e : DiagnosticEngine F) (code : String)
      → is_some (find e.catalog code) ≡ true
      → is_some (get e.states code) ≡ true
      → (d : Option DiagnosticTroubleCode) × (f : Option (DiagnosticFreezeFrame F)) × (dtc e code
          ≡ ok d)
        × (freeze_frame e code ≡ ok f)
  unfolding dtc freeze_frame
  reads_state e code known kept =
      let (rule, r) = found (find e.catalog code) unknown_diagnostic_code_error known in
      let (state, s) = found (get e.states code) key_error kept in
      (state.dtc, state.freeze_frame, rw r (rw s refl), rw r (rw s refl))

-- ===== src/Investigation/Analysis/Progress.antt =====
-- investigation/service.py: the loop of `investigate` ends with a result.
use tuner_os.Prelude.{
  ℕ, ◌+◌, ◌≤◌, ◌<◌, ◌≡◌, refl, sym, ap, ◌∙◌, Bool, true, false, Option, none, some, List, [], ◌∷◌,
  arith, ok, if◌then◌else◌, length, leb, ltb, ok_injective, >>=-eq-ok, Bool-cases, inl, inr,
  length-append, subst, All, filter-append, string_eq,
}
use tuner_os.Can.Models.{RawCanFrame}
use tuner_os.Can.Decoder.{decode}
use tuner_os.Can.Explorer.{ingest as explorer_ingest}
use tuner_os.Telemetry.Engine.{ingest as engine_ingest, snapshot}
use tuner_os.Telemetry.Catalog.{is_some}
use tuner_os.Prelude.Dict.{get}
use tuner_os.Diagnostics.Rules.{FloatOps}
use tuner_os.Diagnostics.Catalog.{DiagnosticRule, find}
use tuner_os.Diagnostics.Engine.{DiagnosticEngine, ingest as diagnostics_ingest}
use tuner_os.Diagnostics.Engine.States.{HasStates, ingest-HasStates, reads_state}
use tuner_os.Diagnostics.Models.{DiagnosticFreezeFrame}
use tuner_os.Investigation.Models.{
  InvestigationWindow, max_investigation_raw_frames, DiagnosticStateAtTime,
}
use tuner_os.Investigation.Analysis.{
  Pipeline, Observation, Findings, Analysis, CenterStates, capture_in, capture_center, include,
  gather, collect, observe, include_frame, analyse_frame, analyse, states_now, states_of,
  freeze_frames_of, state_at_time,
}
use tuner_os.Investigation.Analysis.Gathering.{observe_all, from_start}
use tuner_os.Investigation.Analysis.Outcome.{not_after, leb_of_ltb-true, leb_of_ltb-false}

leb_of_lt : (a b : ℕ) → b < a → leb a b ≡ false
leb_of_lt a b h = ground arith

module _ {F : Type 0} where
  -- The rules that have a state: their states and freeze frames can be captured.
  captured_of :
      (e : DiagnosticEngine F) (rules : List (DiagnosticRule F))
      → All
          (λ (rule : DiagnosticRule F).
            (is_some (find e.catalog rule.definition.code) ≡ true)
            × (is_some (get e.states rule.definition.code) ≡ true))
          rules
      → (states : List DiagnosticStateAtTime) × (frames : List (DiagnosticFreezeFrame F))
        × (states_of e rules ≡ ok states)
        × (freeze_frames_of e rules ≡ ok frames)
  unfolding states_of freeze_frames_of
  captured_of e [] h = ([], [], refl, refl)
  captured_of e (rule ∷ rest) h =
      let (d, f, is_d, is_f) = reads_state e rule.definition.code h.0.0 h.0.1 in
      let (states, frames, is_states, is_frames) = captured_of e rest h.1 in
      (
        state_at_time rule d ∷ states,
        elim f [ none ↦ frames | some x ↦ x ∷ frames ],
        rw is_d (rw is_states refl),
        rw is_f (rw is_frames refl),
      )

  pub states_now-returns :
      (e : DiagnosticEngine F) → HasStates e → (c : CenterStates F) × (states_now e ≡ ok c)
  unfolding states_now HasStates
  states_now-returns e h =
      let (states, frames, is_states, is_frames) = captured_of e e.catalog.rules h in
      (record { states = states; freeze_frames = frames }, rw is_states (rw is_frames refl))

  capture_in-returns :
      (center : Option (CenterStates F)) (a : Analysis F)
      → HasStates a.pipeline.diagnostics
      → (c : Option (CenterStates F)) × (capture_in center a ≡ ok (record a { center = c }))
  unfolding capture_in
  capture_in-returns (some states) a h = (a.center, refl)
  capture_in-returns none a h =
      let (c, e) = states_now-returns a.pipeline.diagnostics h in (some c, rw e refl)

  capture_if-returns :
      (later : Bool) (a : Analysis F)
      → HasStates a.pipeline.diagnostics
      → (c : Option (CenterStates F)) × ((if later then capture_center a else ok a)
          ≡ ok (record a { center = c }))
  unfolding capture_center
  capture_if-returns true a h = capture_in-returns a.center a h
  capture_if-returns false a h = (a.center, refl)

module _ {F : Type 0} ⦃ops : FloatOps F⦄ where
  observe-HasStates :
      (p p' : Pipeline F) (f : RawCanFrame) (o : Observation F)
      → observe p f ≡ ok (o, p')
      → HasStates p.diagnostics
      → HasStates p'.diagnostics
  unfolding observe
  observe-HasStates p p' f o h has =
      let (annotated, a, h1) = >>=-eq-ok (explorer_ingest p.explorer f).0 _ h in
      let (decoded, d, h2) = >>=-eq-ok (decode p.decoder f) _ h1 in
      let (samples, s, h3) = >>=-eq-ok (engine_ingest p.engine decoded).0 _ h2 in
      let (snap, n, h4) = >>=-eq-ok (snapshot (engine_ingest p.engine decoded).1 none) _ h3 in
      let (events, e, h5) = >>=-eq-ok (diagnostics_ingest snap p.diagnostics).0 _ h4 in
      subst (λ (r : Observation F × Pipeline F). HasStates r.1.diagnostics) (ok_injective h5)
        (ingest-HasStates snap p.diagnostics has)

  module _ (w : InvestigationWindow) where
    collect-returns :
        (o : Observation F) (s : Findings F) (n : ℕ)
        → length s.raw_frames + (length (from_start w (o ∷ [])) + n) ≤ max_investigation_raw_frames
        → (collect w o s ≡ ok (gather w o s))
          × (length (gather w o s).raw_frames + n ≤ max_investigation_raw_frames)
    unfolding collect gather include
    collect-returns o s n room =
        elim (Bool-cases (leb w.start_timestamp_microseconds o.timestamp)) [
          | inl late ↦
              let one : length s.raw_frames + (1 + n) ≤ max_investigation_raw_frames =
                rw late at room in
              let free =
                leb_of_lt max_investigation_raw_frames (length s.raw_frames) (omega (arith, one)) in
              (
                rw (late, free) refl,
                rw late (omega (arith, one, length-append s.raw_frames (o.annotated ∷ []))),
              )
          | inr early ↦
              let none_left : length s.raw_frames + (0 + n) ≤ max_investigation_raw_frames =
                rw early at room in
              (rw early refl, rw early (omega (arith, none_left)))
        ]

    include_frame-returns :
        (f : RawCanFrame) (a : Analysis F) (o : Observation F) (p : Pipeline F) (n : ℕ)
        → observe a.pipeline f ≡ ok (o, p)
        → length a.findings.raw_frames + (length (from_start w (o ∷ [])) + n)
          ≤ max_investigation_raw_frames
        → (include_frame w f a ≡ ok (record a { pipeline = p; findings = gather w o a.findings }))
          × (length (gather w o a.findings).raw_frames + n ≤ max_investigation_raw_frames)
    unfolding include_frame
    include_frame-returns f a o p n seen room =
        let (kept, left) = collect-returns o a.findings n room in (rw seen (rw kept refl), left)

    length-from_start_cons :
        (o : Observation F) (os : List (Observation F))
        → length (from_start w (o ∷ os)) ≡ length (from_start w (o ∷ [])) + length (from_start w os)
    length-from_start_cons o os =
        ap length (filter-append (λ x. leb w.start_timestamp_microseconds x.timestamp) (o ∷ []) os)
        ∙ length-append (from_start w (o ∷ [])) (from_start w os)

    -- Enough room, and a state of each rule: what the loop needs to return, besides frames that the
    -- pipeline accepts.
    pub analyse-returns :
        (fs : List RawCanFrame) (a : Analysis F) (os : List (Observation F)) (end : Pipeline F)
        → HasStates a.pipeline.diagnostics
        → observe_all (not_after w fs) a.pipeline ≡ ok (os, end)
        → length a.findings.raw_frames + length (from_start w os) ≤ max_investigation_raw_frames
        → (c : Analysis F) × (analyse w fs a ≡ ok c)
    unfolding analyse analyse_frame observe_all
    analyse-returns [] a os end has seen room = (a, refl)
    analyse-returns (f ∷ rest) a os end has seen room =
        let (center, is_captured) =
          capture_if-returns (ltb w.center_timestamp_microseconds f.timestamp_microseconds) a has in
        elim (Bool-cases (ltb w.end_timestamp_microseconds f.timestamp_microseconds)) [
          | inl out ↦
              let (c, done) =
                analyse-returns rest (record a { center = center }) os end has
                  (rw (leb_of_ltb-true _ _ out) at seen) room in
              (c, rw is_captured (rw out done))
          | inr in_time ↦
              let ((o, p), first, h1) =
                >>=-eq-ok (observe a.pipeline f) _ (rw (leb_of_ltb-false _ _ in_time) at seen) in
              let ((later, last), others, h2) = >>=-eq-ok (observe_all (not_after w rest) p) _ h1 in
              let whole = ok_injective h2 in
              let room' =
                subst (λ n. length a.findings.raw_frames + n ≤ max_investigation_raw_frames)
                  (length-from_start_cons o later)
                  (subst
                    (λ (r : List (Observation F) × Pipeline F).
                      length a.findings.raw_frames + length (from_start w r.0)
                      ≤ max_investigation_raw_frames)
                    (sym whole) room) in
              let (kept, left) =
                include_frame-returns f (record a { center = center }) o p _ first room' in
              let (c, done) =
                analyse-returns rest
                  (record { pipeline = p; findings = gather w o a.findings; center = center }) later
                  last (observe-HasStates a.pipeline p f o first has) others left in
              (c, rw is_captured (rw in_time (rw kept done)))
        ]

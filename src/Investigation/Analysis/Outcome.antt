-- ===== src/Investigation/Analysis/Outcome.antt =====
-- investigation/service.py: the loop of `investigate` as a whole.
use tuner_os.Prelude.{
  ℕ, ◌≤◌, ◌<◌, ◌≡◌, refl, ap, ◌∙◌, Bool, true, false, Option, none, some, List, [], ◌∷◌, arith, ok,
  if◌then◌else◌, length, leb, ltb, ◌&&◌, filter, ok_injective, >>=-eq-ok, raise_if-passed,
  Bool-cases, inl, inr, length-append, subst,
}
use tuner_os.Can.Models.{RawCanFrame}
use tuner_os.Diagnostics.Rules.{FloatOps}
use tuner_os.Investigation.Models.{InvestigationWindow, max_investigation_raw_frames}
use tuner_os.Investigation.Analysis.{
  Observation, Findings, Analysis, CenterStates, capture_in, capture_center, include, gather,
  collect, observe, include_frame, analyse_frame, analyse, states_now,
}
use tuner_os.Investigation.Analysis.Gathering.{
  observe_all, gather_all, IsReadingOf, gather_all-IsReadingOf,
}

-- The frames that are not after the window.
abbrev pub not_after : InvestigationWindow → List RawCanFrame → List RawCanFrame
not_after w = filter (λ f. leb f.timestamp_microseconds w.end_timestamp_microseconds)

lt_of_leb : (a b : ℕ) → leb a b ≡ false → b < a
lt_of_leb a b h = ground arith

pub leb_of_ltb-true : (a b : ℕ) → ltb b a ≡ true → leb a b ≡ false
leb_of_ltb-true a b h = ground arith

pub leb_of_ltb-false : (a b : ℕ) → ltb b a ≡ false → leb a b ≡ true
leb_of_ltb-false a b h = ground arith

module _ {F : Type 0} where
  -- No evidence beyond the limit.
  unfoldable pub WithinLimit : Findings F → Type 0
  WithinLimit s = length s.raw_frames ≤ max_investigation_raw_frames

  gather-WithinLimit :
      (w : InvestigationWindow) (o : Observation F) (s : Findings F)
      → (leb w.start_timestamp_microseconds o.timestamp
          && leb max_investigation_raw_frames (length s.raw_frames))
        ≡ false
      → WithinLimit s
      → WithinLimit (gather w o s)
  unfolding WithinLimit gather include
  gather-WithinLimit w o s room h =
      elim (Bool-cases (leb w.start_timestamp_microseconds o.timestamp)) [
        | inl late ↦
            let free : leb max_investigation_raw_frames (length s.raw_frames) ≡ false =
              rw late at room in
            rw late (
              omega (
                arith,
                lt_of_leb max_investigation_raw_frames (length s.raw_frames) free,
                length-append s.raw_frames (o.annotated ∷ []),
              ))
        | inr early ↦ rw early h
      ]

  collect-gathers :
      (w : InvestigationWindow) (o : Observation F) (s : Findings F) {s' : Findings F}
      → collect w o s ≡ ok s'
      → (gather w o s ≡ s') × (WithinLimit s → WithinLimit s')
  unfolding collect
  collect-gathers w o s h =
      let (room, e) = raise_if-passed _ _ _ h in
      (ok_injective e, λ l. subst WithinLimit (ok_injective e) (gather-WithinLimit w o s room l))

  capture_in-keeps :
      (center : Option (CenterStates F)) (a : Analysis F) {a' : Analysis F}
      → capture_in center a ≡ ok a'
      → (a.pipeline ≡ a'.pipeline) × (a.findings ≡ a'.findings)
  unfolding capture_in
  capture_in-keeps (some states) a h = (
    ap (λ (x : Analysis F). x.pipeline) (ok_injective h),
    ap (λ (x : Analysis F). x.findings) (ok_injective h),
  )
  capture_in-keeps none a h =
      let (states, found, e) = >>=-eq-ok (states_now a.pipeline.diagnostics) _ h in
      (
        ap (λ (x : Analysis F). x.pipeline) (ok_injective e),
        ap (λ (x : Analysis F). x.findings) (ok_injective e),
      )

  pub capture_center-keeps :
      (a : Analysis F) {a' : Analysis F}
      → capture_center a ≡ ok a'
      → (a.pipeline ≡ a'.pipeline) × (a.findings ≡ a'.findings)
  unfolding capture_center
  capture_center-keeps a h = capture_in-keeps a.center a h

  module _ (w : InvestigationWindow) where
    capture_if-keeps :
        (later : Bool) (a : Analysis F) {a' : Analysis F}
        → (if later then capture_center a else ok a) ≡ ok a'
        → (a.pipeline ≡ a'.pipeline) × (a.findings ≡ a'.findings)
    unfolding capture_center
    capture_if-keeps true a h = capture_in-keeps a.center a h
    capture_if-keeps false a h = (
      ap (λ (x : Analysis F). x.pipeline) (ok_injective h),
      ap (λ (x : Analysis F). x.findings) (ok_injective h),
    )

module _ {F : Type 0} ⦃ops : FloatOps F⦄ where
  -- What the loop did, from `before` to `after`: the frames `fs` were observed in turn, with nothing
  -- left out, and the findings are a reading of these observations.
  pub record Analysed (w : InvestigationWindow) (fs : List RawCanFrame) (before after : Analysis F)
      : Type 0 where
    pub observations : List (Observation F)
    pub observed : observe_all (not_after w fs) before.pipeline ≡ ok (observations, after.pipeline)
    pub gathered : gather_all w observations before.findings ≡ after.findings
    pub within_limit : WithinLimit before.findings → WithinLimit after.findings

  module _ (w : InvestigationWindow) where
    include_frame-observes :
        (f : RawCanFrame) (a : Analysis F) {a' : Analysis F}
        → include_frame w f a ≡ ok a'
        → (o : Observation F) × (observe a.pipeline f ≡ ok (o, a'.pipeline))
          × (gather w o a.findings ≡ a'.findings)
          × (WithinLimit a.findings → WithinLimit a'.findings)
    unfolding include_frame
    include_frame-observes f a h =
        let (r, seen, h1) = >>=-eq-ok (observe a.pipeline f) _ h in
        let (s, kept, h2) = >>=-eq-ok (collect w r.0 a.findings) _ h1 in
        let (g, l) = collect-gathers w r.0 a.findings kept in
        let e = ok_injective h2 in
        (
          r.0,
          seen ∙ ap (λ (x : Analysis F). ok (r.0, x.pipeline)) e,
          g ∙ ap (λ (x : Analysis F). x.findings) e,
          λ k. subst (λ (x : Analysis F). WithinLimit x.findings) e (l k),
        )

    skipped :
        (f : RawCanFrame) (rest : List RawCanFrame) (a b c : Analysis F)
        → leb f.timestamp_microseconds w.end_timestamp_microseconds ≡ false
        → (a.pipeline ≡ b.pipeline) × (a.findings ≡ b.findings)
        → Analysed w rest b c
        → Analysed w (f ∷ rest) a c
    skipped f rest a b c out (p, s) done = record {
      observations = done.observations;
      observed = rw out (ap (observe_all (not_after w rest)) p ∙ done.observed);
      gathered = ap (gather_all w done.observations) s ∙ done.gathered;
      within_limit = λ l. done.within_limit (subst WithinLimit s l);
    }

    included :
        (f : RawCanFrame) (rest : List RawCanFrame) (a b c : Analysis F) (o : Observation F)
        → leb f.timestamp_microseconds w.end_timestamp_microseconds ≡ true
        → observe a.pipeline f ≡ ok (o, b.pipeline)
        → gather w o a.findings ≡ b.findings
        → (WithinLimit a.findings → WithinLimit b.findings)
        → Analysed w rest b c
        → Analysed w (f ∷ rest) a c
    unfolding observe_all gather_all
    included f rest a b c o in_time seen g l done = record {
      observations = o ∷ done.observations;
      observed = rw in_time (rw seen (rw done.observed refl));
      gathered = ap (gather_all w done.observations) g ∙ done.gathered;
      within_limit = λ k. done.within_limit (l k);
    }

    analyse_frame-then :
        (f : RawCanFrame) (rest : List RawCanFrame) (a b c : Analysis F)
        → analyse_frame w f a ≡ ok b
        → Analysed w rest b c
        → Analysed w (f ∷ rest) a c
    unfolding analyse_frame
    analyse_frame-then f rest a b c h done =
        let (captured, is_captured, h1) =
          >>=-eq-ok
            (if ltb w.center_timestamp_microseconds f.timestamp_microseconds
              then capture_center a
              else ok a)
            _ h in
        let (p, s) = capture_if-keeps w _ a is_captured in
        elim (Bool-cases (ltb w.end_timestamp_microseconds f.timestamp_microseconds)) [
          | inl out ↦
              let e = ok_injective (rw out at h1) in
              skipped f rest a b c (leb_of_ltb-true _ _ out)
                (
                  p ∙ ap (λ (x : Analysis F). x.pipeline) e,
                  s ∙ ap (λ (x : Analysis F). x.findings) e,
                )
                done
          | inr in_time ↦
              let (o, seen, g, l) = include_frame-observes f captured (rw in_time at h1) in
              included f rest a b c o (leb_of_ltb-false _ _ in_time)
                (ap (λ x. observe x f) p ∙ seen) (ap (gather w o) s ∙ g)
                (λ k. l (subst WithinLimit s k)) done
        ]

    pub analyse-Analysed :
        (fs : List RawCanFrame) (a : Analysis F) {c : Analysis F}
        → analyse w fs a ≡ ok c
        → Analysed w fs a c
    unfolding analyse observe_all gather_all
    analyse-Analysed [] a h = record {
      observations = [];
      observed = ap (λ (x : Analysis F). ok ([], x.pipeline)) (ok_injective h);
      gathered = ap (λ (x : Analysis F). x.findings) (ok_injective h);
      within_limit =
          subst (λ (x : Analysis F). WithinLimit a.findings → WithinLimit x.findings)
            (ok_injective h) (λ l. l);
    }
    analyse-Analysed (f ∷ rest) a h =
        let (b, first, h1) = >>=-eq-ok (analyse_frame w f a) _ h in
        analyse_frame-then f rest a b _ first (analyse-Analysed rest b h1)

    -- When the loop returns, the frames not after the window went through the pipeline one by one,
    -- and what it collected is a reading of what they showed: the frames, events, sample counts and
    -- series from the start of the window on, and of each selected signal the last sample up to the
    -- start; with no more raw frames than the limit.
    pub analyse-reads :
        (fs : List RawCanFrame) (a c : Analysis F)
        → analyse w fs a ≡ ok c
        → WithinLimit a.findings
        → (os : List (Observation F)) × (observe_all (not_after w fs) a.pipeline
            ≡ ok (os, c.pipeline))
          × IsReadingOf w os a.findings c.findings
          × WithinLimit c.findings
    analyse-reads fs a c h l =
        let done = analyse-Analysed fs a h in
        (
          done.observations,
          done.observed,
          subst (IsReadingOf w done.observations a.findings) done.gathered
              (gather_all-IsReadingOf w done.observations a.findings),
          done.within_limit l,
        )

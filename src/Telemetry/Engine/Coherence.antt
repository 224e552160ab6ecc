-- ===== src/Telemetry/Engine/Coherence.antt =====
-- telemetry/engine.py, `ingest`: every latest sample has a definition in the catalog and is not
-- later than the latest timestamp.
use tuner_os.Prelude.{
  ℕ, ◌≤◌, ◌≡◌, refl, sym, ap, subst, ◌∙◌, inl, inr, false, Option, none, some, List, [], ◌∷◌,
  String, arith, ok, >>=-eq-ok, ok_injective, ok-ne-err, Result-cases, All, or_raise,
  raise_if-passed, or_raise-found, nat_eq,
}
use tuner_os.Prelude.Dict.{Dict, get, All-put}
use tuner_os.Can.Models.{DecodedCanFrame, SignalValue}
use tuner_os.Telemetry.Models.{SignalKey, key_eq, SignalSample}
use tuner_os.Telemetry.Catalog.{
  SignalCatalog, SignalDefinition, find, require, definitions_of_signals, definitions_for_frame,
}
use tuner_os.Telemetry.Engine.{
  TelemetryEngine, samples_of, sample_of, record_sample, record_samples, prepare, ingest,
  count_frame, precedes,
}
use tuner_os.Telemetry.Engine.History.{run, keep-record_samples}

-- The index of the catalog files every definition under its own key.
abbrev pub IsKeyed : SignalCatalog → Type 0
IsKeyed c = (k : SignalKey) (d : SignalDefinition) → find c k ≡ some d → d.key ≡ k

abbrev pub Known : SignalCatalog → SignalKey → Type 0
Known c k = (d : SignalDefinition) × (find c k ≡ some d)

abbrev key_named : String → String → SignalKey
key_named m s = record { message_name = m; signal_name = s }

module _ {F : Type 0} where
  -- An entry of `latest_samples`, at the latest timestamp `t`.
  abbrev pub Entry : SignalCatalog → ℕ → SignalKey × SignalSample F → Type 0
  Entry c t p = Known c p.0 × (p.1.timestamp_microseconds ≤ t)

  abbrev pub Entries : SignalCatalog → Option ℕ → Dict SignalKey (SignalSample F) → Type 0
  Entries c none l = l ≡ []
  Entries c (some t) l = All (Entry c t) l

  abbrev IsCoherent : TelemetryEngine F → Type 0
  IsCoherent e = Entries e.catalog e.latest_timestamp_microseconds e.latest_samples

  -- What `prepare` builds from a frame at time `t`.
  abbrev Prepared : SignalCatalog → ℕ → SignalSample F → Type 0
  Prepared c t s = Known c s.key × (s.timestamp_microseconds ≡ t)

  definitions-Known :
      (c : SignalCatalog) (name : String) (vs : Dict String (SignalValue F))
      (ds : List SignalDefinition)
      → IsKeyed c
      → definitions_of_signals c name vs ≡ ok ds
      → All (λ d. Known c d.key) ds
  unfolding definitions_of_signals
  definitions-Known c name [] ds k h = subst (All _) (ok_injective h) tt
  definitions-Known c name ((n, v) ∷ vs) ds k h =
      let key = key_named name n in
      let (d, r, tail) = >>=-eq-ok (require c key) _ h in
      let (rest, q, e) = >>=-eq-ok (definitions_of_signals c name vs) _ tail in
      let found : find c key ≡ some d = or_raise-found (find c key) _ r in
      let known : Known c d.key = (d, ap (find c) (k key d found) ∙ found) in
      subst (All _) (ok_injective e) (known, definitions-Known c name vs rest k q)

  samples-Prepared :
      (c : SignalCatalog) (frame : DecodedCanFrame F) (n : ℕ) (ds : List SignalDefinition)
      (vs : Dict String (SignalValue F)) (ss : List (SignalSample F))
      → All (λ d. Known c d.key) ds
      → samples_of frame n ds vs ≡ ok ss
      → All (Prepared c frame.timestamp_microseconds) ss
  unfolding samples_of sample_of
  samples-Prepared c frame n [] [] ss k h = subst (All _) (ok_injective h) tt
  samples-Prepared c frame n [] (v ∷ vs) ss k h = absurd (ok-ne-err (sym h))
  samples-Prepared c frame n (d ∷ ds) [] ss k h = absurd (ok-ne-err (sym h))
  samples-Prepared c frame n (d ∷ ds) ((name, v) ∷ vs) ss k h =
      let (rest, r, e) = >>=-eq-ok (samples_of frame n ds vs) _ h in
      subst (All _) (ok_injective e) ((k.0, refl), samples-Prepared c frame n ds vs rest k.1 r)

  frame_definitions-Known :
      (c : SignalCatalog) (frame : DecodedCanFrame F) (ds : List SignalDefinition)
      → IsKeyed c
      → definitions_for_frame c frame ≡ ok ds
      → All (λ d. Known c d.key) ds
  unfolding definitions_for_frame
  frame_definitions-Known c frame ds k h =
      let (m, found, checked) =
        >>=-eq-ok (or_raise (get c.messages_by_id frame.arbitration_id) _) _ h in
      let (named, defined) = raise_if-passed _ _ _ checked in
      definitions-Known c frame.message_name frame.signals ds k defined

  prepare-Prepared :
      (e : TelemetryEngine F) (frame : DecodedCanFrame F) (ss : List (SignalSample F))
      → IsKeyed e.catalog
      → prepare e frame ≡ ok ss
      → All (Prepared e.catalog frame.timestamp_microseconds) ss
        × (precedes frame.timestamp_microseconds e.latest_timestamp_microseconds ≡ false)
  unfolding prepare
  prepare-Prepared e frame ss k h =
      let (in_order, checked) = raise_if-passed _ _ _ h in
      let (ds, defined, built) = >>=-eq-ok (definitions_for_frame e.catalog frame) _ checked in
      let (made, zipped, last) =
        >>=-eq-ok (samples_of frame e.next_frame_sequence ds frame.signals) _ built in
      let (typed, e') = raise_if-passed _ _ (ok made) last in
      (
        subst (All _) (ok_injective e') (
            samples-Prepared e.catalog frame e.next_frame_sequence ds frame.signals made
              (frame_definitions-Known e.catalog frame ds k defined) zipped),
        in_order,
      )

  -- Keeping the entries in order through the loop over the samples.
  Entries-record_samples :
      (c : SignalCatalog) (t : ℕ) (ss : List (SignalSample F)) (e : TelemetryEngine F)
      → All (Entry c t) e.latest_samples
      → All (Prepared c t) ss
      → All (Entry c t) (record_samples ss e).latest_samples
  unfolding record_samples record_sample
  Entries-record_samples c t [] e h p = h
  Entries-record_samples c t (s ∷ ss) e h p =
      Entries-record_samples c t ss (record_sample s e)
        (All-put (Entry c t) e.latest_samples s.key s h (p.0.0, omega (arith, p.0.1))) p.1

  Entries-later :
      (c : SignalCatalog) (old : Option ℕ) (t : ℕ) (l : Dict SignalKey (SignalSample F))
      → Entries c old l
      → precedes t old ≡ false
      → All (Entry c t) l
  Entries-later c none t l h p = subst (All (Entry c t)) (sym h) tt
  Entries-later c (some old) t l h p = weaken l h
    where
      le : old ≤ t
      le = ground arith

      weaken : (l : Dict SignalKey (SignalSample F)) → All (Entry c old) l → All (Entry c t) l
      weaken [] h = tt
      weaken (x ∷ l) h = ((h.0.0, omega (arith, le, h.0.1)), weaken l h.1)

  keep-ingest : (e : TelemetryEngine F) (f : DecodedCanFrame F) → (ingest e f).1.catalog ≡ e.catalog
  unfolding ingest count_frame
  keep-ingest e f = elim (Result-cases (prepare e f)) [
    | inl (ss, p) ↦ rw p (ap (λ (x : TelemetryEngine F). x.catalog) (keep-record_samples ss e))
    | inr (x, p) ↦ rw p refl
  ]

  IsCoherent-ingest :
      (e : TelemetryEngine F) (f : DecodedCanFrame F)
      → IsKeyed e.catalog
      → IsCoherent e
      → Entries e.catalog (ingest e f).1.latest_timestamp_microseconds (ingest e f).1.latest_samples
  unfolding ingest count_frame
  IsCoherent-ingest e f k h = elim (Result-cases (prepare e f)) [
    | inl (ss, p) ↦
        let (made, later) = prepare-Prepared e f ss k p in
        rw p (
          Entries-record_samples e.catalog f.timestamp_microseconds ss e
            (Entries-later e.catalog e.latest_timestamp_microseconds f.timestamp_microseconds
              e.latest_samples h later)
            made)
    | inr (x, p) ↦ rw p h
  ]

  -- Coherent, over the catalog `c`.
  abbrev pub Sound : SignalCatalog → TelemetryEngine F → Type 0
  Sound c e = (e.catalog ≡ c) × Entries c e.latest_timestamp_microseconds e.latest_samples

  pub Sound-run :
      (c : SignalCatalog) (fs : List (DecodedCanFrame F)) (e : TelemetryEngine F)
      → IsKeyed c
      → Sound c e
      → Sound c (run e fs).1
  unfolding run
  Sound-run c [] e k s = s
  Sound-run c (f ∷ fs) e k s = Sound-run c fs (ingest e f).1 k (
    keep-ingest e f ∙ s.0,
    subst
        (λ x. Entries x (ingest e f).1.latest_timestamp_microseconds (ingest e f).1.latest_samples)
        s.0
        (IsCoherent-ingest e f (subst IsKeyed (sym s.0) k)
          (subst (λ x. Entries x e.latest_timestamp_microseconds e.latest_samples) (sym s.0) s.1)),
  )

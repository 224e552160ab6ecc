-- ===== src/Investigation/Analysis/Gathering.antt =====
-- investigation/service.py: what the loop of `investigate` has collected at its end, against a
-- plain reading of the window.
use tuner_os.Prelude.{
  ◌+◌, ◌≡◌, refl, sym, ap, ◌∙◌, some, List, [], ◌∷◌, ◌++◌, arith, Result, ok, ◌>>=◌, if◌then◌else◌,
  length, leb, filter, Bool-cases, inl, inr, length-append, filter-append,
}
use tuner_os.Prelude.Dict.{get}
use tuner_os.Can.Models.{RawCanFrame}
use tuner_os.Can.Explorer.{CanExplorerFrame}
use tuner_os.Telemetry.Models.{SignalKey, key_eq, SignalSample}
use tuner_os.Diagnostics.Models.{DiagnosticEvent}
use tuner_os.Diagnostics.Rules.{FloatOps}
use tuner_os.Investigation.Models.{InvestigationWindow}
use tuner_os.Investigation.Analysis.{
  Pipeline, Observation, Findings, is_late, note_context, include, gather, observe,
}
use tuner_os.Telemetry.Engine.History.{of_key}
use tuner_os.Investigation.Analysis.Series.{
  of_key-append, get-add_samples, last_or, last_or-append, get-note_context,
}
use mathlib.Core.List.{append_assoc, append-nil}

-- What was appended twice was appended once.
extend {ℓ} :
    {A : Type ℓ} {middle after both : List A} (before first second : List A)
    → middle ≡ before ++ first
    → after ≡ middle ++ second
    → both ≡ first ++ second
    → after ≡ before ++ both
extend before first second m a b =
    a
    ∙ ap (λ xs. xs ++ second) m
    ∙ append_assoc before first second
    ∙ ap (λ xs. before ++ xs) (sym b)

module _ {F : Type 0} where
  -- All frames go through the pipeline, and nothing is selected.
  unfoldable pub observe_all :
      ⦃ops : FloatOps F⦄
      → List RawCanFrame
      → Pipeline F
      → Result (List (Observation F) × Pipeline F)
  observe_all [] p = ok ([], p)
  observe_all (f ∷ rest) p = do
    (o, p') ← observe p f
    (os, end) ← observe_all rest p'
    ok (o ∷ os, end)

  abbrev pub all_samples : List (Observation F) → List (SignalSample F)
  all_samples [] = []
  all_samples (o ∷ os) = o.samples ++ all_samples os

  abbrev pub all_events : List (Observation F) → List DiagnosticEvent
  all_events [] = []
  all_events (o ∷ os) = o.generated_events ++ all_events os

  abbrev pub all_annotated : List (Observation F) → List (CanExplorerFrame F)
  all_annotated [] = []
  all_annotated (o ∷ os) = o.annotated ∷ all_annotated os

  module _ (w : InvestigationWindow) where
    -- The observations from the start of the window on, and those up to its start.
    abbrev pub from_start : List (Observation F) → List (Observation F)
    from_start = filter (λ o. leb w.start_timestamp_microseconds o.timestamp)

    abbrev pub up_to_start : List (Observation F) → List (Observation F)
    up_to_start = filter (λ o. leb o.timestamp w.start_timestamp_microseconds)

    unfoldable pub gather_all : List (Observation F) → Findings F → Findings F
    gather_all [] s = s
    gather_all (o ∷ os) s = gather_all os (gather w o s)

    -- What is found in the observations `os`, when `before` had been found already.
    pub record IsReadingOf (os : List (Observation F)) (before after : Findings F) : Type 0 where
      pub raw_frames : after.raw_frames ≡ before.raw_frames ++ all_annotated (from_start os)
      pub window_events :
          after.window_events
          ≡ before.window_events ++ filter (is_late w) (all_events (from_start os))
      pub decoded_signal_updates :
          after.decoded_signal_updates
          ≡ before.decoded_signal_updates + length (all_samples (from_start os))
      pub series :
          (key : SignalKey) (kept : List (SignalSample F))
          → get before.series key ≡ some kept
          → get after.series key ≡ some (kept ++ of_key key (all_samples (from_start os)))
      pub context :
          (key : SignalKey) (kept : List (SignalSample F))
          → get before.series key ≡ some kept
          → get after.context key
            ≡ last_or (get before.context key) (of_key key (all_samples (up_to_start os)))

    no_observations : (s : Findings F) → IsReadingOf [] s s
    no_observations s = record {
      raw_frames = sym (append-nil _);
      window_events = sym (append-nil _);
      decoded_signal_updates = omega arith;
      series = λ key kept h. h ∙ ap some (sym (append-nil kept));
      context = λ key kept h. refl;
    }

    one_observation : (o : Observation F) (s : Findings F) → IsReadingOf (o ∷ []) s (gather w o s)
    unfolding gather include
    one_observation o s = record {
      raw_frames = elim (Bool-cases (leb w.start_timestamp_microseconds o.timestamp)) [
        | inl late ↦ rw late refl
        | inr early ↦ rw early (sym (append-nil _))
      ];
      window_events = elim (Bool-cases (leb w.start_timestamp_microseconds o.timestamp)) [
        | inl late ↦ rw late (
            ap (λ xs. s.window_events ++ filter (is_late w) xs)
              (sym (append-nil o.generated_events)))
        | inr early ↦ rw early (sym (append-nil _))
      ];
      decoded_signal_updates = elim (Bool-cases (leb w.start_timestamp_microseconds o.timestamp)) [
        | inl late ↦
            rw late (ap (λ xs. s.decoded_signal_updates + length xs) (sym (append-nil o.samples)))
        | inr early ↦ rw early (omega arith)
      ];
      series = λ key kept h. elim (Bool-cases (leb w.start_timestamp_microseconds o.timestamp)) [
        | inl late ↦ rw late (
            get-add_samples o.samples s.series key kept h
            ∙ ap (λ xs. some (kept ++ of_key key xs)) (sym (append-nil o.samples)))
        | inr early ↦ rw early (h ∙ ap some (sym (append-nil kept)))
      ];
      context = λ key kept h. elim (Bool-cases (leb w.start_timestamp_microseconds o.timestamp)) [
        | inl late ↦ rw late (noted key kept h)
        | inr early ↦ rw early (noted key kept h)
      ];
    }
      where
        noted :
            (key : SignalKey) (kept : List (SignalSample F))
            → get s.series key ≡ some kept
            → get
                (if leb o.timestamp w.start_timestamp_microseconds
                  then note_context s.series o.samples s.context
                  else s.context)
                key
              ≡ last_or (get s.context key) (of_key key (all_samples (up_to_start (o ∷ []))))
        noted key kept h = elim (Bool-cases (leb o.timestamp w.start_timestamp_microseconds)) [
          | inl t ↦ rw t (
              get-note_context s.series o.samples s.context key kept h
              ∙ ap (λ xs. last_or (get s.context key) (of_key key xs)) (sym (append-nil o.samples)))
          | inr f ↦ rw f refl
        ]

    all_samples-append :
        (xs ys : List (Observation F)) → all_samples (xs ++ ys) ≡ all_samples xs ++ all_samples ys
    all_samples-append [] ys = refl
    all_samples-append (o ∷ xs) ys =
        rw (all_samples-append xs ys) (sym (append_assoc o.samples _ _))

    all_events-append :
        (xs ys : List (Observation F)) → all_events (xs ++ ys) ≡ all_events xs ++ all_events ys
    all_events-append [] ys = refl
    all_events-append (o ∷ xs) ys =
        rw (all_events-append xs ys) (sym (append_assoc o.generated_events _ _))

    all_annotated-append :
        (xs ys : List (Observation F))
        → all_annotated (xs ++ ys) ≡ all_annotated xs ++ all_annotated ys
    all_annotated-append [] ys = refl
    all_annotated-append (o ∷ xs) ys = rw (all_annotated-append xs ys)

    from_start-append :
        (xs ys : List (Observation F)) → from_start (xs ++ ys) ≡ from_start xs ++ from_start ys
    from_start-append xs ys = filter-append _ xs ys

    samples_from_start-append :
        (xs ys : List (Observation F))
        → all_samples (from_start (xs ++ ys))
          ≡ all_samples (from_start xs) ++ all_samples (from_start ys)
    samples_from_start-append xs ys =
        ap all_samples (from_start-append xs ys)
        ∙ all_samples-append (from_start xs) (from_start ys)

    reading-append :
        (xs ys : List (Observation F)) (a b c : Findings F)
        → IsReadingOf xs a b
        → IsReadingOf ys b c
        → IsReadingOf (xs ++ ys) a c
    reading-append xs ys a b c first second = record {
      raw_frames =
          extend a.raw_frames (all_annotated (from_start xs)) (all_annotated (from_start ys))
            first.raw_frames second.raw_frames
            (ap all_annotated (from_start-append xs ys)
              ∙ all_annotated-append (from_start xs) (from_start ys));
      window_events =
          extend a.window_events (filter (is_late w) (all_events (from_start xs)))
            (filter (is_late w) (all_events (from_start ys))) first.window_events
            second.window_events
            (ap (λ os. filter (is_late w) (all_events os)) (from_start-append xs ys)
              ∙ ap (filter (is_late w)) (all_events-append (from_start xs) (from_start ys))
              ∙ filter-append (is_late w) (all_events (from_start xs))
                  (all_events (from_start ys)));
      decoded_signal_updates = omega (
        arith,
        first.decoded_signal_updates,
        second.decoded_signal_updates,
        ap length (samples_from_start-append xs ys),
        length-append (all_samples (from_start xs)) (all_samples (from_start ys)),
      );
      series = λ key kept h.
          second.series key _ (first.series key kept h)
          ∙ ap some (
              extend kept (of_key key (all_samples (from_start xs)))
                (of_key key (all_samples (from_start ys))) refl refl
                (ap (of_key key) (samples_from_start-append xs ys)
                  ∙ of_key-append key (all_samples (from_start xs)) (all_samples (from_start ys))));
      context = λ key kept h.
          second.context key _ (first.series key kept h)
          ∙ ap (λ o. last_or o (of_key key (all_samples (up_to_start ys))))
              (first.context key kept h)
          ∙ sym (
              last_or-append (get a.context key) (of_key key (all_samples (up_to_start xs)))
                (of_key key (all_samples (up_to_start ys))))
          ∙ ap (last_or (get a.context key)) (
              sym (
                ap (λ os. of_key key (all_samples os)) (filter-append _ xs ys)
                ∙ ap (of_key key) (all_samples-append (up_to_start xs) (up_to_start ys))
                ∙ of_key-append key (all_samples (up_to_start xs)) (all_samples (up_to_start ys))));
    }

    pub gather_all-IsReadingOf :
        (os : List (Observation F)) (s : Findings F) → IsReadingOf os s (gather_all os s)
    unfolding gather_all
    gather_all-IsReadingOf [] s = no_observations s
    gather_all-IsReadingOf (o ∷ os) s =
        reading-append (o ∷ []) os s (gather w o s) (gather_all os (gather w o s))
          (one_observation o s) (gather_all-IsReadingOf os (gather w o s))

-- ===== src/Investigation/Analysis/Series.antt =====
-- investigation/service.py: the series and the start context after some samples.
use tuner_os.Prelude.{
  ◌≡◌, refl, sym, ap, ◌∙◌, true, false, Option, none, some, List, [], ◌∷◌, ◌++◌, Bool-cases, inl,
  inr, filter-append, Option-cases, ◌==◌, beq_false, some_injective, some-ne-none,
}
use tuner_os.Prelude.Dict.{Dict, get, get-put}
use tuner_os.Telemetry.Models.{SignalKey, key_eq, SignalSample}
use tuner_os.Telemetry.Engine.History.{of_key}
use tuner_os.Investigation.Analysis.{
  note_in, note_sample, note_context, append_to, add_sample, add_samples,
}
use mathlib.Core.List.{append_assoc, append-nil}

module _ {F : Type 0} where
  pub of_key-append :
      (key : SignalKey) (xs ys : List (SignalSample F))
      → of_key key (xs ++ ys) ≡ of_key key xs ++ of_key key ys
  of_key-append key xs ys = filter-append (λ s. s.key == key) xs ys

  same_key :
      (s : SignalSample F) (series : Dict SignalKey (List (SignalSample F))) (key : SignalKey)
      → (s.key == key) ≡ true
      → get series s.key ≡ get series key
  same_key s series key t = ap (λ k. get series k) ((key_eq.beq_iff s.key key).0 t)

  other_key :
      (s : SignalSample F) (series : Dict SignalKey (List (SignalSample F))) (key : SignalKey)
      (kept : List (SignalSample F))
      → get series key ≡ some kept
      → get series s.key ≡ none
      → (s.key == key) ≡ false
  other_key s series key kept h e =
      beq_false s.key key (λ p. some-ne-none (sym (ap (λ k. get series k) (sym p) ∙ e) ∙ h))

  get-add_sample :
      (s : SignalSample F) (series : Dict SignalKey (List (SignalSample F))) (key : SignalKey)
      (kept : List (SignalSample F))
      → get series key ≡ some kept
      → get (add_sample s series) key ≡ some (kept ++ of_key key (s ∷ []))
  unfolding add_sample append_to
  get-add_sample s series key kept h = elim (Option-cases (get series s.key)) [
    | inl e ↦
        ap (λ o. get (append_to o s series) key) e
        ∙ rw (other_key s series key kept h e) (h ∙ ap some (sym (append-nil kept)))
    | inr (old, e) ↦
        ap (λ o. get (append_to o s series) key) e
        ∙ get-put series s.key key (old ++ s ∷ [])
        ∙ elim (Bool-cases (s.key == key)) [
          | inl t ↦
              rw t (
                ap (λ k. some (k ++ s ∷ [])) (some_injective (sym e ∙ same_key s series key t ∙ h)))
          | inr f ↦ rw f (h ∙ ap some (sym (append-nil kept)))
        ]
  ]

  of_key-cons :
      (key : SignalKey) (s : SignalSample F) (rest : List (SignalSample F))
      → of_key key (s ∷ []) ++ of_key key rest ≡ of_key key (s ∷ rest)
  of_key-cons key s rest = sym (of_key-append key (s ∷ []) rest)

  -- A series that is kept gets the samples of its key, in order.
  pub get-add_samples :
      (samples : List (SignalSample F)) (series : Dict SignalKey (List (SignalSample F)))
      (key : SignalKey) (kept : List (SignalSample F))
      → get series key ≡ some kept
      → get (add_samples samples series) key ≡ some (kept ++ of_key key samples)
  unfolding add_samples
  get-add_samples [] series key kept h = h ∙ ap some (sym (append-nil kept))
  get-add_samples (s ∷ rest) series key kept h =
      get-add_samples rest (add_sample s series) key (kept ++ of_key key (s ∷ []))
        (get-add_sample s series key kept h)
      ∙ ap some (
          append_assoc kept (of_key key (s ∷ [])) (of_key key rest)
          ∙ ap (λ xs. kept ++ xs) (of_key-cons key s rest))

  -- The last of some samples, or else what there was before.
  abbrev pub last_or : Option (SignalSample F) → List (SignalSample F) → Option (SignalSample F)
  last_or before [] = before
  last_or before (s ∷ rest) = last_or (some s) rest

  pub last_or-append :
      (before : Option (SignalSample F)) (xs ys : List (SignalSample F))
      → last_or before (xs ++ ys) ≡ last_or (last_or before xs) ys
  last_or-append before [] ys = refl
  last_or-append before (x ∷ xs) ys = last_or-append (some x) xs ys

  get-note_sample :
      (series : Dict SignalKey (List (SignalSample F))) (s : SignalSample F)
      (context : Dict SignalKey (SignalSample F)) (key : SignalKey) (kept : List (SignalSample F))
      → get series key ≡ some kept
      → get (note_sample series s context) key ≡ last_or (get context key) (of_key key (s ∷ []))
  unfolding note_sample note_in
  get-note_sample series s context key kept h = elim (Option-cases (get series s.key)) [
    | inl e ↦ ap (λ o. get (note_in o s context) key) e ∙ rw (other_key s series key kept h e) refl
    | inr (old, e) ↦
        ap (λ o. get (note_in o s context) key) e
        ∙ get-put context s.key key s
        ∙ elim (Bool-cases (s.key == key)) [ inl t ↦ rw t refl | inr f ↦ rw f refl ]
  ]

  pub get-note_context :
      (series : Dict SignalKey (List (SignalSample F))) (samples : List (SignalSample F))
      (context : Dict SignalKey (SignalSample F)) (key : SignalKey) (kept : List (SignalSample F))
      → get series key ≡ some kept
      → get (note_context series samples context) key
        ≡ last_or (get context key) (of_key key samples)
  unfolding note_context
  get-note_context series [] context key kept h = refl
  get-note_context series (s ∷ rest) context key kept h =
      get-note_context series rest (note_sample series s context) key kept h
      ∙ ap (λ o. last_or o (of_key key rest)) (get-note_sample series s context key kept h)
      ∙ sym (last_or-append (get context key) (of_key key (s ∷ [])) (of_key key rest))
      ∙ ap (last_or (get context key)) (of_key-cons key s rest)

-- ===== src/Can/Explorer/History.antt =====
-- can/explorer.py: an explorer after any frames that it was given.
use mathlib.Core.List.{append_assoc, append-nil}
use tuner_os.Prelude.{
  ℕ, zero, suc, ◌≡◌, ◌<◌, ◌≤◌, refl, sym, ap, ◌∙◌, subst, List, [], ◌∷◌, ◌++◌, arith, Result, ok,
  err, Result-cases, inl, inr, nat_eq, length, length-append, keep_last, append_bounded,
  append_bounded-keep_last, length-keep_last-le, ok_injective, ok-ne-err, pos, negsuc,
}
use tuner_os.Prelude.Dict.{Dict, get}
use tuner_os.Prelude.Values.{Value, expect_int}
use tuner_os.Can.Models.{RawCanFrame}
use tuner_os.Can.Decoder.{TunerOsDbcDecoder}
use tuner_os.Can.Explorer.{
  CanExplorer, CanExplorerFrame, MutableMessageStatistics, Annotation, can_explorer, new_explorer,
  ingest, ingest_annotated, annotate, keep, frame_of,
}
use tuner_os.Can.Explorer.Retention.{
  Counts, kept_of, append_bounded-kept_of, Counts-update, Counts-room,
}

module _ {F : Type 0} where
  -- What an explorer that kept the frames `log`, one after the other, looks like.
  pub record Keeps (e : CanExplorer F) (log : List (CanExplorerFrame F)) : Type 0 where
    pub roomy : 0 < e.capacity
    pub window : e.frames ≡ keep_last e.capacity log
    pub counts : Counts e.messages e.frames log
    pub numbered : e.next_sequence ≡ length log

  abbrev AfterIngest :
      CanExplorer F
      → List (CanExplorerFrame F)
      → Result (CanExplorerFrame F)
      → CanExplorer F
      → Type 0
  AfterIngest e log (ok frame) e' = Keeps e' (log ++ frame ∷ [])
  AfterIngest e log (err x) e' = e' ≡ e

  Counts-window :
      {ms : Dict ℕ MutableMessageStatistics} {w w' log : List (CanExplorerFrame F)}
      → w ≡ w'
      → Counts ms w log
      → Counts ms w' log
  Counts-window {ms} {w} {w'} {log} e = subst (λ x. Counts ms x log) e

  annotated :
      (e : CanExplorer F) (log : List (CanExplorerFrame F)) (f : RawCanFrame) (a : Annotation F)
      → Keeps e log
      → AfterIngest e log (ingest_annotated e f (ok a)).0 (ingest_annotated e f (ok a)).1
  unfolding ingest_annotated keep frame_of
  annotated e log f a k =
      let frame = frame_of e.next_sequence f a in
      let (ms, room, c) = Counts-room e.capacity e.messages e.frames log k.counts in
      rw room (record {
        roomy = k.roomy;
        window =
            ap (λ w. append_bounded e.capacity w frame) k.window
            ∙ append_bounded-keep_last e.capacity log frame k.roomy;
        counts =
            Counts-window (sym (append_bounded-kept_of e.capacity e.frames frame k.roomy fits))
              (Counts-update ms (kept_of e.capacity e.frames) log frame a.metadata c);
        numbered = omega (arith, k.numbered, length-append log (frame ∷ []));
      })
    where
      fits : length e.frames ≤ e.capacity
      fits = omega (arith, ap length k.window, length-keep_last-le e.capacity log)

  after_ingest :
      (e : CanExplorer F) (log : List (CanExplorerFrame F)) (f : RawCanFrame)
      → Keeps e log
      → AfterIngest e log (ingest e f).0 (ingest e f).1
  unfolding ingest ingest_annotated
  after_ingest e log f k =
      elim (Result-cases (annotate e f (get e.metadata_by_id f.arbitration_id))) [
        | inl (a, h) ↦ rw h (annotated e log f a k)
        | inr (x, h) ↦ rw h refl
      ]

  -- The frames that an explorer returns, when it is given raw frames one after the other. A frame
  -- that it raises on is passed over.
  noted :
      (CanExplorer F → List (CanExplorerFrame F) × CanExplorer F)
      → Result (CanExplorerFrame F) × CanExplorer F
      → List (CanExplorerFrame F) × CanExplorer F
  noted next (ok frame, e) = let (log, e') = next e in (frame ∷ log, e')
  noted next (err x, e) = next e

  unfoldable pub run : CanExplorer F → List RawCanFrame → List (CanExplorerFrame F) × CanExplorer F
  unfolding noted
  run e [] = ([], e)
  run e (f ∷ fs) = noted (λ e'. run e' fs) (ingest e f)

  Keeps-noted :
      (next : CanExplorer F → List (CanExplorerFrame F) × CanExplorer F) (e : CanExplorer F)
      (log : List (CanExplorerFrame F)) (r : Result (CanExplorerFrame F)) (e' : CanExplorer F)
      → ((e : CanExplorer F) (log : List (CanExplorerFrame F))
          → Keeps e log
          → Keeps (next e).1 (log ++ (next e).0))
      → Keeps e log
      → AfterIngest e log r e'
      → Keeps (noted next (r, e')).1 (log ++ (noted next (r, e')).0)
  unfolding noted
  Keeps-noted next e log (ok frame) e' on k a =
      subst (Keeps (next e').1) (append_assoc log (frame ∷ []) (next e').0)
        (on e' (log ++ frame ∷ []) a)
  Keeps-noted next e log (err x) e' on k a = on e' log (subst (λ x. Keeps x log) (sym a) k)

  Keeps-run :
      (fs : List RawCanFrame) (e : CanExplorer F) (log : List (CanExplorerFrame F))
      → Keeps e log
      → Keeps (run e fs).1 (log ++ (run e fs).0)
  unfolding run
  Keeps-run [] e log k = subst (Keeps e) (sym (append-nil log)) k
  Keeps-run (f ∷ fs) e log k =
      Keeps-noted (λ e'. run e' fs) e log (ingest e f).0 (ingest e f).1
        (λ e' log' k'. Keeps-run fs e' log' k') k (after_ingest e log f k)

  fresh :
      (d : TunerOsDbcDecoder F) (capacity : Value) (e : CanExplorer F)
      → can_explorer d capacity ≡ ok e
      → Keeps e []
  unfolding can_explorer new_explorer get
  fresh d capacity e h = elim (Result-cases (expect_int capacity)) [
    | inl (pos (zero), i) ↦ absurd (ok-ne-err (sym (rw i at h)))
    | inl (pos (suc n), i) ↦
        subst (λ x. Keeps x []) (ok_injective (rw i at h))
          (record {
            roomy = omega arith;
            window = refl;
            counts = record { in_window = λ i. refl; in_all = λ i. refl };
            numbered = refl;
          })
    | inl (negsuc n, i) ↦ absurd (ok-ne-err (sym (rw i at h)))
    | inr (x, i) ↦ absurd (ok-ne-err (sym (rw i at h)))
  ]

  -- Whatever raw frames a new explorer is given: its window holds the last frames that it returned,
  -- as many as its capacity; for every identifier the statistics count the frames of it in the
  -- window, and all that were ever kept; and the next sequence number is how many those are.
  pub run-Keeps :
      (d : TunerOsDbcDecoder F) (capacity : Value) (e : CanExplorer F)
      → can_explorer d capacity ≡ ok e
      → (fs : List RawCanFrame) → Keeps (run e fs).1 (run e fs).0
  run-Keeps d capacity e h fs = Keeps-run fs e [] (fresh d capacity e h)

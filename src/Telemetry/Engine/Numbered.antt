-- ===== src/Telemetry/Engine/Numbered.antt =====
-- telemetry/engine.py: a snapshot that has an observation time has the sequence of a frame.
use tuner_os.Prelude.{
  ℕ, ◌≡◌, refl, sym, ap, ◌∙◌, Option, some, List, [], ◌∷◌, ok, >>=-eq-ok, ok_injective,
  Result-cases, inl, inr, some-ne-none,
}
use tuner_os.Can.Models.{DecodedCanFrame}
use tuner_os.Telemetry.Models.{SignalKey, TelemetrySnapshot}
use tuner_os.Telemetry.Catalog.{SignalCatalog}
use tuner_os.Telemetry.Engine.{
  TelemetryEngine, new_engine, ingest, prepare, count_frame, record_samples, snapshot,
  chosen_samples, statuses,
}
use tuner_os.Telemetry.Engine.History.{run}

module _ {F : Type 0} where
  -- A frame that gave the engine a time has given it a sequence.
  abbrev IsNumbered : TelemetryEngine F → Type 0
  IsNumbered e =
      (t : ℕ)
      → e.latest_timestamp_microseconds ≡ some t
      → (n : ℕ) × (e.last_frame_sequence ≡ some n)

  ingest-IsNumbered :
      (e : TelemetryEngine F) (f : DecodedCanFrame F) → IsNumbered e → IsNumbered (ingest e f).1
  unfolding ingest count_frame
  ingest-IsNumbered e f h = elim (Result-cases (prepare e f)) [
    | inl (samples, p) ↦ rw p λ t now. ((record_samples samples e).next_frame_sequence, refl)
    | inr (x, p) ↦ rw p h
  ]

  run-IsNumbered :
      (fs : List (DecodedCanFrame F)) (e : TelemetryEngine F)
      → IsNumbered e
      → IsNumbered (run e fs).1
  unfolding run
  run-IsNumbered [] e h = h
  run-IsNumbered (f ∷ fs) e h = run-IsNumbered fs (ingest e f).1 (ingest-IsNumbered e f h)

  taken-IsNumbered :
      (e : TelemetryEngine F) (keys : Option (List SignalKey)) (s : TelemetrySnapshot F) (t : ℕ)
      → IsNumbered e
      → snapshot e keys ≡ ok s
      → s.observation_timestamp_microseconds ≡ some t
      → (n : ℕ) × (s.last_frame_sequence ≡ some n)
  unfolding snapshot
  taken-IsNumbered e keys s t h taken at =
      let (samples, chosen, h1) = >>=-eq-ok (chosen_samples e keys) _ taken in
      let (status, judged, h2) = >>=-eq-ok (statuses e samples) _ h1 in
      let same = ok_injective h2 in
      let (n, last) =
        h t (ap (λ (x : TelemetrySnapshot F). x.observation_timestamp_microseconds) same ∙ at) in
      (n, ap (λ (x : TelemetrySnapshot F). x.last_frame_sequence) (sym same) ∙ last)

  pub snapshot-IsNumbered :
      (c : SignalCatalog) (capacity : ℕ) (fs : List (DecodedCanFrame F))
      (keys : Option (List SignalKey)) (s : TelemetrySnapshot F) (t : ℕ)
      → snapshot (run (new_engine c capacity) fs).1 keys ≡ ok s
      → s.observation_timestamp_microseconds ≡ some t
      → (n : ℕ) × (s.last_frame_sequence ≡ some n)
  snapshot-IsNumbered c capacity fs keys s t taken at =
      taken-IsNumbered (run (new_engine c capacity) fs).1 keys s t
        (run-IsNumbered fs (new_engine c capacity) (λ x h. absurd (some-ne-none h))) taken at

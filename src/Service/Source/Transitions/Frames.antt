-- ===== src/Service/Source/Transitions/Frames.antt =====
-- telemetry/service.py: frames and the recorder leave the state machine alone.
use tuner_os.Prelude.{◌≡◌, refl, ◌∙◌, Result, ok, err, Error, Option-cases, inl, inr}
use tuner_os.Can.Models.{RawCanFrame, DecodedCanFrame}
use tuner_os.Can.Decoder.{decode}
use tuner_os.Can.Explorer.Queries.{PeriodOps}
use tuner_os.Diagnostics.Rules.{FloatOps}
use tuner_os.Service.Ingestion.{RecorderOps, TelemetryService, ingest_can_explorer}
use tuner_os.Service.Ingestion.Kept.{view, ingest_decoded-view, ingest_can_explorer-view}
use tuner_os.Service.Source.{
  abort_recording, record_in, complete_in, and_then, ingest_raw, ingest_decode, ingest_if_decoded,
}

module _ {F R : Type 0} where
  and_then-view :
      {A B : Type 0} (first : Result A × TelemetryService F R)
      (next : TelemetryService F R → Result B × TelemetryService F R)
      → ((s : TelemetryService F R) → view (next s).1 ≡ view s)
      → view (and_then first next).1 ≡ view first.1
  and_then-view (err x, s) next h = refl
  and_then-view (ok a, s) next h = h s

  pub abort_recording-view :
      (recorders : RecorderOps R) (e : Error) (s : TelemetryService F R)
      → view (abort_recording recorders e s).1 ≡ view s
  unfolding abort_recording
  abort_recording-view recorders e s = elim (Option-cases s.recorder) [
    | inl h ↦ rw h refl
    | inr (r, h) ↦ rw h refl
  ]

  pub record_in-view :
      (recorders : RecorderOps R) (f : RawCanFrame) (s : TelemetryService F R)
      → view (record_in recorders f s).1 ≡ view s
  unfolding record_in
  record_in-view recorders f s = elim (Option-cases s.recorder) [
    | inl h ↦ rw h refl
    | inr (r, h) ↦ rw h refl
  ]

  pub complete_in-view :
      (recorders : RecorderOps R) (s : TelemetryService F R)
      → view (complete_in recorders s).1 ≡ view s
  unfolding complete_in
  complete_in-view recorders s = elim (Option-cases s.recorder) [
    | inl h ↦ rw h refl
    | inr (r, h) ↦ rw h refl
  ]

module _ {F R : Type 0} ⦃ops : FloatOps F⦄ where
  ingest_if_decoded-view :
      (d : Result (DecodedCanFrame F)) (s : TelemetryService F R)
      → view (ingest_if_decoded d s).1 ≡ view s
  unfolding ingest_if_decoded
  ingest_if_decoded-view (err x) s = refl
  ingest_if_decoded-view (ok d) s = ingest_decoded-view d s

  ingest_decode-view :
      (f : RawCanFrame) (s : TelemetryService F R) → view (ingest_decode f s).1 ≡ view s
  unfolding ingest_decode
  ingest_decode-view f s = ingest_if_decoded-view (decode s.decoder f) s

module _ {F R : Type 0} ⦃ops : FloatOps F⦄ (periods : PeriodOps F) where
  pub ingest_raw-view :
      (f : RawCanFrame) (s : TelemetryService F R) → view (ingest_raw periods f s).1 ≡ view s
  unfolding ingest_raw
  ingest_raw-view f s =
      and_then-view (ingest_can_explorer periods f s) (ingest_decode f) (ingest_decode-view f)
      ∙ ingest_can_explorer-view periods f s

  pub recorded_and_ingested-view :
      (recorders : RecorderOps R) (f : RawCanFrame) (s : TelemetryService F R)
      → view (and_then (record_in recorders f s) (ingest_raw periods f)).1 ≡ view s
  recorded_and_ingested-view recorders f s =
      and_then-view (record_in recorders f s) (ingest_raw periods f) (ingest_raw-view f)
      ∙ record_in-view recorders f s

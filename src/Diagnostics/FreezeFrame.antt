-- ===== src/Diagnostics/FreezeFrame.antt =====
-- diagnostics/engine.py, `_capture_freeze_frame`: the samples of a snapshot, sorted by key.
use tuner_os.Prelude.{
  ℕ, String, Bool, true, false, List, [], ◌∷◌, map, Result, ok, assertion_error, ◌>>=◌, or_raise,
  if◌then◌else◌, ltb,
}
use tuner_os.Prelude.Dict.{Dict}
use tuner_os.Prelude.Values.{codes}
use tuner_os.Telemetry.Models.{SignalKey, SignalSample, TelemetrySnapshot}
use tuner_os.Diagnostics.Models.{FreezeFrameSignal, DiagnosticFreezeFrame}

-- Texts compare by their code points.
unfoldable pub text_less : List ℕ → List ℕ → Bool
text_less [] [] = false
text_less [] (b ∷ bs) = true
text_less (a ∷ as') [] = false
text_less (a ∷ as') (b ∷ bs) =
    let rest = text_less as' bs in if ltb a b then true else if ltb b a then false else rest

-- Keys compare as the pairs of their names.
unfoldable pub key_less : SignalKey → SignalKey → Bool
unfolding text_less
key_less a b =
    if text_less (codes a.message_name) (codes b.message_name)
    then true
    else if text_less (codes b.message_name) (codes a.message_name)
    then false
    else text_less (codes a.signal_name) (codes b.signal_name)

module _ {F : Type 0} where
  -- sorted(items, key=lambda item: item[0]), which is stable
  insert_by_key :
      SignalKey × SignalSample F → Dict SignalKey (SignalSample F) → Dict SignalKey (SignalSample F)
  insert_by_key (k, x) [] = (k, x) ∷ []
  insert_by_key (k, x) ((j, y) ∷ rest) =
      let later = insert_by_key (k, x) rest in
      if key_less j k then (j, y) ∷ later else (k, x) ∷ (j, y) ∷ rest

  unfoldable pub sort_by_key : Dict SignalKey (SignalSample F) → Dict SignalKey (SignalSample F)
  unfolding insert_by_key
  sort_by_key [] = []
  sort_by_key (p ∷ rest) = insert_by_key p (sort_by_key rest)

  freeze_signal : SignalSample F → FreezeFrameSignal F
  freeze_signal s = record {
    key = s.key;
    value = s.value;
    unit = s.unit;
    source_ecu = s.source_ecu;
    arbitration_id = s.arbitration_id;
    timestamp_microseconds = s.timestamp_microseconds;
    telemetry_frame_sequence = s.frame_sequence;
  }

  -- `_capture_freeze_frame`
  unfoldable pub capture_freeze_frame :
      String → TelemetrySnapshot F → ℕ → Result (DiagnosticFreezeFrame F)
  unfolding freeze_signal
  capture_freeze_frame code snapshot timestamp =
      or_raise snapshot.last_frame_sequence assertion_error >>= λ n. ok (record {
        code = code;
        capture_timestamp_microseconds = timestamp;
        telemetry_frame_sequence = n;
        signals = map (λ p. freeze_signal p.1) (sort_by_key snapshot.samples);
      })

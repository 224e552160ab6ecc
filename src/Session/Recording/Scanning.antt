-- ===== src/Session/Recording/Scanning.antt =====
-- session/reader.py: the loop over the records of ascending frames.
use tuner_os.Prelude.{
  ℕ, zero, suc, ◌≡◌, ◌<◌, refl, ap, ◌∙◌, false, List, [], ◌∷◌, ◌++◌, arith, length, ok, All,
}
use tuner_os.Prelude.Values.{Bytes}
use tuner_os.Can.Models.{RawCanFrame}
use tuner_os.Can.Codec.{decode_raw_can_record}
use tuner_os.Can.Codec.Roundtrip.{layout, length-layout, decode-layout, take_prefix, drop_prefix}
use tuner_os.Can.Gateway.Frames.{IsRecordable, records}
use tuner_os.Telemetry.Engine.{precedes}
use tuner_os.Session.Reader.{Scan, Scanned, add_frame, scan_records, scan_record, yield_frame}
use tuner_os.Session.Recording.{scanned, Ascends}

scan_record-frame :
    (next : Scan → Scanned) (s : Scan) (d : Bytes) (f : RawCanFrame)
    → length d ≡ 19
    → decode_raw_can_record d ≡ ok f
    → precedes f.timestamp_microseconds s.last_timestamp ≡ false
    → scan_record next s d
      ≡ (let (fs, end) = next (add_frame s d f.timestamp_microseconds) in (f ∷ fs, end))
unfolding scan_record yield_frame
scan_record-frame next s [] f l k a = absurd (omega arith)
scan_record-frame next s (b ∷ bs) f l k a = rw (l, k, a) refl

-- A loop with more rounds than there are records yields every frame.
pub scan_records-frames :
    (fs : List RawCanFrame) (fuel : ℕ) (s : Scan)
    → All IsRecordable fs
    → Ascends s.last_timestamp fs
    → length fs < fuel
    → scan_records fuel (records fs) s ≡ (fs, ok (scanned s fs))
unfolding scan_records scan_record
scan_records-frames fs zero s v a h = elim h [ ]
scan_records-frames [] (suc fuel) s v a h = refl
scan_records-frames (f ∷ fs) (suc fuel) s v a h =
    let l = length-layout f v.0.valid v.0.timed in
    rw (take_prefix (layout f) (records fs) l, drop_prefix (layout f) (records fs) l)
      (scan_record-frame (λ s'. scan_records fuel (records fs) s') s (layout f) f l
          (decode-layout f v.0.valid v.0.timed) a.0
        ∙ ap (λ (x : Scanned). (f ∷ x.0, x.1))
            (scan_records-frames fs fuel (add_frame s (layout f) f.timestamp_microseconds) v.1 a.1
              (omega arith)))

-- One frame more.
pub scanned-snoc :
    (fs : List RawCanFrame) (f : RawCanFrame) (s : Scan)
    → scanned s (fs ++ f ∷ []) ≡ add_frame (scanned s fs) (layout f) f.timestamp_microseconds
scanned-snoc [] f s = refl
scanned-snoc (g ∷ fs) f s = scanned-snoc fs f _

pub Ascends-snoc :
    (fs : List RawCanFrame) (f : RawCanFrame) (s : Scan)
    → Ascends s.last_timestamp fs
    → precedes f.timestamp_microseconds (scanned s fs).last_timestamp ≡ false
    → Ascends s.last_timestamp (fs ++ f ∷ [])
Ascends-snoc [] f s a p = (p, tt)
Ascends-snoc (g ∷ fs) f s a p =
    (a.0, Ascends-snoc fs f (add_frame s (layout g) g.timestamp_microseconds) a.1 p)

-- ===== src/Session/Recording/Holding.antt =====
-- session/recorder.py: what the artifact holds after every call of `record`.
use mathlib.Core.List.{append_assoc, append-nil}
use tuner_os.Prelude.{
  ℕ, ◌≡◌, ◌<◌, ◌^◌, refl, sym, ap, ◌∙◌, subst, true, false, none, List, [], ◌∷◌, ◌++◌, arith,
  Result, ok, err, Result-cases, ok-ne-err, ok_injective, All, All-append, Bool-cases, inl, inr,
  leb,
}
use tuner_os.Prelude.Values.{Bytes}
use tuner_os.Can.Models.{RawCanFrame, IsRawCanFrame}
use tuner_os.Can.Codec.{encode_raw_can_record}
use tuner_os.Can.Codec.Roundtrip.{layout, encode-eq-layout, encode-late}
use tuner_os.Can.Gateway.Frames.{IsRecordable, records}
use tuner_os.Telemetry.Engine.{precedes}
use tuner_os.Session.Models.{recording}
use tuner_os.Session.Recorder.{
  SessionRecorder, succeeds, can_record, record_frame, write_record, store_record,
}
use tuner_os.Session.Recording.{scanned, start, Ascends, record_all, accepted}
use tuner_os.Session.Recording.Scanning.{scanned-snoc, Ascends-snoc}

pub records-append : (fs gs : List RawCanFrame) → records (fs ++ gs) ≡ records fs ++ records gs
records-append [] gs = refl
records-append (f ∷ fs) gs =
    ap (λ x. layout f ++ x) (records-append fs gs)
    ∙ sym (append_assoc (layout f) (records fs) (records gs))

-- The recorder is open, its file holds the header and the frames, and its manifest counts them.
pub record Holds (header : Bytes) (version : ℕ) (r : SessionRecorder) (fs : List RawCanFrame)
    : Type 0 where
  pub open_still : r.closed ≡ false
  pub status_still : r.manifest.status ≡ recording
  pub same_version : r.manifest.format_version ≡ version
  pub file : r.written ≡ header ++ records fs
  pub scan : scanned (start header) fs ≡ record {
    count = r.manifest.frame_count;
    first_timestamp = r.manifest.first_timestamp_microseconds;
    last_timestamp = r.manifest.last_timestamp_microseconds;
    hashed = r.hashed;
  }
  pub recordable : All IsRecordable fs
  pub ascends : Ascends none fs

module _ (header : Bytes) (version : ℕ) where
  -- After a call: one frame more, or an error and nothing changed.
  abbrev AfterRecord :
      RawCanFrame
      → SessionRecorder
      → List RawCanFrame
      → Result (Unit {0})
      → SessionRecorder
      → Type 0
  AfterRecord f r fs (ok u) r' = Holds header version r' (fs ++ f ∷ [])
  AfterRecord f r fs (err e) r' = r' ≡ r

  encode-IsRecordable :
      (f : RawCanFrame) (b : Bytes)
      → IsRawCanFrame f
      → encode_raw_can_record f ≡ ok b
      → IsRecordable f × (b ≡ layout f)
  encode-IsRecordable f b v e = elim (Bool-cases (leb (2 ^ 64) f.timestamp_microseconds)) [
    | inl late ↦ absurd (ok-ne-err (sym e ∙ encode-late f late))
    | inr early ↦
        let timed : f.timestamp_microseconds < 2 ^ 64 = ground arith in
        (record { valid = v; timed = timed }, ok_injective (sym e ∙ encode-eq-layout f v timed))
  ]

  module _ (f : RawCanFrame) (v : IsRawCanFrame f) (r : SessionRecorder) (fs : List RawCanFrame)
      (h : Holds header version r fs) where
    stored :
        precedes f.timestamp_microseconds r.manifest.last_timestamp_microseconds ≡ false
        → IsRecordable f
        → Holds header version
            (store_record r f.timestamp_microseconds (layout f) succeeds).1
            (fs ++ f ∷ [])
    unfolding store_record
    stored p c = record {
      open_still = h.open_still;
      status_still = h.status_still;
      same_version = h.same_version;
      file =
          ap (λ x. x ++ layout f) h.file
          ∙ append_assoc header (records fs) (layout f)
          ∙ ap (λ x. header ++ x)
              (ap (λ x. records fs ++ x) (sym (append-nil (layout f)))
                ∙ sym (records-append fs (f ∷ [])));
      scan = scanned-snoc fs f (start header) ∙ rw h.scan;
      recordable = All-append IsRecordable fs (f ∷ []) h.recordable (c, tt);
      ascends = Ascends-snoc fs f (start header) h.ascends (rw h.scan p);
    }

    written-Holds :
        precedes f.timestamp_microseconds r.manifest.last_timestamp_microseconds ≡ false
        → (let (res, r') =
              write_record r f.timestamp_microseconds (encode_raw_can_record f) succeeds in
            AfterRecord f r fs res r')
    unfolding write_record store_record
    written-Holds p = elim (Result-cases (encode_raw_can_record f)) [
      | inl (b, e) ↦ let (c, same) = encode-IsRecordable f b v e in rw (e, same) (stored p c)
      | inr (x, e) ↦ rw e refl
    ]

    pub record_frame-Holds : let (res, r') = record_frame f succeeds r in AfterRecord f r fs res r'
    unfolding record_frame
    record_frame-Holds =
        let can : can_record r ≡ true = rw (h.open_still, h.status_still) refl in
        rw can
          (elim (Bool-cases
            (precedes f.timestamp_microseconds r.manifest.last_timestamp_microseconds)) [
              | inl early ↦ rw early refl
              | inr p ↦ rw p (written-Holds p)
            ])

  Onward : (SessionRecorder → List RawCanFrame × SessionRecorder) → Type 0
  Onward next =
      (r : SessionRecorder) (fs : List RawCanFrame)
      → Holds header version r fs
      → Holds header version (next r).1 (fs ++ (next r).0)

  accepted-Holds :
      (next : SessionRecorder → List RawCanFrame × SessionRecorder) (f : RawCanFrame)
      (r : SessionRecorder) (fs : List RawCanFrame) (res : Result (Unit {0})) (r' : SessionRecorder)
      → Onward next
      → Holds header version r fs
      → AfterRecord f r fs res r'
      → Holds header version (accepted next f (res, r')).1 (fs ++ (accepted next f (res, r')).0)
  unfolding accepted Onward
  accepted-Holds next f r fs (ok u) r' on h a =
      subst (Holds header version (next r').1) (append_assoc fs (f ∷ []) (next r').0)
        (on r' (fs ++ f ∷ []) a)
  accepted-Holds next f r fs (err e) r' on h a =
      on r' fs (subst (λ x. Holds header version x fs) (sym a) h)

  -- Whatever frames the recorder is given, it then holds those that it accepted.
  pub record_all-Holds :
      (gs : List RawCanFrame) (r : SessionRecorder) (fs : List RawCanFrame)
      → All IsRawCanFrame gs
      → Holds header version r fs
      → (let (kept, r') = record_all gs r in Holds header version r' (fs ++ kept))
  unfolding record_all Onward
  record_all-Holds [] r fs v h = subst (Holds header version r) (sym (append-nil fs)) h
  record_all-Holds (f ∷ gs) r fs v h =
      accepted-Holds (λ x. record_all gs x) f r fs (record_frame f succeeds r).0
        (record_frame f succeeds r).1 (λ r' fs' h'. record_all-Holds gs r' fs' v.1 h') h
        (record_frame-Holds f v.0 r fs h)

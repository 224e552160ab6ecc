-- ===== src/Session/Recording/Stored.antt =====
-- session: the manifest that a recording leaves is one that its reader accepts.
use tuner_os.Prelude.{
  ℕ, suc, ◌≡◌, refl, sym, subst, String, true, false, string_eq, beq_refl, Option, some, List, [],
  ◌∷◌, Result, ok, err, ℤ, pos, Bool-cases, Result-cases, inl, inr,
}
use tuner_os.Prelude.Values.{Bytes}
use tuner_os.Can.Models.{RawCanFrame}
use tuner_os.Can.Codec.{encode_raw_can_record}
use tuner_os.Telemetry.Engine.{precedes}
use tuner_os.Session.Models.{SessionManifest, recording}
use tuner_os.Session.Manifest.{validate_consistency}
use tuner_os.Session.Manifest.Recorded.{
  record_frame-validate_consistency, complete_session-validate_consistency,
}
use tuner_os.Session.Document.{object, to_dict, read_manifest, is_hash}
use tuner_os.Session.Document.Fields.{HasText, IsStorable}
use tuner_os.Session.Document.Roundtrip.{from_dict-to_dict}
use tuner_os.Session.Recorder.{
  SessionRecorder, can_record, record_frame, write_record, store_record, count_frame, succeeds,
}
use tuner_os.Session.Recorder.Completion.{
  Publication, complete_manifest, complete_session, publish_finished, publish,
}
use tuner_os.Session.Reader.{session_reader}
use tuner_os.Session.Recording.{accepted, record_all}

-- What the caller of the recorder gives, when the reader accepts it: the identifier, the creation
-- time, the name and the hash of the DBC, and the revision of the calibration.
pub record IsReadable (uuid : String → Option String) (id time dbc hash : String)
    (calibration : Option ℤ) : Type 0 where
  pub canonical : uuid id ≡ some id
  pub identifier : HasText id
  pub created : HasText time
  pub dbc_name : HasText dbc
  pub dbc_sha256 : is_hash hash ≡ true
  pub positive : (n : ℤ) → calibration ≡ some n → (k : ℕ) × (n ≡ pos (suc k))

module _ (uuid : String → Option String) (dbc_sha256 : String) where
  -- The manifest can be stored, is consistent, and is of the DBC.
  pub record Stored (m : SessionManifest) : Type 0 where
    pub storable : IsStorable m
    pub consistent : validate_consistency uuid m ≡ ok tt
    pub same_dbc : m.dbc_sha256 ≡ dbc_sha256

  count_frame-IsStorable :
      (m : SessionManifest) (t : ℕ) → IsStorable m → IsStorable (count_frame m t)
  count_frame-IsStorable m t h = record {
    format_name = h.format_name;
    session_id = h.session_id;
    created_at_utc = h.created_at_utc;
    vehicle_profile_id = h.vehicle_profile_id;
    can_network = h.can_network;
    dbc_name = h.dbc_name;
    dbc_sha256 = h.dbc_sha256;
    frames_sha256 = h.frames_sha256;
    provenance = h.provenance;
  }

  -- A call of `record` counts a frame, or leaves the manifest as it is.
  record_frame-keeps :
      (P : SessionManifest → Type 0) (f : RawCanFrame) (r : SessionRecorder)
      → ((t : ℕ) → P r.manifest → P (count_frame r.manifest t))
      → P r.manifest
      → P (record_frame f succeeds r).1.manifest
  unfolding record_frame write_record store_record
  record_frame-keeps P f r counted h = elim (Bool-cases (can_record r)) [
    | inr refused ↦ rw refused h
    | inl can ↦
        elim (Bool-cases
          (precedes f.timestamp_microseconds r.manifest.last_timestamp_microseconds)) [
            | inl late ↦ rw (can, late) h
            | inr in_order ↦ elim (Result-cases (encode_raw_can_record f)) [
              | inl (b, e) ↦ rw (can, in_order, e) (counted f.timestamp_microseconds h)
              | inr (x, e) ↦ rw (can, in_order, e) h
            ]
          ]
  ]

  Stored-record_frame :
      (f : RawCanFrame) (r : SessionRecorder)
      → Stored r.manifest
      → Stored (record_frame f succeeds r).1.manifest
  Stored-record_frame f r h = record {
    storable = record_frame-keeps IsStorable f r (count_frame-IsStorable r.manifest) h.storable;
    consistent = record_frame-validate_consistency uuid f succeeds r h.consistent;
    same_dbc = record_frame-keeps (λ m. m.dbc_sha256 ≡ dbc_sha256) f r (λ t k. k) h.same_dbc;
  }

  accepted-keeps :
      (next : SessionRecorder → List RawCanFrame × SessionRecorder) (f : RawCanFrame)
      (p : Result (Unit {0}) × SessionRecorder)
      → (accepted next f p).1 ≡ (next p.1).1
  unfolding accepted
  accepted-keeps next f (ok u, r) = refl
  accepted-keeps next f (err e, r) = refl

  pub Stored-record_all :
      (fs : List RawCanFrame) (r : SessionRecorder)
      → Stored r.manifest
      → Stored (record_all fs r).1.manifest
  unfolding record_all
  Stored-record_all [] r h = h
  Stored-record_all (f ∷ fs) r h =
      subst (λ (x : SessionRecorder). Stored x.manifest)
        (sym (accepted-keeps (record_all fs) f (record_frame f succeeds r)))
        (Stored-record_all fs (record_frame f succeeds r).1 (Stored-record_frame f r h))

  module _ (sha256 : Bytes → String) (hashes : (b : Bytes) → is_hash (sha256 b) ≡ true) where
    complete_manifest-IsStorable :
        (r : SessionRecorder) → IsStorable r.manifest → IsStorable (complete_manifest sha256 r)
    complete_manifest-IsStorable r h = record {
      format_name = h.format_name;
      session_id = h.session_id;
      created_at_utc = h.created_at_utc;
      vehicle_profile_id = h.vehicle_profile_id;
      can_network = h.can_network;
      dbc_name = h.dbc_name;
      dbc_sha256 = h.dbc_sha256;
      frames_sha256 = hashes r.hashed;
      provenance = h.provenance;
    }

    complete_manifest-consistent :
        (r : SessionRecorder)
        → r.closed ≡ false
        → r.manifest.status ≡ recording
        → validate_consistency uuid r.manifest ≡ ok tt
        → validate_consistency uuid (complete_manifest sha256 r) ≡ ok tt
    unfolding complete_session publish_finished publish
    complete_manifest-consistent r open_still status_still h =
        let can : can_record r ≡ true = rw (open_still, status_still) refl in
        rw can at
          (complete_session-validate_consistency uuid sha256 true Publication.succeeds true r h)

    -- The manifest of a completed recording is read back, and accepted by the reader.
    pub complete_manifest-read :
        (r : SessionRecorder)
        → Stored r.manifest
        → r.closed ≡ false
        → r.manifest.status ≡ recording
        → session_reader
            (read_manifest uuid (some (object (to_dict (complete_manifest sha256 r)))))
            (some dbc_sha256)
          ≡ ok (complete_manifest sha256 r)
    unfolding session_reader read_manifest
    complete_manifest-read r h open_still status_still =
        rw
          (
            from_dict-to_dict uuid (complete_manifest sha256 r)
                (complete_manifest-IsStorable r h.storable)
                (complete_manifest-consistent r open_still status_still h.consistent),
            h.same_dbc,
            beq_refl dbc_sha256,
          )
          refl

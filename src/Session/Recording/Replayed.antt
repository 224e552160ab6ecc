-- ===== src/Session/Recording/Replayed.antt =====
-- session: a completed recording is read back as the frames that were accepted.
use mathlib.Core.List.{append-nil}
use tuner_os.Prelude.{
  ℕ, suc, ◌≡◌, ◌<◌, ◌≤◌, refl, sym, ap, ◌∙◌, subst, String, Bool, true, Option, some, List, [], ◌∷◌,
  ◌++◌, arith, ok, All, beq_refl, nat_eq, string_eq, option_eq, length, length-append, ℤ, >>=-eq-ok,
  raise_if-passed, ok_injective, eqb,
}
use tuner_os.Prelude.Values.{Bytes}
use tuner_os.Can.Models.{RawCanFrame, IsRawCanFrame}
use tuner_os.Can.Codec.Roundtrip.{layout, length-layout, take_prefix, drop_prefix}
use tuner_os.Can.Gateway.Frames.{IsRecordable, records}
use tuner_os.Session.Format.{decode_session_header, encode_session_header}
use tuner_os.Session.Format.Header.{encoded}
use tuner_os.Session.Recorder.{
  SessionRecorder, session_recorder, check_calibration, normalize_session_name, can_record,
}
use tuner_os.Session.Recorder.Completion.{
  Publication, complete_session, complete_manifest, publish, publish_finished,
}
use tuner_os.Session.Document.{object, to_dict, read_manifest, is_hash}
use tuner_os.Session.Recording.Stored.{IsReadable, Stored-record_all, complete_manifest-read}
use tuner_os.Session.Recording.Created.{new-Stored}
use tuner_os.Session.Reader.{session_reader, frames, scan_file, check_header, check_totals}
use tuner_os.Session.Recording.{scanned, start, record_all}
use tuner_os.Session.Recording.Scanning.{scan_records-frames}
use tuner_os.Session.Recording.Holding.{Holds, record_all-Holds}

-- The records of frames are at least as many bytes as there are frames.
length-records : (fs : List RawCanFrame) → All IsRecordable fs → length fs ≤ length (records fs)
length-records [] v = omega arith
length-records (f ∷ fs) v = omega (
  arith,
  length-append (layout f) (records fs),
  length-layout f v.0.valid v.0.timed,
  length-records fs v.1,
)

module _ (sha256 : Bytes → String) (header : Bytes) (version : ℕ)
    (readable : decode_session_header header ≡ ok version) (sized : length header ≡ 8) where
  pub completed-publishes :
      (r : SessionRecorder) (fs : List RawCanFrame)
      → Holds header version r fs
      → complete_session sha256 true Publication.succeeds true r ≡ (
        ok (complete_manifest sha256 r),
        record r {
          closed = true;
          manifest = complete_manifest sha256 r;
          on_disk = complete_manifest sha256 r;
          published = true;
        },
      )
  unfolding complete_session publish_finished publish
  completed-publishes r fs h =
      let can : can_record r ≡ true = rw (h.open_still, h.status_still) refl in rw can refl

  header_accepted :
      (r : SessionRecorder) (fs : List RawCanFrame)
      → Holds header version r fs
      → check_header sha256 (complete_manifest sha256 r) header ≡ ok tt
  unfolding check_header
  header_accepted r fs h = rw (readable, h.same_version, (eqb_refl version)) refl
    where
      eqb_refl : (n : ℕ) → eqb n n ≡ true
      eqb_refl n = ground arith

  totals_accepted :
      (r : SessionRecorder) (fs : List RawCanFrame)
      → Holds header version r fs
      → check_totals sha256 (complete_manifest sha256 r) (scanned (start header) fs) ≡ ok tt
  unfolding check_totals
  totals_accepted r fs h =
      rw
        (
          h.scan,
          beq_refl r.manifest.frame_count,
          beq_refl r.manifest.first_timestamp_microseconds,
          beq_refl r.manifest.last_timestamp_microseconds,
          beq_refl (some (sha256 r.hashed)),
        )
        refl

  pub frames-Holds :
      (r : SessionRecorder) (fs : List RawCanFrame)
      → Holds header version r fs
      → frames sha256 (complete_manifest sha256 r) (some r.written) ≡ (fs, ok tt)
  unfolding frames scan_file
  frames-Holds r fs h =
      let room : length fs < suc (length (header ++ records fs)) =
        omega (arith, length-append header (records fs), length-records fs h.recordable) in
      ap (λ c. frames sha256 (complete_manifest sha256 r) (some c)) h.file
      ∙ ap
          (λ x.
            scan_file sha256 (complete_manifest sha256 r) (header ++ records fs)
              (check_header sha256 (complete_manifest sha256 r) x))
          (take_prefix header (records fs) sized)
      ∙ ap (scan_file sha256 (complete_manifest sha256 r) (header ++ records fs))
          (header_accepted r fs h)
      ∙ rw
          (
            take_prefix header (records fs) sized,
            drop_prefix header (records fs) sized,
            scan_records-frames fs (suc (length (header ++ records fs))) (start header) h.recordable
                h.ascends room,
            totals_accepted r fs h,
          )
          refl

module _ (collapse : String → String) (exists : Bool) (id created : String)
    (name scenario : Option String) (dbc_name dbc_sha256 : String) (calibration_id : Option String)
    (calibration_revision : Option ℤ) (r : SessionRecorder)
    (new : session_recorder collapse exists id created name scenario dbc_name dbc_sha256
        calibration_id calibration_revision
      ≡ ok r) where
  new-Holds :
      (header : Bytes) × (version : ℕ) × (decode_session_header header ≡ ok version)
      × (length header ≡ 8)
      × Holds header version r []
  unfolding session_recorder
  new-Holds =
      let (fresh, h1) = raise_if-passed exists _ _ new in
      let (version, v, h2) =
        >>=-eq-ok (check_calibration calibration_id calibration_revision) _ h1 in
      let (n, nv, h3) = >>=-eq-ok (normalize_session_name collapse name) _ h2 in
      let (s, sv, h4) = >>=-eq-ok (normalize_session_name collapse scenario) _ h3 in
      let (header, e, h5) = >>=-eq-ok (encode_session_header version) _ h4 in
      let (readable, sized) = encoded header version e in
      (
        header,
        version,
        readable,
        sized,
        subst (λ x. Holds header version x []) (ok_injective h5)
            (record {
              open_still = refl;
              status_still = refl;
              same_version = refl;
              file = sym (append-nil header);
              scan = refl;
              recordable = tt;
              ascends = tt;
            }),
      )

  -- A new recorder is given frames one after the other, each of which it accepts or refuses, and is
  -- then completed, with no fault of the file system. The completion succeeds and publishes. The
  -- manifest that is written for it is read back, a reader of it for the recorded DBC is constructed,
  -- and the reader yields exactly the frames that were accepted, in order, and ends with every check
  -- passed. This holds of any hash function that gives 64 hexadecimal digits, when the identifier is
  -- a canonical UUID, the creation time and the DBC's name are not empty, the DBC's hash has 64
  -- hexadecimal digits, and a calibration revision is positive.
  pub frames-record_all :
      (uuid : String → Option String) (sha256 : Bytes → String)
      → IsReadable uuid id created dbc_name dbc_sha256 calibration_revision
      → ((b : Bytes) → is_hash (sha256 b) ≡ true)
      → (fs : List RawCanFrame) → All IsRawCanFrame fs
      → (let (kept, r') = record_all fs r in
          let (m, r'') = complete_session sha256 true Publication.succeeds true r' in
          (m ≡ ok r''.on_disk)
          × (r''.published ≡ true)
          × (session_reader
                (read_manifest uuid (some (object (to_dict r''.on_disk))))
                (some dbc_sha256)
              ≡ ok r''.on_disk)
          × (frames sha256 r''.on_disk (some r''.written) ≡ (kept, ok tt)))
  frames-record_all uuid sha256 readable hashes fs v =
      let (header, version, decoded, sized, h) = new-Holds in
      let r' = (record_all fs r).1 in
      let held = record_all-Holds header version fs r [] v h in
      let stored = Stored-record_all uuid dbc_sha256 fs r (
        new-Stored collapse exists id created name scenario dbc_name dbc_sha256 calibration_id
          calibration_revision r new uuid readable) in
      rw (completed-publishes sha256 header version decoded sized r' (record_all fs r).0 held) (
        refl,
        refl,
        complete_manifest-read uuid dbc_sha256 sha256 hashes r' stored held.open_still
            held.status_still,
        frames-Holds sha256 header version decoded sized r' (record_all fs r).0 held,
      )

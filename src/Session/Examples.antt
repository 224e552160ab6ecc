-- ===== src/Session/Examples.antt =====
-- session/: the theorems at a recording of three frames, the second of which comes too late.
use tuner_os.Prelude.{
  ◌≡◌, ◌↔◌, refl, true, false, Option, none, some, [], ◌∷◌, arith, Result, ok, ℤ, pos, string_eq,
}
use tuner_os.Prelude.Values.{Bytes}
use tuner_os.Prelude.Struct.{to_be, of_be}
use tuner_os.Can.Models.{RawCanFrame, IsRawCanFrame}
use tuner_os.Can.Codec.Examples.{throttle, throttle-IsRawCanFrame}
use tuner_os.Session.Models.{recording, complete, SessionManifest}
use tuner_os.Session.Format.{encode_session_header, decode_session_header}
use tuner_os.Session.Format.Header.{header_exact}
use tuner_os.Session.Recorder.{
  SessionRecorder, session_recorder, started, check_calibration, normalize_session_name,
  record_frame, fails_after,
}
use tuner_os.Session.Recorder.Completion.{Publication, complete_session}
use tuner_os.Session.Manifest.{validate_consistency}
use tuner_os.Session.Manifest.Recorded.{
  record_frame-validate_consistency, complete_session-validate_consistency,
}
use tuner_os.Session.Reader.{
  frames, session_reader, validate_integrity, check_header, check_totals, check_file, check_records,
  check_record,
}
use tuner_os.Prelude.Dict.{get}
use tuner_os.Session.Catalog.{
  SessionCatalog, SessionReader, reader, canonical_id, open_artifact, compatibility,
  is_supported_dbc_sha256, legacy_phase_8a_dbc_sha256,
}
use tuner_os.Session.Reader.Integrity.{validate_integrity-frames}
use tuner_os.Session.Document.{object, to_dict, from_dict, read_manifest}
use tuner_os.Session.Document.Fields.{IsStorable, calibrated}
use tuner_os.Session.Document.Roundtrip.{from_dict-to_dict}
use tuner_os.Session.Recording.Stored.{IsReadable}
use tuner_os.Prelude.{sym, some_injective, String}
use tuner_os.Session.Catalog.Returned.{IsReaderOf, IsSound, reader-IsSound}
use tuner_os.Session.Recording.{record_all}
use tuner_os.Session.Recording.Replayed.{frames-record_all}

abbrev header : Bytes
header = 84 ∷ 78 ∷ 83 ∷ 82 ∷ 2 ∷ 0 ∷ 0 ∷ 0 ∷ []

header_exact_example : (decode_session_header header ≡ ok 2) ↔ (encode_session_header 2 ≡ ok header)
header_exact_example = header_exact header 2 (omega arith)

abbrev early : RawCanFrame
early = record throttle { timestamp_microseconds = 5000 }

abbrev later : RawCanFrame
later = record throttle { timestamp_microseconds = 20000 }

early_valid : IsRawCanFrame early
early_valid = record { standard_id = omega arith; short = omega arith; byte_values = omega arith }

later_valid : IsRawCanFrame later
later_valid = record { standard_id = omega arith; short = omega arith; byte_values = omega arith }

abbrev recorder : SessionRecorder
recorder = started header (record {
  format_name = "tuneros.raw_can_session";
  format_version = 2;
  session_id = "0b8e0d7a-3c1f-4f53-9a51-3f2c0a4b8e11";
  created_at_utc = "2026-01-01T00:00:00Z";
  name = none;
  scenario = none;
  vehicle_profile_id = "bmw-e90-335i-n54-2010-manual";
  can_network = "TunerOS synthetic Classic CAN";
  dbc_name = "tuneros.dbc";
  dbc_sha256 = legacy_phase_8a_dbc_sha256;
  frames_sha256 = none;
  status = recording;
  failure_reason = none;
  frame_count = 0;
  first_timestamp_microseconds = none;
  last_timestamp_microseconds = none;
  duration_microseconds = 0;
  calibration_id = some "base";
  calibration_revision = some (pos 1);
})

abbrev create : Option ℤ → Result SessionRecorder
create revision =
    session_recorder (λ s. s) false "0b8e0d7a-3c1f-4f53-9a51-3f2c0a4b8e11" "2026-01-01T00:00:00Z"
      none none "tuneros.dbc" legacy_phase_8a_dbc_sha256 (some "base") revision

new : create (some (pos 1)) ≡ ok recorder
unfolding session_recorder check_calibration normalize_session_name encode_session_header to_be
new = refl

-- A hash function of the right form.
abbrev hash : Bytes → String
hash b = "0123456789abcdef0123456789abcdef0123456789abcdef0123456789abcdef"

readable :
    IsReadable
      (λ s. some s)
      "0b8e0d7a-3c1f-4f53-9a51-3f2c0a4b8e11"
      "2026-01-01T00:00:00Z"
      "tuneros.dbc"
      legacy_phase_8a_dbc_sha256
      (some (pos 1))
readable = record {
  canonical = refl;
  identifier = refl;
  created = refl;
  dbc_name = refl;
  dbc_sha256 = refl;
  positive = λ n e. (0, sym (some_injective e));
}

frames-record_all_example :
    (let (kept, r') = record_all (throttle ∷ early ∷ later ∷ []) recorder in
      let (m, r'') = complete_session hash true Publication.succeeds true r' in
      (m ≡ ok r''.on_disk)
      × (r''.published ≡ true)
      × (session_reader
            (read_manifest (λ s. some s) (some (object (to_dict r''.on_disk))))
            (some legacy_phase_8a_dbc_sha256)
          ≡ ok r''.on_disk)
      × (frames hash r''.on_disk (some r''.written) ≡ (kept, ok tt)))
frames-record_all_example =
    frames-record_all (λ s. s) false "0b8e0d7a-3c1f-4f53-9a51-3f2c0a4b8e11" "2026-01-01T00:00:00Z"
      none none "tuneros.dbc" legacy_phase_8a_dbc_sha256 (some "base") (some (pos 1)) recorder new
      (λ s. some s) hash readable (λ b. refl) (throttle ∷ early ∷ later ∷ [])
      (throttle-IsRawCanFrame, (early_valid, (later_valid, tt)))

consistent : validate_consistency (λ s. some s) recorder.manifest ≡ ok tt
unfolding validate_consistency
consistent = refl

record_frame-validate_consistency_example :
    validate_consistency
      (λ s. some s)
      (record_frame throttle (fails_after (0 ∷ [])) recorder).1.manifest
    ≡ ok tt
record_frame-validate_consistency_example =
    record_frame-validate_consistency (λ s. some s) throttle (fails_after (0 ∷ [])) recorder
      consistent

complete_session-validate_consistency_example :
    validate_consistency
      (λ s. some s)
      (complete_session (λ b. "hash") true Publication.not_renamed false recorder).1.manifest
    ≡ ok tt
complete_session-validate_consistency_example =
    complete_session-validate_consistency (λ s. some s) (λ b. "hash") true Publication.not_renamed
      false recorder consistent

-- A root with one artifact, of no frames.
abbrev empty_session : SessionManifest
empty_session = record recorder.manifest {
  status = complete;
  frames_sha256 = some "hash";
  dbc_sha256 = "dbc";
}

abbrev catalog : SessionCatalog
catalog = record {
  uuid = λ s. some s;
  sha256 = λ b. "hash";
  authoritative_dbc_sha256 = "dbc";
  artifacts =
      (
        recorder.manifest.session_id,
        record { contained = true; manifest = ok empty_session; frame_file = some header },
      )
      ∷ [];
}

abbrev empty_reader : SessionReader
empty_reader = record { manifest = empty_session; frame_file = some header }

opened : reader catalog recorder.manifest.session_id true ≡ ok empty_reader
unfolding reader canonical_id open_artifact session_reader validate_integrity frames check_file
    check_header check_totals check_records check_record decode_session_header compatibility
    is_supported_dbc_sha256 get of_be
opened = refl

reader-IsSound_example :
    (catalog.uuid recorder.manifest.session_id ≡ some recorder.manifest.session_id)
    × (empty_session.session_id ≡ recorder.manifest.session_id)
    × (true ≡ true → compatibility catalog empty_session ≡ true)
    × IsReaderOf catalog recorder.manifest.session_id empty_reader
    × IsSound catalog empty_reader
reader-IsSound_example = reader-IsSound catalog recorder.manifest.session_id true opened

storable : IsStorable recorder.manifest
storable = record {
  format_name = refl;
  session_id = refl;
  created_at_utc = refl;
  vehicle_profile_id = refl;
  can_network = refl;
  dbc_name = refl;
  dbc_sha256 = refl;
  frames_sha256 = tt;
  provenance = calibrated "base" 0 refl;
}

from_dict-to_dict_example :
    from_dict (λ s. some s) (object (to_dict recorder.manifest)) ≡ ok recorder.manifest
from_dict-to_dict_example = from_dict-to_dict (λ s. some s) recorder.manifest storable consistent

validate_integrity-frames_example :
    validate_integrity hash empty_session (some header)
    ≡ (frames hash empty_session (some header)).1
validate_integrity-frames_example = validate_integrity-frames hash empty_session (some header)

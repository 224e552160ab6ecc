-- ===== src/Session/Reader.antt =====
-- session/reader.py: reading an artifact. A frame file that is missing is `none`.
pub mod Integrity
use tuner_os.Prelude.{
  ℕ, zero, suc, ◌+◌, String, Bool, not, Option, none, some, List, [], ◌∷◌, ◌++◌, ◌==◌, string_eq,
  nat_eq, option_eq, eqb, false, length, take, drop, Result, ok, err, assertion_error,
  raw_can_record_error, session_format_error, session_version_error, session_integrity_error,
  session_dbc_mismatch_error, ◌>>=◌, ◌>>◌, raise_if, if◌then◌else◌,
}
use tuner_os.Prelude.Values.{Bytes}
use tuner_os.Can.Models.{RawCanFrame}
use tuner_os.Can.Codec.{decode_raw_can_record, raw_can_record_size}
use tuner_os.Telemetry.Engine.{precedes}
use tuner_os.Session.Models.{SessionManifest, is_complete}
use tuner_os.Session.Format.{session_file_header_size, decode_session_header}
use tuner_os.Session.Recorder.{first_or}

-- expected_dbc_sha256 is not None and manifest.dbc_sha256 != expected_dbc_sha256
abbrev is_other : String → Option String → Bool
is_other sha none = false
is_other sha (some expected) = not (sha == expected)

-- `SessionReader.__init__`, by what `read_manifest` gives.
unfoldable pub session_reader : Result SessionManifest → Option String → Result SessionManifest
session_reader read expected = do
  manifest ← read
  raise_if (not (is_complete manifest.status)) session_integrity_error
  raise_if (is_other manifest.dbc_sha256 expected) session_dbc_mismatch_error
  ok manifest

-- The local variables of the loop.
pub record Scan : Type 0 where
  pub count : ℕ
  pub first_timestamp : Option ℕ
  pub last_timestamp : Option ℕ
  pub hashed : Bytes

-- except RawCanRecordError: raise SessionFormatError
abbrev pub as_format_error : Result RawCanFrame → Result RawCanFrame
as_format_error (err raw_can_record_error) = err session_format_error
as_format_error r = r

abbrev pub add_frame : Scan → Bytes → ℕ → Scan
add_frame s bytes t = record {
  count = s.count + 1;
  first_timestamp = some (first_or s.first_timestamp t);
  last_timestamp = some t;
  hashed = s.hashed ++ bytes;
}

-- The frames that the generator yields, and how it ends.
abbrev pub Scanned : Type 0
Scanned = List RawCanFrame × Result Scan

unfoldable pub yield_frame : (Scan → Scanned) → Scan → Bytes → Result RawCanFrame → Scanned
yield_frame next s bytes (err e) = ([], err e)
yield_frame next s bytes (ok f) =
    let (fs, end) = next (add_frame s bytes f.timestamp_microseconds) in
    if precedes f.timestamp_microseconds s.last_timestamp
    then ([], err session_integrity_error)
    else (f ∷ fs, end)

unfoldable pub scan_record : (Scan → Scanned) → Scan → Bytes → Scanned
unfolding yield_frame
scan_record next s [] = ([], ok s)
scan_record next s (b ∷ bs) =
    if eqb (length (b ∷ bs)) raw_can_record_size
    then yield_frame next s (b ∷ bs) (as_format_error (decode_raw_can_record (b ∷ bs)))
    else ([], err session_integrity_error)

-- while True: for at most `fuel` reads
unfoldable pub scan_records : ℕ → Bytes → Scan → Scanned
unfolding scan_record
scan_records zero content s = ([], err assertion_error)
scan_records (suc fuel) content s =
    scan_record (λ s'. scan_records fuel (drop raw_can_record_size content) s') s
      (take raw_can_record_size content)

-- The same loop in `validate_integrity`, which yields nothing.
unfoldable pub check_frame : (Scan → Result Scan) → Scan → Bytes → Result RawCanFrame → Result Scan
check_frame next s bytes (err e) = err e
check_frame next s bytes (ok f) =
    let rest = next (add_frame s bytes f.timestamp_microseconds) in
    if precedes f.timestamp_microseconds s.last_timestamp then err session_integrity_error else rest

unfoldable pub check_record : (Scan → Result Scan) → Scan → Bytes → Result Scan
unfolding check_frame
check_record next s [] = ok s
check_record next s (b ∷ bs) =
    if eqb (length (b ∷ bs)) raw_can_record_size
    then check_frame next s (b ∷ bs) (as_format_error (decode_raw_can_record (b ∷ bs)))
    else err session_integrity_error

unfoldable pub check_records : ℕ → Bytes → Scan → Result Scan
unfolding check_record
check_records zero content s = err assertion_error
check_records (suc fuel) content s =
    check_record (λ s'. check_records fuel (drop raw_can_record_size content) s') s
      (take raw_can_record_size content)

module _ (sha256 : Bytes → String) (manifest : SessionManifest) where
  -- The checks after the loop, `_validate_manifest_timestamps` among them.
  unfoldable pub check_totals : Scan → Result (Unit {0})
  check_totals s = do
    raise_if (not (s.count == manifest.frame_count)) session_integrity_error
    raise_if (not (s.first_timestamp == manifest.first_timestamp_microseconds))
        session_integrity_error
    raise_if (not (s.last_timestamp == manifest.last_timestamp_microseconds))
        session_integrity_error
    raise_if (not (some (sha256 s.hashed) == manifest.frames_sha256)) session_integrity_error

  unfoldable pub check_header : Bytes → Result (Unit {0})
  check_header header = do
    version ← decode_session_header header
    raise_if (not (eqb version manifest.format_version)) session_version_error

  unfoldable pub scan_file : Bytes → Result (Unit {0}) → List RawCanFrame × Result (Unit {0})
  unfolding check_totals
  scan_file content (err e) = ([], err e)
  scan_file content (ok u) =
      let (fs, end) =
        scan_records (suc (length content)) (drop session_file_header_size content) (record {
          count = 0;
          first_timestamp = none;
          last_timestamp = none;
          hashed = take session_file_header_size content;
        }) in
      (fs, end >>= λ s. check_totals s)

  -- `SessionReader.frames`: what it yields, and how it ends. Each read but the last takes a byte at
  -- least, so a read more than there are bytes is enough.
  unfoldable pub frames : Option Bytes → List RawCanFrame × Result (Unit {0})
  unfolding scan_file check_header
  frames none = ([], err session_format_error)
  frames (some content) = scan_file content (check_header (take session_file_header_size content))

  unfoldable pub check_file : Bytes → Result (Unit {0}) → Result (Unit {0})
  unfolding check_totals
  check_file content (err e) = err e
  check_file content (ok u) =
      check_records (suc (length content)) (drop session_file_header_size content) (record {
        count = 0;
        first_timestamp = none;
        last_timestamp = none;
        hashed = take session_file_header_size content;
      })
      >>= λ s. check_totals s

  -- `SessionReader.validate_integrity`
  unfoldable pub validate_integrity : Option Bytes → Result (Unit {0})
  unfolding check_file check_header
  validate_integrity none = err session_format_error
  validate_integrity (some content) =
      check_file content (check_header (take session_file_header_size content))

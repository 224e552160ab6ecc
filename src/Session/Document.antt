-- ===== src/Session/Document.antt =====
-- session/models.py: a manifest as the JSON object that the artifact holds, and back.
pub mod Fields
pub mod Roundtrip
use tuner_os.Prelude.{
  ℕ, zero, suc, String, Bool, true, false, not, ◌&&◌, ◌||◌, Option, none, some, List, [], ◌∷◌, ◌++◌,
  ◌==◌, string_eq, nat_eq, Result, ok, err, type_error, value_error, key_error,
  session_format_error, session_version_error, ◌>>=◌, ◌>>◌, raise_if, or_raise, if◌then◌else◌, eqb,
  ltb, leb, length, all, any, map, ℤ, pos, negsuc,
}
use tuner_os.Prelude.Dict.{Dict, get}
use tuner_os.Prelude.Values.{Value, null, int, str, codes}
use tuner_os.Session.Models.{
  SessionManifest, SessionStatus, recording, complete, incomplete, session_format_name,
  session_format_version, session_format_version_calibration,
}
use tuner_os.Session.Manifest.{validate_consistency}

-- What the JSON of a manifest file is: an object, or another value.
pub data Document : Type 0 where
  object : Dict String Value → Document
  no_object : Document

abbrev pub status_text : SessionStatus → String
status_text recording = "recording"
status_text complete = "complete"
status_text incomplete = "incomplete"

-- SessionStatus(value)
unfoldable pub status_of : Value → Result SessionStatus
status_of (str s) =
    if s == "recording"
    then ok recording
    else if s == "complete"
    then ok complete
    else if s == "incomplete"
    then ok incomplete
    else err value_error
status_of _ = err value_error

abbrev pub optional_text : Option String → Value
optional_text none = null
optional_text (some s) = str s

abbrev pub optional_count : Option ℕ → Value
optional_count none = null
optional_count (some n) = int (pos n)

abbrev pub optional_integer : Option ℤ → Value
optional_integer none = null
optional_integer (some n) = int n

unfoldable pub calibration_fields : SessionManifest → Dict String Value
calibration_fields m =
    if eqb m.format_version session_format_version
    then []
    else ("calibration_id", optional_text m.calibration_id)
      ∷ ("calibration_revision", optional_integer m.calibration_revision)
      ∷ []

-- `to_dict`
unfoldable pub to_dict : SessionManifest → Dict String Value
to_dict m =
    ("format_name", str m.format_name)
    ∷ ("format_version", int (pos m.format_version))
    ∷ ("session_id", str m.session_id)
    ∷ ("created_at_utc", str m.created_at_utc)
    ∷ ("name", optional_text m.name)
    ∷ ("scenario", optional_text m.scenario)
    ∷ ("vehicle_profile_id", str m.vehicle_profile_id)
    ∷ ("can_network", str m.can_network)
    ∷ ("dbc_name", str m.dbc_name)
    ∷ ("dbc_sha256", str m.dbc_sha256)
    ∷ ("frames_sha256", optional_text m.frames_sha256)
    ∷ ("status", str (status_text m.status))
    ∷ ("failure_reason", optional_text m.failure_reason)
    ∷ ("frame_count", int (pos m.frame_count))
    ∷ ("first_timestamp_microseconds", optional_count m.first_timestamp_microseconds)
    ∷ ("last_timestamp_microseconds", optional_count m.last_timestamp_microseconds)
    ∷ ("duration_microseconds", int (pos m.duration_microseconds))
    ∷ calibration_fields m

-- isinstance(item, str) and item
pub string_of : Value → Result String
string_of (str s) = if ltb (length (codes s)) 1 then err type_error else ok s
string_of _ = err type_error

pub optional_string_of : Value → Result (Option String)
optional_string_of null = ok none
optional_string_of (str s) = ok (some s)
optional_string_of _ = err type_error

pub nonnegative_integer_of : Value → Result ℕ
nonnegative_integer_of (int (pos n)) = ok n
nonnegative_integer_of _ = err type_error

positive_integer_of : Value → Result ℤ
positive_integer_of (int (pos (suc n))) = ok (pos (suc n))
positive_integer_of _ = err type_error

pub optional_nonnegative_integer_of : Value → Result (Option ℕ)
optional_nonnegative_integer_of null = ok none
optional_nonnegative_integer_of (int (pos n)) = ok (some n)
optional_nonnegative_integer_of _ = err type_error

-- character in "0123456789abcdef"
abbrev pub is_hex_digit : ℕ → Bool
is_hex_digit c = (leb 48 c && leb c 57) || (leb 97 c && leb c 102)

abbrev pub is_hash : String → Bool
is_hash s = eqb (length (codes s)) 64 && all is_hex_digit (codes s)

pub hash_of : Value → Result String
unfolding string_of
hash_of value = do item ← string_of value; raise_if (not (is_hash item)) type_error; ok item

pub optional_hash_of : Value → Result (Option String)
unfolding hash_of
optional_hash_of null = ok none
optional_hash_of value = do item ← hash_of value; ok (some item)

-- A getter on value[key].
unfoldable pub item_of {ℓ} :
    {A : Type ℓ} → (Value → Result A) → Dict String Value → String → Result A
item_of getter value key = do item ← or_raise (get value key) key_error; getter item

-- type(version) is not int or version not in (...)
unfoldable pub version_of : Option Value → Result ℕ
version_of (some (int (pos n))) =
    if eqb n session_format_version || eqb n session_format_version_calibration
    then ok n
    else err session_version_error
version_of _ = err session_version_error

calibration_names : List String
calibration_names = "calibration_id" ∷ "calibration_revision" ∷ []

expected_names : ℕ → List String
unfolding calibration_names
expected_names version =
    "format_name"
    ∷ "format_version"
    ∷ "session_id"
    ∷ "created_at_utc"
    ∷ "name"
    ∷ "scenario"
    ∷ "vehicle_profile_id"
    ∷ "can_network"
    ∷ "dbc_name"
    ∷ "dbc_sha256"
    ∷ "frames_sha256"
    ∷ "status"
    ∷ "failure_reason"
    ∷ "frame_count"
    ∷ "first_timestamp_microseconds"
    ∷ "last_timestamp_microseconds"
    ∷ "duration_microseconds"
    ∷ (if eqb version session_format_version then [] else calibration_names)

includes : List String → List String → Bool
includes xs ys = all (λ y. any (λ x. x == y) xs) ys

-- set(value) == expected
unfoldable pub has_names : Dict String Value → ℕ → Bool
unfolding expected_names includes
has_names value version =
    includes (map (λ (p : String × Value). p.0) value) (expected_names version)
    && includes (expected_names version) (map (λ (p : String × Value). p.0) value)

-- value["format_name"] == SESSION_FORMAT_NAME
unfoldable pub has_format_name : Option Value → Bool
has_format_name (some (str s)) = s == session_format_name
has_format_name _ = false

-- The two arguments of the constructor that depend on the version.
unfoldable pub provenance_of : Dict String Value → ℕ → Result (Option String × Option ℤ)
unfolding string_of positive_integer_of
provenance_of value version =
    if eqb version session_format_version
    then ok (none, none)
    else item_of string_of value "calibration_id" >>= λ id.
        item_of positive_integer_of value "calibration_revision" >>= λ n. ok (some id, some n)

-- cls(...), in the order in which its arguments are computed.
unfoldable pub construct : Dict String Value → ℕ → Result SessionManifest
unfolding string_of optional_string_of hash_of optional_hash_of nonnegative_integer_of
    optional_nonnegative_integer_of
construct value version = do
  session_id ← item_of string_of value "session_id"
  created_at_utc ← item_of string_of value "created_at_utc"
  name ← item_of optional_string_of value "name"
  scenario ← item_of optional_string_of value "scenario"
  vehicle_profile_id ← item_of string_of value "vehicle_profile_id"
  can_network ← item_of string_of value "can_network"
  dbc_name ← item_of string_of value "dbc_name"
  dbc_sha256 ← item_of hash_of value "dbc_sha256"
  frames_sha256 ← item_of optional_hash_of value "frames_sha256"
  status ← item_of status_of value "status"
  failure_reason ← item_of optional_string_of value "failure_reason"
  frame_count ← item_of nonnegative_integer_of value "frame_count"
  first ← item_of optional_nonnegative_integer_of value "first_timestamp_microseconds"
  last ← item_of optional_nonnegative_integer_of value "last_timestamp_microseconds"
  duration ← item_of nonnegative_integer_of value "duration_microseconds"
  (calibration_id, calibration_revision) ← provenance_of value version
  ok (record {
    format_name = session_format_name;
    format_version = version;
    session_id = session_id;
    created_at_utc = created_at_utc;
    name = name;
    scenario = scenario;
    vehicle_profile_id = vehicle_profile_id;
    can_network = can_network;
    dbc_name = dbc_name;
    dbc_sha256 = dbc_sha256;
    frames_sha256 = frames_sha256;
    status = status;
    failure_reason = failure_reason;
    frame_count = frame_count;
    first_timestamp_microseconds = first;
    last_timestamp_microseconds = last;
    duration_microseconds = duration;
    calibration_id = calibration_id;
    calibration_revision = calibration_revision;
  })

-- except (TypeError, ValueError): raise SessionFormatError
abbrev pub as_manifest_error : Result SessionManifest → Result SessionManifest
as_manifest_error (err type_error) = err session_format_error
as_manifest_error (err value_error) = err session_format_error
as_manifest_error r = r

-- `from_dict`, where `uuid` is str(UUID(...)), or none for a ValueError.
unfoldable pub from_dict : (String → Option String) → Document → Result SessionManifest
unfolding has_names
from_dict uuid no_object = err session_format_error
from_dict uuid (object value) = do
  version ← version_of (get value "format_version")
  raise_if (not (has_names value version)) session_format_error
  raise_if (not (has_format_name (get value "format_name"))) session_format_error
  manifest ← as_manifest_error (construct value version)
  validate_consistency uuid manifest
  ok manifest

-- `read_manifest`: a file that is missing or is not JSON is `none`.
unfoldable pub read_manifest : (String → Option String) → Option Document → Result SessionManifest
unfolding from_dict
read_manifest uuid none = err session_format_error
read_manifest uuid (some document) = from_dict uuid document

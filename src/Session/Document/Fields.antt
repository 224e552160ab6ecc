-- ===== src/Session/Document/Fields.antt =====
-- session/models.py: the fields of a manifest that was written.
use tuner_os.Prelude.{
  ℕ, suc, ◌≡◌, refl, String, Bool, true, false, ◌&&◌, Option, none, some, string_eq, arith, ok,
  Result, eqb, ltb, length, ℤ, pos,
}
use tuner_os.Prelude.Dict.{get}
use tuner_os.Prelude.Values.{Value, int, str, codes}
use tuner_os.Session.Models.{
  SessionManifest, SessionStatus, recording, complete, incomplete, session_format_name,
}
use tuner_os.Session.Document.{
  status_text, optional_text, optional_count, is_hash, string_of, optional_string_of,
  nonnegative_integer_of, optional_nonnegative_integer_of, hash_of, optional_hash_of, status_of,
  item_of, to_dict,
}

-- not text
abbrev pub HasText : String → Type 0
HasText s = ltb (length (codes s)) 1 ≡ false

-- The provenance of a recording in each version.
pub data Provenance : ℕ → Option String → Option ℤ → Type 0 where
  uncalibrated : Provenance 1 none none
  calibrated : (id : String) (n : ℕ) → HasText id → Provenance 2 (some id) (some (pos (suc n)))

abbrev pub IsOptionalHash : Option String → Type 0
IsOptionalHash none = Unit
IsOptionalHash (some s) = is_hash s ≡ true

-- A manifest whose fields have the forms that `from_dict` asks for.
pub record IsStorable (m : SessionManifest) : Type 0 where
  pub format_name : m.format_name ≡ session_format_name
  pub session_id : HasText m.session_id
  pub created_at_utc : HasText m.created_at_utc
  pub vehicle_profile_id : HasText m.vehicle_profile_id
  pub can_network : HasText m.can_network
  pub dbc_name : HasText m.dbc_name
  pub dbc_sha256 : is_hash m.dbc_sha256 ≡ true
  pub frames_sha256 : IsOptionalHash m.frames_sha256
  pub provenance : Provenance m.format_version m.calibration_id m.calibration_revision

pub hash-HasText : (s : String) → is_hash s ≡ true → HasText s
hash-HasText s h = ground (arith, (both (eqb (length (codes s)) 64) _ h))
  where
    both : (a b : Bool) → (a && b) ≡ true → a ≡ true
    both true b k = refl
    both false b k = cc

pub string_of-str : (s : String) → HasText s → string_of (str s) ≡ ok s
unfolding string_of
string_of-str s h = rw h refl

pub hash_of-str : (s : String) → is_hash s ≡ true → hash_of (str s) ≡ ok s
unfolding hash_of
hash_of-str s h = rw (string_of-str s (hash-HasText s h), h) refl

pub optional_hash_of-text :
    (o : Option String) → IsOptionalHash o → optional_hash_of (optional_text o) ≡ ok o
unfolding optional_hash_of
optional_hash_of-text none h = refl
optional_hash_of-text (some s) h = rw (hash_of-str s h) refl

pub optional_string_of-text : (o : Option String) → optional_string_of (optional_text o) ≡ ok o
unfolding optional_string_of
optional_string_of-text none = refl
optional_string_of-text (some s) = refl

pub optional_nonnegative_integer_of-count :
    (o : Option ℕ) → optional_nonnegative_integer_of (optional_count o) ≡ ok o
unfolding optional_nonnegative_integer_of
optional_nonnegative_integer_of-count none = refl
optional_nonnegative_integer_of-count (some n) = refl

pub nonnegative_integer_of-int : (n : ℕ) → nonnegative_integer_of (int (pos n)) ≡ ok n
unfolding nonnegative_integer_of
nonnegative_integer_of-int n = refl

pub status_of-text : (s : SessionStatus) → status_of (str (status_text s)) ≡ ok s
unfolding status_of
status_of-text recording = refl
status_of-text complete = refl
status_of-text incomplete = refl

-- A getter on a key that the object has.
pub item_of-get {ℓ} :
    {A : Type ℓ} (getter : Value → Result A) (m : SessionManifest) (key : String) (item : Value)
    → get (to_dict m) key ≡ some item
    → item_of getter (to_dict m) key ≡ getter item
unfolding item_of
item_of-get getter m key item h = rw h refl

module _ (m : SessionManifest) where
  pub get-session_id : get (to_dict m) "session_id" ≡ some (str m.session_id)
  unfolding get to_dict
  get-session_id = refl

  pub get-created_at_utc : get (to_dict m) "created_at_utc" ≡ some (str m.created_at_utc)
  unfolding get to_dict
  get-created_at_utc = refl

  pub get-name : get (to_dict m) "name" ≡ some (optional_text m.name)
  unfolding get to_dict
  get-name = refl

  pub get-scenario : get (to_dict m) "scenario" ≡ some (optional_text m.scenario)
  unfolding get to_dict
  get-scenario = refl

  pub get-vehicle_profile_id :
      get (to_dict m) "vehicle_profile_id" ≡ some (str m.vehicle_profile_id)
  unfolding get to_dict
  get-vehicle_profile_id = refl

  pub get-can_network : get (to_dict m) "can_network" ≡ some (str m.can_network)
  unfolding get to_dict
  get-can_network = refl

  pub get-dbc_name : get (to_dict m) "dbc_name" ≡ some (str m.dbc_name)
  unfolding get to_dict
  get-dbc_name = refl

  pub get-dbc_sha256 : get (to_dict m) "dbc_sha256" ≡ some (str m.dbc_sha256)
  unfolding get to_dict
  get-dbc_sha256 = refl

  pub get-frames_sha256 : get (to_dict m) "frames_sha256" ≡ some (optional_text m.frames_sha256)
  unfolding get to_dict
  get-frames_sha256 = refl

  pub get-status : get (to_dict m) "status" ≡ some (str (status_text m.status))
  unfolding get to_dict
  get-status = refl

  pub get-failure_reason : get (to_dict m) "failure_reason" ≡ some (optional_text m.failure_reason)
  unfolding get to_dict
  get-failure_reason = refl

  pub get-frame_count : get (to_dict m) "frame_count" ≡ some (int (pos m.frame_count))
  unfolding get to_dict
  get-frame_count = refl

  pub get-first_timestamp_microseconds :
      get (to_dict m) "first_timestamp_microseconds"
      ≡ some (optional_count m.first_timestamp_microseconds)
  unfolding get to_dict
  get-first_timestamp_microseconds = refl

  pub get-last_timestamp_microseconds :
      get (to_dict m) "last_timestamp_microseconds"
      ≡ some (optional_count m.last_timestamp_microseconds)
  unfolding get to_dict
  get-last_timestamp_microseconds = refl

  pub get-duration_microseconds :
      get (to_dict m) "duration_microseconds" ≡ some (int (pos m.duration_microseconds))
  unfolding get to_dict
  get-duration_microseconds = refl

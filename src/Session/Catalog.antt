-- ===== src/Session/Catalog.antt =====
-- session/catalog.py: the artifacts of the session root.
pub mod Returned
use tuner_os.Prelude.{
  ℕ, String, Bool, true, false, not, ◌&&◌, ◌||◌, Option, none, some, List, [], ◌∷◌, ◌==◌, string_eq,
  Result, ok, err, key_error, session_integrity_error, session_dbc_mismatch_error, ◌>>=◌, ◌>>◌,
  raise_if, or_raise, if◌then◌else◌,
}
use tuner_os.Prelude.Dict.{Dict, get}
use tuner_os.Prelude.Values.{Bytes, codes}
use tuner_os.Can.Models.{RawCanFrame}
use tuner_os.Diagnostics.FreezeFrame.{text_less}
use tuner_os.Session.Models.{SessionManifest}
use tuner_os.Session.Reader
use tuner_os.Session.Reader.{session_reader, validate_integrity}

-- A directory `*.tuneros`: whether it resolves to a child of the root, what reading its manifest
-- gives, and its frame file.
pub record Artifact : Type 0 where
  pub contained : Bool
  pub manifest : Result SessionManifest
  pub frame_file : Option Bytes

-- The root's artifacts by the stem of their names, in the order of their paths. `uuid` is
-- str(UUID(...)), or none for a ValueError.
pub record SessionCatalog : Type 0 where
  pub uuid : String → Option String
  pub sha256 : Bytes → String
  pub authoritative_dbc_sha256 : String
  pub artifacts : Dict String Artifact

-- can/decoder.py: LEGACY_PHASE_8A_DBC_SHA256
abbrev pub legacy_phase_8a_dbc_sha256 : String
legacy_phase_8a_dbc_sha256 = "320239cad283771dcffbcf293ed6d319ee11c4c383ab3da4d680a8dac16306f2"

-- `is_supported_dbc_sha256`
unfoldable pub is_supported_dbc_sha256 : String → String → Bool
is_supported_dbc_sha256 authoritative value =
    (value == authoritative) || (value == legacy_phase_8a_dbc_sha256)

-- A reader that was constructed: its manifest and its frame file.
pub record SessionReader : Type 0 where
  pub manifest : SessionManifest
  pub frame_file : Option Bytes

module _ (c : SessionCatalog) where
  -- `SessionReader.frames`
  abbrev pub read_frames : SessionReader → List RawCanFrame × Result (Unit {0})
  read_frames r = Reader.frames c.sha256 r.manifest r.frame_file

  unfoldable pub compatibility : SessionManifest → Bool
  unfolding is_supported_dbc_sha256
  compatibility manifest = is_supported_dbc_sha256 c.authoritative_dbc_sha256 manifest.dbc_sha256

  -- `_contained_artifact`
  contained_artifact : Artifact → Result Artifact
  contained_artifact a = do raise_if (not a.contained) key_error; ok a

  -- `_canonical_id`
  unfoldable pub canonical_id : String → Result String
  canonical_id session_id = do
    canonical ← or_raise (c.uuid session_id) key_error
    raise_if (not (canonical == session_id)) key_error
    ok canonical

  -- `_validate_manifest_id`
  validate_manifest_id : SessionReader → String → Result (Unit {0})
  validate_manifest_id r artifact_id =
      raise_if (not (r.manifest.session_id == artifact_id)) session_integrity_error

  -- SessionReader(artifact), and validate_integrity
  unfoldable pub open_artifact : Artifact → Result SessionReader
  open_artifact a = do
    manifest ← session_reader a.manifest none
    validate_integrity c.sha256 manifest a.frame_file
    ok (record { manifest = manifest; frame_file = a.frame_file })

  unfoldable pub reader : String → Bool → Result SessionReader
  unfolding canonical_id contained_artifact open_artifact validate_manifest_id
  reader session_id require_compatible_dbc = do
    canonical ← canonical_id session_id
    found ← or_raise (get c.artifacts canonical) key_error
    artifact ← contained_artifact found
    r ← open_artifact artifact
    raise_if (require_compatible_dbc && not (compatibility r.manifest)) session_dbc_mismatch_error
    validate_manifest_id r canonical
    ok r

  -- The artifacts that `list` skips: `except KeyError: continue`.
  skipped : String → Artifact → Bool
  unfolding contained_artifact canonical_id
  skipped stem a = elim (contained_artifact a >>= λ _. canonical_id stem) [
    | err key_error ↦ true
    | _ ↦ false
  ]

  -- The rest of the loop's body.
  listed : String → Artifact → Result SessionManifest
  unfolding open_artifact validate_manifest_id
  listed stem a = do r ← open_artifact a; validate_manifest_id r stem; ok r.manifest

  manifests : Dict String Artifact → Result (List SessionManifest)
  unfolding skipped listed
  manifests [] = ok []
  manifests ((stem, a) ∷ rest) =
      if skipped stem a
      then manifests rest
      else listed stem a >>= λ m. manifests rest >>= λ ms. ok (m ∷ ms)

-- (a.created_at_utc, a.session_id) < (b.created_at_utc, b.session_id)
unfoldable pub created_before : SessionManifest → SessionManifest → Bool
created_before a b =
    text_less (codes a.created_at_utc) (codes b.created_at_utc)
    || ((a.created_at_utc == b.created_at_utc)
        && text_less (codes a.session_id) (codes b.session_id))

-- sorted(..., reverse=True): the greatest first, and equal ones in their order.
unfoldable pub insert_latest : SessionManifest → List SessionManifest → List SessionManifest
insert_latest m [] = m ∷ []
insert_latest m (n ∷ rest) =
    let later = insert_latest m rest in if created_before m n then n ∷ later else m ∷ n ∷ rest

unfoldable pub sort_latest : List SessionManifest → List SessionManifest
unfolding insert_latest
sort_latest [] = []
sort_latest (m ∷ rest) = insert_latest m (sort_latest rest)

-- `SessionCatalog.list`. A root that does not exist has no artifacts.
unfoldable pub list : SessionCatalog → Result (List SessionManifest)
unfolding manifests sort_latest
list c = manifests c c.artifacts >>= λ ms. ok (sort_latest ms)

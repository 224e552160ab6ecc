-- ===== src/Session/Catalog/Returned.antt =====
-- session/catalog.py: what a reader that `reader` returned can be relied on for.
use tuner_os.Prelude.{
  String, ◌≡◌, refl, sym, ap, ◌∙◌, Bool, true, false, not, ◌&&◌, none, some, ok, ◌==◌, string_eq,
  or_raise, key_error, ok_injective, >>=-eq-ok, raise_if-passed, or_raise-found, subst,
  session_integrity_error, session_dbc_mismatch_error,
}
use tuner_os.Prelude.Dict.{get}
use tuner_os.Session.Models.{SessionManifest, is_complete}
use tuner_os.Session.Reader.{frames, session_reader, validate_integrity}
use tuner_os.Session.Catalog.{
  Artifact, SessionCatalog, SessionReader, read_frames, compatibility, contained_artifact,
  canonical_id, validate_manifest_id, open_artifact, reader,
}
use tuner_os.Session.Reader.Integrity.{IsIntact, frames-IsIntact, validate_integrity-frames}
use tuner_os.Prelude.Values.{Bytes}
use tuner_os.Prelude.{Option, Result, ok-ne-err}

not-true : (b : Bool) → not b ≡ false → b ≡ true
not-true true h = refl
not-true false h = cc

-- A reader of a session that is complete, whose frame file is there and holds what the manifest
-- says, and whose frames are read to the end without an error.
pub record IsSound (c : SessionCatalog) (r : SessionReader) : Type 0 where
  pub is_complete : is_complete r.manifest.status ≡ true
  pub content : Bytes
  pub present : r.frame_file ≡ some content
  pub intact : IsIntact c.sha256 r.manifest content (read_frames c r).0
  pub ends : (read_frames c r).1 ≡ ok tt

-- The artifact is kept under the identifier, it resolves to a child of the root, and its frame file
-- is the reader's.
pub record IsReaderOf (c : SessionCatalog) (id : String) (r : SessionReader) : Type 0 where
  pub artifact : Artifact
  pub kept : get c.artifacts id ≡ some artifact
  pub contained : artifact.contained ≡ true
  pub same_file : r.frame_file ≡ artifact.frame_file

session_reader_complete :
    (read : Result SessionManifest) {m : SessionManifest}
    → session_reader read none ≡ ok m
    → is_complete m.status ≡ true
unfolding session_reader
session_reader_complete read h =
    let (m, is_m, h1) = >>=-eq-ok read _ h in
    let (complete, h2) =
      raise_if-passed (not (is_complete m.status)) session_integrity_error _ h1 in
    subst (λ (x : SessionManifest). is_complete x.status ≡ true) {x = m} (ok_injective h2)
      (not-true _ complete)

file-IsSound :
    (c : SessionCatalog) (m : SessionManifest) (file : Option Bytes)
    → is_complete m.status ≡ true
    → (read_frames c (record { manifest = m; frame_file = file })).1 ≡ ok tt
    → IsSound c (record { manifest = m; frame_file = file })
unfolding frames
file-IsSound c m none complete whole = absurd (ok-ne-err (sym whole))
file-IsSound c m (some content) complete whole = record {
  is_complete = complete;
  content = content;
  present = refl;
  intact = frames-IsIntact c.sha256 m content whole;
  ends = whole;
}

open_artifact-IsSound :
    (c : SessionCatalog) (a : Artifact) {r : SessionReader}
    → open_artifact c a ≡ ok r
    → IsSound c r × (r.frame_file ≡ a.frame_file)
unfolding open_artifact
open_artifact-IsSound c a h =
    let (m', opened, h2) = >>=-eq-ok (session_reader a.manifest none) _ h in
    let (u, whole, h3) = >>=-eq-ok (validate_integrity c.sha256 m' a.frame_file) _ h2 in
    (
      subst (IsSound c) (ok_injective h3) (
          file-IsSound c m' a.frame_file (session_reader_complete a.manifest opened)
            (sym (validate_integrity-frames c.sha256 m' a.frame_file) ∙ whole)),
      ap (λ (x : SessionReader). x.frame_file) (sym (ok_injective h3)),
    )

contained_artifact-child :
    (c : SessionCatalog) (a : Artifact) {a' : Artifact}
    → contained_artifact c a ≡ ok a'
    → (a.contained ≡ true) × (a ≡ a')
unfolding contained_artifact
contained_artifact-child c a h =
    let (inside, h1) = raise_if-passed (not a.contained) key_error _ h in
    (not-true a.contained inside, ok_injective h1)

canonical_id-IsCanonical :
    (c : SessionCatalog) (id : String) {canonical : String}
    → canonical_id c id ≡ ok canonical
    → (canonical ≡ id) × (c.uuid id ≡ some id)
unfolding canonical_id
canonical_id-IsCanonical c id h =
    let (own, found, h1) = >>=-eq-ok (or_raise (c.uuid id) key_error) _ h in
    let (equal, h2) = raise_if-passed (not (own == id)) key_error _ h1 in
    let same : own ≡ id = (string_eq.beq_iff own id).0 (not-true _ equal) in
    (sym (ok_injective h2) ∙ same, or_raise-found (c.uuid id) key_error found ∙ ap some same)

supports :
    (asked supported : Bool) → asked ≡ true → (asked && not supported) ≡ false → supported ≡ true
supports true true p h = refl
supports true false p h = cc
supports false b p h = cc

-- A session that the catalog returns is the one asked for, by its canonical identifier: it is the
-- artifact of that name, a child of the root, and of a supported DBC when that is asked. It is
-- complete, its file has the hash that the manifest names and as many frames as it says, in the
-- order of their timestamps; and `frames` yields all of these and ends without an error.
pub reader-IsSound :
    (c : SessionCatalog) (id : String) (compatible : Bool) {r : SessionReader}
    → reader c id compatible ≡ ok r
    → (c.uuid id ≡ some id)
      × (r.manifest.session_id ≡ id)
      × (compatible ≡ true → compatibility c r.manifest ≡ true)
      × IsReaderOf c id r
      × IsSound c r
unfolding reader validate_manifest_id
reader-IsSound c id compatible h =
    let (canonical, is_canonical, h1) = >>=-eq-ok (canonical_id c id) _ h in
    let (same, uuid) = canonical_id-IsCanonical c id is_canonical in
    let (a, there, h2) = >>=-eq-ok (or_raise (get c.artifacts canonical) key_error) _ h1 in
    let (a', inside, h3) = >>=-eq-ok (contained_artifact c a) _ h2 in
    let (r', opened, h4) = >>=-eq-ok (open_artifact c a') _ h3 in
    let (sound, file) = open_artifact-IsSound c a' opened in
    let (child, is_a) = contained_artifact-child c a inside in
    let (supported, h5) =
      raise_if-passed (compatible && not (compatibility c r'.manifest)) session_dbc_mismatch_error _
        h4 in
    let (named, h6) =
      raise_if-passed (not (r'.manifest.session_id == canonical)) session_integrity_error _ h5 in
    (
      uuid,
      ap (λ (x : SessionReader). x.manifest.session_id) (sym (ok_injective h6))
          ∙ (string_eq.beq_iff r'.manifest.session_id canonical).0 (not-true _ named)
          ∙ same,
      λ asked.
          subst (λ (x : SessionReader). compatibility c x.manifest ≡ true) (ok_injective h6)
            (supports compatible (compatibility c r'.manifest) asked supported),
      subst (IsReaderOf c id) (ok_injective h6) (record {
        artifact = a;
        kept =
            ap (get c.artifacts) (sym same)
            ∙ or_raise-found (get c.artifacts canonical) key_error there;
        contained = child;
        same_file = file ∙ ap (λ (x : Artifact). x.frame_file) (sym is_a);
      }),
      subst (IsSound c) (ok_injective h6) sound,
    )

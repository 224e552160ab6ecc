-- ===== src/Session/Reader/Integrity.antt =====
-- session/reader.py: what `validate_integrity` makes sure of.
use mathlib.Core.List.{append-nil, append_assoc}
use tuner_os.Prelude.{
  ℕ, zero, suc, ◌+◌, ◌≡◌, refl, sym, ap, ◌∙◌, String, Bool, true, false, not, Option, none, some,
  List, [], ◌∷◌, ◌++◌, ◌==◌, arith, length, take, drop, take-append-drop, nat_eq, string_eq,
  option_eq, Result, ok, err, session_integrity_error, eqb, Bool-cases, inl, inr, ok-ne-err,
  ok_injective, >>=-eq-ok, raise_if-passed, subst, ◌>>=◌, raise_if,
}
use tuner_os.Prelude.Values.{Bytes}
use tuner_os.Can.Models.{RawCanFrame}
use tuner_os.Can.Codec.{decode_raw_can_record, raw_can_record_size}
use tuner_os.Telemetry.Engine.{precedes}
use tuner_os.Session.Models.{SessionManifest}
use tuner_os.Session.Format.{session_file_header_size}
use tuner_os.Session.Recording.{Ascends}
use tuner_os.Session.Reader.{
  Scan, Scanned, as_format_error, add_frame, yield_frame, scan_record, scan_records, check_frame,
  check_record, check_records, check_totals, check_header, scan_file, check_file, frames,
  validate_integrity,
}

-- Both loops from the same variables.
check_frame-yield_frame :
    (check : Scan → Result Scan) (next : Scan → Scanned) (s : Scan) (bytes : Bytes)
    (r : Result RawCanFrame)
    → ((x : Scan) → check x ≡ (next x).1)
    → check_frame check s bytes r ≡ (yield_frame next s bytes r).1
unfolding check_frame yield_frame
check_frame-yield_frame check next s bytes (err e) h = refl
check_frame-yield_frame check next s bytes (ok f) h =
    elim (Bool-cases (precedes f.timestamp_microseconds s.last_timestamp)) [
      | inl late ↦ rw late refl
      | inr in_order ↦ rw in_order (h (add_frame s bytes f.timestamp_microseconds))
    ]

check_record-scan_record :
    (check : Scan → Result Scan) (next : Scan → Scanned) (s : Scan) (bytes : Bytes)
    → ((x : Scan) → check x ≡ (next x).1)
    → check_record check s bytes ≡ (scan_record next s bytes).1
unfolding check_record scan_record
check_record-scan_record check next s [] h = refl
check_record-scan_record check next s (b ∷ bs) h =
    elim (Bool-cases (eqb (length (b ∷ bs)) raw_can_record_size)) [
      | inl whole ↦ rw whole (
          check_frame-yield_frame check next s (b ∷ bs)
            (as_format_error (decode_raw_can_record (b ∷ bs))) h)
      | inr cut ↦ rw cut refl
    ]

check_records-scan_records :
    (fuel : ℕ) (content : Bytes) (s : Scan)
    → check_records fuel content s ≡ (scan_records fuel content s).1
unfolding check_records scan_records
check_records-scan_records zero content s = refl
check_records-scan_records (suc fuel) content s =
    check_record-scan_record (check_records fuel (drop raw_can_record_size content))
      (scan_records fuel (drop raw_can_record_size content)) s (take raw_can_record_size content)
      (check_records-scan_records fuel (drop raw_can_record_size content))

module _ (sha256 : Bytes → String) (m : SessionManifest) where
  check_file-scan_file :
      (content : Bytes) (r : Result (Unit {0}))
      → check_file sha256 m content r ≡ (scan_file sha256 m content r).1
  unfolding check_file scan_file
  check_file-scan_file content (err e) = refl
  check_file-scan_file content (ok u) =
      ap (λ x. x >>= λ s. check_totals sha256 m s)
        (check_records-scan_records (suc (length content)) (drop session_file_header_size content)
          _)

  -- The separate loop of `validate_integrity` accepts a frame file, or refuses it with an error,
  -- exactly as the loop of `frames` that yields the frames does at its end.
  pub validate_integrity-frames :
      (file : Option Bytes) → validate_integrity sha256 m file ≡ (frames sha256 m file).1
  unfolding validate_integrity frames
  validate_integrity-frames none = refl
  validate_integrity-frames (some content) =
      check_file-scan_file content (check_header sha256 m (take session_file_header_size content))

-- From the variables `s` to `s'`, the loop yielded `fs` and read all of `content`.
Reads : Scan → List RawCanFrame → Bytes → Scan → Type 0
Reads s fs content s' =
    (s'.count ≡ s.count + length fs)
    × (s'.hashed ≡ s.hashed ++ content)
    × Ascends s.last_timestamp fs

yield_frame-Reads :
    (next : Scan → Scanned) (s : Scan) (bytes rest : Bytes) (r : Result RawCanFrame) (s' : Scan)
    → ((x : Scan) → (next x).1 ≡ ok s' → Reads x (next x).0 rest s')
    → (yield_frame next s bytes r).1 ≡ ok s'
    → Reads s (yield_frame next s bytes r).0 (bytes ++ rest) s'
unfolding yield_frame Reads
yield_frame-Reads next s bytes rest (err e) s' later h = absurd (ok-ne-err (sym h))
yield_frame-Reads next s bytes rest (ok f) s' later h =
    elim (Bool-cases (precedes f.timestamp_microseconds s.last_timestamp)) [
      | inl late ↦ absurd (ok-ne-err (sym (rw late at h)))
      | inr in_order ↦
          let (count, hashed, ordered) =
            later (add_frame s bytes f.timestamp_microseconds) (rw in_order at h) in
          rw in_order
            (omega (arith, count), hashed ∙ append_assoc s.hashed bytes rest, (in_order, ordered))
    ]

scan_record-Reads :
    (next : Scan → Scanned) (s : Scan) (bytes rest : Bytes) (s' : Scan)
    → (bytes ≡ [] → rest ≡ [])
    → ((x : Scan) → (next x).1 ≡ ok s' → Reads x (next x).0 rest s')
    → (scan_record next s bytes).1 ≡ ok s'
    → Reads s (scan_record next s bytes).0 (bytes ++ rest) s'
unfolding scan_record Reads
scan_record-Reads next s [] rest s' last later h =
    let same = ok_injective h in
    (
      omega (arith, ap (λ (x : Scan). x.count) same),
      ap (λ (x : Scan). x.hashed) (sym same)
          ∙ sym (append-nil s.hashed)
          ∙ ap (λ x. s.hashed ++ x) (sym (last refl)),
      tt,
    )
scan_record-Reads next s (b ∷ bs) rest s' last later h =
    elim (Bool-cases (eqb (length (b ∷ bs)) raw_can_record_size)) [
      | inl whole ↦ rw whole (
          yield_frame-Reads next s (b ∷ bs) rest (as_format_error (decode_raw_can_record (b ∷ bs)))
            s' later (rw whole at h))
      | inr cut ↦ absurd (ok-ne-err (sym (rw cut at h)))
    ]

nothing_left :
    (content : Bytes)
    → take raw_can_record_size content ≡ []
    → drop raw_can_record_size content ≡ []
nothing_left [] h = refl
nothing_left (b ∷ bs) h = cc

scan_records-Reads :
    (fuel : ℕ) (content : Bytes) (s s' : Scan)
    → (scan_records fuel content s).1 ≡ ok s'
    → Reads s (scan_records fuel content s).0 content s'
unfolding scan_records
scan_records-Reads zero content s s' h = absurd (ok-ne-err (sym h))
scan_records-Reads (suc fuel) content s s' h =
    subst (λ x. Reads s (scan_records (suc fuel) content s).0 x s')
      (take-append-drop raw_can_record_size content)
      (scan_record-Reads (scan_records fuel (drop raw_can_record_size content)) s
        (take raw_can_record_size content) (drop raw_can_record_size content) s'
        (nothing_left content)
        (λ x k. scan_records-Reads fuel (drop raw_can_record_size content) x s' k) h)

-- What a frame file holds, for a manifest and the frames that were read: as many frames as the
-- manifest says, in the order of their timestamps, and bytes of the hash that the manifest names.
pub record IsIntact (sha256 : Bytes → String) (m : SessionManifest) (content : Bytes)
    (fs : List RawCanFrame) : Type 0 where
  pub count : length fs ≡ m.frame_count
  pub ascends : Ascends none fs
  pub hash : m.frames_sha256 ≡ some (sha256 content)

module _ (sha256 : Bytes → String) (m : SessionManifest) where
  check_totals-totals :
      (s : Scan)
      → check_totals sha256 m s ≡ ok tt
      → (s.count ≡ m.frame_count) × (some (sha256 s.hashed) ≡ m.frames_sha256)
  unfolding check_totals
  check_totals-totals s h =
      let (count, h1) = raise_if-passed (not (s.count == m.frame_count)) _ _ h in
      let (first, h2) =
        raise_if-passed (not (s.first_timestamp == m.first_timestamp_microseconds)) _ _ h1 in
      let (last, h3) =
        raise_if-passed (not (s.last_timestamp == m.last_timestamp_microseconds)) _ _ h2 in
      (
        (nat_eq.beq_iff s.count m.frame_count).0 (not-true _ count),
        (option_eq.beq_iff (some (sha256 s.hashed)) m.frames_sha256).0 (passed _ h3),
      )
    where
      not-true : (b : Bool) → not b ≡ false → b ≡ true
      not-true true h = refl
      not-true false h = cc

      passed : (b : Bool) → raise_if (not b) session_integrity_error ≡ ok tt → b ≡ true
      passed true h = refl
      passed false h = absurd (ok-ne-err (sym h))

  scan_file-IsIntact :
      (content : Bytes) (r : Result (Unit {0}))
      → (scan_file sha256 m content r).1 ≡ ok tt
      → IsIntact sha256 m content (scan_file sha256 m content r).0
  unfolding scan_file Reads
  scan_file-IsIntact content (err e) h = absurd (ok-ne-err (sym h))
  scan_file-IsIntact content (ok u) h =
      let header = take session_file_header_size content in
      let body = drop session_file_header_size content in
      let (s, read, h1) = >>=-eq-ok (scan_records (suc (length content)) body _).1 _ h in
      let (count, hashed, ordered) = scan_records-Reads (suc (length content)) body _ s read in
      let (counted, named) = check_totals-totals s h1 in
      record {
        count = omega (arith, count, counted);
        ascends = ordered;
        hash =
            sym named
            ∙ ap (λ x. some (sha256 x))
                (hashed ∙ take-append-drop session_file_header_size content);
      }

  pub frames-IsIntact :
      (content : Bytes)
      → (frames sha256 m (some content)).1 ≡ ok tt
      → IsIntact sha256 m content (frames sha256 m (some content)).0
  unfolding frames
  frames-IsIntact content h =
      scan_file-IsIntact content (check_header sha256 m (take session_file_header_size content)) h

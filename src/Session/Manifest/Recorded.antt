-- ===== src/Session/Manifest/Recorded.antt =====
-- session/recorder.py against session/models.py: the recorder keeps the manifest consistent.
use tuner_os.Prelude.{
  >>=-eq-ok, ◌&&◌, raise_if-passed, String, ℕ, ◌≤◌, ◌≡◌, refl, Bool, true, false, Option, none,
  some, arith, Result, ok, err, Bool-cases, inl, inr, not,
}
use tuner_os.Prelude.Values.{Bytes}
use tuner_os.Can.Models.{RawCanFrame}
use tuner_os.Can.Codec.{encode_raw_can_record}
use tuner_os.Telemetry.Engine.{precedes}
use tuner_os.Session.Models.{
  SessionManifest, SessionStatus, is_recording, recording, complete, incomplete,
}
use tuner_os.Session.Recorder.{
  SessionRecorder, Write, can_record, record_frame, write_record, store_record, count_frame,
  first_or, succeeds, fails_after,
}
use tuner_os.Session.Recorder.Completion.{
  Publication, manifest_not_written, not_renamed, publish, publish_finished, complete_session,
  finish_stream, publish_failure,
}
use tuner_os.Session.Manifest.{
  check_times, check_span, check_empty, check_status, is_canonical, validate_consistency,
}

first_le :
    (m : SessionManifest) (t : ℕ)
    → check_times m ≡ ok tt
    → precedes t m.last_timestamp_microseconds ≡ false
    → first_or m.first_timestamp_microseconds t ≤ t
unfolding check_times check_span check_empty
first_le m t h p = ground arith

check_times-count_frame :
    (m : SessionManifest) (t : ℕ)
    → first_or m.first_timestamp_microseconds t ≤ t
    → check_times (count_frame m t) ≡ ok tt
unfolding check_times check_span
check_times-count_frame m t h = ground arith

open_recording :
    (closed : Bool) (s : SessionStatus) → (not closed && is_recording s) ≡ true → s ≡ recording
open_recording false recording h = refl
open_recording false complete h = cc
open_recording false incomplete h = cc
open_recording true s h = cc

module _ (uuid : String → Option String) where
  count_frame-consistent :
      (m : SessionManifest) (t : ℕ)
      → validate_consistency uuid m ≡ ok tt
      → precedes t m.last_timestamp_microseconds ≡ false
      → validate_consistency uuid (count_frame m t) ≡ ok tt
  unfolding validate_consistency
  count_frame-consistent m t h p =
      let (canonical, h1) =
        raise_if-passed (not (is_canonical (uuid m.session_id) m.session_id)) _ _ h in
      let (u, times, h2) = >>=-eq-ok (check_times m) _ h1 in
      rw (canonical, check_times-count_frame m t (first_le m t times p)) h2

  stored-consistent :
      (r : SessionRecorder) (t : ℕ) (w : Write) (b : Result Bytes)
      → validate_consistency uuid r.manifest ≡ ok tt
      → precedes t r.manifest.last_timestamp_microseconds ≡ false
      → validate_consistency uuid (write_record r t b w).1.manifest ≡ ok tt
  unfolding write_record store_record
  stored-consistent r t w (err e) h p = h
  stored-consistent r t succeeds (ok b) h p = count_frame-consistent r.manifest t h p
  stored-consistent r t (fails_after part) (ok b) h p = h

  -- A call of `record` keeps a consistent manifest consistent, whether it accepts the frame,
  -- refuses it, or the write fails.
  pub record_frame-validate_consistency :
      (f : RawCanFrame) (w : Write) (r : SessionRecorder)
      → validate_consistency uuid r.manifest ≡ ok tt
      → validate_consistency uuid (record_frame f w r).1.manifest ≡ ok tt
  unfolding record_frame
  record_frame-validate_consistency f w r h = elim (Bool-cases (can_record r)) [
    | inr refused ↦ rw refused h
    | inl can ↦
        elim (Bool-cases
          (precedes f.timestamp_microseconds r.manifest.last_timestamp_microseconds)) [
            | inl early ↦ rw (can, early) h
            | inr p ↦
                rw (can, p)
                  (stored-consistent r f.timestamp_microseconds w (encode_raw_can_record f) h p)
          ]
  ]

  closed_manifest :
      (m : SessionManifest) (s : SessionStatus) (sha reason : Option String)
      → validate_consistency uuid m ≡ ok tt
      → (check_status m.status m.frames_sha256 m.failure_reason ≡ ok tt
          → check_status s sha reason ≡ ok tt)
      → validate_consistency uuid
          (record m { status = s; frames_sha256 = sha; failure_reason = reason })
        ≡ ok tt
  unfolding validate_consistency
  closed_manifest m s sha reason h next =
      let (canonical, h1) =
        raise_if-passed (not (is_canonical (uuid m.session_id) m.session_id)) _ _ h in
      let (u, times, h2) = >>=-eq-ok (check_times m) _ h1 in
      let (v, status, h3) =
        >>=-eq-ok (check_status m.status m.frames_sha256 m.failure_reason) _ h2 in
      rw (canonical, times, next status) h3

  publishes :
      (sha256 : Bytes → String) (r : SessionRecorder) (p : Publication) (rewrite : Bool)
      → r.manifest.status ≡ recording
      → validate_consistency uuid r.manifest ≡ ok tt
      → validate_consistency uuid (publish sha256 r p rewrite).1.manifest ≡ ok tt
  unfolding publish check_status
  publishes sha256 r Publication.succeeds rewrite s h =
      closed_manifest r.manifest complete (some (sha256 r.hashed)) r.manifest.failure_reason h
        (λ k. unreasoned r.manifest.failure_reason (rw s at k))
    where
      unreasoned :
          (reason : Option String)
          → check_status recording r.manifest.frames_sha256 reason ≡ ok tt
          → check_status complete (some (sha256 r.hashed)) reason ≡ ok tt
      unreasoned none k = refl
      unreasoned (some x) k = ground arith
  publishes sha256 r manifest_not_written rewrite s h =
      closed_manifest r.manifest incomplete (some (sha256 r.hashed)) (some publish_failure) h
        (λ k. refl)
  publishes sha256 r not_renamed rewrite s h =
      closed_manifest r.manifest incomplete (some (sha256 r.hashed)) (some publish_failure) h
        (λ k. refl)

  -- A call of `complete` keeps a consistent manifest consistent, whether it is refused, fails to
  -- close the file, publishes, or fails to publish.
  pub complete_session-validate_consistency :
      (sha256 : Bytes → String) (finish : Bool) (p : Publication) (rewrite : Bool)
      (r : SessionRecorder)
      → validate_consistency uuid r.manifest ≡ ok tt
      → validate_consistency uuid (complete_session sha256 finish p rewrite r).1.manifest ≡ ok tt
  unfolding complete_session publish_finished
  complete_session-validate_consistency sha256 finish p rewrite r h =
      elim (Bool-cases (can_record r)) [
        | inr refused ↦ rw refused h
        | inl can ↦ rw can (finished finish (open_recording r.closed r.manifest.status can))
      ]
    where
      finished :
          (b : Bool)
          → r.manifest.status ≡ recording
          → validate_consistency uuid
              (publish_finished sha256 (finish_stream b r) p rewrite).1.manifest
            ≡ ok tt
      finished true s = publishes sha256 (record r { closed = true }) p rewrite s h
      finished false s = h

-- ===== src/Session/Recorder/Completion.antt =====
-- session/recorder.py: completing and aborting a recording.
use tuner_os.Prelude.{
  String, Bool, true, false, not, some, Result, ok, err, session_recording_error, os_error,
  if◌then◌else◌,
}
use tuner_os.Prelude.Values.{Bytes}
use tuner_os.Session.Models.{complete, incomplete, SessionManifest}
use tuner_os.Session.Recorder.{SessionRecorder, can_record}

-- How the publication of a completed artifact ends.
pub data Publication : Type 0 where
  succeeds : Publication
  manifest_not_written : Publication
  not_renamed : Publication

-- `_finish_stream`, which closes the recorder also when it raises.
abbrev pub finish_stream : Bool → SessionRecorder → Result (Unit {0}) × SessionRecorder
finish_stream true r = (ok tt, record r { closed = true })
finish_stream false r = (err session_recording_error, record r { closed = true })

abbrev pub publish_failure : String
publish_failure = "failed publishing completed session artifact"

module _ (sha256 : Bytes → String) where
  abbrev pub complete_manifest : SessionRecorder → SessionManifest
  complete_manifest r = record r.manifest {
    frames_sha256 = some (sha256 r.hashed);
    status = complete;
  }

  abbrev failed_manifest : SessionRecorder → SessionManifest
  failed_manifest r = record r.manifest {
    frames_sha256 = some (sha256 r.hashed);
    status = incomplete;
    failure_reason = some publish_failure;
  }

  -- After a failed publication the manifest is rewritten if that succeeds, and left if it does not.
  rewritten : Bool → SessionManifest → SessionManifest → SessionManifest
  rewritten true new old = new
  rewritten false new old = old

  unfoldable pub publish :
      SessionRecorder → Publication → Bool → Result SessionManifest × SessionRecorder
  unfolding rewritten
  publish r succeeds rewrite = (
    ok (complete_manifest r),
    record r { manifest = complete_manifest r; on_disk = complete_manifest r; published = true },
  )
  publish r manifest_not_written rewrite = (
    err session_recording_error,
    record r {
      manifest = failed_manifest r;
      on_disk = rewritten rewrite (failed_manifest r) r.on_disk;
    },
  )
  publish r not_renamed rewrite = (
    err session_recording_error,
    record r {
      manifest = failed_manifest r;
      on_disk = rewritten rewrite (failed_manifest r) (complete_manifest r);
    },
  )

  unfoldable pub publish_finished :
      Result (Unit {0}) × SessionRecorder
      → Publication
      → Bool
      → Result SessionManifest × SessionRecorder
  unfolding publish
  publish_finished (err e, r) p rewrite = (err e, r)
  publish_finished (ok u, r) p rewrite = publish r p rewrite

  -- `SessionRecorder.complete`
  unfoldable pub complete_session :
      Bool → Publication → Bool → SessionRecorder → Result SessionManifest × SessionRecorder
  unfolding publish_finished
  complete_session finish p rewrite r =
      if not (can_record r)
      then (err session_recording_error, r)
      else publish_finished (finish_stream finish r) p rewrite

  abbrev aborted_manifest : SessionRecorder → String → SessionManifest
  aborted_manifest r reason = record r.manifest {
    frames_sha256 = some (sha256 r.hashed);
    status = incomplete;
    failure_reason = some reason;
  }

  abort_finished :
      Result (Unit {0}) × SessionRecorder → String → Bool → Result SessionManifest × SessionRecorder
  abort_finished (err e, r) reason save = (err e, r)
  abort_finished (ok u, r) reason true = (
    ok (aborted_manifest r reason),
    record r { manifest = aborted_manifest r reason; on_disk = aborted_manifest r reason },
  )
  abort_finished (ok u, r) reason false =
      (err os_error, record r { manifest = aborted_manifest r reason })

  -- `SessionRecorder.abort`, where `safe` is the reason after `reason.strip()[:500] or "recording
  -- failed"`.
  unfoldable pub abort :
      (String → String)
      → String
      → Bool
      → Bool
      → SessionRecorder
      → Result SessionManifest × SessionRecorder
  unfolding abort_finished
  abort safe reason finish save r =
      if r.closed
      then (ok r.manifest, r)
      else abort_finished (finish_stream finish r) (safe reason) save

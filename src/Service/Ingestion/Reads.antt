-- ===== src/Service/Ingestion/Reads.antt =====
-- telemetry/service.py: the reads of `TelemetryService`, and the subscriptions that begin with one.
use tuner_os.Prelude.{
  ℕ, zero, suc, ◌+◌, String, true, false, Option, none, some, List, Result, ok, err, ◌>>=◌,
  if◌then◌else◌, keep_last, drop, ℤ, pos, negsuc,
}
use tuner_os.Prelude.Values.{Value}
use tuner_os.Can.Explorer.{CanExplorerFrame}
use tuner_os.Can.Explorer.Queries
use tuner_os.Can.Explorer.Queries.{
  PeriodOps, CanExplorerSnapshot, CanExplorerStatistics, CanMessageStatistics,
}
use tuner_os.Telemetry.Models.{
  SignalKey, SignalSample, SignalFreshness, TelemetrySnapshot, TelemetryStatistics,
}
use tuner_os.Telemetry.Engine
use tuner_os.Diagnostics.Models.{
  DiagnosticStatus, DiagnosticEvent, DiagnosticFreezeFrame, DiagnosticSnapshot,
  DiagnosticTroubleCode,
}
use tuner_os.Diagnostics.Engine as DiagnosticQueries
use tuner_os.Service.Broadcaster
use tuner_os.Service.Models.{is_live, TelemetryServiceStatus, TelemetrySourceStatus}
use tuner_os.Service.Ingestion.{RecorderOps, TelemetryService}

-- history[-limit:], for any integer: -0 is 0, and the negation of a negative one drops as many.
last_of {ℓ} : {A : Type ℓ} → Option ℤ → List A → List A
last_of none xs = xs
last_of (some (pos (zero))) xs = xs
last_of (some (pos (suc n))) xs = keep_last (suc n) xs
last_of (some (negsuc n)) xs = drop (n + 1) xs

module _ {F R : Type 0} where
  unfoldable pub status : TelemetryService F R → TelemetryServiceStatus
  status s = record {
    state = s.state;
    last_error = s.last_error;
    statistics = Engine.statistics s.engine;
    source_mode = s.source_mode;
  }

  unfoldable pub source_status : RecorderOps R → TelemetryService F R → TelemetrySourceStatus
  source_status recorders s = record {
    mode = s.source_mode;
    session_id = s.source_session_id;
    session_name = s.source_session_name;
    recording = elim s.recorder [ none ↦ false | some r ↦ recorders.recording r ];
    recorded_frame_count = elim s.recorder [ none ↦ 0 | some r ↦ recorders.frame_count r ];
  }

  unfoldable pub snapshot : TelemetryService F R → Result (TelemetrySnapshot F)
  snapshot s = Engine.snapshot s.engine none

  unfoldable pub latest :
      TelemetryService F R → SignalKey → Result (Option (SignalSample F) × Option SignalFreshness)
  latest s key = do
    sample ← Engine.latest s.engine key
    freshness ← Engine.freshness s.engine key none
    ok (sample, freshness)

  unfoldable pub history :
      TelemetryService F R → SignalKey → Option ℤ → Result (List (SignalSample F))
  unfolding last_of
  history s key limit = Engine.history s.engine key >>= λ samples. ok (last_of limit samples)

  unfoldable pub telemetry_statistics : TelemetryService F R → TelemetryStatistics
  telemetry_statistics s = Engine.statistics s.engine

  unfoldable pub can_frames :
      TelemetryService F R
      → Option Value
      → Option ℕ
      → Option String
      → Option String
      → Result (List (CanExplorerFrame F))
  can_frames s = Queries.frames s.explorer

  unfoldable pub can_frame : TelemetryService F R → ℕ → Option (CanExplorerFrame F)
  can_frame s = Queries.frame s.explorer

  unfoldable pub can_statistics : TelemetryService F R → CanExplorerStatistics
  can_statistics s = Queries.statistics s.explorer

  unfoldable pub diagnostic_snapshot : TelemetryService F R → Result DiagnosticSnapshot
  diagnostic_snapshot s = DiagnosticQueries.snapshot s.diagnostics

  unfoldable pub diagnostic_dtcs :
      TelemetryService F R → Option DiagnosticStatus → Result (List DiagnosticTroubleCode)
  diagnostic_dtcs s = DiagnosticQueries.dtcs s.diagnostics

  unfoldable pub diagnostic_dtc :
      TelemetryService F R → String → Result (Option DiagnosticTroubleCode)
  diagnostic_dtc s = DiagnosticQueries.dtc s.diagnostics

  unfoldable pub diagnostic_events :
      TelemetryService F R → Option Value → Result (List DiagnosticEvent)
  diagnostic_events s = DiagnosticQueries.events s.diagnostics

  unfoldable pub diagnostic_freeze_frame :
      TelemetryService F R → String → Result (Option (DiagnosticFreezeFrame F))
  diagnostic_freeze_frame s = DiagnosticQueries.freeze_frame s.diagnostics

  unfoldable pub clear_diagnostic :
      String → TelemetryService F R → Result DiagnosticTroubleCode × TelemetryService F R
  clear_diagnostic code s =
      let (cleared, d) = DiagnosticQueries.clear s.diagnostics code in
      (cleared, record s { diagnostics = d })

  -- if self._source_mode is TelemetrySourceMode.REPLAY: self._replay_start.set()
  abbrev pub release_replay : TelemetryService F R → TelemetryService F R
  release_replay s = if is_live s.source_mode then s else record s { replay_start = true }

  -- What was subscribed stays subscribed when a read raises, and the replay is not released then.
  abbrev pub if_read :
      {A : Type 0} → Result A → TelemetryService F R → Result A × TelemetryService F R
  if_read (err e) s = (err e, s)
  if_read (ok a) s = (ok a, release_replay s)

  unfoldable pub subscribe :
      TelemetryService F R
      → Result (ℕ × TelemetrySnapshot F × TelemetryServiceStatus) × TelemetryService F R
  unfolding snapshot status
  subscribe s =
      let (i, b) = Broadcaster.subscribe s.broadcaster in
      if_read (snapshot s >>= λ x. ok (i, x, status s)) (record s { broadcaster = b })

module _ {F R : Type 0} (periods : PeriodOps F) where
  unfoldable pub can_message_statistics :
      TelemetryService F R → Result (List (CanMessageStatistics F))
  can_message_statistics s = Queries.message_statistics periods s.explorer

  unfoldable pub can_snapshot : TelemetryService F R → Option Value → Result (CanExplorerSnapshot F)
  can_snapshot s = Queries.snapshot periods s.explorer

  unfoldable pub subscribe_can :
      RecorderOps R
      → Option Value
      → TelemetryService F R
      → Result (ℕ × CanExplorerSnapshot F × TelemetryServiceStatus × TelemetrySourceStatus)
        × TelemetryService F R
  unfolding can_snapshot status source_status
  subscribe_can recorders frame_limit s =
      let (i, b) = Broadcaster.subscribe s.can_broadcaster in
      if_read (can_snapshot s frame_limit >>= λ x. ok (i, x, status s, source_status recorders s))
        (record s { can_broadcaster = b })

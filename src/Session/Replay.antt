-- ===== src/Session/Replay.antt =====
-- session/replay.py: a recording is replayed, unpaced, through the explorer, the engine and the
-- diagnostics. What the caller passes for the decoder and the explorer are arguments; an explorer
-- that is left out is `none`.
use tuner_os.Prelude.{
  ℕ, not, Option, none, some, List, [], ◌∷◌, Result, ok, session_dbc_mismatch_error, ◌>>=◌, ◌>>◌,
  raise_if, pos,
}
use tuner_os.Prelude.Values.{Value, int}
use tuner_os.Can.Models.{RawCanFrame}
use tuner_os.Can.Decoder.{TunerOsDbcDecoder, decode}
use tuner_os.Can.Explorer.{
  CanExplorer, can_explorer, ingest as explorer_ingest, reset as reset_explorer,
}
use tuner_os.Telemetry.Models.{TelemetrySnapshot, TelemetryStatistics}
use tuner_os.Telemetry.Catalog.{signal_catalog}
use tuner_os.Telemetry.Engine.{
  TelemetryEngine, telemetry_engine, ingest as engine_ingest, snapshot, statistics,
}
use tuner_os.Diagnostics.Rules.{FloatOps}
use tuner_os.Diagnostics.Catalog.Defaults.{create_default_diagnostic_catalog}
use tuner_os.Diagnostics.Engine.{
  DiagnosticEngine, diagnostic_engine, default_diagnostic_event_capacity,
  ingest as diagnostics_ingest,
}
use tuner_os.Session.Reader.{validate_integrity}
use tuner_os.Session.Catalog.{SessionCatalog, SessionReader, read_frames, compatibility}

abbrev default_can_explorer_capacity : ℕ
default_can_explorer_capacity = 4096

pub record SessionReplayResult (F : Type 0) : Type 0 where
  pub snapshot : TelemetrySnapshot F
  pub statistics : TelemetryStatistics
  pub engine : TelemetryEngine F
  pub explorer : CanExplorer F
  pub diagnostics : DiagnosticEngine F

-- `active_explorer`, `engine` and `diagnostics`
pub record Replayed (F : Type 0) : Type 0 where
  pub explorer : CanExplorer F
  pub engine : TelemetryEngine F
  pub diagnostics : DiagnosticEngine F

module _ {F : Type 0} where
  -- explorer or CanExplorer(active_decoder)
  active_explorer : TunerOsDbcDecoder F → Option (CanExplorer F) → Result (CanExplorer F)
  active_explorer decoder none = can_explorer decoder (int (pos default_can_explorer_capacity))
  active_explorer decoder (some explorer) = ok explorer

module _ {F : Type 0} ⦃ops : FloatOps F⦄ where
  -- The body of `for raw_frame in reader.frames()`
  unfoldable pub replay_raw : TunerOsDbcDecoder F → RawCanFrame → Replayed F → Result (Replayed F)
  replay_raw decoder f r = do
    let (explored, explorer) = explorer_ingest r.explorer f
    annotated ← explored
    decoded ← decode decoder f
    let (ingested, engine) = engine_ingest r.engine decoded
    samples ← ingested
    shot ← snapshot engine none
    let (evaluated, diagnostics) = diagnostics_ingest shot r.diagnostics
    events ← evaluated
    ok (record { explorer = explorer; engine = engine; diagnostics = diagnostics })

  unfoldable pub replay_all :
      TunerOsDbcDecoder F → List RawCanFrame → Replayed F → Result (Replayed F)
  unfolding replay_raw
  replay_all decoder [] r = ok r
  replay_all decoder (f ∷ rest) r = replay_raw decoder f r >>= replay_all decoder rest

  unfoldable pub replay_session :
      SessionCatalog
      → SessionReader
      → TunerOsDbcDecoder F
      → Option (CanExplorer F)
      → Value
      → Result (SessionReplayResult F)
  unfolding replay_all active_explorer
  replay_session c reader decoder explorer history_capacity = do
    raise_if (not (compatibility c reader.manifest)) session_dbc_mismatch_error
    validate_integrity c.sha256 reader.manifest reader.frame_file
    own_explorer ← active_explorer decoder explorer
    signals ← signal_catalog decoder.database_metadata
    engine ← telemetry_engine signals history_capacity
    catalog ← create_default_diagnostic_catalog engine.catalog
    diagnostics ← diagnostic_engine catalog (int (pos default_diagnostic_event_capacity))
    let (frames, ended) = read_frames c reader
    r ← replay_all decoder frames (record {
      explorer = reset_explorer own_explorer;
      engine = engine;
      diagnostics = diagnostics;
    })
    ended
    shot ← snapshot r.engine none
    ok (record {
      snapshot = shot;
      statistics = statistics r.engine;
      engine = r.engine;
      explorer = r.explorer;
      diagnostics = r.diagnostics;
    })

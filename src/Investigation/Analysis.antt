-- ===== src/Investigation/Analysis.antt =====
-- investigation/service.py: the loop of `investigate` over the frames of a session.
pub mod Series
pub mod Gathering
pub mod Outcome
pub mod Progress
pub mod Replay
use tuner_os.Prelude.{
  ℕ, ◌+◌, Bool, Option, none, some, List, [], ◌∷◌, ◌++◌, Result, ok, err, investigation_limit_error,
  ◌>>=◌, ◌>>◌, raise_if, if◌then◌else◌, length, leb, ltb, ◌&&◌, filter,
}
use tuner_os.Prelude.Dict.{Dict, get, put}
use tuner_os.Can.Models.{RawCanFrame}
use tuner_os.Can.Decoder.{TunerOsDbcDecoder, decode}
use tuner_os.Can.Explorer.{CanExplorer, CanExplorerFrame, ingest as explorer_ingest}
use tuner_os.Telemetry.Models.{SignalKey, key_eq, SignalSample}
use tuner_os.Telemetry.Engine.{TelemetryEngine, ingest as engine_ingest, snapshot}
use tuner_os.Diagnostics.Models.{DiagnosticEvent, DiagnosticFreezeFrame, DiagnosticTroubleCode}
use tuner_os.Diagnostics.Rules.{FloatOps}
use tuner_os.Diagnostics.Catalog.{DiagnosticRule}
use tuner_os.Diagnostics.Engine.{DiagnosticEngine, dtc, freeze_frame, ingest as diagnostics_ingest}
use tuner_os.Investigation.Models.{
  InvestigationWindow, DiagnosticStateAtTime, max_investigation_raw_frames,
}

-- The objects that each frame goes through.
pub record Pipeline (F : Type 0) : Type 0 where
  pub decoder : TunerOsDbcDecoder F
  pub explorer : CanExplorer F
  pub engine : TelemetryEngine F
  pub diagnostics : DiagnosticEngine F

-- What a frame shows: `annotated`, `samples` and `generated_events`.
pub record Observation (F : Type 0) : Type 0 where
  pub timestamp : ℕ
  pub annotated : CanExplorerFrame F
  pub samples : List (SignalSample F)
  pub generated_events : List DiagnosticEvent

-- The local variables that collect what lies in the window.
pub record Findings (F : Type 0) : Type 0 where
  pub series : Dict SignalKey (List (SignalSample F))
  pub context : Dict SignalKey (SignalSample F)
  pub raw_frames : List (CanExplorerFrame F)
  pub window_events : List DiagnosticEvent
  pub decoded_signal_updates : ℕ

-- `center_states` and `center_freeze_frames`
pub record CenterStates (F : Type 0) : Type 0 where
  pub states : List DiagnosticStateAtTime
  pub freeze_frames : List (DiagnosticFreezeFrame F)

pub record Analysis (F : Type 0) : Type 0 where
  pub pipeline : Pipeline F
  pub findings : Findings F
  pub center : Option (CenterStates F)

-- event.timestamp_microseconds >= window.start_timestamp_microseconds
abbrev pub is_late : InvestigationWindow → DiagnosticEvent → Bool
is_late w event = leb w.start_timestamp_microseconds event.timestamp_microseconds

module _ {F : Type 0} where
  -- DiagnosticStateAtTime(rule.definition, None if record is None else record.status, record)
  state_at_time : DiagnosticRule F → Option DiagnosticTroubleCode → DiagnosticStateAtTime
  state_at_time rule none = record {
    definition = rule.definition;
    status = none;
    trouble_code = none;
  }
  state_at_time rule (some d) = record {
    definition = rule.definition;
    status = some d.status;
    trouble_code = some d;
  }

  states_of : DiagnosticEngine F → List (DiagnosticRule F) → Result (List DiagnosticStateAtTime)
  unfolding state_at_time
  states_of e [] = ok []
  states_of e (rule ∷ rest) = do
    d ← dtc e rule.definition.code
    others ← states_of e rest
    ok (state_at_time rule d ∷ others)

  freeze_frames_of :
      DiagnosticEngine F → List (DiagnosticRule F) → Result (List (DiagnosticFreezeFrame F))
  freeze_frames_of e [] = ok []
  freeze_frames_of e (rule ∷ rest) = do
    frame ← freeze_frame e rule.definition.code
    others ← freeze_frames_of e rest
    ok (elim frame [ none ↦ others | some f ↦ f ∷ others ])

  -- The two tuples that `capture_center` builds.
  unfoldable pub states_now : DiagnosticEngine F → Result (CenterStates F)
  unfolding states_of freeze_frames_of
  states_now e = do
    states ← states_of e e.catalog.rules
    frames ← freeze_frames_of e e.catalog.rules
    ok (record { states = states; freeze_frames = frames })

  capture_in : Option (CenterStates F) → Analysis F → Result (Analysis F)
  capture_in (some states) a = ok a
  capture_in none a = do
    states ← states_now a.pipeline.diagnostics
    ok (record a { center = some states })

  -- `capture_center`: the first call keeps the states, each later one returns at once.
  unfoldable pub capture_center : Analysis F → Result (Analysis F)
  unfolding capture_in
  capture_center a = capture_in a.center a

  unfoldable note_in :
      Option (List (SignalSample F))
      → SignalSample F
      → Dict SignalKey (SignalSample F)
      → Dict SignalKey (SignalSample F)
  note_in none sample context = context
  note_in (some kept) sample context = put context sample.key sample

  -- if sample.key in series: context[sample.key] = sample
  unfoldable pub note_sample :
      Dict SignalKey (List (SignalSample F))
      → SignalSample F
      → Dict SignalKey (SignalSample F)
      → Dict SignalKey (SignalSample F)
  unfolding note_in
  note_sample series sample context = note_in (get series sample.key) sample context

  unfoldable pub note_context :
      Dict SignalKey (List (SignalSample F))
      → List (SignalSample F)
      → Dict SignalKey (SignalSample F)
      → Dict SignalKey (SignalSample F)
  unfolding note_sample
  note_context series [] context = context
  note_context series (sample ∷ rest) context =
      note_context series rest (note_sample series sample context)

  unfoldable append_to :
      Option (List (SignalSample F))
      → SignalSample F
      → Dict SignalKey (List (SignalSample F))
      → Dict SignalKey (List (SignalSample F))
  append_to none sample series = series
  append_to (some kept) sample series = put series sample.key (kept ++ sample ∷ [])

  -- if sample.key in series: series[sample.key].append(sample)
  unfoldable pub add_sample :
      SignalSample F
      → Dict SignalKey (List (SignalSample F))
      → Dict SignalKey (List (SignalSample F))
  unfolding append_to
  add_sample sample series = append_to (get series sample.key) sample series

  unfoldable pub add_samples :
      List (SignalSample F)
      → Dict SignalKey (List (SignalSample F))
      → Dict SignalKey (List (SignalSample F))
  unfolding add_sample
  add_samples [] series = series
  add_samples (sample ∷ rest) series = add_samples rest (add_sample sample series)

  module _ (w : InvestigationWindow) where
    -- The body of `if timestamp >= window.start_timestamp_microseconds`, after its check.
    unfoldable pub include : Observation F → Findings F → Findings F
    include o s = record s {
      raw_frames = s.raw_frames ++ o.annotated ∷ [];
      decoded_signal_updates = s.decoded_signal_updates + length o.samples;
      series = add_samples o.samples s.series;
      window_events = s.window_events ++ filter (is_late w) o.generated_events;
    }

    unfoldable pub gather : Observation F → Findings F → Findings F
    unfolding include
    gather o s =
        let noted = record s {
          context =
              if leb o.timestamp w.start_timestamp_microseconds
              then note_context s.series o.samples s.context
              else s.context;
        } in
        if leb w.start_timestamp_microseconds o.timestamp then include o noted else noted

    -- What is collected of an observation, with the check that no evidence is left out.
    unfoldable pub collect : Observation F → Findings F → Result (Findings F)
    unfolding gather
    collect o s = do
      raise_if
          (leb w.start_timestamp_microseconds o.timestamp
            && leb max_investigation_raw_frames (length s.raw_frames))
          investigation_limit_error
      ok (gather o s)

module _ {F : Type 0} ⦃ops : FloatOps F⦄ where
  -- explorer.ingest, decoder.decode, engine.ingest and diagnostics.ingest for one frame. The
  -- objects are the query's own: an exception ends it.
  unfoldable pub observe : Pipeline F → RawCanFrame → Result (Observation F × Pipeline F)
  observe p f = do
    let (annotated_result, explorer) = explorer_ingest p.explorer f
    annotated ← annotated_result
    decoded ← decode p.decoder f
    let (samples_result, engine) = engine_ingest p.engine decoded
    samples ← samples_result
    snapshot ← snapshot engine none
    let (events_result, diagnostics) = diagnostics_ingest snapshot p.diagnostics
    events ← events_result
    ok (
      record {
        timestamp = f.timestamp_microseconds;
        annotated = annotated;
        samples = samples;
        generated_events = events;
      },
      record p { explorer = explorer; engine = engine; diagnostics = diagnostics },
    )

  module _ (w : InvestigationWindow) where
    -- The rest of the body, for a frame that is not after the window.
    unfoldable pub include_frame : RawCanFrame → Analysis F → Result (Analysis F)
    unfolding observe collect
    include_frame f a = do
      (o, pipeline) ← observe a.pipeline f
      findings ← collect w o a.findings
      ok (record a { pipeline = pipeline; findings = findings })

    -- The body of `for raw_frame in reader.frames()`
    unfoldable pub analyse_frame : RawCanFrame → Analysis F → Result (Analysis F)
    unfolding capture_center include_frame
    analyse_frame f a = do
      captured ←
          if ltb w.center_timestamp_microseconds f.timestamp_microseconds
          then capture_center a
          else ok a
      if ltb w.end_timestamp_microseconds f.timestamp_microseconds
          then ok captured
          else include_frame f captured

    unfoldable pub analyse : List RawCanFrame → Analysis F → Result (Analysis F)
    unfolding analyse_frame
    analyse [] a = ok a
    analyse (f ∷ rest) a = analyse_frame f a >>= analyse rest

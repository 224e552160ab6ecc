-- ===== src/Telemetry/Engine.antt =====
-- telemetry/engine.py: the latest sample and a bounded history of each signal.
pub mod History
pub mod Coherence
pub mod Numbered
pub mod Snapshot
mod Examples
use tuner_os.Prelude.{
  ℕ, zero, suc, ◌+◌, ◌-◌, ◌*◌, String, Bool, true, false, not, ◌||◌, Option, none, some, List, [],
  ◌∷◌, ◌++◌, ◌==◌, Result, ok, err, telemetry_schema_error, out_of_order_telemetry_error,
  value_error, ◌>>=◌, ◌>>◌, raise_if, or_raise, nat_eq, length, ltb, leb, if◌then◌else◌,
  append_bounded, any, ℤ, pos, negsuc, is_not_positive, map,
}
use tuner_os.Prelude.Dict.{Dict, get, put}
use tuner_os.Prelude.Values.{Value, expect_int}
use tuner_os.Can.Models.{DecodedCanFrame, SignalValue, float, integer, boolean, object}
use tuner_os.Telemetry.Models.{
  SignalKey, key_eq, SignalSample, SignalFreshness, fresh, stale, TelemetryStatistics,
  TelemetrySnapshot,
}
use tuner_os.Telemetry.Catalog.{
  SignalCatalog, SignalDefinition, require, definitions_for_frame, get_list,
}

abbrev pub freshness_period_multiplier : ℕ
freshness_period_multiplier = 2

pub record TelemetryEngine (F : Type 0) : Type 0 where
  pub catalog : SignalCatalog
  pub history_capacity : ℕ
  pub latest_samples : Dict SignalKey (SignalSample F)
  pub histories : Dict SignalKey (List (SignalSample F))
  pub next_frame_sequence : ℕ
  pub total_frames : ℕ
  pub total_signal_updates : ℕ
  pub latest_timestamp_microseconds : Option ℕ
  pub last_frame_sequence : Option ℕ
  pub frames_by_arbitration_id : Dict ℕ ℕ

-- d.get(key, 0)
abbrev pub get_count : Option ℕ → ℕ
get_count none = 0
get_count (some n) = n

-- timestamp is not None and now < timestamp
abbrev pub precedes : ℕ → Option ℕ → Bool
precedes now none = false
precedes now (some t) = ltb now t

abbrev pub or_else : Option ℕ → Option ℕ → Option ℕ
or_else (some t) d = some t
or_else none d = d

module _ {F : Type 0} where
  unfoldable pub reset : TelemetryEngine F → TelemetryEngine F
  reset e = record e {
    latest_samples = [];
    histories = [];
    next_frame_sequence = 0;
    total_frames = 0;
    total_signal_updates = 0;
    latest_timestamp_microseconds = none;
    last_frame_sequence = none;
    frames_by_arbitration_id = [];
  }

  abbrev pub new_engine : SignalCatalog → ℕ → TelemetryEngine F
  new_engine catalog capacity = record {
    catalog = catalog;
    history_capacity = capacity;
    latest_samples = [];
    histories = [];
    next_frame_sequence = 0;
    total_frames = 0;
    total_signal_updates = 0;
    latest_timestamp_microseconds = none;
    last_frame_sequence = none;
    frames_by_arbitration_id = [];
  }

  -- `__init__`
  unfoldable pub telemetry_engine : SignalCatalog → Value → Result (TelemetryEngine F)
  telemetry_engine catalog history_capacity = expect_int history_capacity >>= λ n. elim n [
    | pos (zero) ↦ err value_error
    | pos (suc k) ↦ ok (new_engine catalog (suc k))
    | negsuc k ↦ err value_error
  ]

  unfoldable pub sample_of :
      DecodedCanFrame F → ℕ → SignalDefinition → SignalValue F → SignalSample F
  sample_of frame sequence definition value = record {
    key = definition.key;
    value = value;
    timestamp_microseconds = frame.timestamp_microseconds;
    frame_sequence = sequence;
    arbitration_id = frame.arbitration_id;
    message_name = frame.message_name;
    source_ecu = definition.source_ecu;
    unit = definition.unit;
  }

  -- zip(definitions, frame.signals.values(), strict=True)
  unfoldable pub samples_of :
      DecodedCanFrame F
      → ℕ
      → List SignalDefinition
      → Dict String (SignalValue F)
      → Result (List (SignalSample F))
  samples_of frame sequence [] [] = ok []
  samples_of frame sequence [] (v ∷ vs) = err value_error
  samples_of frame sequence (d ∷ ds) [] = err value_error
  samples_of frame sequence (d ∷ ds) ((name, v) ∷ vs) =
      samples_of frame sequence ds vs >>= λ rest. ok (sample_of frame sequence d v ∷ rest)

  -- type(sample.value) not in (bool, int, float)
  abbrev pub is_foreign : SignalValue F → Bool
  is_foreign object = true
  is_foreign _ = false

  abbrev pub history_of : TelemetryEngine F → SignalKey → List (SignalSample F)
  history_of e key = get_list (get e.histories key)

  unfoldable pub record_sample : SignalSample F → TelemetryEngine F → TelemetryEngine F
  record_sample sample e = record e {
    histories =
        put e.histories sample.key
          (append_bounded e.history_capacity (history_of e sample.key) sample);
    latest_samples = put e.latest_samples sample.key sample;
  }

  -- for sample in samples
  unfoldable pub record_samples : List (SignalSample F) → TelemetryEngine F → TelemetryEngine F
  record_samples [] e = e
  record_samples (sample ∷ rest) e = record_samples rest (record_sample sample e)

  count_frame : DecodedCanFrame F → List (SignalSample F) → TelemetryEngine F → TelemetryEngine F
  count_frame frame samples e = record e {
    total_frames = e.total_frames + 1;
    total_signal_updates = e.total_signal_updates + length samples;
    frames_by_arbitration_id =
        put e.frames_by_arbitration_id frame.arbitration_id
          (get_count (get e.frames_by_arbitration_id frame.arbitration_id) + 1);
    latest_timestamp_microseconds = some frame.timestamp_microseconds;
    last_frame_sequence = some e.next_frame_sequence;
    next_frame_sequence = e.next_frame_sequence + 1;
  }

  -- The part of `ingest` that validates and builds the samples.
  unfoldable pub prepare : TelemetryEngine F → DecodedCanFrame F → Result (List (SignalSample F))
  prepare e frame = do
    raise_if (precedes frame.timestamp_microseconds e.latest_timestamp_microseconds)
        out_of_order_telemetry_error
    definitions ← definitions_for_frame e.catalog frame
    samples ← samples_of frame e.next_frame_sequence definitions frame.signals
    raise_if (any (λ s. is_foreign s.value) samples) telemetry_schema_error
    ok samples

  commit :
      DecodedCanFrame F
      → TelemetryEngine F
      → Result (List (SignalSample F))
      → Result (List (SignalSample F)) × TelemetryEngine F
  unfolding count_frame
  commit frame e (err x) = (err x, e)
  commit frame e (ok samples) = (ok samples, count_frame frame samples (record_samples samples e))

  unfoldable pub ingest :
      TelemetryEngine F → DecodedCanFrame F → Result (List (SignalSample F)) × TelemetryEngine F
  unfolding commit
  ingest e frame = commit frame e (prepare e frame)

  unfoldable pub latest : TelemetryEngine F → SignalKey → Result (Option (SignalSample F))
  latest e key = require e.catalog key >>= λ _. ok (get e.latest_samples key)

  unfoldable pub history : TelemetryEngine F → SignalKey → Result (List (SignalSample F))
  history e key = require e.catalog key >>= λ _. ok (history_of e key)

  -- The age test, for an observation that does not precede the sample.
  judge : ℕ → SignalSample F → Option ℕ → Result (Option SignalFreshness)
  judge period sample none = err value_error
  judge period sample (some observed) =
      if ltb observed sample.timestamp_microseconds
      then err value_error
      else ok (
          some (
            if leb (observed - sample.timestamp_microseconds) (period * freshness_period_multiplier)
            then fresh
            else stale))

  unfoldable pub freshness :
      TelemetryEngine F → SignalKey → Option ℕ → Result (Option SignalFreshness)
  unfolding judge
  freshness e key observed = require e.catalog key >>= λ definition.
      elim (get e.latest_samples key) [
        | none ↦ ok none
        | some sample ↦
            judge definition.expected_period_microseconds sample
              (or_else observed e.latest_timestamp_microseconds)
      ]

  unfoldable pub statistics : TelemetryEngine F → TelemetryStatistics
  statistics e = record {
    total_frames = e.total_frames;
    total_signal_updates = e.total_signal_updates;
    latest_timestamp_microseconds = e.latest_timestamp_microseconds;
    last_frame_sequence = e.last_frame_sequence;
    frames_by_arbitration_id = e.frames_by_arbitration_id;
  }

  -- for key in keys
  unfoldable pub select :
      TelemetryEngine F
      → List SignalKey
      → Dict SignalKey (SignalSample F)
      → Result (Dict SignalKey (SignalSample F))
  select e [] chosen = ok chosen
  select e (key ∷ rest) chosen = require e.catalog key >>= λ _.
      select e rest
        (elim (get e.latest_samples key) [ none ↦ chosen | some sample ↦ put chosen key sample ])

  -- {key: self.freshness(key) for key in samples}
  unfoldable pub statuses :
      TelemetryEngine F
      → Dict SignalKey (SignalSample F)
      → Result (Dict SignalKey (Option SignalFreshness))
  statuses e [] = ok []
  statuses e ((key, sample) ∷ rest) =
      freshness e key none >>= λ status. statuses e rest >>= λ others. ok ((key, status) ∷ others)

  chosen_samples :
      TelemetryEngine F → Option (List SignalKey) → Result (Dict SignalKey (SignalSample F))
  chosen_samples e none = ok e.latest_samples
  chosen_samples e (some keys) = select e keys []

  unfoldable pub snapshot :
      TelemetryEngine F → Option (List SignalKey) → Result (TelemetrySnapshot F)
  unfolding chosen_samples
  snapshot e keys = chosen_samples e keys >>= λ samples. statuses e samples >>= λ status.
      ok (record {
        observation_timestamp_microseconds = e.latest_timestamp_microseconds;
        last_frame_sequence = e.last_frame_sequence;
        samples = samples;
        freshness = status;
        statistics = statistics e;
      })

-- ===== src/Can/Explorer.antt =====
-- can/explorer.py: a bounded window of raw frames, and statistics for each identifier.
pub mod Retention
pub mod History
pub mod Queries
mod Examples
use mathlib.Core.Option
use tuner_os.Prelude.{
  ℕ, zero, suc, ◌+◌, ◌-◌, String, Bool, true, false, ◌&&◌, Option, none, some, List, [], ◌∷◌, ◌==◌,
  string_eq, nat_eq, option_eq, Result, ok, err, key_error, value_error, unknown_can_frame_error,
  malformed_can_frame_error, Error, ◌>>=◌, or_raise, if◌then◌else◌, length, eqb, ltb, filter, find?,
  head?, get_last?, append_bounded, keep_last, ℤ, pos, negsuc, sub_ℕ,
}
use tuner_os.Prelude.Dict.{Dict, get, put}
use tuner_os.Prelude.Values.{Value, expect_int}
use tuner_os.Can.Models.{RawCanFrame, payload_length, DecodedCanFrame, SignalValue}
use tuner_os.Can.Metadata.{CanSignalMetadata, CanMessageMetadata}
use tuner_os.Can.Decoder.{TunerOsDbcDecoder, decode}

pub data CanDecodeStatus : Type 0 where
  decoded unknown error : CanDecodeStatus

pub record CanExplorerSignal (F : Type 0) : Type 0 where
  pub signal_name : String
  pub value : SignalValue F
  pub unit : String

pub record CanExplorerFrame (F : Type 0) : Type 0 where
  pub sequence : ℕ
  pub raw_frame : RawCanFrame
  pub message_name : Option String
  pub source_ecu : Option String
  pub expected_period_microseconds : Option ℕ
  pub decode_status : CanDecodeStatus
  pub decode_error : Option Error
  pub decoded_signals : List (CanExplorerSignal F)

-- `_MutableMessageStatistics`
pub record MutableMessageStatistics : Type 0 where
  pub arbitration_id : ℕ
  pub metadata : Option CanMessageMetadata
  pub retained_frame_count : ℕ
  pub total_frame_count : ℕ
  pub first_timestamp_microseconds : ℕ
  pub latest_timestamp_microseconds : ℕ
  pub latest_dlc : ℕ

pub record CanExplorer (F : Type 0) : Type 0 where
  pub decoder : TunerOsDbcDecoder F
  pub metadata_by_id : Dict ℕ CanMessageMetadata
  pub capacity : ℕ
  pub frames : List (CanExplorerFrame F)
  pub messages : Dict ℕ MutableMessageStatistics
  pub next_sequence : ℕ

index_messages : List CanMessageMetadata → Dict ℕ CanMessageMetadata → Dict ℕ CanMessageMetadata
index_messages [] d = d
index_messages (m ∷ rest) d = index_messages rest (put d m.arbitration_id m)

-- What `ingest` finds out about a frame.
pub record Annotation (F : Type 0) : Type 0 where
  pub metadata : Option CanMessageMetadata
  pub decode_status : CanDecodeStatus
  pub decode_error : Option Error
  pub decoded_signals : List (CanExplorerSignal F)

abbrev unknown_frame : (F : Type 0) → Annotation F
unknown_frame F = record {
  metadata = none;
  decode_status = unknown;
  decode_error = none;
  decoded_signals = [];
}

-- A new count for a raw frame of an identifier.
abbrev pub update_message :
    RawCanFrame
    → Option CanMessageMetadata
    → Option MutableMessageStatistics
    → MutableMessageStatistics
update_message f metadata none = record {
  arbitration_id = f.arbitration_id;
  metadata = metadata;
  retained_frame_count = 1;
  total_frame_count = 1;
  first_timestamp_microseconds = f.timestamp_microseconds;
  latest_timestamp_microseconds = f.timestamp_microseconds;
  latest_dlc = payload_length f;
}
update_message f metadata (some s) = record s {
  retained_frame_count = s.retained_frame_count + 1;
  total_frame_count = s.total_frame_count + 1;
  latest_timestamp_microseconds = f.timestamp_microseconds;
  latest_dlc = payload_length f;
}

module _ {F : Type 0} where
  new_explorer : TunerOsDbcDecoder F → ℕ → CanExplorer F
  unfolding index_messages
  new_explorer d n = record {
    decoder = d;
    metadata_by_id = index_messages d.database_metadata.messages [];
    capacity = n;
    frames = [];
    messages = [];
    next_sequence = 0;
  }

  -- `CanExplorer.__init__`
  unfoldable pub can_explorer : TunerOsDbcDecoder F → Value → Result (CanExplorer F)
  unfolding new_explorer
  can_explorer d capacity = expect_int capacity >>= λ n. elim n [
    | pos (zero) ↦ err value_error
    | pos (suc k) ↦ ok (new_explorer d (suc k))
    | negsuc k ↦ err value_error
  ]

  unfoldable pub reset : CanExplorer F → CanExplorer F
  reset e = record e { frames = []; messages = []; next_sequence = 0 }

  -- The signals of the message in its order, or `KeyError` for one that was not decoded.
  explorer_signals :
      List CanSignalMetadata → DecodedCanFrame F → Result (List (CanExplorerSignal F))
  explorer_signals [] d = ok []
  explorer_signals (s ∷ rest) d = or_raise (get d.signals s.signal_name) key_error >>= λ v.
      explorer_signals rest d >>= λ others.
      ok (record { signal_name = s.signal_name; value = v; unit = s.unit } ∷ others)

  -- The frame that is kept, for what is known of its message and how it decodes.
  frame_of : ℕ → RawCanFrame → Annotation F → CanExplorerFrame F
  frame_of n f a = record {
    sequence = n;
    raw_frame = f;
    message_name = Option.map (λ (m : CanMessageMetadata). m.message_name) a.metadata;
    source_ecu = Option.map (λ (m : CanMessageMetadata). m.transmitter) a.metadata;
    expected_period_microseconds =
        Option.map (λ (m : CanMessageMetadata). m.cycle_time_microseconds) a.metadata;
    decode_status = a.decode_status;
    decode_error = a.decode_error;
    decoded_signals = a.decoded_signals;
  }

  -- except UnknownCanFrameError, and the other CanDecodeError
  annotate_result : CanMessageMetadata → Result (List (CanExplorerSignal F)) → Result (Annotation F)
  annotate_result m (ok signals) = ok (record {
    metadata = some m;
    decode_status = decoded;
    decode_error = none;
    decoded_signals = signals;
  })
  annotate_result m (err unknown_can_frame_error) = ok (unknown_frame F)
  annotate_result m (err malformed_can_frame_error) = ok (record {
    metadata = some m;
    decode_status = error;
    decode_error = some malformed_can_frame_error;
    decoded_signals = [];
  })
  annotate_result m (err e) = err e

  unfoldable pub annotate :
      CanExplorer F → RawCanFrame → Option CanMessageMetadata → Result (Annotation F)
  unfolding annotate_result explorer_signals
  annotate e f none = ok (unknown_frame F)
  annotate e f (some m) = annotate_result m (decode e.decoder f >>= explorer_signals m.signals)

  -- The oldest frame falls out of a full window: its identifier retains one frame less. The count
  -- is positive then.
  evict :
      CanExplorerFrame F
      → Dict ℕ MutableMessageStatistics
      → Option MutableMessageStatistics
      → Result (Dict ℕ MutableMessageStatistics)
  evict old ms none = err key_error
  evict old ms (some s) = ok (
      put ms old.raw_frame.arbitration_id
        (record s { retained_frame_count = s.retained_frame_count - 1 }))

  pub make_room :
      ℕ
      → List (CanExplorerFrame F)
      → Dict ℕ MutableMessageStatistics
      → Result (Dict ℕ MutableMessageStatistics)
  unfolding evict
  make_room n [] ms = ok ms
  make_room n (old ∷ rest) ms =
      if eqb (length (old ∷ rest)) n
      then evict old ms (get ms old.raw_frame.arbitration_id)
      else ok ms

  keep :
      CanExplorer F
      → RawCanFrame
      → Option CanMessageMetadata
      → CanExplorerFrame F
      → Result (Dict ℕ MutableMessageStatistics)
      → Result (CanExplorerFrame F) × CanExplorer F
  keep e f metadata frame (err x) = (err x, record e { next_sequence = e.next_sequence + 1 })
  keep e f metadata frame (ok ms) = (
    ok frame,
    record e {
      next_sequence = e.next_sequence + 1;
      frames = append_bounded e.capacity e.frames frame;
      messages = put ms f.arbitration_id (update_message f metadata (get ms f.arbitration_id));
    },
  )

  ingest_annotated :
      CanExplorer F
      → RawCanFrame
      → Result (Annotation F)
      → Result (CanExplorerFrame F) × CanExplorer F
  unfolding keep make_room frame_of
  ingest_annotated e f (err x) = (err x, e)
  ingest_annotated e f (ok a) =
      keep e f a.metadata (frame_of e.next_sequence f a) (make_room e.capacity e.frames e.messages)

  unfoldable pub ingest : CanExplorer F → RawCanFrame → Result (CanExplorerFrame F) × CanExplorer F
  unfolding ingest_annotated annotate
  ingest e f = ingest_annotated e f (annotate e f (get e.metadata_by_id f.arbitration_id))

-- ===== src/Can/Decoder.antt =====
-- can/decoder.py, `TunerOsDbcDecoder`. The database that canmatrix loads is a parameter: its frames,
-- with what `decode` of each returns, where `none` stands for `DecodingFrameLength`.
use tuner_os.Prelude.{
  ℕ, suc, ◌*◌, String, Bool, not, Option, List, [], ◌∷◌, ◌==◌, string_eq, nat_eq, Result, ok, err,
  ◌>>=◌, ◌>>◌, raise_if, or_raise, eqb, ℤ, pos, negsuc, zero, runtime_error,
  unknown_can_frame_error, malformed_can_frame_error, if◌then◌else◌,
}
use tuner_os.Prelude.Dict.{Dict, get, put}
use tuner_os.Prelude.Values.{Bytes}
use tuner_os.Can.Models.{RawCanFrame, payload_length, DecodedCanFrame, SignalValue, float, boolean}
use tuner_os.Can.Metadata.{CanSignalMetadata, CanMessageMetadata, CanDatabaseMetadata}

-- bool(value.raw_value) and float(value.phys_value)
pub record DbcValue (F : Type 0) : Type 0 where
  pub raw_truth : Bool
  pub phys_value : F

pub record DbcFrame (F : Type 0) : Type 0 where
  pub arbitration_id : ℕ
  pub name : String
  pub size : ℕ
  pub transmitters : List String
  pub cycle_time : ℤ
  pub signals : List CanSignalMetadata
  pub decode_payload : Bytes → Option (Dict String (DbcValue F))

pub record TunerOsDbcDecoder (F : Type 0) : Type 0 where
  pub frames_by_id : Dict ℕ (DbcFrame F)
  pub database_metadata : CanDatabaseMetadata

single_transmitter : List String → Result String
single_transmitter (t ∷ []) = ok t
single_transmitter _ = err runtime_error

cycle_time_microseconds : ℤ → Result ℕ
cycle_time_microseconds (pos (zero)) = err runtime_error
cycle_time_microseconds (pos (suc n)) = ok (suc n * 1000)
cycle_time_microseconds (negsuc n) = err runtime_error

module _ {F : Type 0} where
  message_of : DbcFrame F → Result CanMessageMetadata
  unfolding single_transmitter cycle_time_microseconds
  message_of f = do
    t ← single_transmitter f.transmitters
    c ← cycle_time_microseconds f.cycle_time
    ok (record {
      arbitration_id = f.arbitration_id;
      message_name = f.name;
      transmitter = t;
      cycle_time_microseconds = c;
      signals = f.signals;
    })

  messages_of : List (DbcFrame F) → Result (List CanMessageMetadata)
  unfolding message_of
  messages_of [] = ok []
  messages_of (f ∷ rest) = do m ← message_of f; others ← messages_of rest; ok (m ∷ others)

  by_id : List (DbcFrame F) → Dict ℕ (DbcFrame F) → Dict ℕ (DbcFrame F)
  by_id [] d = d
  by_id (f ∷ rest) d = by_id rest (put d f.arbitration_id f)

  -- `__init__`, for the frames of the one database.
  unfoldable pub dbc_decoder : List (DbcFrame F) → Result (TunerOsDbcDecoder F)
  unfolding messages_of by_id
  dbc_decoder fs = do
    ms ← messages_of fs
    ok (record { frames_by_id = by_id fs []; database_metadata = record { messages = ms } })

  -- The flag is decoded as a Boolean, every other signal as a float.
  signal_value : String → DbcValue F → SignalValue F
  signal_value name v = if name == "EngineRunning" then boolean v.raw_truth else float v.phys_value

  signal_values : Dict String (DbcValue F) → Dict String (SignalValue F)
  signal_values [] = []
  signal_values ((name, v) ∷ rest) = (name, signal_value name v) ∷ signal_values rest

  unfoldable pub decode : TunerOsDbcDecoder F → RawCanFrame → Result (DecodedCanFrame F)
  unfolding signal_values signal_value
  decode d f = do
    message ← or_raise (get d.frames_by_id f.arbitration_id) unknown_can_frame_error
    raise_if (not (eqb (payload_length f) message.size)) malformed_can_frame_error
    decoded ← or_raise (message.decode_payload f.payload) malformed_can_frame_error
    ok (record {
      arbitration_id = f.arbitration_id;
      message_name = message.name;
      timestamp_microseconds = f.timestamp_microseconds;
      signals = signal_values decoded;
    })

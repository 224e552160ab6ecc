-- ===== src/Telemetry/Catalog.antt =====
-- telemetry/catalog.py: the signals of the DBC by key, checked for duplicates.
pub mod Lookup
use tuner_os.Prelude.{
  ℕ, String, Bool, true, false, not, Option, none, some, List, [], ◌∷◌, ◌++◌, ◌==◌, Result, ok, err,
  telemetry_schema_error, ◌>>=◌, ◌>>◌, raise_if, or_raise, nat_eq, string_eq, length, ltb,
}
use tuner_os.Prelude.Dict.{Dict, get, put}
use tuner_os.Can.Metadata.{CanDatabaseMetadata, CanMessageMetadata, CanSignalMetadata}
use tuner_os.Can.Models.{DecodedCanFrame, SignalValue}
use tuner_os.Telemetry.Models.{SignalKey, key_eq}

pub record SignalDefinition : Type 0 where
  pub key : SignalKey
  pub arbitration_id : ℕ
  pub message_name : String
  pub source_ecu : String
  pub unit : String
  pub expected_period_microseconds : ℕ

pub record SignalCatalog : Type 0 where
  pub definitions : List SignalDefinition
  pub messages_by_id : Dict ℕ CanMessageMetadata
  pub definitions_by_key : Dict SignalKey SignalDefinition
  pub keys_by_signal_name : Dict String (List SignalKey)

-- key in d
abbrev pub is_some {ℓ} : {A : Type ℓ} → Option A → Bool
is_some none = false
is_some (some a) = true

-- d.get(key, [])
abbrev pub get_list {ℓ} : {A : Type ℓ} → Option (List A) → List A
get_list none = []
get_list (some xs) = xs

unfoldable pub definition_of : CanMessageMetadata → CanSignalMetadata → SignalDefinition
definition_of message signal = record {
  key = record { message_name = message.message_name; signal_name = signal.signal_name };
  arbitration_id = message.arbitration_id;
  message_name = message.message_name;
  source_ecu = message.transmitter;
  unit = signal.unit;
  expected_period_microseconds = message.cycle_time_microseconds;
}

with_definition : SignalDefinition → String → SignalCatalog → SignalCatalog
with_definition definition signal_name c = record c {
  definitions = c.definitions ++ definition ∷ [];
  definitions_by_key = put c.definitions_by_key definition.key definition;
  keys_by_signal_name =
      put c.keys_by_signal_name signal_name
        (get_list (get c.keys_by_signal_name signal_name) ++ definition.key ∷ []);
}

-- The body of `for signal in message.signals`.
add_signal : CanMessageMetadata → CanSignalMetadata → SignalCatalog → Result SignalCatalog
unfolding with_definition definition_of
add_signal message signal c = do
  let definition = definition_of message signal
  raise_if (is_some (get c.definitions_by_key definition.key)) telemetry_schema_error
  ok (with_definition definition signal.signal_name c)

add_signals : CanMessageMetadata → List CanSignalMetadata → SignalCatalog → Result SignalCatalog
unfolding add_signal
add_signals message [] c = ok c
add_signals message (signal ∷ rest) c = add_signal message signal c >>= add_signals message rest

-- The body of `for message in database_metadata.messages`.
add_message : CanMessageMetadata → SignalCatalog → Result SignalCatalog
unfolding add_signals
add_message message c = do
  raise_if (is_some (get c.messages_by_id message.arbitration_id)) telemetry_schema_error
  add_signals message message.signals
      (record c { messages_by_id = put c.messages_by_id message.arbitration_id message })

add_messages : List CanMessageMetadata → SignalCatalog → Result SignalCatalog
unfolding add_message
add_messages [] c = ok c
add_messages (message ∷ rest) c = add_message message c >>= add_messages rest

abbrev pub no_signals : SignalCatalog
no_signals = record {
  definitions = [];
  messages_by_id = [];
  definitions_by_key = [];
  keys_by_signal_name = [];
}

unfoldable pub signal_catalog : CanDatabaseMetadata → Result SignalCatalog
unfolding add_messages
signal_catalog metadata = add_messages metadata.messages no_signals

abbrev pub find : SignalCatalog → SignalKey → Option SignalDefinition
find c key = get c.definitions_by_key key

abbrev pub require : SignalCatalog → SignalKey → Result SignalDefinition
require c key = or_raise (find c key) telemetry_schema_error

unique : List SignalKey → Result (Option SignalKey)
unique [] = ok none
unique (key ∷ []) = ok (some key)
unique (key ∷ other ∷ rest) = err telemetry_schema_error

unfoldable pub find_unique_signal : SignalCatalog → String → Result (Option SignalKey)
unfolding unique
find_unique_signal c name = unique (get_list (get c.keys_by_signal_name name))

module _ {F : Type 0} where
  -- for signal_name in frame.signals
  unfoldable pub definitions_of_signals :
      SignalCatalog → String → Dict String (SignalValue F) → Result (List SignalDefinition)
  definitions_of_signals c message_name [] = ok []
  definitions_of_signals c message_name ((name, value) ∷ rest) =
      require c (record { message_name = message_name; signal_name = name }) >>= λ d.
      definitions_of_signals c message_name rest >>= λ ds. ok (d ∷ ds)

  unfoldable pub definitions_for_frame :
      SignalCatalog → DecodedCanFrame F → Result (List SignalDefinition)
  definitions_for_frame c frame = do
    message ← or_raise (get c.messages_by_id frame.arbitration_id) telemetry_schema_error
    raise_if (not (frame.message_name == message.message_name)) telemetry_schema_error
    definitions_of_signals c frame.message_name frame.signals

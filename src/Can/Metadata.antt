-- ===== src/Can/Metadata.antt =====
-- can/metadata.py: the view of the DBC that the rest of the backend reads.
use tuner_os.Prelude.{ℕ, String, List}

pub record CanSignalMetadata : Type 0 where
  pub signal_name : String
  pub unit : String

pub record CanMessageMetadata : Type 0 where
  pub arbitration_id : ℕ
  pub message_name : String
  pub transmitter : String
  pub cycle_time_microseconds : ℕ
  pub signals : List CanSignalMetadata

pub record CanDatabaseMetadata : Type 0 where
  pub messages : List CanMessageMetadata

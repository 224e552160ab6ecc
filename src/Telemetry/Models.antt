-- ===== src/Telemetry/Models.antt =====
-- telemetry/models.py. `F` is Python's float.
use tuner_os.Prelude.{ℕ, String, ◌≡◌, ◌↔◌, Bool, true, ◌&&◌, Option, arith, Eq, ◌==◌, string_eq}
use tuner_os.Prelude.Dict.{Dict}
use tuner_os.Can.Models.{SignalValue}

pub data SignalFreshness : Type 0 where
  fresh stale : SignalFreshness

pub record SignalKey : Type 0 where
  pub message_name : String
  pub signal_name : String

abbrev pub key_beq : SignalKey → SignalKey → Bool
key_beq a b = (a.message_name == b.message_name) && (a.signal_name == b.signal_name)

pub key_beq_iff : (a b : SignalKey) → (key_beq a b ≡ true) ↔ (a ≡ b)
key_beq_iff a b = ground (
  arith,
  string_eq.beq_iff a.message_name b.message_name,
  string_eq.beq_iff a.signal_name b.signal_name,
)

instance abbrev pub key_eq : Eq SignalKey
key_eq = record { beq = key_beq; beq_iff = key_beq_iff }

pub record SignalSample (F : Type 0) : Type 0 where
  pub key : SignalKey
  pub value : SignalValue F
  pub timestamp_microseconds : ℕ
  pub frame_sequence : ℕ
  pub arbitration_id : ℕ
  pub message_name : String
  pub source_ecu : String
  pub unit : String

pub record TelemetryStatistics : Type 0 where
  pub total_frames : ℕ
  pub total_signal_updates : ℕ
  pub latest_timestamp_microseconds : Option ℕ
  pub last_frame_sequence : Option ℕ
  pub frames_by_arbitration_id : Dict ℕ ℕ

-- The freshness of a key is what the engine's `freshness` returned for it.
pub record TelemetrySnapshot (F : Type 0) : Type 0 where
  pub observation_timestamp_microseconds : Option ℕ
  pub last_frame_sequence : Option ℕ
  pub samples : Dict SignalKey (SignalSample F)
  pub freshness : Dict SignalKey (Option SignalFreshness)
  pub statistics : TelemetryStatistics

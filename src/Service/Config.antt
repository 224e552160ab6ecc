-- ===== src/Service/Config.antt =====
-- telemetry/service.py: `TelemetryServiceConfig`, without the timeout, which only the gateway reads.
pub mod Validated
use tuner_os.Prelude.{
  ℕ, zero, suc, String, Bool, false, not, Option, none, some, Result, ok, err, type_error,
  value_error, ◌>>=◌, ◌>>◌, raise_if, length, ltb, eqb, ℤ, pos, negsuc,
}
use tuner_os.Prelude.Values.{Value, str, expect_int, codes}

pub record TelemetryServiceConfig : Type 0 where
  pub gateway_host : String
  pub gateway_port : ℕ
  pub history_capacity : ℕ
  pub subscriber_queue_capacity : ℕ
  pub replay_subscriber_queue_capacity : ℕ
  pub can_explorer_capacity : ℕ
  pub can_subscriber_queue_capacity : ℕ
  pub can_replay_subscriber_queue_capacity : ℕ
  pub diagnostic_event_capacity : ℕ

-- The arguments of the constructor. The timeout is told by the last test of `__post_init__`: whether
-- it is a number, finite and positive.
pub record ConfigArguments : Type 0 where
  pub gateway_host : Value
  pub gateway_port : Value
  pub history_capacity : Value
  pub subscriber_queue_capacity : Value
  pub replay_subscriber_queue_capacity : Value
  pub can_explorer_capacity : Value
  pub can_subscriber_queue_capacity : Value
  pub can_replay_subscriber_queue_capacity : Value
  pub diagnostic_event_capacity : Value
  pub positive_timeout : Bool

expect_str : Value → Result String
expect_str (str s) = ok s
expect_str _ = err type_error

exceeds : ℕ → Option ℕ → Bool
exceeds n none = false
exceeds n (some most) = ltb most n

-- `_validate_positive_integer`, which leaves the value.
in_bounds : Option ℕ → ℤ → Result ℕ
unfolding exceeds
in_bounds most (pos (zero)) = err value_error
in_bounds most (pos (suc n)) = raise_if (exceeds (suc n) most) value_error >> ok (suc n)
in_bounds most (negsuc n) = err value_error

unfoldable pub validate_positive_integer : Value → Option ℕ → Result ℕ
unfolding in_bounds
validate_positive_integer value most = expect_int value >>= in_bounds most

-- `__post_init__`
unfoldable pub telemetry_service_config : ConfigArguments → Result TelemetryServiceConfig
unfolding expect_str
telemetry_service_config a = do
  host ← expect_str a.gateway_host
  raise_if (eqb (length (codes host)) 0) value_error
  port ← validate_positive_integer a.gateway_port (some 65535)
  history ← validate_positive_integer a.history_capacity none
  queue ← validate_positive_integer a.subscriber_queue_capacity none
  replay_queue ← validate_positive_integer a.replay_subscriber_queue_capacity none
  explorer ← validate_positive_integer a.can_explorer_capacity none
  can_queue ← validate_positive_integer a.can_subscriber_queue_capacity none
  can_replay_queue ← validate_positive_integer a.can_replay_subscriber_queue_capacity none
  events ← validate_positive_integer a.diagnostic_event_capacity none
  raise_if (not a.positive_timeout) value_error
  ok (record {
    gateway_host = host;
    gateway_port = port;
    history_capacity = history;
    subscriber_queue_capacity = queue;
    replay_subscriber_queue_capacity = replay_queue;
    can_explorer_capacity = explorer;
    can_subscriber_queue_capacity = can_queue;
    can_replay_subscriber_queue_capacity = can_replay_queue;
    diagnostic_event_capacity = events;
  })

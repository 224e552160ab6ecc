-- ===== src/Diagnostics/Catalog/Defaults.antt =====
-- diagnostics/catalog.py, `create_default_diagnostic_catalog`.
use tuner_os.Prelude.{ℕ, ◌*◌, String, List, [], ◌∷◌, ◌++◌, pos, Result}
use tuner_os.Telemetry.Models.{SignalKey}
use tuner_os.Telemetry.Catalog.{SignalCatalog}
use tuner_os.Diagnostics.Models.{DiagnosticDefinition, DiagnosticSeverity, warning, critical}
use tuner_os.Diagnostics.Rules.{
  FloatOps, high_threshold, low_while_true, outside_range_while_true, signal_disagreement,
}
use tuner_os.Diagnostics.Catalog.{DiagnosticRule, DiagnosticCatalog, diagnostic_catalog}

abbrev pub signal_key : String → String → SignalKey
signal_key message signal = record { message_name = message; signal_name = signal }

abbrev pub coolant : SignalKey
coolant = signal_key "DmeThermalElectrical" "CoolantTemperature"

abbrev pub oil : SignalKey
oil = signal_key "DmeThermalElectrical" "OilTemperature"

abbrev pub battery : SignalKey
battery = signal_key "DmeThermalElectrical" "BatteryVoltage"

abbrev pub engine_running : SignalKey
engine_running = signal_key "DmeFastEngine" "EngineRunning"

abbrev pub manifold_pressure : SignalKey
manifold_pressure = signal_key "DmeAirLoad" "ManifoldPressureAbsolute"

abbrev pub vehicle_speed : SignalKey
vehicle_speed = signal_key "DscVehicleMotion" "VehicleSpeed"

abbrev pub front_left_wheel_speed : SignalKey
front_left_wheel_speed = signal_key "DscWheelSpeeds" "FrontLeftWheelSpeed"

abbrev pub front_right_wheel_speed : SignalKey
front_right_wheel_speed = signal_key "DscWheelSpeeds" "FrontRightWheelSpeed"

abbrev pub rear_left_wheel_speed : SignalKey
rear_left_wheel_speed = signal_key "DscWheelSpeeds" "RearLeftWheelSpeed"

abbrev pub rear_right_wheel_speed : SignalKey
rear_right_wheel_speed = signal_key "DscWheelSpeeds" "RearRightWheelSpeed"

abbrev pub wheel_speeds : List SignalKey
wheel_speeds =
    front_left_wheel_speed ∷ front_right_wheel_speed ∷ rear_left_wheel_speed
    ∷ rear_right_wheel_speed ∷ []

-- `_definition`
definition :
    String
    → String
    → String
    → String
    → DiagnosticSeverity
    → String
    → List SignalKey
    → ℕ
    → ℕ
    → String
    → String
    → DiagnosticDefinition
definition code rule_id name description severity source_system required_signals
      confirmation_seconds recovery_seconds activation_description recovery_description =
    record {
      code = code;
      rule_id = rule_id;
      name = name;
      description = description;
      severity = severity;
      source_system = source_system;
      required_signals = required_signals;
      confirmation_duration_microseconds = pos (confirmation_seconds * 1000000);
      recovery_duration_microseconds = pos (recovery_seconds * 1000000);
      activation_description = activation_description;
      recovery_description = recovery_description;
    }

module _ {F : Type 0} ⦃ops : FloatOps F⦄ where
  unfoldable pub default_rules : List (DiagnosticRule F)
  unfolding definition
  default_rules =
      record {
        definition =
            definition "TUN-DME-001" "dme.coolant_temperature_high"
              "Engine coolant temperature high"
              "Decoded coolant temperature remained above the TunerOS high threshold." critical
              "DME" (coolant ∷ []) 5 3 "CoolantTemperature > 115 degC"
              "CoolantTemperature <= 110 degC";
        condition = high_threshold coolant (ops.tenths 1150) (ops.tenths 1100);
      }
      ∷ record {
        definition =
            definition "TUN-DME-002" "dme.oil_temperature_high" "Engine oil temperature high"
              "Decoded oil temperature remained above the TunerOS high threshold." critical "DME"
              (oil ∷ []) 5 3 "OilTemperature > 135 degC" "OilTemperature <= 130 degC";
        condition = high_threshold oil (ops.tenths 1350) (ops.tenths 1300);
      }
      ∷ record {
        definition =
            definition "TUN-DME-003" "dme.charging_voltage_low" "Charging voltage low while running"
              "Battery voltage remained low while decoded engine-running state was true." warning
              "DME" (battery ∷ engine_running ∷ []) 3 2 "EngineRunning and BatteryVoltage < 12.5 V"
              "Engine stopped or BatteryVoltage >= 13.0 V";
        condition = low_while_true battery engine_running (ops.tenths 125) (ops.tenths 130);
      }
      ∷ record {
        definition =
            definition "TUN-DME-004" "dme.manifold_pressure_implausible"
              "Manifold pressure implausible"
              "Decoded absolute manifold pressure remained outside broad TunerOS bounds." warning
              "DME" (manifold_pressure ∷ engine_running ∷ []) 2 2
              "EngineRunning and MAP outside 10..250 kPa absolute"
              "Engine stopped or MAP within 15..240 kPa absolute";
        condition =
            outside_range_while_true manifold_pressure engine_running (ops.tenths 100)
              (ops.tenths 2500) (ops.tenths 150) (ops.tenths 2400);
      }
      ∷ record {
        definition =
            definition "TUN-DSC-001" "dsc.wheel_speed_disagreement"
              "Wheel-speed plausibility disagreement"
              "A decoded wheel speed remained materially different from decoded vehicle speed."
              warning "DSC" (wheel_speeds ++ vehicle_speed ∷ []) 1 1
              "Any wheel differs from VehicleSpeed by > 3.0 m/s"
              "Every wheel is within 1.5 m/s of VehicleSpeed";
        condition = signal_disagreement wheel_speeds vehicle_speed (ops.tenths 30) (ops.tenths 15);
      }
      ∷ []

  unfoldable pub create_default_diagnostic_catalog : SignalCatalog → Result (DiagnosticCatalog F)
  unfolding default_rules
  create_default_diagnostic_catalog c = diagnostic_catalog default_rules c

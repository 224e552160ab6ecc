-- ===== src/Can/Explorer/Examples.antt =====
-- can/explorer.py: an explorer of two frames that sees three, the second of an identifier it knows.
use mathlib.Core.Option
use tuner_os.Can.Explorer.Queries.{statistics, statistics-run}
use tuner_os.Prelude.{head?, keep_last, length, min, ℕ, ◌≡◌, refl, [], ◌∷◌, some, pos, ok, true}
use tuner_os.Prelude.Values.{int}
use tuner_os.Prelude.Dict.{put}
use tuner_os.Can.Models.{RawCanFrame}
use tuner_os.Can.Codec.Examples.{throttle}
use tuner_os.Can.Decoder.{TunerOsDbcDecoder, DbcFrame, dbc_decoder}
use tuner_os.Can.Explorer.{CanExplorer, can_explorer}
use tuner_os.Can.Explorer.History.{Keeps, run, run-Keeps}

abbrev message : DbcFrame ℕ
message = record {
  arbitration_id = 0x500;
  name = "DmeFastEngine";
  size = 3;
  transmitters = "Dme" ∷ [];
  cycle_time = pos 10;
  signals = record { signal_name = "Throttle"; unit = "%" } ∷ [];
  decode_payload = λ b. some (("Throttle", record { raw_truth = true; phys_value = 18 }) ∷ []);
}

abbrev decoder : TunerOsDbcDecoder ℕ
decoder = record {
  frames_by_id = (0x500, message) ∷ [];
  database_metadata = record {
    messages =
        record {
          arbitration_id = 0x500;
          message_name = "DmeFastEngine";
          transmitter = "Dme";
          cycle_time_microseconds = 10000;
          signals = record { signal_name = "Throttle"; unit = "%" } ∷ [];
        }
        ∷ [];
  };
}

loaded : dbc_decoder (message ∷ []) ≡ ok decoder
unfolding dbc_decoder put
loaded = refl

explorer : CanExplorer ℕ
explorer = record {
  decoder = decoder;
  metadata_by_id =
      (
        0x500,
        record {
          arbitration_id = 0x500;
          message_name = "DmeFastEngine";
          transmitter = "Dme";
          cycle_time_microseconds = 10000;
          signals = record { signal_name = "Throttle"; unit = "%" } ∷ [];
        },
      )
      ∷ [];
  capacity = 2;
  frames = [];
  messages = [];
  next_sequence = 0;
}

created : can_explorer decoder (int (pos 2)) ≡ ok explorer
unfolding can_explorer explorer put
created = refl

abbrev other : RawCanFrame
other = record throttle { arbitration_id = 0x7FF }

run-Keeps_example :
    Keeps
      (run explorer (throttle ∷ other ∷ throttle ∷ [])).1
      (run explorer (throttle ∷ other ∷ throttle ∷ [])).0
run-Keeps_example =
    run-Keeps decoder (int (pos 2)) explorer created (throttle ∷ other ∷ throttle ∷ [])

statistics-run_example :
    let (log, e') = run explorer (throttle ∷ other ∷ throttle ∷ []) in
    ((statistics e').retained_frame_count ≡ min e'.capacity (statistics e').total_frame_count)
    × ((statistics e').total_frame_count ≡ length log)
    × ((statistics e').oldest_retained_timestamp_microseconds
        ≡ Option.map (λ x. x.raw_frame.timestamp_microseconds) (head? (keep_last e'.capacity log)))
statistics-run_example =
    statistics-run decoder (int (pos 2)) explorer created (throttle ∷ other ∷ throttle ∷ [])

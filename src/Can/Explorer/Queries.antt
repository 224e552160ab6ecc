-- ===== src/Can/Explorer/Queries.antt =====
-- can/explorer.py: the queries, which change nothing.
use mathlib.Core.Option
use tuner_os.Prelude.{
  ℕ, zero, suc, ◌-◌, ◌≡◌, sym, ap, ◌∙◌, String, Bool, true, Option, none, some, List, [], ◌∷◌, ◌==◌,
  string_eq, nat_eq, option_eq, Result, ok, err, key_error, value_error, ◌>>=◌, or_raise,
  if◌then◌else◌, length, leb, ltb, filter, find?, head?, get_last?, keep_last, ℤ, pos, negsuc,
  sub_ℕ, arith, min,
}
use tuner_os.Prelude.Dict.{Dict, get}
use tuner_os.Prelude.Values.{Value, expect_int}
use tuner_os.Can.Models.{RawCanFrame}
use tuner_os.Can.Metadata.{CanMessageMetadata}
use tuner_os.Can.Decoder.{TunerOsDbcDecoder}
use tuner_os.Can.Explorer.{CanExplorer, CanExplorerFrame, MutableMessageStatistics, can_explorer}
use tuner_os.Can.Explorer.History.{run, run-Keeps}

-- Python's float, as far as the periods need it: the quotient of two integers, the test against
-- zero, and the frequency 1_000_000.0 / period.
pub record PeriodOps (F : Type 0) : Type 0 where
  pub quotient : ℤ → ℕ → F
  pub is_positive : F → Bool
  pub frequency : F → F

pub record CanMessageStatistics (F : Type 0) : Type 0 where
  pub arbitration_id : ℕ
  pub message_name : Option String
  pub source_ecu : Option String
  pub retained_frame_count : ℕ
  pub total_frame_count : ℕ
  pub first_timestamp_microseconds : ℕ
  pub latest_timestamp_microseconds : ℕ
  pub expected_period_microseconds : Option ℕ
  pub observed_average_period_microseconds : Option F
  pub observed_frequency_hz : Option F
  pub latest_dlc : ℕ

pub record CanExplorerStatistics : Type 0 where
  pub retained_frame_count : ℕ
  pub total_frame_count : ℕ
  pub unique_id_count : ℕ
  pub oldest_retained_timestamp_microseconds : Option ℕ
  pub newest_retained_timestamp_microseconds : Option ℕ
  pub last_sequence : Option ℕ

pub record CanExplorerSnapshot (F : Type 0) : Type 0 where
  pub frames : List (CanExplorerFrame F)
  pub statistics : CanExplorerStatistics
  pub messages : List (CanMessageStatistics F)

-- sorted(self._messages)
insert_id : ℕ → List ℕ → List ℕ
insert_id i [] = i ∷ []
insert_id i (j ∷ rest) = let later = insert_id i rest in if ltb j i then j ∷ later else i ∷ j ∷ rest

sorted_ids : Dict ℕ MutableMessageStatistics → List ℕ
unfolding insert_id
sorted_ids [] = []
sorted_ids ((i, s) ∷ rest) = insert_id i (sorted_ids rest)

abbrev pub previous : ℕ → Option ℕ
previous zero = none
previous (suc n) = some n

-- The filter of a query argument that may be left out.
abbrev pub is_selected {ℓ} : {A : Type ℓ} → (A → Bool) → Option A → Bool
is_selected test none = true
is_selected test (some a) = test a

module _ {F : Type 0} where
  select_limit : List (CanExplorerFrame F) → Option Value → Result (List (CanExplorerFrame F))
  select_limit selected none = ok selected
  select_limit selected (some limit) = expect_int limit >>= λ n. elim n [
    | pos (zero) ↦ err value_error
    | pos (suc k) ↦ ok (keep_last (suc k) selected)
    | negsuc k ↦ err value_error
  ]

  -- `CanExplorer.frames`
  unfoldable pub frames :
      CanExplorer F
      → Option Value
      → Option ℕ
      → Option String
      → Option String
      → Result (List (CanExplorerFrame F))
  unfolding select_limit
  frames e limit arbitration_id message_name source_ecu =
      select_limit
        (filter (λ x. is_selected (λ s. x.source_ecu == some s) source_ecu)
          (filter (λ x. is_selected (λ m. x.message_name == some m) message_name)
            (filter (λ x. is_selected (λ i. x.raw_frame.arbitration_id == i) arbitration_id)
              e.frames)))
        limit

  unfoldable pub frame : CanExplorer F → ℕ → Option (CanExplorerFrame F)
  frame e sequence = find? (λ x. x.sequence == sequence) e.frames

  timestamp_of : CanExplorerFrame F → ℕ
  timestamp_of x = x.raw_frame.timestamp_microseconds

  unfoldable pub statistics : CanExplorer F → CanExplorerStatistics
  unfolding timestamp_of
  statistics e = record {
    retained_frame_count = length e.frames;
    total_frame_count = e.next_sequence;
    unique_id_count = length e.messages;
    oldest_retained_timestamp_microseconds = Option.map timestamp_of (head? e.frames);
    newest_retained_timestamp_microseconds = Option.map timestamp_of (get_last? e.frames);
    last_sequence = previous e.next_sequence;
  }

module _ {F : Type 0} (ops : PeriodOps F) where
  average_period : MutableMessageStatistics → Option F
  average_period s =
      if leb 2 s.total_frame_count
      then some (
          ops.quotient (sub_ℕ s.latest_timestamp_microseconds s.first_timestamp_microseconds)
            (s.total_frame_count - 1))
      else none

  frequency_of : Option F → Option F
  frequency_of none = none
  frequency_of (some period) = if ops.is_positive period then some (ops.frequency period) else none

  -- `_freeze_message`
  freeze_message : MutableMessageStatistics → CanMessageStatistics F
  unfolding average_period frequency_of
  freeze_message s = record {
    arbitration_id = s.arbitration_id;
    message_name = Option.map (λ (m : CanMessageMetadata). m.message_name) s.metadata;
    source_ecu = Option.map (λ (m : CanMessageMetadata). m.transmitter) s.metadata;
    retained_frame_count = s.retained_frame_count;
    total_frame_count = s.total_frame_count;
    first_timestamp_microseconds = s.first_timestamp_microseconds;
    latest_timestamp_microseconds = s.latest_timestamp_microseconds;
    expected_period_microseconds =
        Option.map (λ (m : CanMessageMetadata). m.cycle_time_microseconds) s.metadata;
    observed_average_period_microseconds = average_period s;
    observed_frequency_hz = frequency_of (average_period s);
    latest_dlc = s.latest_dlc;
  }

  unfoldable pub message_statistic : CanExplorer F → ℕ → Result (CanMessageStatistics F)
  unfolding freeze_message
  message_statistic e i = or_raise (get e.messages i) key_error >>= λ s. ok (freeze_message s)

  frozen : CanExplorer F → List ℕ → Result (List (CanMessageStatistics F))
  unfolding message_statistic
  frozen e [] = ok []
  frozen e (i ∷ rest) = message_statistic e i >>= λ m. frozen e rest >>= λ others. ok (m ∷ others)

  unfoldable pub message_statistics : CanExplorer F → Result (List (CanMessageStatistics F))
  unfolding frozen sorted_ids
  message_statistics e = frozen e (sorted_ids e.messages)

  unfoldable pub snapshot : CanExplorer F → Option Value → Result (CanExplorerSnapshot F)
  unfolding message_statistics
  snapshot e frame_limit = frames e frame_limit none none none >>= λ fs.
      message_statistics e >>= λ ms.
      ok (record { frames = fs; statistics = statistics e; messages = ms })

length-keep_last : {A : Type 0} (n : ℕ) (xs : List A) → length (keep_last n xs) ≡ min n (length xs)
length-keep_last n [] = omega arith
length-keep_last n (x ∷ xs) = ground (arith, length-keep_last n xs)

-- After any raw frames, from a new explorer: the frames retained are the total, or the capacity if
-- that is less, the total counts the frames that were returned, and the oldest retained timestamp
-- is that of the first of the last `capacity` of them.
pub statistics-run :
    {F : Type 0} (d : TunerOsDbcDecoder F) (capacity : Value) (e : CanExplorer F)
    → can_explorer d capacity ≡ ok e
    → (fs : List RawCanFrame)
    → let (log, e') = run e fs in
      ((statistics e').retained_frame_count ≡ min e'.capacity (statistics e').total_frame_count)
      × ((statistics e').total_frame_count ≡ length log)
      × ((statistics e').oldest_retained_timestamp_microseconds
          ≡ Option.map
              (λ x. x.raw_frame.timestamp_microseconds)
              (head? (keep_last e'.capacity log)))
unfolding statistics timestamp_of
statistics-run d capacity e h fs =
    let k = run-Keeps d capacity e h fs in
    (
      ap length k.window
          ∙ length-keep_last (run e fs).1.capacity (run e fs).0
          ∙ ap (min (run e fs).1.capacity) (sym k.numbered),
      k.numbered,
      ap (λ w. Option.map (λ x. x.raw_frame.timestamp_microseconds) (head? w)) k.window,
    )

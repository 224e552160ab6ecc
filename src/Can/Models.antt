-- ===== src/Can/Models.antt =====
-- can/models.py: the frames at the two sides of the DBC boundary.
use tuner_os.Prelude.{
  ℕ, ◌≤◌, String, ◌≡◌, Bool, false, not, arith, length, leb, ltb, ℤ, pos, negsuc, is_negative,
  Result, ok, value_error, ◌>>=◌, ◌>>◌, raise_if,
}
use tuner_os.Prelude.Dict.{Dict}
use tuner_os.Prelude.Values.{Value, Bytes, int, bytes, expect_int, expect_bytes}
use tuner_os.Prelude.Struct.{IsBytes}

-- float | int | bool. `F` is Python's float; `object` is a value of a type that the annotation
-- excludes.
pub data SignalValue (F : Type 0) : Type 0 where
  float : F → SignalValue F
  integer : ℤ → SignalValue F
  boolean : Bool → SignalValue F
  object : SignalValue F

pub record RawCanFrame : Type 0 where
  pub arbitration_id : ℕ
  pub payload : Bytes
  pub timestamp_microseconds : ℕ

abbrev pub payload_length : RawCanFrame → ℕ
payload_length f = length f.payload

-- 0 <= value <= most
in_range : ℕ → ℤ → Bool
in_range most (pos n) = leb n most
in_range most (negsuc n) = false

abbrev to_ℕ : ℤ → ℕ
to_ℕ (pos n) = n
to_ℕ (negsuc n) = 0

-- RawCanFrame(arbitration_id, payload, timestamp), with the checks of `__post_init__`
unfoldable pub raw_can_frame : Value → Value → Value → Result RawCanFrame
unfolding in_range
raw_can_frame arbitration_id payload timestamp = do
  i ← expect_int arbitration_id
  raise_if (not (in_range 0x7FF i)) value_error
  p ← expect_bytes payload
  raise_if (ltb 8 (length p)) value_error
  t ← expect_int timestamp
  raise_if (is_negative t) value_error
  ok (record { arbitration_id = to_ℕ i; payload = p; timestamp_microseconds = to_ℕ t })

pub record DecodedCanFrame (F : Type 0) : Type 0 where
  pub arbitration_id : ℕ
  pub message_name : String
  pub timestamp_microseconds : ℕ
  pub signals : Dict String (SignalValue F)

-- What every constructed frame satisfies.
pub record IsRawCanFrame (f : RawCanFrame) : Type 0 where
  pub standard_id : f.arbitration_id ≤ 0x7FF
  pub short : length f.payload ≤ 8
  pub byte_values : IsBytes f.payload

pub raw_can_frame-eq_ok :
    (i t : ℕ) (p : Bytes)
    → i ≤ 0x7FF
    → length p ≤ 8
    → raw_can_frame (int (pos i)) (bytes p) (int (pos t))
      ≡ ok (record { arbitration_id = i; payload = p; timestamp_microseconds = t })
unfolding raw_can_frame
raw_can_frame-eq_ok i t p h k = ground arith

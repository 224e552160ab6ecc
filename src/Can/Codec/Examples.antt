-- ===== src/Can/Codec/Examples.antt =====
-- can/record_codec.py: tests, and the theorems at concrete records.
use tuner_os.Prelude.{
  ◌≡◌, refl, [], ◌∷◌, ◌++◌, arith, take, ok, err, raw_can_record_error, struct_error, ◌>>=◌,
}
use tuner_os.Prelude.Values.{Bytes}
use tuner_os.Prelude.Struct.{to_be, of_be}
use tuner_os.Can.Models.{RawCanFrame, IsRawCanFrame, raw_can_frame}
use tuner_os.Can.Codec.{encode_raw_can_record, decode_raw_can_record, ljust8}
use tuner_os.Can.Codec.Roundtrip.{decode-encode, encode-decode}

abbrev pub throttle : RawCanFrame
throttle = record {
  arbitration_id = 0x500;
  payload = 0x12 ∷ 0x34 ∷ 0x56 ∷ [];
  timestamp_microseconds = 10000;
}

pub throttle-IsRawCanFrame : IsRawCanFrame throttle
throttle-IsRawCanFrame = record {
  standard_id = omega arith;
  short = omega arith;
  byte_values = omega arith;
}

abbrev padding : Bytes
padding = 0 ∷ 0 ∷ 0 ∷ 0 ∷ 0 ∷ []

abbrev throttle_record : Bytes
throttle_record =
    0 ∷ 0 ∷ 0 ∷ 0 ∷ 0 ∷ 0 ∷ 0x27 ∷ 0x10 ∷ 0x05 ∷ 0x00 ∷ 3 ∷ 0x12 ∷ 0x34 ∷ 0x56 ∷ padding

encode_throttle : encode_raw_can_record throttle ≡ ok throttle_record
unfolding encode_raw_can_record to_be
encode_throttle = refl

-- The same record with bytes after the payload, which the decoder does not look at.
abbrev noisy_record : Bytes
noisy_record =
    0 ∷ 0 ∷ 0 ∷ 0 ∷ 0 ∷ 0 ∷ 0x27 ∷ 0x10 ∷ 0x05 ∷ 0x00 ∷ 3 ∷ 0x12 ∷ 0x34 ∷ 0x56 ∷ 9 ∷ 9 ∷ 9 ∷ 9 ∷ 9
    ∷ []

decode_noisy : decode_raw_can_record noisy_record ≡ ok throttle
unfolding decode_raw_can_record raw_can_frame of_be
decode_noisy = refl

decode_short : decode_raw_can_record (1 ∷ 2 ∷ []) ≡ err raw_can_record_error
unfolding decode_raw_can_record
decode_short = refl

-- A timestamp of 64 bits and more is a valid frame, and has no record.
encode_late :
    encode_raw_can_record (record throttle { timestamp_microseconds = 18446744073709551616 })
    ≡ err struct_error
unfolding encode_raw_can_record
encode_late = refl

decode-encode_example : (encode_raw_can_record throttle >>= decode_raw_can_record) ≡ ok throttle
decode-encode_example = decode-encode throttle throttle-IsRawCanFrame (omega arith)

encode-decode_example :
    encode_raw_can_record throttle ≡ ok (take 11 noisy_record ++ ljust8 (0x12 ∷ 0x34 ∷ 0x56 ∷ []))
unfolding of_be
encode-decode_example = encode-decode noisy_record (omega arith) refl throttle decode_noisy

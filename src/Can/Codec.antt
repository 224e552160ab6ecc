-- ===== src/Can/Codec.antt =====
-- can/record_codec.py: one raw frame as a record of 19 bytes.
pub mod Roundtrip
pub mod Examples
use tuner_os.Prelude.{
  ℕ, ◌-◌, ◌^◌, Bool, not, List, ◌++◌, length, take, drop, replicate, leb, ltb, eqb, pos, Result, ok,
  raw_can_record_error, struct_error, ◌>>=◌, ◌>>◌, raise_if,
}
use tuner_os.Prelude.Values.{Bytes, int, bytes}
use tuner_os.Prelude.Struct.{to_be, of_be}
use tuner_os.Can.Models.{RawCanFrame, payload_length, raw_can_frame}

abbrev pub raw_can_record_size : ℕ
raw_can_record_size = 19

-- payload.ljust(8, b"\x00")
abbrev pub ljust8 : Bytes → Bytes
ljust8 p = p ++ replicate (8 - length p) 0

-- struct.Struct("!QHB8s").pack: a number that does not fit its field is refused.
pack_record : ℕ → ℕ → ℕ → Bytes → Result Bytes
pack_record timestamp arbitration_id dlc padded = do
  raise_if (leb (2 ^ 64) timestamp) struct_error
  raise_if (leb (2 ^ 16) arbitration_id) struct_error
  raise_if (leb (2 ^ 8) dlc) struct_error
  ok (to_be 8 timestamp ++ (to_be 2 arbitration_id ++ (to_be 1 dlc ++ take 8 padded)))

unfoldable pub encode_raw_can_record : RawCanFrame → Result Bytes
unfolding pack_record
encode_raw_can_record f =
    pack_record f.timestamp_microseconds f.arbitration_id (payload_length f) (ljust8 f.payload)

-- The fields of struct.Struct("!QHB8s").unpack.
abbrev timestamp_field : Bytes → ℕ
timestamp_field d = of_be (take 8 d)

abbrev arbitration_id_field : Bytes → ℕ
arbitration_id_field d = of_be (take 2 (drop 8 d))

abbrev dlc_field : Bytes → ℕ
dlc_field d = of_be (take 1 (drop 10 d))

abbrev payload_field : Bytes → Bytes
payload_field d = drop 11 d

unfoldable pub decode_raw_can_record : Bytes → Result RawCanFrame
decode_raw_can_record d = do
  raise_if (not (eqb (length d) raw_can_record_size)) raw_can_record_error
  raise_if (ltb 0x7FF (arbitration_id_field d)) raw_can_record_error
  raise_if (ltb 8 (dlc_field d)) raw_can_record_error
  raw_can_frame (int (pos (arbitration_id_field d))) (bytes (take (dlc_field d) (payload_field d)))
      (int (pos (timestamp_field d)))

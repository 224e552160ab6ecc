-- ===== src/Can/Gateway/Examples.antt =====
-- can/gateway.py: the client on a stream that arrives in awkward segments.
use tuner_os.Prelude.{◌≡◌, ◌↔◌, true, refl, [], ◌∷◌, arith, ok, err, gateway_protocol_error}
use tuner_os.Prelude.Struct.{to_be}
use tuner_os.Can.Codec.Examples.{throttle, throttle-IsRawCanFrame}
use tuner_os.Can.Gateway.{Connection, chunk, receive_all, read_exact, decode_gateway_header}
use tuner_os.Can.Gateway.Stream.{expected, read_exact-expected}
use tuner_os.Can.Gateway.Frames.{
  IsRecordable, header, decode_gateway_header_exact, receive_all-records,
}

-- The header in two parts, then a record that shares its segment with the start of the next one.
abbrev cut_stream : Connection
cut_stream =
    chunk 84 (78 ∷ 67 ∷ [])
    ∷ chunk 82 (1 ∷ 0 ∷ 0 ∷ 0 ∷ 0 ∷ 0 ∷ [])
    ∷ chunk 0 (0 ∷ 0 ∷ 0 ∷ 0x27 ∷ 0x10 ∷ 5 ∷ 0 ∷ 3 ∷ 0x12 ∷ 0x34 ∷ 0x56 ∷ [])
    ∷ chunk 0 (0 ∷ 0 ∷ 0 ∷ 0 ∷ 7 ∷ 7 ∷ [])
    ∷ []

throttle-IsRecordable : IsRecordable throttle
throttle-IsRecordable = record { valid = throttle-IsRawCanFrame; timed = omega arith }

receive_all-records_example : receive_all 2 cut_stream ≡ (throttle ∷ [], err gateway_protocol_error)
unfolding to_be
receive_all-records_example =
    receive_all-records (throttle ∷ []) (7 ∷ 7 ∷ []) 2 cut_stream (throttle-IsRecordable, tt)
      (omega arith) refl (omega arith)

decode_gateway_header_exact_example : (decode_gateway_header header ≡ ok tt) ↔ (header ≡ header)
decode_gateway_header_exact_example = decode_gateway_header_exact header

read_exact-expected_example :
    (read_exact 10 true cut_stream).0 ≡ ok (84 ∷ 78 ∷ 67 ∷ 82 ∷ 1 ∷ 0 ∷ 0 ∷ 0 ∷ 0 ∷ 0 ∷ [])
unfolding expected
read_exact-expected_example = read_exact-expected 10 true cut_stream

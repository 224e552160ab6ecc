-- ===== src/Can/Gateway.antt =====
-- can/gateway.py: the client of the TCP gateway, which reads a header and then fixed-size records.
-- A connection is what its `recv` calls will return: the segments that arrive, in order, none of
-- them empty, then the close by the peer. A failure is a `recv` that raises OSError.
pub mod Stream
pub mod Frames
mod Examples
use tuner_os.Prelude.{
  ℕ, zero, suc, ◌-◌, Bool, true, false, not, ◌&&◌, List, [], ◌∷◌, ◌++◌, length, take, drop, ltb,
  eqb, ◌==◌, Result, ok, err, Error, os_error, assertion_error, gateway_connection_error,
  gateway_protocol_error, raw_can_record_error, ◌>>=◌, ◌>>◌, raise_if, if◌then◌else◌, list_eq,
  nat_eq,
}
use tuner_os.Prelude.Values.{Bytes}
use tuner_os.Can.Models.{RawCanFrame}
use tuner_os.Can.Codec.{decode_raw_can_record, raw_can_record_size}

pub data Segment : Type 0 where
  chunk : ℕ → Bytes → Segment
  failure : Segment

abbrev pub Connection : Type 0
Connection = List Segment

abbrev pub gateway_magic : Bytes
gateway_magic = 84 ∷ 78 ∷ 67 ∷ 82 ∷ []

abbrev pub gateway_protocol_version : ℕ
gateway_protocol_version = 1

abbrev pub gateway_header_size : ℕ
gateway_header_size = 8

abbrev pub gateway_record_size : ℕ
gateway_record_size = raw_can_record_size

unfoldable pub decode_gateway_header : Bytes → Result (Unit {0})
decode_gateway_header d = do
  raise_if (not (eqb (length d) gateway_header_size)) gateway_protocol_error
  raise_if (not (take 4 d == gateway_magic)) gateway_protocol_error
  raise_if (not (take 1 (drop 4 d) == gateway_protocol_version ∷ [])) gateway_protocol_error
  raise_if (not (drop 5 d == 0 ∷ 0 ∷ 0 ∷ [])) gateway_protocol_error
  ok tt

-- except RawCanRecordError: raise GatewayProtocolError
abbrev as_protocol_error {ℓ} : {A : Type ℓ} → Result A → Result A
as_protocol_error (ok a) = ok a
as_protocol_error (err raw_can_record_error) = err gateway_protocol_error
as_protocol_error (err e) = err e

unfoldable pub decode_gateway_record : Bytes → Result RawCanFrame
decode_gateway_record d = do
  raise_if (not (eqb (length d) gateway_record_size)) gateway_protocol_error
  as_protocol_error (decode_raw_can_record d)

-- What a `recv` that took only a part of a segment leaves of it.
leave : Bytes → Connection → Connection
leave [] c = c
leave (b ∷ bs) c = chunk b bs ∷ c

-- connection.recv(n): at most n bytes of the next segment, b"" after the close.
unfoldable pub recv : ℕ → Connection → Result Bytes × Connection
unfolding leave
recv n [] = (ok [], [])
recv n (failure ∷ c) = (err os_error, c)
recv n (chunk b bs ∷ c) = (ok (take n (b ∷ bs)), leave (drop n (b ∷ bs)) c)

is_empty : Bytes → Bool
is_empty [] = true
is_empty (b ∷ bs) = false

-- A `recv` that returned no data.
at_eof : Bool → Bytes → Result Bytes
unfolding is_empty
at_eof allow_clean_eof d =
    if allow_clean_eof && is_empty d then ok [] else err gateway_protocol_error

-- What the loop does with the result of a `recv`.
after_recv :
    Bool
    → Bytes
    → (Bytes → Connection → Result Bytes × Connection)
    → Result Bytes
    → Connection
    → Result Bytes × Connection
after_recv allow d next (err e) c = (err gateway_connection_error, c)
after_recv allow d next (ok []) c = (at_eof allow d, c)
after_recv allow d next (ok (b ∷ bs)) c = next (d ++ b ∷ bs) c

-- while len(data) < size. Each round takes one byte at least, so `size + 1` rounds are enough.
read_loop : ℕ → ℕ → Bool → Bytes → Connection → Result Bytes × Connection
unfolding recv at_eof after_recv
read_loop zero size allow d c = (err assertion_error, c)
read_loop (suc fuel) size allow d c =
    let round =
      (let (r, c') = recv (size - length d) c in
        after_recv allow d (λ d' c''. read_loop fuel size allow d' c'') r c') in
    if ltb (length d) size then round else (ok d, c)

unfoldable pub read_exact : ℕ → Bool → Connection → Result Bytes × Connection
unfolding read_loop
read_exact size allow c = read_loop (suc size) size allow [] c

-- The frames that the generator yields, and how it ends.
abbrev pub Received : Type 0
Received = List RawCanFrame × Result (Unit {0})

yield_frame : (Connection → Received) → Result RawCanFrame → Connection → Received
yield_frame next (err e) c = ([], err e)
yield_frame next (ok f) c = let (fs, end) = next c in (f ∷ fs, end)

after_record : (Connection → Received) → Result Bytes → Connection → Received
unfolding yield_frame
after_record next (err e) c = ([], err e)
after_record next (ok []) c = ([], ok tt)
after_record next (ok (b ∷ bs)) c = yield_frame next (decode_gateway_record (b ∷ bs)) c

-- RawCanGatewayClient.frames, for at most `fuel` reads.
unfoldable pub frames : ℕ → Connection → Received
unfolding after_record
frames zero c = ([], err assertion_error)
frames (suc fuel) c =
    let (r, c') = read_exact gateway_record_size true c in
    after_record (λ c''. frames fuel c'') r c'

-- RawCanGatewayClient.__init__: a bad header closes the connection and raises.
unfoldable pub open_client : Connection → Result (Unit {0}) × Connection
open_client c =
    let (r, c') = read_exact gateway_header_size false c in (r >>= decode_gateway_header, c')

after_open : ℕ → Result (Unit {0}) → Connection → Received
after_open fuel (err e) c = ([], err e)
after_open fuel (ok u) c = frames fuel c

-- A client from its construction to the end of its stream.
unfoldable pub receive_all : ℕ → Connection → Received
unfolding after_open
receive_all fuel c = let (r, c') = open_client c in after_open fuel r c'

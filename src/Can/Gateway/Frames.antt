-- ===== src/Can/Gateway/Frames.antt =====
-- can/gateway.py, `RawCanGatewayClient`: from the byte stream to the frames.
use mathlib.Core.List.{append_assoc}
use tuner_os.Prelude.{
  nat_eq, ℕ, zero, suc, ◌^◌, ◌≤◌, ◌<◌, ◌≡◌, refl, sym, ap, ap₂, ◌∙◌, Bool, true, false, List, [],
  ◌∷◌, ◌++◌, arith, length, length-append, take, drop, take-append-drop, drop-add, list_beq_iff,
  leb, subst, ◌↔◌, Result, ok, err, All, gateway_connection_error, gateway_protocol_error, ◌>>=◌,
}
use tuner_os.Prelude.Values.{Bytes}
use tuner_os.Can.Models.{RawCanFrame, IsRawCanFrame}
use tuner_os.Can.Codec.Roundtrip.{layout, length-layout, decode-layout, take_prefix, drop_prefix}
use tuner_os.Can.Gateway.{
  Connection, gateway_magic, decode_gateway_header, decode_gateway_record, read_exact, frames,
  after_record, yield_frame, open_client, after_open, receive_all, at_eof, Received,
}
use tuner_os.Can.Gateway.Stream.{
  Ending, closed, broken, stream, ending, cut_off, expected, read_exact-expected, read_exact-rest,
}

-- A frame that a record can hold.
pub record IsRecordable (f : RawCanFrame) : Type 0 where
  pub valid : IsRawCanFrame f
  pub timed : f.timestamp_microseconds < 2 ^ 64

abbrev pub header : Bytes
header = 84 ∷ 78 ∷ 67 ∷ 82 ∷ 1 ∷ 0 ∷ 0 ∷ 0 ∷ []

abbrev pub records : List RawCanFrame → Bytes
records [] = []
records (f ∷ fs) = layout f ++ records fs

-- How the client ends on a stream that stops with a part of a record.
abbrev pub outcome : Bytes → Ending → Result (Unit {0})
outcome part broken = err gateway_connection_error
outcome [] closed = ok tt
outcome (b ∷ bs) closed = err gateway_protocol_error

header_parts :
    (d : Bytes)
    → decode_gateway_header d ≡ ok tt
    → (take 4 d ≡ gateway_magic) × (take 1 (drop 4 d) ≡ 1 ∷ []) × (drop 5 d ≡ 0 ∷ 0 ∷ 0 ∷ [])
unfolding decode_gateway_header
header_parts d h = ground (
  arith,
  list_beq_iff (take 4 d) gateway_magic,
  list_beq_iff (take 1 (drop 4 d)) (1 ∷ []),
  list_beq_iff (drop 5 d) (0 ∷ 0 ∷ 0 ∷ []),
)

-- The header of the protocol is accepted, and nothing else.
pub decode_gateway_header_exact : (d : Bytes) → (decode_gateway_header d ≡ ok tt) ↔ (d ≡ header)
unfolding decode_gateway_header
decode_gateway_header_exact d = (
  λ h.
      let (magic, version, reserved) = header_parts d h in
      sym (take-append-drop 4 d)
      ∙ ap₂ ◌++◌ magic (
          sym (take-append-drop 1 (drop 4 d)) ∙ ap₂ ◌++◌ version (sym (drop-add 4 1 d) ∙ reserved)),
  λ e. rw e refl,
)

expected-prefix :
    (allow : Bool) (xs ys : Bytes) (n : ℕ) (e : Ending)
    → length xs ≡ n
    → expected allow [] n (xs ++ ys) e ≡ ok xs
unfolding expected
expected-prefix allow xs ys n e h =
    let fits : leb n (length (xs ++ ys)) ≡ true = ground (arith, length-append xs ys) in
    rw fits (ap ok (take_prefix xs ys h))

decode-record : (f : RawCanFrame) → IsRecordable f → decode_gateway_record (layout f) ≡ ok f
unfolding decode_gateway_record
decode-record f r = rw (length-layout f r.valid r.timed, decode-layout f r.valid r.timed) refl

after_record-full :
    (next : Connection → Received) (d : Bytes) (c : Connection)
    → length d ≡ 19
    → after_record next (ok d) c ≡ yield_frame next (decode_gateway_record d) c
unfolding after_record
after_record-full next [] c h = absurd (omega arith)
after_record-full next (b ∷ bs) c h = refl

after_record-cut :
    (next : Connection → Received) (s : Bytes) (e : Ending) (c : Connection)
    → after_record next (cut_off true s e) c ≡ ([], outcome s e)
unfolding after_record cut_off at_eof
after_record-cut next [] closed c = refl
after_record-cut next [] broken c = refl
after_record-cut next (b ∷ bs) closed c = refl
after_record-cut next (b ∷ bs) broken c = refl

-- One turn of the generator, by what the connection still carries.
module _ (fuel : ℕ) (c : Connection) where
  long :
      (f : RawCanFrame) (rest : Bytes)
      → IsRecordable f
      → stream c ≡ layout f ++ rest
      → 19 ≤ length (stream c)
  long f rest r e =
      omega (arith, ap length e, length-append (layout f) rest, length-layout f r.valid r.timed)

  frames-record :
      (f : RawCanFrame) (rest : Bytes)
      → IsRecordable f
      → stream c ≡ layout f ++ rest
      → (c' : Connection) × (stream c' ≡ rest)
        × (ending c' ≡ ending c)
        × (frames (suc fuel) c ≡ (let (fs, end) = frames fuel c' in (f ∷ fs, end)))
  unfolding frames
  frames-record f rest r e =
      let read : (read_exact 19 true c).0 ≡ ok (layout f) =
        read_exact-expected 19 true c
        ∙ ap (λ s. expected true [] 19 s (ending c)) e
        ∙ expected-prefix true (layout f) rest 19 (ending c) (length-layout f r.valid r.timed) in
      let (left, same) = read_exact-rest 19 true c (long f rest r e) in
      (
        (read_exact 19 true c).1,
        left ∙ ap (drop 19) e ∙ drop_prefix (layout f) rest (length-layout f r.valid r.timed),
        same,
        ap (λ x. after_record (λ c''. frames fuel c'') x (read_exact 19 true c).1) read
            ∙ after_record-full (λ c''. frames fuel c'') (layout f) (read_exact 19 true c).1
                (length-layout f r.valid r.timed)
            ∙ ap (λ x. yield_frame (λ c''. frames fuel c'') x (read_exact 19 true c).1)
                (decode-record f r),
      )

  frames-end : length (stream c) < 19 → frames (suc fuel) c ≡ ([], outcome (stream c) (ending c))
  unfolding frames expected
  frames-end h =
      let short : leb 19 (length (stream c)) ≡ false = ground arith in
      let read : expected true [] 19 (stream c) (ending c) ≡ cut_off true (stream c) (ending c) =
        rw short refl in
      ap (λ x. after_record (λ c''. frames fuel c'') x (read_exact 19 true c).1)
        (read_exact-expected 19 true c ∙ read)
      ∙ after_record-cut (λ c''. frames fuel c'') (stream c) (ending c) (read_exact 19 true c).1

frames-records :
    (fs : List RawCanFrame) (fuel : ℕ) (c : Connection) (part : Bytes)
    → All IsRecordable fs
    → length part < 19
    → stream c ≡ records fs ++ part
    → length fs < fuel
    → frames fuel c ≡ (fs, outcome part (ending c))
frames-records fs zero c part v p e h = elim h [ ]
frames-records [] (suc fuel) c part v p e h =
    frames-end fuel c (subst (λ s. length s < 19) (sym e) p)
    ∙ ap (λ s. ([], outcome s (ending c))) e
frames-records (f ∷ fs) (suc fuel) c part v p e h =
    let (c', left, same, step) =
      frames-record fuel c f (records fs ++ part) v.0
        (e ∙ append_assoc (layout f) (records fs) part) in
    step
    ∙ ap (λ (x : Received). (f ∷ x.0, x.1))
        (frames-records fs fuel c' part v.1 p left (omega arith)
          ∙ ap (λ k. (fs, outcome part k)) same)

-- Whatever segments the stream arrives in: after the header the client yields the frames whose
-- records the stream holds, all of them and in order, and then ends by how the stream ends. A
-- close at a record boundary is the normal end; a close within a record is a protocol error and a
-- failing `recv` a connection error. One read more than there are frames is enough.
pub receive_all-records :
    (fs : List RawCanFrame) (part : Bytes) (fuel : ℕ) (c : Connection)
    → All IsRecordable fs
    → length part < 19
    → stream c ≡ header ++ (records fs ++ part)
    → length fs < fuel
    → receive_all fuel c ≡ (fs, outcome part (ending c))
unfolding receive_all open_client
receive_all-records fs part fuel c v p e h =
    let read : (read_exact 8 false c).0 ≡ ok header =
      read_exact-expected 8 false c
      ∙ ap (λ s. expected false [] 8 s (ending c)) e
      ∙ expected-prefix false header (records fs ++ part) 8 (ending c) refl in
    let (left, same) = read_exact-rest 8 false c (omega (arith, ap length e)) in
    ap (λ x. after_open fuel (x >>= decode_gateway_header) (read_exact 8 false c).1) read
    ∙ ap (λ x. after_open fuel x (read_exact 8 false c).1)
        ((decode_gateway_header_exact header).1 refl)
    ∙ frames-records fs fuel (read_exact 8 false c).1 part v p (left ∙ ap (drop 8) e) h
    ∙ ap (λ k. (fs, outcome part k)) same

-- ===== src/Can/Codec/Roundtrip.antt =====
-- can/record_codec.py: encoding and decoding are inverse to one another.
use tuner_os.Prelude.{
  ℕ, ◌+◌, ◌-◌, ◌^◌, ◌≤◌, ◌<◌, ◌≡◌, ap, ◌∙◌, [], ◌++◌, arith, length, length-append,
  length-replicate, take, drop, replicate, take-append, drop-append, drop-add, length-take,
  length-drop, take-add, take-All, drop-All, ap₂, subst, ok, err, struct_error, leb, true, sym,
  ◌>>=◌,
}
use tuner_os.Prelude.Values.{Bytes}
use tuner_os.Prelude.Struct.{
  to_be, of_be, length-to_be, of_be-to_be, to_be-of_be, of_be-lt, IsBytes,
}
use tuner_os.Can.Models.{RawCanFrame, IsRawCanFrame, raw_can_frame, raw_can_frame-eq_ok}
use tuner_os.Can.Codec.{
  encode_raw_can_record, decode_raw_can_record, ljust8, timestamp_field, arbitration_id_field,
  dlc_field, payload_field,
}
use mathlib.Core.List.{append-nil, append_assoc}

pub take_prefix : {n : ℕ} (xs ys : Bytes) → length xs ≡ n → take n (xs ++ ys) ≡ xs
take_prefix xs ys h = subst (λ k. take k (xs ++ ys) ≡ xs) h (take-append xs ys)

pub drop_prefix : {n : ℕ} (xs ys : Bytes) → length xs ≡ n → drop n (xs ++ ys) ≡ ys
drop_prefix xs ys h = subst (λ k. drop k (xs ++ ys) ≡ ys) h (drop-append xs ys)

abbrev pub layout : RawCanFrame → Bytes
layout f =
    to_be 8 f.timestamp_microseconds
    ++ (to_be 2 f.arbitration_id ++ (to_be 1 (length f.payload) ++ ljust8 f.payload))

length-ljust8 : (p : Bytes) → length p ≤ 8 → length (ljust8 p) ≡ 8
length-ljust8 p h =
    omega (
      arith,
      length-append p (replicate (8 - length p) 0),
      length-replicate {A = ℕ} (8 - length p) 0,
    )

take_all : {n : ℕ} (xs : Bytes) → length xs ≡ n → take n xs ≡ xs
take_all {n} xs h = ap (take n) (sym (append-nil xs)) ∙ take_prefix xs [] h

-- The frame that a record of 19 bytes spells out.
abbrev pub fields : Bytes → RawCanFrame
fields d = record {
  arbitration_id = arbitration_id_field d;
  payload = take (dlc_field d) (payload_field d);
  timestamp_microseconds = timestamp_field d;
}

pub decode_lem :
    (d : Bytes)
    → length d ≡ 19
    → arbitration_id_field d ≤ 0x7FF
    → dlc_field d ≤ 8
    → decode_raw_can_record d ≡ ok (fields d)
unfolding decode_raw_can_record
decode_lem d l i k =
    let short : length (take (dlc_field d) (payload_field d)) ≤ 8 =
      omega (arith, length-take (dlc_field d) (payload_field d)) in
    ground (
      arith,
      raw_can_frame-eq_ok (arbitration_id_field d) (timestamp_field d)
          (take (dlc_field d) (payload_field d)),
    )

-- A timestamp of 64 bits and more has no record.
pub encode-late :
    (f : RawCanFrame)
    → leb (2 ^ 64) f.timestamp_microseconds ≡ true
    → encode_raw_can_record f ≡ err struct_error
unfolding encode_raw_can_record
encode-late f h = rw h

module _ (f : RawCanFrame) (v : IsRawCanFrame f) (h : f.timestamp_microseconds < 2 ^ 64) where
  pub encode-eq-layout : encode_raw_can_record f ≡ ok (layout f)
  unfolding encode_raw_can_record
  encode-eq-layout =
      rw (take_all (ljust8 f.payload) (length-ljust8 f.payload v.short)) (ground arith)

  pub length-layout : length (layout f) ≡ 19
  length-layout = omega (
    arith,
    length-append (to_be 8 f.timestamp_microseconds)
        (to_be 2 f.arbitration_id ++ (to_be 1 (length f.payload) ++ ljust8 f.payload)),
    length-append (to_be 2 f.arbitration_id) (to_be 1 (length f.payload) ++ ljust8 f.payload),
    length-append (to_be 1 (length f.payload)) (ljust8 f.payload),
    length-to_be 8 f.timestamp_microseconds,
    length-to_be 2 f.arbitration_id,
    length-to_be 1 (length f.payload),
    length-ljust8 f.payload v.short,
  )

  timestamp_of_layout : timestamp_field (layout f) ≡ f.timestamp_microseconds
  timestamp_of_layout =
      ap of_be (take_prefix (to_be 8 f.timestamp_microseconds) _ (length-to_be 8 _))
      ∙ of_be-to_be 8 f.timestamp_microseconds h

  after_timestamp :
      drop 8 (layout f)
      ≡ to_be 2 f.arbitration_id ++ (to_be 1 (length f.payload) ++ ljust8 f.payload)
  after_timestamp = drop_prefix (to_be 8 f.timestamp_microseconds) _ (length-to_be 8 _)

  id_of_layout : arbitration_id_field (layout f) ≡ f.arbitration_id
  id_of_layout =
      ap (λ r. of_be (take 2 r)) after_timestamp
      ∙ ap of_be (take_prefix (to_be 2 f.arbitration_id) _ (length-to_be 2 _))
      ∙ of_be-to_be 2 f.arbitration_id (omega (arith, v.standard_id))

  after_id : drop 10 (layout f) ≡ to_be 1 (length f.payload) ++ ljust8 f.payload
  after_id =
      drop-add 8 2 (layout f)
      ∙ ap (drop 2) after_timestamp
      ∙ drop_prefix (to_be 2 f.arbitration_id) _ (length-to_be 2 _)

  dlc_of_layout : dlc_field (layout f) ≡ length f.payload
  dlc_of_layout =
      ap (λ r. of_be (take 1 r)) after_id
      ∙ ap of_be (take_prefix (to_be 1 (length f.payload)) _ (length-to_be 1 _))
      ∙ of_be-to_be 1 (length f.payload) (omega (arith, v.short))

  payload_of_layout : payload_field (layout f) ≡ ljust8 f.payload
  payload_of_layout =
      drop-add 10 1 (layout f)
      ∙ ap (drop 1) after_id
      ∙ drop_prefix (to_be 1 (length f.payload)) _ (length-to_be 1 _)

  payload_bytes : take (dlc_field (layout f)) (payload_field (layout f)) ≡ f.payload
  payload_bytes = ap₂ take dlc_of_layout payload_of_layout ∙ take-append f.payload _

  fields_of_layout : fields (layout f) ≡ f
  fields_of_layout = λ i. record {
    arbitration_id = id_of_layout i;
    payload = payload_bytes i;
    timestamp_microseconds = timestamp_of_layout i;
  }

  pub decode-layout : decode_raw_can_record (layout f) ≡ ok f
  decode-layout =
      decode_lem (layout f) length-layout (omega (arith, id_of_layout, v.standard_id))
        (omega (arith, dlc_of_layout, v.short))
      ∙ ap ok fields_of_layout

  -- A valid frame whose timestamp fits 64 bits is read back from its record unchanged.
  pub decode-encode : (encode_raw_can_record f >>= decode_raw_can_record) ≡ ok f
  decode-encode = rw encode-eq-layout decode-layout

-- What a record that decodes looks like.
pub decode_inversion :
    (d : Bytes) (f : RawCanFrame)
    → decode_raw_can_record d ≡ ok f
    → (length d ≡ 19) × (arbitration_id_field d ≤ 0x7FF) × (dlc_field d ≤ 8) × (f ≡ fields d)
unfolding decode_raw_can_record raw_can_frame
decode_inversion d f h = ground arith

module _ (d : Bytes) (b : IsBytes d) (l : length d ≡ 19) where
  field_bytes : (n k : ℕ) → n + k ≤ 19 → to_be k (of_be (take k (drop n d))) ≡ take k (drop n d)
  field_bytes n k h =
      let e : length (take k (drop n d)) ≡ k =
        omega (arith, length-take k (drop n d), length-drop n d) in
      ap (λ w. to_be w (of_be (take k (drop n d)))) (sym e)
      ∙ to_be-of_be (take k (drop n d)) (take-All _ k (drop n d) (drop-All _ n d b))

  timestamp-lt : timestamp_field d < 2 ^ 64
  timestamp-lt =
      let e : length (take 8 d) ≡ 8 = omega (arith, length-take 8 d) in
      subst (λ n. timestamp_field d < 256 ^ n) e (of_be-lt (take 8 d) (take-All _ 8 d b))

  length-payload : dlc_field d ≤ 8 → length (take (dlc_field d) (payload_field d)) ≡ dlc_field d
  length-payload k = omega (arith, length-take (dlc_field d) (payload_field d), length-drop 11 d)

  pub fields-IsRawCanFrame :
      arbitration_id_field d ≤ 0x7FF → dlc_field d ≤ 8 → IsRawCanFrame (fields d)
  fields-IsRawCanFrame i k = record {
    standard_id = i;
    short = omega (arith, length-payload k);
    byte_values = take-All _ (dlc_field d) (payload_field d) (drop-All _ 11 d b);
  }

  head_bytes : take 11 d ≡ take 8 d ++ (take 2 (drop 8 d) ++ take 1 (drop 10 d))
  head_bytes = take-add 8 3 d ∙ ap (◌++◌ (take 8 d)) (take-add 2 1 (drop 8 d) ∙ rw (drop-add 8 2 d))

  layout-fields :
      dlc_field d ≤ 8
      → layout (fields d) ≡ take 11 d ++ ljust8 (take (dlc_field d) (payload_field d))
  layout-fields k =
      rw
        (
          field_bytes 0 8 (omega arith),
          field_bytes 8 2 (omega arith),
          length-payload k,
          field_bytes 10 1 (omega arith),
          head_bytes,
        )
        (simp append_assoc)

  -- A record of 19 bytes that decodes is written back byte for byte, with zeros after the payload.
  pub encode-decode :
      (f : RawCanFrame)
      → decode_raw_can_record d ≡ ok f
      → encode_raw_can_record f ≡ ok (take 11 d ++ ljust8 (take (dlc_field d) (payload_field d)))
  encode-decode f h =
      let (_, i, k, e) = decode_inversion d f h in
      rw e (
        encode-eq-layout (fields d) (fields-IsRawCanFrame i k) timestamp-lt
        ∙ ap ok (layout-fields k))

-- ===== src/Can/Gateway/Stream.antt =====
-- can/gateway.py, `_read_exact`: what it reads does not depend on how TCP cut the stream.
use mathlib.Core.List.{append-nil, append_assoc}
use tuner_os.Prelude.{
  ℕ, zero, suc, ◌+◌, ◌-◌, ◌≤◌, ◌<◌, ◌≡◌, refl, sym, ap, ap₂, ◌∙◌, Bool, true, false, [], ◌∷◌, ◌++◌,
  arith, length, length-append, length-take, take, drop, take-append-drop, ltb, leb, Result, ok,
  err, gateway_connection_error, gateway_protocol_error, if◌then◌else◌, take-append_add,
  drop-append_add, take_missing, length-drop,
}
use tuner_os.Prelude.Values.{Bytes}
use tuner_os.Can.Gateway.{chunk, failure, Connection, leave, at_eof, read_loop, read_exact}

-- The peer closes the connection, or it breaks.
pub data Ending : Type 0 where
  closed broken : Ending

-- The bytes that a connection carries before it ends.
abbrev pub stream : Connection → Bytes
stream [] = []
stream (failure ∷ c) = []
stream (chunk b bs ∷ c) = (b ∷ bs) ++ stream c

abbrev pub ending : Connection → Ending
ending [] = closed
ending (failure ∷ c) = broken
ending (chunk b bs ∷ c) = ending c

-- A close is clean where one is allowed and nothing was read; any other is a truncation.
unfoldable pub cut_off : Bool → Bytes → Ending → Result Bytes
cut_off true [] closed = ok []
cut_off true (b ∷ bs) closed = err gateway_protocol_error
cut_off false d closed = err gateway_protocol_error
cut_off allow d broken = err gateway_connection_error

at_eof-cut_off : (allow : Bool) (d : Bytes) → at_eof allow d ≡ cut_off allow d closed
unfolding at_eof cut_off
at_eof-cut_off true [] = refl
at_eof-cut_off true (b ∷ bs) = refl
at_eof-cut_off false d = refl

-- Reading `r` more bytes after `d`, by the bytes that are still to come and the ending.
unfoldable pub expected : Bool → Bytes → ℕ → Bytes → Ending → Result Bytes
expected allow d r s e = if leb r (length s) then ok (d ++ take r s) else cut_off allow (d ++ s) e

stream-leave : (bs : Bytes) (c : Connection) → stream (leave bs c) ≡ bs ++ stream c
unfolding leave
stream-leave [] c = refl
stream-leave (b ∷ bs) c = refl

ending-leave : (bs : Bytes) (c : Connection) → ending (leave bs c) ≡ ending c
unfolding leave
ending-leave [] c = refl
ending-leave (b ∷ bs) c = refl

-- Taking a part of the next segment first makes no difference.
expected-segment :
    (allow : Bool) (d cs : Bytes) (r : ℕ) (s : Bytes) (e : Ending)
    → expected allow (d ++ take r cs) (r - length cs) (drop r cs ++ s) e
      ≡ expected allow d r (cs ++ s) e
unfolding expected
expected-segment allow d cs r s e =
    let fits : leb (r - length cs) (length (drop r cs ++ s)) ≡ leb r (length (cs ++ s)) =
      ground (arith, length-append (drop r cs) s, length-drop r cs, length-append cs s) in
    let read : (d ++ take r cs) ++ take (r - length cs) (drop r cs ++ s) ≡ d ++ take r (cs ++ s) =
      simp append_assoc (rw (take_missing r cs s, take-append_add r cs s) refl) in
    let kept : (d ++ take r cs) ++ (drop r cs ++ s) ≡ d ++ (cs ++ s) = simp append_assoc (
      ap (λ x. d ++ x)
        (sym (append_assoc (take r cs) (drop r cs) s)
          ∙ ap (λ x. x ++ s) (take-append-drop r cs))) in
    rw (fits, read, kept) refl

enough : (r n : ℕ) → r ≤ n → leb r n ≡ true
enough r n h = ground arith

module _ (size : ℕ) (allow : Bool) where
  full-expected : (d s : Bytes) (e : Ending) → ok d ≡ expected allow d 0 s e
  unfolding expected
  full-expected d s e = rw (enough 0 (length s) (omega arith)) (ap ok (sym (append-nil d)))

  cut-expected :
      (d : Bytes) (r : ℕ) (e : Ending) → expected allow d (suc r) [] e ≡ cut_off allow d e
  unfolding expected
  cut-expected d r e =
      let short : leb (suc r) 0 ≡ false = ground arith in
      rw short (ap (λ x. cut_off allow x e) (append-nil d))

  segment_length :
      (r b : ℕ) (bs d : Bytes)
      → length d + suc r ≡ size
      → length (d ++ b ∷ take r bs) + (r - length bs) ≡ size
  segment_length r b bs d l = omega (arith, length-append d (b ∷ take r bs), length-take r bs)

  leave-long :
      (r : ℕ) (bs : Bytes) (c : Connection)
      → r ≤ length (bs ++ stream c)
      → r - length bs ≤ length (stream (leave (drop r bs) c))
  leave-long r bs c k = omega (
    arith,
    ap length (stream-leave (drop r bs) c),
    length-append (drop r bs) (stream c),
    length-append bs (stream c),
  )

  -- What the loop returns, by the bytes that are still to come.
  read_loop-expected :
      (fuel r : ℕ) (d : Bytes) (c : Connection)
      → length d + r ≡ size
      → r < fuel
      → (read_loop fuel size allow d c).0 ≡ expected allow d r (stream c) (ending c)
  unfolding read_loop cut_off
  read_loop-expected zero r d c l h = elim h [ ]
  read_loop-expected (suc fuel) zero d c l h =
      let done : ltb (length d) size ≡ false = ground arith in
      rw done (full-expected d (stream c) (ending c))
  read_loop-expected (suc fuel) (suc r) d [] l h =
      let more : ltb (length d) size ≡ true = ground arith in
      rw more (at_eof-cut_off allow d ∙ sym (cut-expected d r closed))
  read_loop-expected (suc fuel) (suc r) d (failure ∷ c) l h =
      let more : ltb (length d) size ≡ true = ground arith in
      rw more (sym (cut-expected d r broken))
  read_loop-expected (suc fuel) (suc r) d (chunk b bs ∷ c) l h =
      let more : ltb (length d) size ≡ true = ground arith in
      let asked : size - length d ≡ suc r = omega arith in
      let missing : suc r - suc (length bs) ≡ r - length bs = omega arith in
      rw (more, asked)
        (read_loop-expected fuel (r - length bs) (d ++ b ∷ take r bs) (leave (drop r bs) c)
            (segment_length r b bs d l) (omega arith)
          ∙ ap₂ (expected allow (d ++ b ∷ take r bs) (r - length bs)) (stream-leave (drop r bs) c)
              (ending-leave (drop r bs) c)
          ∙ ap (λ k. expected allow (d ++ b ∷ take r bs) k (drop r bs ++ stream c) (ending c))
              (sym missing)
          ∙ expected-segment allow d (b ∷ bs) (suc r) (stream c) (ending c))

  -- What stays in the connection once all that was asked for has been read.
  read_loop-rest :
      (fuel r : ℕ) (d : Bytes) (c : Connection)
      → length d + r ≡ size
      → r < fuel
      → r ≤ length (stream c)
      → (stream (read_loop fuel size allow d c).1 ≡ drop r (stream c))
        × (ending (read_loop fuel size allow d c).1 ≡ ending c)
  unfolding read_loop
  read_loop-rest zero r d c l h k = elim h [ ]
  read_loop-rest (suc fuel) zero d c l h k =
      let done : ltb (length d) size ≡ false = ground arith in rw done (refl, refl)
  read_loop-rest (suc fuel) (suc r) d [] l h k = elim k [ ]
  read_loop-rest (suc fuel) (suc r) d (failure ∷ c) l h k = elim k [ ]
  read_loop-rest (suc fuel) (suc r) d (chunk b bs ∷ c) l h k =
      let more : ltb (length d) size ≡ true = ground arith in
      let asked : size - length d ≡ suc r = omega arith in
      let (left, same) =
        read_loop-rest fuel (r - length bs) (d ++ b ∷ take r bs) (leave (drop r bs) c)
          (segment_length r b bs d l) (omega arith) (leave-long r bs c (omega arith)) in
      rw (more, asked)
        (
          left
              ∙ ap (drop (r - length bs)) (stream-leave (drop r bs) c)
              ∙ sym (drop-append_add r bs (stream c)),
          same ∙ ending-leave (drop r bs) c,
        )

-- All that was asked for, if it is there; else what an early close or a failure means.
pub read_exact-expected :
    (size : ℕ) (allow : Bool) (c : Connection)
    → (read_exact size allow c).0 ≡ expected allow [] size (stream c) (ending c)
unfolding read_exact
read_exact-expected size allow c =
    read_loop-expected size allow (suc size) size [] c (omega arith) (omega arith)

pub read_exact-rest :
    (size : ℕ) (allow : Bool) (c : Connection)
    → size ≤ length (stream c)
    → (stream (read_exact size allow c).1 ≡ drop size (stream c))
      × (ending (read_exact size allow c).1 ≡ ending c)
unfolding read_exact
read_exact-rest size allow c =
    read_loop-rest size allow (suc size) size [] c (omega arith) (omega arith)

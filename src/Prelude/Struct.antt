-- ===== src/Prelude/Struct.antt =====
-- Python's `struct` in network order: a number as `w` bytes, most significant first.
use Prim.Native.Nat.{ℕ, zero, suc, ◌+◌, ◌*◌, ◌/◌, ◌%◌, ◌^◌, ◌<◌}
use native.Mathlib.Nat.{pow-suc}
use mathlib.Core.Path.{◌≡◌, ap, ap₂, subst, ◌∙◌}
use mathlib.Core.List.{[], ◌∷◌, ◌++◌, append-nil}
use native.Mathlib.Omega.{arith}
use tuner_os.Prelude.Lists.{length, All}
use tuner_os.Prelude.Values.{Bytes}

abbrev pub IsBytes : Bytes → Type 0
IsBytes = All (λ b. b < 256)

to_be_into : ℕ → ℕ → Bytes → Bytes
to_be_into zero n rest = rest
to_be_into (suc w) n rest = to_be_into w (n / 256) (n % 256 ∷ rest)

of_be_from : ℕ → Bytes → ℕ
of_be_from acc [] = acc
of_be_from acc (b ∷ bs) = of_be_from (acc * 256 + b) bs

unfoldable pub to_be : ℕ → ℕ → Bytes
unfolding to_be_into
to_be w n = to_be_into w n []

unfoldable pub of_be : Bytes → ℕ
unfolding of_be_from
of_be bs = of_be_from 0 bs

length-to_be_into : (w n : ℕ) (rest : Bytes) → length (to_be_into w n rest) ≡ w + length rest
unfolding to_be_into
length-to_be_into zero n rest = omega arith
length-to_be_into (suc w) n rest = omega (arith, length-to_be_into w (n / 256) (n % 256 ∷ rest))

pub length-to_be : (w n : ℕ) → length (to_be w n) ≡ w
unfolding to_be
length-to_be w n = omega (arith, length-to_be_into w n [])

to_be_into-IsBytes : (w n : ℕ) (rest : Bytes) → IsBytes rest → IsBytes (to_be_into w n rest)
unfolding to_be_into
to_be_into-IsBytes zero n rest h = h
to_be_into-IsBytes (suc w) n rest h =
    to_be_into-IsBytes w (n / 256) (n % 256 ∷ rest) (omega arith, h)

pub to_be-IsBytes : (w n : ℕ) → IsBytes (to_be w n)
unfolding to_be
to_be-IsBytes w n = to_be_into-IsBytes w n [] tt

of_be_from-to_be_into :
    (w n : ℕ) (rest : Bytes) → n < 256 ^ w → of_be_from 0 (to_be_into w n rest) ≡ of_be_from n rest
unfolding to_be_into of_be_from
of_be_from-to_be_into zero n rest h = ap (λ k. of_be_from k rest) (omega arith)
of_be_from-to_be_into (suc w) n rest h =
    of_be_from-to_be_into w (n / 256) (n % 256 ∷ rest) (omega (arith, pow-suc 256 w))
    ∙ ap (λ k. of_be_from k rest) (omega arith)

-- A number that fits its field is read back.
pub of_be-to_be : (w n : ℕ) → n < 256 ^ w → of_be (to_be w n) ≡ n
unfolding to_be of_be
of_be-to_be w n h = of_be_from-to_be_into w n [] h

to_be_into-of_be_from :
    (w acc : ℕ) (bs rest : Bytes)
    → IsBytes bs
    → to_be_into (length bs + w) (of_be_from acc bs) rest ≡ to_be_into w acc (bs ++ rest)
unfolding to_be_into of_be_from
to_be_into-of_be_from w acc [] rest h =
    let e : 0 + w ≡ w = omega arith in ap (λ k. to_be_into k acc rest) e
to_be_into-of_be_from w acc (b ∷ bs) rest h =
    let e : suc (length bs) + w ≡ length bs + suc w = omega arith in
    let q : (acc * 256 + b) / 256 ≡ acc = omega arith in
    let r : (acc * 256 + b) % 256 ≡ b = omega arith in
    ap (λ k. to_be_into k (of_be_from (acc * 256 + b) bs) rest) e
    ∙ to_be_into-of_be_from (suc w) (acc * 256 + b) bs rest h.1
    ∙ ap₂ (λ q r. to_be_into w q (r ∷ bs ++ rest)) q r

-- Bytes are written back.
pub to_be-of_be : (bs : Bytes) → IsBytes bs → to_be (length bs) (of_be bs) ≡ bs
unfolding to_be of_be
to_be-of_be bs h =
    let e : length bs ≡ length bs + 0 = omega arith in
    ap (λ k. to_be_into k (of_be_from 0 bs) []) e
    ∙ to_be_into-of_be_from 0 0 bs [] h
    ∙ append-nil bs

of_be_from-lt :
    (acc w : ℕ) (bs : Bytes)
    → IsBytes bs
    → acc < 256 ^ w
    → of_be_from acc bs < 256 ^ (length bs + w)
unfolding of_be_from
of_be_from-lt acc w [] h k = subst (λ n. acc < 256 ^ n) (omega arith) k
of_be_from-lt acc w (b ∷ bs) h k =
    subst (λ n. of_be_from (acc * 256 + b) bs < 256 ^ n) (omega arith)
      (of_be_from-lt (acc * 256 + b) (suc w) bs h.1 (omega (arith, pow-suc 256 w)))

pub of_be-lt : (bs : Bytes) → IsBytes bs → of_be bs < 256 ^ length bs
unfolding of_be
of_be-lt bs h =
    subst (λ n. of_be_from 0 bs < 256 ^ n) (omega arith) (of_be_from-lt 0 0 bs h (omega arith))

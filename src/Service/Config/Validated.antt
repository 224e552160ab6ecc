-- ===== src/Service/Config/Validated.antt =====
-- telemetry/service.py: the integers that `_validate_positive_integer` lets through.
use tuner_os.Prelude.{
  ℕ, zero, suc, ◌≤◌, ◌<◌, ◌≡◌, refl, Option, none, some, arith, Result, ok, err, type_error,
  value_error, ltb, pos, negsuc, Bool-cases, inl, inr, le_of_ltb, lt_of_ltb,
}
use tuner_os.Prelude.Values.{Value, int, expect_int}
use tuner_os.Service.Config.{validate_positive_integer, in_bounds, exceeds}

-- n <= maximum, if there is one
abbrev pub Within : ℕ → Option ℕ → Type 0
Within n none = Unit
Within n (some most) = n ≤ most

-- How the validation of a value ends.
pub data IsVerdict (most : Option ℕ) : Value → Result ℕ → Type 0 where
  accepted : (n : ℕ) → 0 < n → Within n most → IsVerdict most (int (pos n)) (ok n)
  too_small : IsVerdict most (int (pos 0)) (err value_error)
  negative : (n : ℕ) → IsVerdict most (int (negsuc n)) (err value_error)
  too_large :
      (n bound : ℕ) → most ≡ some bound → bound < n → IsVerdict most (int (pos n)) (err value_error)
  no_integer : (v : Value) → expect_int v ≡ err type_error → IsVerdict most v (err type_error)

bounded :
    (n : ℕ) (most : Option ℕ) → IsVerdict most (int (pos (suc n))) (in_bounds most (pos (suc n)))
unfolding in_bounds exceeds
bounded n none = IsVerdict.accepted (suc n) (omega arith) tt
bounded n (some most) = elim (Bool-cases (ltb most (suc n))) [
  | inl over ↦ rw over (IsVerdict.too_large (suc n) most refl (lt_of_ltb most (suc n) over))
  | inr fits ↦ rw fits (IsVerdict.accepted (suc n) (omega arith) (le_of_ltb most (suc n) fits))
]

-- The validation accepts exactly the integers from 1 to the maximum, if there is one; it raises
-- `ValueError` for every other integer, and `TypeError` for what is no integer, a Boolean included.
pub validate_positive_integer-IsVerdict :
    (value : Value) (most : Option ℕ) → IsVerdict most value (validate_positive_integer value most)
unfolding validate_positive_integer in_bounds
validate_positive_integer-IsVerdict (int (pos (zero))) most = IsVerdict.too_small
validate_positive_integer-IsVerdict (int (pos (suc n))) most = bounded n most
validate_positive_integer-IsVerdict (int (negsuc n)) most = IsVerdict.negative n
validate_positive_integer-IsVerdict Value.null most = IsVerdict.no_integer Value.null refl
validate_positive_integer-IsVerdict (Value.bool b) most = IsVerdict.no_integer (Value.bool b) refl
validate_positive_integer-IsVerdict (Value.str s) most = IsVerdict.no_integer (Value.str s) refl
validate_positive_integer-IsVerdict (Value.bytes b) most = IsVerdict.no_integer (Value.bytes b) refl
validate_positive_integer-IsVerdict Value.other most = IsVerdict.no_integer Value.other refl

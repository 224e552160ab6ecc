-- ===== src/Prelude/Values.antt =====
-- The values of a dynamic language, as far as the backend's runtime type checks tell them apart.
use Prim.Native.Nat.{ℕ}
use Prim.Native.String.{String}
use mathlib.Core.Bool.{Bool}
use mathlib.Core.List.{List, [], ◌∷◌}
use Prim.Native.Char.{code}
use tuner_os.Prelude.Int.{ℤ}
use tuner_os.Prelude.Outcome.{Result, ok, err, type_error}

abbrev pub Bytes : Type 0
Bytes = List ℕ

-- `other` is any value of a further type: a float, a list, a dict, an object.
pub data Value : Type 0 where
  null : Value
  bool : Bool → Value
  int : ℤ → Value
  str : String → Value
  bytes : Bytes → Value
  other : Value

-- isinstance(value, bool) or not isinstance(value, int): raise TypeError
abbrev pub expect_int : Value → Result ℤ
expect_int (int n) = ok n
expect_int _ = err type_error

-- not isinstance(value, bytes): raise TypeError
abbrev pub expect_bytes : Value → Result Bytes
expect_bytes (bytes b) = ok b
expect_bytes _ = err type_error

-- The code points of a text.
abbrev pub codes : String → List ℕ
codes String.[] = []
codes (String.◌∷◌ c s) = code c ∷ codes s

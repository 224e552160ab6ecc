-- ===== src/Investigation/Summary.antt =====
-- investigation/service.py: `_summarize`, and the comparison of two summaries.
use tuner_os.Prelude.{
  ℕ, Bool, true, false, Option, none, some, List, [], ◌∷◌, Result, ok, err, type_error, value_error,
  ◌>>=◌, if◌then◌else◌, length, all, map, any, head?, get_last?, pos,
}
use tuner_os.Can.Models.{SignalValue, float, integer, boolean, object}
use tuner_os.Telemetry.Models.{SignalSample}
use tuner_os.Diagnostics.Rules.{FloatOps}
use tuner_os.Investigation.Models.{
  InvestigationSignalSeries, InvestigationSignalSummary, SignalComparison, ValueType, numeric,
  unobserved,
}

-- The built-in `sum` of floats, and the quotient of a float and a length.
pub record MeanOps (F : Type 0) : Type 0 where
  pub sum : List F → F
  pub over : F → ℕ → F

module _ {F : Type 0} where
  -- type(value) is bool
  abbrev pub is_boolean : SignalValue F → Bool
  is_boolean (boolean b) = true
  is_boolean _ = false

  abbrev same_boolean : SignalValue F → SignalValue F → Bool
  same_boolean (boolean true) (boolean true) = true
  same_boolean (boolean false) (boolean false) = true
  same_boolean _ _ = false

  -- tuple(dict.fromkeys(values)), for Boolean values: each where it first occurs.
  unfoldable pub distinct : List (SignalValue F) → List (SignalValue F) → List (SignalValue F)
  distinct seen [] = []
  distinct seen (v ∷ vs) =
      let rest = distinct (v ∷ seen) vs in if any (same_boolean v) seen then rest else v ∷ rest

module _ {F : Type 0} ⦃ops : FloatOps F⦄ where
  -- float(value)
  unfoldable pub float_of : SignalValue F → Result F
  float_of (float x) = ok x
  float_of (integer n) = ok (ops.of_int n)
  float_of (boolean true) = ok (ops.of_int (pos 1))
  float_of (boolean false) = ok (ops.of_int (pos 0))
  float_of object = err type_error

  unfoldable pub floats_of : List (SignalValue F) → Result (List F)
  unfolding float_of
  floats_of [] = ok []
  floats_of (v ∷ vs) = do x ← float_of v; xs ← floats_of vs; ok (x ∷ xs)

  -- min(xs) and max(xs): the first of the least, or of the greatest.
  unfoldable pub least : F → List F → F
  least m [] = m
  least m (x ∷ xs) = least (if ops.less x m then x else m) xs

  unfoldable pub greatest : F → List F → F
  greatest m [] = m
  greatest m (x ∷ xs) = greatest (if ops.less m x then x else m) xs

module _ {F : Type 0} ⦃ops : FloatOps F⦄ ⦃means : MeanOps F⦄ where
  unfoldable pub numeric_summary :
      InvestigationSignalSeries F
      → List (SignalValue F)
      → List F
      → Result (InvestigationSignalSummary F)
  unfolding least greatest
  numeric_summary series values [] = err value_error
  numeric_summary series values (x ∷ xs) = ok (record {
    key = series.definition.key;
    value_type = numeric;
    observation_count = length (x ∷ xs);
    first = head? values;
    last = get_last? values;
    minimum = some (least x xs);
    maximum = some (greatest x xs);
    mean = some (means.over (means.sum (x ∷ xs)) (length (x ∷ xs)));
    distinct_values = [];
  })

  unfoldable pub summarize_values :
      InvestigationSignalSeries F → List (SignalValue F) → Result (InvestigationSignalSummary F)
  unfolding numeric_summary floats_of distinct
  summarize_values series [] = ok (record {
    key = series.definition.key;
    value_type = unobserved;
    observation_count = 0;
    first = none;
    last = none;
    minimum = none;
    maximum = none;
    mean = none;
    distinct_values = [];
  })
  summarize_values series (v ∷ vs) =
      if all is_boolean (v ∷ vs)
      then ok (record {
        key = series.definition.key;
        value_type = ValueType.boolean;
        observation_count = length (v ∷ vs);
        first = some v;
        last = get_last? (v ∷ vs);
        minimum = none;
        maximum = none;
        mean = none;
        distinct_values = distinct [] (v ∷ vs);
      })
      else floats_of (v ∷ vs) >>= numeric_summary series (v ∷ vs)

  unfoldable pub summarize : InvestigationSignalSeries F → Result (InvestigationSignalSummary F)
  unfolding summarize_values
  summarize series = summarize_values series (map (λ (s : SignalSample F). s.value) series.samples)

  unfoldable pub summarize_all :
      List (InvestigationSignalSeries F) → Result (List (InvestigationSignalSummary F))
  summarize_all [] = ok []
  summarize_all (s ∷ rest) = do x ← summarize s; xs ← summarize_all rest; ok (x ∷ xs)

  -- None if either mean is None else the first mean - the second
  unfoldable pub mean_difference : Option F → Option F → Option F
  mean_difference (some x) (some y) = some (ops.minus x y)
  mean_difference (some x) none = none
  mean_difference none y = none

  -- zip(primary.signal_summaries, baseline.signal_summaries, strict=True)
  unfoldable pub compare_summaries :
      List (InvestigationSignalSummary F)
      → List (InvestigationSignalSummary F)
      → Result (List (SignalComparison F))
  unfolding mean_difference
  compare_summaries [] [] = ok []
  compare_summaries [] (b ∷ bs) = err value_error
  compare_summaries (p ∷ ps) [] = err value_error
  compare_summaries (p ∷ ps) (b ∷ bs) = do
    rest ← compare_summaries ps bs
    ok (
        record {
          key = p.key;
          primary = p;
          baseline = b;
          mean_difference = mean_difference p.mean b.mean;
        }
        ∷ rest)

-- ===== src/Investigation/Service/Comparison.antt =====
-- investigation/service.py: what a comparison that returns has compared.
use tuner_os.Prelude.{ℕ, String, none, ◌≡◌, true, Option, some, List, [], ◌∷◌, ok}
use tuner_os.Prelude.Values.{Value, int}
use tuner_os.Prelude.{pos}
use tuner_os.Diagnostics.Rules.{FloatOps}
use tuner_os.Session.Models.{SessionManifest}
use tuner_os.Session.Catalog.{SessionReader, reader}
use tuner_os.Investigation.Models.{
  InvestigationSignalSummary, InvestigationComparison, SignalComparison,
}
use tuner_os.Investigation.Window.{clamp_center}
use tuner_os.Investigation.Summary.{MeanOps, mean_difference}
use tuner_os.Investigation.Service.{InvestigationService, Query, investigate, baseline_center}

-- The same DBC, the same network and the same vehicle.
pub record IsCompatible (primary baseline : SessionManifest) : Type 0 where
  pub dbc_sha256 : primary.dbc_sha256 ≡ baseline.dbc_sha256
  pub can_network : primary.can_network ≡ baseline.can_network
  pub vehicle_profile_id : primary.vehicle_profile_id ≡ baseline.vehicle_profile_id

module _ {F : Type 0} ⦃ops : FloatOps F⦄ ⦃means : MeanOps F⦄ where
  -- The first mean less the second, where there are both, and else none.
  abbrev pub IsDifference : Option F → Option F → Option F → Type 0
  IsDifference (some x) (some y) d = d ≡ some (ops.minus x y)
  IsDifference (some x) none d = d ≡ none
  IsDifference none y d = d ≡ none

  -- Each comparison is of the two summaries at its place, which are of its signal.
  abbrev pub IsZip :
      List (SignalComparison F)
      → List (InvestigationSignalSummary F)
      → List (InvestigationSignalSummary F)
      → Type 0
  IsZip [] [] [] = Unit
  IsZip (c ∷ cs) (p ∷ ps) (b ∷ bs) =
      ((c.primary ≡ p)
        × (c.baseline ≡ b)
        × (c.key ≡ p.key)
        × (c.key ≡ b.key)
        × IsDifference p.mean b.mean c.mean_difference)
      × IsZip cs ps bs
  IsZip _ _ _ = ⊥

  pub record IsComparisonOf (i : InvestigationService F) (primary_id baseline_id : String)
      (center requested : Option Value) (q : Query) (c : InvestigationComparison F) : Type 0 where
    pub primary_reader : SessionReader
    pub baseline_reader : SessionReader
    pub baseline_at : ℕ
    pub is_primary : reader i.sessions primary_id true ≡ ok primary_reader
    pub is_baseline : reader i.sessions baseline_id true ≡ ok baseline_reader
    pub compatible : IsCompatible primary_reader.manifest baseline_reader.manifest
    pub primary_result : investigate i primary_id center q ≡ ok c.primary
    pub clamped :
        clamp_center baseline_reader.manifest
          (baseline_center requested c.primary.window.center_timestamp_microseconds)
        ≡ ok baseline_at
    pub baseline_result :
        investigate i baseline_id
          (some (int (pos baseline_at)))
          (record q { selected_signals = some c.primary.selected_signals })
        ≡ ok c.baseline
    pub summaries :
        IsZip c.signal_comparisons c.primary.signal_summaries c.baseline.signal_summaries
    pub selected : c.baseline.selected_signals ≡ c.primary.selected_signals

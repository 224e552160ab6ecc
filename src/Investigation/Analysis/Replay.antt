-- ===== src/Investigation/Analysis/Replay.antt =====
-- investigation/service.py and session/replay.py: a query puts frames through the same objects as a
-- replay.
use tuner_os.Prelude.{◌≡◌, refl, ap, ◌∙◌, List, [], ◌∷◌, Result, ok, err, ◌>>=◌}
use tuner_os.Prelude.{none, >>=-eq-ok, ok_injective, Result-cases, inl, inr}
use tuner_os.Can.Models.{RawCanFrame}
use tuner_os.Can.Decoder.{decode}
use tuner_os.Can.Explorer.{ingest as explorer_ingest}
use tuner_os.Telemetry.Engine.{ingest as engine_ingest, snapshot}
use tuner_os.Diagnostics.Rules.{FloatOps}
use tuner_os.Diagnostics.Engine.{ingest as diagnostics_ingest}
use tuner_os.Session.Replay.{Replayed, replay_raw, replay_all}
use tuner_os.Investigation.Models.{InvestigationWindow}
use tuner_os.Investigation.Analysis.{Pipeline, Observation, observe, Analysis, analyse}
use tuner_os.Investigation.Analysis.Outcome.{not_after, analyse-Analysed}
use tuner_os.Investigation.Analysis.Gathering.{observe_all}

-- Two chains that begin alike, the first of which goes on as the second does and then `last`.
alike {ℓ κ μ} :
    {A : Type ℓ} {B : Type κ} {C : Type μ} (m : Result A) (whole : A → Result C)
    (first : A → Result B) (last : B → Result C)
    → ((a : A) → whole a ≡ (first a >>= last))
    → (m >>= whole) ≡ ((m >>= first) >>= last)
alike (err e) whole first last h = refl
alike (ok a) whole first last h = h a

module _ {F : Type 0} where
  abbrev pub replayed : Pipeline F → Replayed F
  replayed p = record { explorer = p.explorer; engine = p.engine; diagnostics = p.diagnostics }

  -- What a query leaves of its observations, when only the objects are kept.
  abbrev pub forget : List (Observation F) × Pipeline F → Result (Replayed F)
  forget r = ok (replayed r.1)

module _ {F : Type 0} ⦃ops : FloatOps F⦄ where
  replay_raw-observe :
      (p : Pipeline F) (f : RawCanFrame)
      → replay_raw p.decoder f (replayed p)
        ≡ (observe p f >>= λ (r : Observation F × Pipeline F). ok (replayed r.1))
  unfolding replay_raw observe
  replay_raw-observe p f = alike (explorer_ingest p.explorer f).0 _ _ _ λ a.
      alike (decode p.decoder f) _ _ _ λ d. alike (engine_ingest p.engine d).0 _ _ _ λ s.
        alike (snapshot (engine_ingest p.engine d).1 none) _ _ _
          λ x. alike (diagnostics_ingest x p.diagnostics).0 _ _ _ λ e. refl

  observe-decoder :
      (p p' : Pipeline F) (f : RawCanFrame) (o : Observation F)
      → observe p f ≡ ok (o, p')
      → p.decoder ≡ p'.decoder
  unfolding observe
  observe-decoder p p' f o h =
      let (a, is_a, h1) = >>=-eq-ok (explorer_ingest p.explorer f).0 _ h in
      let (d, is_d, h2) = >>=-eq-ok (decode p.decoder f) _ h1 in
      let (s, is_s, h3) = >>=-eq-ok (engine_ingest p.engine d).0 _ h2 in
      let (x, is_x, h4) = >>=-eq-ok (snapshot (engine_ingest p.engine d).1 none) _ h3 in
      let (e, is_e, h5) = >>=-eq-ok (diagnostics_ingest x p.diagnostics).0 _ h4 in
      ap (λ (r : Observation F × Pipeline F). r.1.decoder) (ok_injective h5)

  forget_later :
      (o : Observation F) (later : Result (List (Observation F) × Pipeline F))
      → (later >>= forget)
        ≡ ((later >>= λ (r : List (Observation F) × Pipeline F). ok (o ∷ r.0, r.1)) >>= forget)
  forget_later o (err e) = refl
  forget_later o (ok r) = refl

  replay_all-observe_all :
      (fs : List RawCanFrame) (p : Pipeline F)
      → replay_all p.decoder fs (replayed p) ≡ (observe_all fs p >>= forget)
  unfolding replay_all observe_all
  replay_all-observe_all [] p = refl
  replay_all-observe_all (f ∷ rest) p =
      ap (λ r. r >>= replay_all p.decoder rest) (replay_raw-observe p f)
      ∙ elim (Result-cases (observe p f)) [
        | inr (e, h) ↦ rw h refl
        | inl ((o, p'), h) ↦ rw h (
            ap (λ d. replay_all d rest (replayed p')) (observe-decoder p p' f o h)
            ∙ replay_all-observe_all rest p'
            ∙ forget_later o (observe_all rest p'))
      ]

  -- When the loop of a query returns, its explorer, engine and diagnostics are those that a replay,
  -- from the same objects, of just the frames up to the end of the window returns: what a query
  -- selects and collects does not change what it sees.
  pub replay_all-analyse :
      (w : InvestigationWindow) (fs : List RawCanFrame) (a c : Analysis F)
      → analyse w fs a ≡ ok c
      → replay_all a.pipeline.decoder (not_after w fs) (replayed a.pipeline)
        ≡ ok (replayed c.pipeline)
  replay_all-analyse w fs a c h =
      replay_all-observe_all (not_after w fs) a.pipeline
      ∙ ap (λ r. r >>= forget) (analyse-Analysed w fs a h).observed

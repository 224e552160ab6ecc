-- ===== src/Prelude/Dict.antt =====
-- Python's `dict`, which keeps the order in which its keys were first inserted.
use mathlib.Core.Path.{◌≡◌, refl, sym, ap₂, subst}
use mathlib.Core.Logic.{inl, inr}
use mathlib.Core.Bool.{false}
use mathlib.Core.List.{List, [], ◌∷◌, ◌++◌}
use mathlib.Core.Option.{Option, none, some}
use native.Mathlib.Omega.{arith}
use tuner_os.Prelude.Compare.{
  Eq, ◌==◌, if◌then◌else◌, beq_refl, Bool-cases, some-ne-none, some_injective,
}
use tuner_os.Prelude.Lists.{All}

abbrev pub Dict {ℓ κ} : Type ℓ → Type κ → Type (ℓ ⊔ κ)
Dict K V = List (K × V)

module _ {ℓ κ} {K : Type ℓ} {V : Type κ} ⦃e : Eq K⦄ where
  -- d.get(k)
  unfoldable pub get : Dict K V → K → Option V
  get [] k = none
  get ((j, v) ∷ d) k = if j == k then some v else get d k

  -- d[k] = v
  unfoldable pub put : Dict K V → K → V → Dict K V
  put [] k v = (k, v) ∷ []
  put ((j, w) ∷ d) k v = if j == k then (j, v) ∷ d else (j, w) ∷ put d k v

  pub get-put :
      (d : Dict K V) (k j : K) (v : V) → get (put d k v) j ≡ (if k == j then some v else get d j)
  unfolding get put
  get-put [] k j v = refl
  get-put ((i, w) ∷ d) k j v =
      ground (arith, e.beq_iff k j, e.beq_iff i k, e.beq_iff i j, get-put d k j v)

  pub get-put_self : (d : Dict K V) (k : K) (v : V) → get (put d k v) k ≡ some v
  get-put_self d k v = ground (arith, get-put d k k v, beq_refl k)

  pub put_absent : (d : Dict K V) (k : K) (v : V) → get d k ≡ none → put d k v ≡ d ++ (k, v) ∷ []
  unfolding get put
  put_absent [] k v h = refl
  put_absent ((j, w) ∷ d) k v h = ground (arith, put_absent d k v)

  pub get-snoc_none :
      (d : Dict K V) (k j : K) (v : V)
      → get d k ≡ none
      → (k == j) ≡ false
      → get (d ++ (j, v) ∷ []) k ≡ none
  unfolding get
  get-snoc_none [] k j v h n = ground (arith, e.beq_iff k j, e.beq_iff j k)
  get-snoc_none ((i, w) ∷ d) k j v h n = ground (arith, get-snoc_none d k j v)

module _ {ℓ κ μ} {K : Type ℓ} {V : Type κ} ⦃e : Eq K⦄ (P : K × V → Type μ) where
  pub All-put : (d : Dict K V) (k : K) (v : V) → All P d → P (k, v) → All P (put d k v)
  unfolding put
  All-put [] k v h p = (p, tt)
  All-put ((j, w) ∷ d) k v h p = elim (Bool-cases (j == k)) [
    | inl hit ↦ rw hit (subst (λ x. P (x, v)) (sym ((e.beq_iff j k).0 hit)) p, h.1)
    | inr miss ↦ rw miss (h.0, All-put d k v h.1 p)
  ]

  pub All-get : (d : Dict K V) (k : K) (v : V) → All P d → get d k ≡ some v → P (k, v)
  unfolding get
  All-get [] k v h g = absurd (some-ne-none g)
  All-get ((j, w) ∷ d) k v h g = elim (Bool-cases (j == k)) [
    | inl hit ↦
        subst P (ap₂ (λ x y. (x, y)) ((e.beq_iff j k).0 hit) (some_injective (rw hit at g))) h.0
    | inr miss ↦ All-get d k v h.1 (rw miss at g)
  ]

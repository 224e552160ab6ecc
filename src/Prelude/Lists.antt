-- ===== src/Prelude/Lists.antt =====
-- Lists measured by native numbers, and the end of a list: a slice `xs[-n:]`, and a bounded deque.
use Prim.Native.Nat.{ℕ, zero, suc, ◌+◌, ◌-◌, ◌≤◌, ◌<◌, min}
use mathlib.Core.Path.{◌≡◌, refl, ap, sym}
use mathlib.Core.Bool.{Bool, true, false, ◌&&◌, ◌||◌}
use mathlib.Core.List.{List, [], ◌∷◌, ◌++◌}
use mathlib.Core.Option.{Option, none, some}
use native.Mathlib.Omega.{arith}
use tuner_os.Prelude.Compare.{ltb, if◌then◌else◌, Bool-cases, lt_of_ltb, ltb_of_lt, le_of_ltb}
use mathlib.Core.Logic.{inl, inr}

module _ {ℓ} {A : Type ℓ} where
  abbrev pub length : List A → ℕ
  length [] = 0
  length (x ∷ xs) = suc (length xs)

  pub length-append : (xs ys : List A) → length (xs ++ ys) ≡ length xs + length ys
  length-append [] ys = omega arith
  length-append (x ∷ xs) ys = omega (arith, length-append xs ys)

  abbrev pub take : ℕ → List A → List A
  take zero xs = []
  take (suc n) [] = []
  take (suc n) (x ∷ xs) = x ∷ take n xs

  abbrev pub drop : ℕ → List A → List A
  drop zero xs = xs
  drop (suc n) [] = []
  drop (suc n) (x ∷ xs) = drop n xs

  abbrev pub replicate : ℕ → A → List A
  replicate zero a = []
  replicate (suc n) a = a ∷ replicate n a

  abbrev pub get_last? : List A → Option A
  get_last? [] = none
  get_last? (x ∷ []) = some x
  get_last? (x ∷ y ∷ xs) = get_last? (y ∷ xs)

  abbrev pub head? : List A → Option A
  head? [] = none
  head? (x ∷ xs) = some x

  -- any(test(x) for x in xs), all(test(x) for x in xs), [x for x in xs if test(x)]
  abbrev pub any : (A → Bool) → List A → Bool
  any p [] = false
  any p (x ∷ xs) = p x || any p xs

  abbrev pub all : (A → Bool) → List A → Bool
  all p [] = true
  all p (x ∷ xs) = p x && all p xs

  abbrev pub filter : (A → Bool) → List A → List A
  filter p [] = []
  filter p (x ∷ xs) = let rest = filter p xs in if p x then x ∷ rest else rest

  abbrev pub find? : (A → Bool) → List A → Option A
  find? p [] = none
  find? p (x ∷ xs) = let rest = find? p xs in if p x then some x else rest

  abbrev pub All {κ} : (A → Type κ) → List A → Type κ
  All Q [] = Unit
  All Q (a ∷ rest) = Q a × All Q rest

module _ {ℓ} {A : Type ℓ} where
  -- The last `n` elements: `xs[-n:]` for a positive `n`.
  abbrev pub keep_last : ℕ → List A → List A
  keep_last n [] = []
  keep_last n (x ∷ xs) =
      let rest = keep_last n xs in if ltb n (suc (length xs)) then rest else x ∷ xs

  abbrev pub tail : List A → List A
  tail [] = []
  tail (x ∷ xs) = xs

  -- `append` on a deque of bounded length: the oldest entry is at the head and falls out.
  abbrev pub append_bounded : ℕ → List A → A → List A
  append_bounded n xs a =
      if ltb n (length (xs ++ a ∷ [])) then tail (xs ++ a ∷ []) else xs ++ a ∷ []

  pub keep_last_short : (n : ℕ) (xs : List A) → length xs ≤ n → keep_last n xs ≡ xs
  keep_last_short n [] h = refl
  keep_last_short n (x ∷ xs) h = ground arith

  pub length-keep_last-le : (n : ℕ) (xs : List A) → length (keep_last n xs) ≤ n
  length-keep_last-le n [] = omega arith
  length-keep_last-le n (x ∷ xs) = ground (arith, length-keep_last-le n xs)

  -- A bounded deque holds the last entries of all that was ever appended.
  pub append_bounded-keep_last :
      (n : ℕ) (xs : List A) (a : A)
      → 0 < n
      → append_bounded n (keep_last n xs) a ≡ keep_last n (xs ++ a ∷ [])
  append_bounded-keep_last n [] a h = ground arith
  append_bounded-keep_last n (x ∷ xs) a h = elim (Bool-cases (ltb n (suc (length xs)))) [
    | inl long ↦
        rw (long, ltb_of_lt n (suc (length (xs ++ a ∷ []))) (omega (arith, lt_of_ltb n _ long, l)))
          (append_bounded-keep_last n xs a h)
    | inr short ↦ rw short (elim (Bool-cases (ltb n (suc (length (xs ++ a ∷ []))))) [
      | inl full ↦
          rw full (sym (keep_last_short n (xs ++ a ∷ []) (omega (arith, le_of_ltb n _ short, l))))
      | inr room ↦ rw room refl
    ])
  ]
    where
      l : length (xs ++ a ∷ []) ≡ length xs + 1
      l = length-append xs (a ∷ [])

  pub All-append {κ} :
      (Q : A → Type κ) (first last : List A) → All Q first → All Q last → All Q (first ++ last)
  All-append Q [] last all_first all_last = all_last
  All-append Q (a ∷ first) last all_first all_last =
      (all_first.0, All-append Q first last all_first.1 all_last)

  pub length-replicate : (n : ℕ) (a : A) → length (replicate n a) ≡ n
  length-replicate zero a = refl
  length-replicate (suc n) a = ap suc (length-replicate n a)

  pub length-take : (n : ℕ) (xs : List A) → length (take n xs) ≡ min n (length xs)
  length-take zero xs = omega arith
  length-take (suc n) [] = omega arith
  length-take (suc n) (x ∷ xs) = omega (arith, length-take n xs)

  pub length-drop : (n : ℕ) (xs : List A) → length (drop n xs) ≡ length xs - n
  length-drop zero xs = omega arith
  length-drop (suc n) [] = omega arith
  length-drop (suc n) (x ∷ xs) = omega (arith, length-drop n xs)

  drop-nil : (n : ℕ) → ◌≡◌ {A = List A} (drop n []) []
  drop-nil zero = refl
  drop-nil (suc n) = refl

  pub take-append : (xs ys : List A) → take (length xs) (xs ++ ys) ≡ xs
  take-append [] ys = refl
  take-append (x ∷ xs) ys = rw (take-append xs ys)

  pub drop-append : (xs ys : List A) → drop (length xs) (xs ++ ys) ≡ ys
  drop-append [] ys = refl
  drop-append (x ∷ xs) ys = drop-append xs ys

  pub filter-append :
      (p : A → Bool) (xs ys : List A) → filter p (xs ++ ys) ≡ filter p xs ++ filter p ys
  filter-append p [] ys = refl
  filter-append p (x ∷ xs) ys = ground (arith, filter-append p xs ys)

  pub get_last?-snoc : (xs : List A) (a : A) → get_last? (xs ++ a ∷ []) ≡ some a
  get_last?-snoc [] a = refl
  get_last?-snoc (x ∷ []) a = refl
  get_last?-snoc (x ∷ y ∷ xs) a = get_last?-snoc (y ∷ xs) a

  pub drop-add : (n m : ℕ) (xs : List A) → drop (n + m) xs ≡ drop m (drop n xs)
  drop-add zero m xs = let e : 0 + m ≡ m = omega arith in ap (λ k. drop k xs) e
  drop-add (suc n) m [] = let e : suc n + m ≡ suc (n + m) = omega arith in rw e (sym (drop-nil m))
  drop-add (suc n) m (x ∷ xs) =
      let e : suc n + m ≡ suc (n + m) = omega arith in rw e (drop-add n m xs)

  pub take-append-drop : (n : ℕ) (xs : List A) → take n xs ++ drop n xs ≡ xs
  take-append-drop zero xs = refl
  take-append-drop (suc n) [] = refl
  take-append-drop (suc n) (x ∷ xs) = rw (take-append-drop n xs)

  pub take-All {κ} : (P : A → Type κ) (n : ℕ) (xs : List A) → All P xs → All P (take n xs)
  take-All P zero xs h = tt
  take-All P (suc n) [] h = tt
  take-All P (suc n) (x ∷ xs) h = (h.0, take-All P n xs h.1)

  pub drop-All {κ} : (P : A → Type κ) (n : ℕ) (xs : List A) → All P xs → All P (drop n xs)
  drop-All P zero xs h = h
  drop-All P (suc n) [] h = tt
  drop-All P (suc n) (x ∷ xs) h = drop-All P n xs h.1

  pub take-add : (n m : ℕ) (xs : List A) → take (n + m) xs ≡ take n xs ++ take m (drop n xs)
  take-add zero m xs = let e : 0 + m ≡ m = omega arith in ap (λ k. take k xs) e
  take-add (suc n) zero [] = let e : suc n + 0 ≡ suc n = omega arith in rw e refl
  take-add (suc n) (suc m) [] = let e : suc n + suc m ≡ suc (n + suc m) = omega arith in rw e refl
  take-add (suc n) m (x ∷ xs) =
      let e : suc n + m ≡ suc (n + m) = omega arith in rw e (ap (◌∷◌ x) (take-add n m xs))

  -- Reading `r` elements from a chunk `c` and what is missing from the rest `s`.
  pub take-append_add : (r : ℕ) (c s : List A) → take r (c ++ s) ≡ take r c ++ take (r - length c) s
  take-append_add zero [] s = refl
  take-append_add zero (x ∷ c) s = let e : 0 - suc (length c) ≡ 0 = omega arith in rw e refl
  take-append_add (suc r) [] s = let e : suc r - 0 ≡ suc r = omega arith in rw e refl
  take-append_add (suc r) (x ∷ c) s =
      let e : suc r - suc (length c) ≡ r - length c = omega arith in
      rw (e, take-append_add r c s) refl

  pub drop-append_add :
      (r : ℕ) (c s : List A) → drop r (c ++ s) ≡ drop (r - length c) (drop r c ++ s)
  drop-append_add zero c s = let e : 0 - length c ≡ 0 = omega arith in rw e refl
  drop-append_add (suc r) [] s = let e : suc r - 0 ≡ suc r = omega arith in rw e refl
  drop-append_add (suc r) (x ∷ c) s =
      let e : suc r - suc (length c) ≡ r - length c = omega arith in rw e (drop-append_add r c s)

  pub take_missing :
      (r : ℕ) (c s : List A) → take (r - length c) (drop r c ++ s) ≡ take (r - length c) s
  take_missing zero c s = let e : 0 - length c ≡ 0 = omega arith in rw e refl
  take_missing (suc r) [] s = refl
  take_missing (suc r) (x ∷ c) s =
      let e : suc r - suc (length c) ≡ r - length c = omega arith in rw e (take_missing r c s)

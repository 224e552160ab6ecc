-- ===== src/Can/Explorer/Retention.antt =====
-- can/explorer.py: the counts of every identifier against the window and all that was ingested.
use tuner_os.Prelude.{
  ℕ, ◌+◌, ◌-◌, ◌≡◌, ◌<◌, ◌≤◌, refl, sym, ap, ◌∙◌, subst, false, Option, none, some, List, [], ◌∷◌,
  ◌++◌, arith, ok, Bool-cases, Option-cases, inl, inr, eqb, eqb_iff, nat_eq, ◌==◌, if◌then◌else◌,
  length, length-append, filter, append_bounded, beq_refl,
}
use tuner_os.Prelude.Dict.{Dict, get, put, get-put}
use tuner_os.Can.Models.{RawCanFrame}
use tuner_os.Can.Metadata.{CanMessageMetadata}
use tuner_os.Can.Explorer.{
  CanExplorerFrame, MutableMessageStatistics, update_message, make_room, evict,
}

abbrev pub retained : Option MutableMessageStatistics → ℕ
retained none = 0
retained (some s) = s.retained_frame_count

abbrev pub total : Option MutableMessageStatistics → ℕ
total none = 0
total (some s) = s.total_frame_count

retained-update :
    (f : RawCanFrame) (m : Option CanMessageMetadata) (o : Option MutableMessageStatistics)
    → retained (some (update_message f m o)) ≡ retained o + 1
retained-update f m none = omega arith
retained-update f m (some s) = refl

total-update :
    (f : RawCanFrame) (m : Option CanMessageMetadata) (o : Option MutableMessageStatistics)
    → total (some (update_message f m o)) ≡ total o + 1
total-update f m none = omega arith
total-update f m (some s) = refl

-- A number that an entry gives, when the entry of one key is replaced.
measured-put :
    (g : Option MutableMessageStatistics → ℕ) (ms : Dict ℕ MutableMessageStatistics) (k i : ℕ)
    (u : MutableMessageStatistics) (n m : ℕ)
    → (k ≡ i → g (some u) ≡ n)
    → ((k == i) ≡ false → g (get ms i) ≡ n)
    → g (get (put ms k u) i) ≡ n
measured-put g ms k i u n m hit miss = elim (Bool-cases (k == i)) [
  | inl t ↦ rw (get-put ms k i u, t) (hit ((eqb_iff k i).0 t))
  | inr f ↦ rw (get-put ms k i u, f) (miss f)
]

module _ {F : Type 0} where
  -- How many frames have an identifier.
  abbrev pub count : ℕ → List (CanExplorerFrame F) → ℕ
  count i fs = length (filter (λ f. f.raw_frame.arbitration_id == i) fs)

  one : ℕ → CanExplorerFrame F → ℕ
  one i f = if f.raw_frame.arbitration_id == i then 1 else 0

  count-cons :
      (i : ℕ) (f : CanExplorerFrame F) (fs : List (CanExplorerFrame F))
      → count i (f ∷ fs) ≡ one i f + count i fs
  unfolding one
  count-cons i f fs = ground arith

  count-snoc :
      (i : ℕ) (fs : List (CanExplorerFrame F)) (f : CanExplorerFrame F)
      → count i (fs ++ f ∷ []) ≡ count i fs + one i f
  count-snoc i [] f = omega (arith, count-cons i f [])
  count-snoc i (g ∷ fs) f =
      omega (arith, count-cons i g (fs ++ f ∷ []), count-cons i g fs, count-snoc i fs f)

  -- The statistics of every identifier, against a window and all frames.
  pub record Counts (ms : Dict ℕ MutableMessageStatistics) (window log : List (CanExplorerFrame F))
      : Type 0 where
    pub in_window : (i : ℕ) → retained (get ms i) ≡ count i window
    pub in_all : (i : ℕ) → total (get ms i) ≡ count i log

  pub Counts-update :
      (ms : Dict ℕ MutableMessageStatistics) (window log : List (CanExplorerFrame F))
      (f : CanExplorerFrame F) (metadata : Option CanMessageMetadata)
      → Counts ms window log
      → Counts
          (put ms f.raw_frame.arbitration_id
            (update_message f.raw_frame metadata (get ms f.raw_frame.arbitration_id)))
          (window ++ f ∷ [])
          (log ++ f ∷ [])
  unfolding one
  Counts-update ms window log f metadata h =
      let k = f.raw_frame.arbitration_id in
      let o = get ms f.raw_frame.arbitration_id in
      record {
        in_window = λ i.
            measured-put retained ms k i (update_message f.raw_frame metadata o) _ 0
              (λ e.
                retained-update f.raw_frame metadata o
                ∙ added i e (retained o) (count i window)
                    (ap (λ j. retained (get ms j)) e ∙ h.in_window i)
                ∙ sym (count-snoc i window f))
              (λ n. h.in_window i ∙ unchanged i n (count i window) ∙ sym (count-snoc i window f));
        in_all = λ i.
            measured-put total ms k i (update_message f.raw_frame metadata o) _ 0
              (λ e.
                total-update f.raw_frame metadata o
                ∙ added i e (total o) (count i log) (ap (λ j. total (get ms j)) e ∙ h.in_all i)
                ∙ sym (count-snoc i log f))
              (λ n. h.in_all i ∙ unchanged i n (count i log) ∙ sym (count-snoc i log f));
      }
    where
      added : (i : ℕ) → f.raw_frame.arbitration_id ≡ i → (a b : ℕ) → a ≡ b → a + 1 ≡ b + one i f
      added i e a b h = rw ((eqb_iff f.raw_frame.arbitration_id i).1 e) (omega arith)

      unchanged : (i : ℕ) → (f.raw_frame.arbitration_id == i) ≡ false → (a : ℕ) → a ≡ a + one i f
      unchanged i n a = rw n (omega arith)

  -- The window without the frame that falls out when one more is added.
  abbrev pub kept_of : ℕ → List (CanExplorerFrame F) → List (CanExplorerFrame F)
  kept_of n [] = []
  kept_of n (old ∷ rest) = if eqb (length (old ∷ rest)) n then rest else old ∷ rest

  pub append_bounded-kept_of :
      (n : ℕ) (window : List (CanExplorerFrame F)) (f : CanExplorerFrame F)
      → 0 < n
      → length window ≤ n
      → append_bounded n window f ≡ kept_of n window ++ f ∷ []
  append_bounded-kept_of n [] f p l = ground arith
  append_bounded-kept_of n (old ∷ rest) f p l = ground (arith, length-append rest (f ∷ []))

  Counts-evict :
      (ms : Dict ℕ MutableMessageStatistics) (old : CanExplorerFrame F)
      (rest log : List (CanExplorerFrame F))
      → Counts ms (old ∷ rest) log
      → (ms' : Dict ℕ MutableMessageStatistics) × (evict old ms
            (get ms old.raw_frame.arbitration_id)
          ≡ ok ms')
        × Counts ms' rest log
  unfolding evict one
  Counts-evict ms old rest log h = elim (Option-cases (get ms old.raw_frame.arbitration_id)) [
    | inl absent ↦ absurd (omega (arith, counted (ap retained absent), first))
    | inr (s, g) ↦ (
      put ms old.raw_frame.arbitration_id
          (record s { retained_frame_count = s.retained_frame_count - 1 }),
      rw g refl,
      record {
        in_window = λ i.
            measured-put retained ms old.raw_frame.arbitration_id i
              (record s { retained_frame_count = s.retained_frame_count - 1 }) _ 0
              (λ e. fewer s g i e) (λ n. h.in_window i ∙ others i n);
        in_all = λ i.
            measured-put total ms old.raw_frame.arbitration_id i
              (record s { retained_frame_count = s.retained_frame_count - 1 }) _ 0
              (λ e. sym (ap total g) ∙ ap (λ j. total (get ms j)) e ∙ h.in_all i) (λ n. h.in_all i);
      },
    )
  ]
    where
      first :
          count old.raw_frame.arbitration_id (old ∷ rest)
          ≡ 1 + count old.raw_frame.arbitration_id rest
      first = rw (beq_refl old.raw_frame.arbitration_id) (omega arith)

      counted :
          {n : ℕ}
          → retained (get ms old.raw_frame.arbitration_id) ≡ n
          → count old.raw_frame.arbitration_id (old ∷ rest) ≡ n
      counted e = sym (h.in_window old.raw_frame.arbitration_id) ∙ e

      fewer :
          (s : MutableMessageStatistics)
          → get ms old.raw_frame.arbitration_id ≡ some s
          → (i : ℕ) → old.raw_frame.arbitration_id ≡ i
          → s.retained_frame_count - 1 ≡ count i rest
      fewer s g i e =
          subst (λ j. s.retained_frame_count - 1 ≡ count j rest) e
            (omega (arith, counted (ap retained g), first))

      others :
          (i : ℕ)
          → (old.raw_frame.arbitration_id == i) ≡ false
          → count i (old ∷ rest) ≡ count i rest
      others i n = rw n refl

  pub Counts-room :
      (n : ℕ) (ms : Dict ℕ MutableMessageStatistics) (window log : List (CanExplorerFrame F))
      → Counts ms window log
      → (ms' : Dict ℕ MutableMessageStatistics) × (make_room n window ms ≡ ok ms')
        × Counts ms' (kept_of n window) log
  unfolding make_room
  Counts-room n ms [] log h = (ms, refl, h)
  Counts-room n ms (old ∷ rest) log h = elim (Bool-cases (eqb (length (old ∷ rest)) n)) [
    | inl full ↦ rw full (Counts-evict ms old rest log h)
    | inr free ↦ rw free (ms, refl, h)
  ]

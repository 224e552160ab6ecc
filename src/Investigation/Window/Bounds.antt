-- ===== src/Investigation/Window/Bounds.antt =====
-- investigation/service.py: what a resolved window spans, and that a clamped center resolves.
use tuner_os.Prelude.{
  ℕ, ◌+◌, ◌≤◌, ◌≡◌, ◌↔◌, min, max, Bool, true, false, ◌||◌, Option, some, arith, ok, ltb, ℤ, pos,
  refl, sym, ap, ok_injective, subst, raise_if-passed, >>=-eq-ok, or_raise-found, le_of_ltb,
  ltb_of_le, ok-ne-err, or_raise,
}
use tuner_os.Prelude.Values.{Value, int}
use tuner_os.Session.Models.{SessionManifest}
use tuner_os.Investigation.Models.{
  InvestigationWindow, window_duration, max_investigation_window_microseconds,
}
use tuner_os.Investigation.Window.{
  resolve_window, clamp_center, non_negative, requested_center, around,
}

-- What a window is to the first and last timestamps of its session and the span that was asked for.
pub record IsAround (first last before after : ℕ) (w : InvestigationWindow) : Type 0 where
  pub center_first : first ≤ w.center_timestamp_microseconds
  pub center_last : w.center_timestamp_microseconds ≤ last
  pub start_center : w.start_timestamp_microseconds ≤ w.center_timestamp_microseconds
  pub center_end : w.center_timestamp_microseconds ≤ w.end_timestamp_microseconds
  pub bounded : window_duration w ≤ max_investigation_window_microseconds
  pub inside :
      (t : ℕ)
      → ((w.start_timestamp_microseconds ≤ t) × (t ≤ w.end_timestamp_microseconds)) ↔ (
          (first ≤ t)
          × (t ≤ last)
          × (w.center_timestamp_microseconds ≤ t + before)
          × (t ≤ w.center_timestamp_microseconds + after))

around-IsAround :
    (first last c before after : ℕ)
    → before + after ≤ max_investigation_window_microseconds
    → first ≤ c
    → c ≤ last
    → IsAround first last before after (around first last c before after)
unfolding around
around-IsAround first last c before after total low high = record {
  center_first = low;
  center_last = high;
  start_center = omega arith;
  center_end = omega arith;
  bounded = omega arith;
  inside = λ t. (
    λ h. let (s, e) = h in (omega arith, omega arith, omega arith, omega arith),
    λ h. let (f, l, b, a) = h in (omega arith, omega arith),
  );
}

or_false : (a b : Bool) → (a || b) ≡ false → (a ≡ false) × (b ≡ false)
or_false true b h = cc
or_false false b h = (refl, h)

non_negative-ok : (v : Value) {n : ℕ} → non_negative v ≡ ok n → v ≡ int (pos n)
unfolding non_negative
non_negative-ok (int (pos n)) h = ap (λ k. int (pos k)) (ok_injective h)
non_negative-ok (int (ℤ.negsuc n)) h = absurd (ok-ne-err (sym h))
non_negative-ok Value.null h = absurd (ok-ne-err (sym h))
non_negative-ok (Value.bool b) h = absurd (ok-ne-err (sym h))
non_negative-ok (Value.str b) h = absurd (ok-ne-err (sym h))
non_negative-ok (Value.bytes b) h = absurd (ok-ne-err (sym h))
non_negative-ok Value.other h = absurd (ok-ne-err (sym h))

-- A window that is resolved lies around its center within the session, is no longer than thirty
-- seconds, and holds exactly the timestamps of the session that are near enough to the center: no
-- more than `before` earlier and no more than `after` later.
pub resolve_window-IsAround :
    (m : SessionManifest) (center : Option Value) (before after : Value) {w : InvestigationWindow}
    → resolve_window m center before after ≡ ok w
    → (first : ℕ) × (last : ℕ) × (b : ℕ) × (a : ℕ) × (m.first_timestamp_microseconds ≡ some first)
      × (m.last_timestamp_microseconds ≡ some last)
      × (before ≡ int (pos b))
      × (after ≡ int (pos a))
      × IsAround first last b a w
unfolding resolve_window
resolve_window-IsAround m center before after h =
    let (b, is_b, h1) = >>=-eq-ok (non_negative before) _ h in
    let (a, is_a, h2) = >>=-eq-ok (non_negative after) _ h1 in
    let (short, h3) = raise_if-passed _ _ _ h2 in
    let (first, is_first, h4) = >>=-eq-ok (or_raise m.first_timestamp_microseconds _) _ h3 in
    let (last, is_last, h5) = >>=-eq-ok (or_raise m.last_timestamp_microseconds _) _ h4 in
    let (c, is_c, h6) = >>=-eq-ok (requested_center center first last) _ h5 in
    let (within, h7) = raise_if-passed _ _ _ h6 in
    let (low, high) = or_false (ltb c first) (ltb last c) within in
    (
      first,
      last,
      b,
      a,
      or_raise-found _ _ is_first,
      or_raise-found _ _ is_last,
      non_negative-ok before is_b,
      non_negative-ok after is_a,
      subst (IsAround first last b a) (ok_injective h7) (
          around-IsAround first last c b a (le_of_ltb _ _ short) (le_of_ltb _ _ low)
            (le_of_ltb _ _ high)),
    )

-- The center of a comparison's baseline, clamped, always resolves for a span that is allowed, and
-- stays as it is when it lies in the session: for a session that is not empty.
pub clamp_center-resolves :
    (m : SessionManifest) (first last before after center : ℕ)
    → m.first_timestamp_microseconds ≡ some first
    → m.last_timestamp_microseconds ≡ some last
    → first ≤ last
    → before + after ≤ max_investigation_window_microseconds
    → (c : ℕ) × (w : InvestigationWindow) × (clamp_center m (int (pos center)) ≡ ok c)
      × (resolve_window m (some (int (pos c))) (int (pos before)) (int (pos after)) ≡ ok w)
      × (w.center_timestamp_microseconds ≡ c)
      × (first ≤ center → center ≤ last → c ≡ center)
unfolding resolve_window clamp_center non_negative requested_center around
clamp_center-resolves m first last before after center f l ordered total =
    let c = min (max center first) last in
    let low : ltb c first ≡ false = ltb_of_le _ _ (omega arith) in
    let high : ltb last c ≡ false = ltb_of_le _ _ (omega arith) in
    (
      c,
      around first last c before after,
      rw f (rw l refl),
      rw (ltb_of_le max_investigation_window_microseconds (before + after) total)
          (rw f (rw l (rw low (rw high refl)))),
      refl,
      λ p q. omega arith,
    )

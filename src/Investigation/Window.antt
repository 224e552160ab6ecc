-- ===== src/Investigation/Window.antt =====
-- investigation/service.py: `_resolve_window` and `_clamp_center`.
pub mod Bounds
use tuner_os.Prelude.{
  ℕ, ◌+◌, ◌-◌, ◌≤◌, ◌≡◌, ◌↔◌, min, max, Bool, ◌||◌, Option, none, some, arith, Result, ok, err,
  investigation_query_error, ◌>>=◌, ◌>>◌, raise_if, or_raise, ltb, ℤ, pos, ◌/◌, refl, ok_injective,
  raise_if-passed, >>=-eq-ok, or_raise-found,
}
use tuner_os.Prelude.Values.{Value, int}
use tuner_os.Session.Models.{SessionManifest}
use tuner_os.Investigation.Models.{
  InvestigationWindow, window_duration, max_investigation_window_microseconds,
}

-- isinstance(value, bool) or not isinstance(value, int) or value < 0
non_negative : Value → Result ℕ
non_negative (int (pos n)) = ok n
non_negative _ = err investigation_query_error

-- The center that is asked for, or the middle of the session. No timestamp is negative, so a
-- negative center lies before the first.
requested_center : Option Value → ℕ → ℕ → Result ℕ
unfolding non_negative
requested_center none first last = ok ((first + last) / 2)
requested_center (some center) first last = non_negative center

-- center - before stops at 0, which `first` is not below.
around : ℕ → ℕ → ℕ → ℕ → ℕ → InvestigationWindow
around first last center before after = record {
  requested_center_timestamp_microseconds = center;
  center_timestamp_microseconds = center;
  requested_before_microseconds = before;
  requested_after_microseconds = after;
  start_timestamp_microseconds = max first (center - before);
  end_timestamp_microseconds = min last (center + after);
}

unfoldable pub resolve_window :
    SessionManifest → Option Value → Value → Value → Result InvestigationWindow
unfolding requested_center around
resolve_window manifest center before after = do
  b ← non_negative before
  a ← non_negative after
  raise_if (ltb max_investigation_window_microseconds (b + a)) investigation_query_error
  first ← or_raise manifest.first_timestamp_microseconds investigation_query_error
  last ← or_raise manifest.last_timestamp_microseconds investigation_query_error
  c ← requested_center center first last
  raise_if (ltb c first || ltb last c) investigation_query_error
  ok (around first last c b a)

unfoldable pub clamp_center : SessionManifest → Value → Result ℕ
unfolding non_negative
clamp_center manifest center = do
  c ← non_negative center
  first ← or_raise manifest.first_timestamp_microseconds investigation_query_error
  last ← or_raise manifest.last_timestamp_microseconds investigation_query_error
  ok (min (max c first) last)

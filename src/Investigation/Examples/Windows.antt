-- ===== src/Investigation/Examples/Windows.antt =====
-- investigation/service.py: the window of a session of two seconds.
use tuner_os.Prelude.{ℕ, ◌≤◌, ◌≡◌, refl, none, some, arith, ok, pos, string_eq, nat_eq}
use tuner_os.Prelude.Values.{int}
use tuner_os.Investigation.Models.{InvestigationWindow}
use tuner_os.Investigation.Window.{resolve_window, clamp_center}
use tuner_os.Investigation.Window.Bounds.{IsAround, resolve_window-IsAround, clamp_center-resolves}
use tuner_os.Investigation.Examples.{manifest, window, nat_floats, nat_means}

resolved : resolve_window manifest none (int (pos 500000)) (int (pos 5000000)) ≡ ok window
unfolding resolve_window
resolved = refl

resolve_window-IsAround_example :
    (first : ℕ) × (last : ℕ) × (b : ℕ) × (a : ℕ) × (manifest.first_timestamp_microseconds
      ≡ some first)
    × (manifest.last_timestamp_microseconds ≡ some last)
    × (int (pos 500000) ≡ int (pos b))
    × (int (pos 5000000) ≡ int (pos a))
    × IsAround first last b a window
resolve_window-IsAround_example =
    resolve_window-IsAround manifest none (int (pos 500000)) (int (pos 5000000)) resolved

clamp_center-resolves_example :
    (c : ℕ) × (w : InvestigationWindow) × (clamp_center manifest (int (pos 9000000)) ≡ ok c)
    × (resolve_window manifest (some (int (pos c))) (int (pos 500000)) (int (pos 500000)) ≡ ok w)
    × (w.center_timestamp_microseconds ≡ c)
    × (1000000 ≤ 9000000 → 9000000 ≤ 3000000 → c ≡ 9000000)
clamp_center-resolves_example =
    clamp_center-resolves manifest 1000000 3000000 500000 500000 9000000 refl refl (omega arith)
      (omega arith)

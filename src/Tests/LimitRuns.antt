-- ===== src/Tests/LimitRuns.antt =====
-- The failure limiters.
use manager.Prelude.{ℕ, ◌≤◌, ◌≡◌, [], ◌∷◌, String, Map, size, arith, string_eq}
use manager.RateLimit.{Window, new_window, max_tracked_clients}
use manager.RateLimit.Trips.{answers, expected, answers-new_window}

answers-new_window_example :
    answers (new_window 3 10) (1 ∷ 5 ∷ 12 ∷ 13 ∷ 14 ∷ [])
    ≡ expected 3 10 [] (1 ∷ 5 ∷ 12 ∷ 13 ∷ 14 ∷ [])
answers-new_window_example =
    answers-new_window 3 10 (1 ∷ 5 ∷ 12 ∷ 13 ∷ 14 ∷ [])
      (omega arith, (omega arith, (omega arith, (omega arith, (omega arith, tt)))))

abbrev window : Window
window = record { limit = 3; window = 10; times = 1 ∷ 5 ∷ [] }

abbrev clients : Map String ℕ
clients = ("10.0.0.1", 4) ∷ []

few : size clients ≤ max_tracked_clients
unfolding size
few = omega arith

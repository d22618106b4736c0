-- ===== src/RateLimit.antt =====
-- internal/ratelimit/ratelimit.go: the failure limiters. The token bucket of golang.org/x/time/rate
-- is a parameter: `fresh` is a new limiter, `spend` takes a token and `tokens_at` counts them.
pub mod Bounds
pub mod Trips
use manager.Prelude.{
  ℕ, ◌+◌, ◌-◌, Bool, true, false, Option, none, some, List, [], ◌∷◌, ◌++◌, String, ltb, leb,
  string_eq, if◌then◌else◌, Map, lookup, insert, size, keep, length,
}

abbrev pub max_tracked_clients : ℕ
max_tracked_clients = 10_000

-- Window: the recorded times, oldest first
pub record Window : Type 0 where
  pub limit : ℕ
  pub window : ℕ
  pub times : List ℕ

-- NewWindow
unfoldable pub new_window : ℕ → ℕ → Window
new_window limit window = record { limit = limit; window = window; times = [] }

-- The times after the cutoff, `t.After(now.Add(-w.window))`, written so that it does not need a
-- negative cutoff.
unfoldable pub recent : ℕ → ℕ → List ℕ → List ℕ
unfolding keep
recent now window times = keep (λ t. ltb now (t + window)) times

unfoldable pub fail_at : ℕ → Window → List ℕ → Window × Bool
fail_at now w kept =
    if leb w.limit (length kept)
    then (record w { times = [] }, true)
    else (record w { times = kept }, false)

-- Window.Fail
unfoldable pub fail_window : ℕ → Window → Window × Bool
fail_window now w = fail_at now w (recent now w.window w.times ++ now ∷ [])

module _ {Limiter : Type 0} (fresh : Limiter) (spend : ℕ → Limiter → Limiter) where
  -- Failures.limiter: the limiter of the client, and the map that has it
  unfoldable pub limiter : String → Map String Limiter → Map String Limiter × Limiter
  limiter client clients = elim (lookup client clients) [
    | some l ↦ (clients, l)
    | none ↦ (
      insert client fresh (if leb max_tracked_clients (size clients) then [] else clients),
      fresh,
    )
  ]

  unfoldable pub spend_in : ℕ → String → Map String Limiter × Limiter → Map String Limiter
  spend_in now client (clients, l) = insert client (spend now l) clients

  -- Failures.Fail
  unfoldable pub fail_client : ℕ → String → Map String Limiter → Map String Limiter
  fail_client now client clients = spend_in now client (limiter client clients)

-- Failures.Blocked
unfoldable pub blocked :
    {Limiter : Type 0} → (ℕ → Limiter → ℕ) → ℕ → String → Map String Limiter → Bool
blocked tokens_at now client clients = elim (lookup client clients) [
  | none ↦ false
  | some l ↦ ltb (tokens_at now l) 1
]

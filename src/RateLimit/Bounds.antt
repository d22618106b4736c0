-- ===== src/RateLimit/Bounds.antt =====
-- What the failure limiters keep in memory is bounded.
use manager.Prelude.{
  ℕ, ◌≤◌, ◌<◌, ◌≡◌, refl, arith, [], ◌∷◌, String, Map, lookup, size, length, Option-cases, inl, inr,
  size-insert-le, lookup-insert_self, size-delete-le, insert, delete, leb, Bool-cases, string_eq,
  some,
}
use manager.RateLimit.{
  Window, fail_at, fail_window, max_tracked_clients, limiter, spend_in, fail_client,
}

-- After any failure a window holds fewer times than its limit, where the limit is at least 1.
pub fail_window-bounded :
    (now : ℕ) (w : Window)
    → 1 ≤ w.limit
    → length (fail_window now w).0.times < (fail_window now w).0.limit
unfolding fail_window fail_at
fail_window-bounded now w h = ground arith

module _ {Limiter : Type 0} (fresh : Limiter) (spend : ℕ → Limiter → Limiter) where
  size-insert_again :
      (k : String) (v u : Limiter) (m : Map String Limiter)
      → lookup k m ≡ some u
      → size (insert k v m) ≤ size m
  unfolding size insert delete lookup
  size-insert_again k v u [] h = cc
  size-insert_again k v u ((j, x) ∷ m) h =
      ground (arith, size-delete-le k m, size-insert_again k v u m)

  -- Where the limiter tracks at most 10,000 clients, it still does after any failure, whatever the
  -- token bucket does.
  pub fail_client-bounded :
      (now : ℕ) (client : String) (clients : Map String Limiter)
      → size clients ≤ max_tracked_clients
      → size (fail_client fresh spend now client clients) ≤ max_tracked_clients
  unfolding fail_client limiter spend_in size insert delete
  fail_client-bounded now client clients h = elim (Option-cases (lookup client clients)) [
    | inr (l, q) ↦ rw q (omega (arith, size-insert_again client (spend now l) l clients q))
    | inl q ↦ elim (Bool-cases (leb max_tracked_clients (size clients))) [
      | inl e ↦ rw (q, e) (omega (arith, again [], size-insert-le client fresh [], size_nil))
      | inr e ↦
          let room : size clients < max_tracked_clients = ground arith in
          rw (q, e) (omega (arith, again clients, size-insert-le client fresh clients))
    ]
  ]
    where
      size_nil : size {K = String} {V = Limiter} [] ≡ 0
      size_nil = unfold size in refl

      again :
          (m : Map String Limiter)
          → size (insert client (spend now fresh) (insert client fresh m))
            ≤ size (insert client fresh m)
      again m =
          size-insert_again client (spend now fresh) fresh (insert client fresh m)
            (lookup-insert_self client fresh m)

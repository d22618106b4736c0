-- ===== src/OperatorCa/Ocsp/Lifetime.antt =====
-- How long answers are kept, and what a call may be answered with.
use manager.Prelude.{
  ℕ, ◌+◌, ◌≤◌, ◌<◌, ◌≡◌, refl, ◌≢◌, ◌⊎◌, inl, inr, true, Option, none, some, nat_eq, string_eq,
  bytes_eq, if◌then◌else◌, ok, err, Bool-cases, Option-cases, arith,
}
use manager.OperatorCa.Lru.{new_lru, get}
use manager.OperatorCa.Lru.Values.{AllVals, get-AllVals, get-val, put-AllVals, set_val-AllVals}
use manager.OperatorCa.Ocsp.{
  ocsp_max_ttl, ocsp_no_next_ttl, ocsp_failure_ttl, Key, key_eq, Answer, Entry, Client, new_client,
  is_live, note_result, expiry, entry_of, retry_later, store_entry, keep_old, fill, due,
  start_refresh, ask, check, refresh,
}

-- The lifetime of an entry, by what it holds.
abbrev Lifetime : Answer → ℕ → ℕ → Type 0
Lifetime (ok r) fetched expires =
    (expires ≤ fetched + ocsp_max_ttl)
    × ((r.next_update ≢ 0) → expires ≤ r.next_update)
    × ((r.next_update ≡ 0) → expires ≤ fetched + ocsp_no_next_ttl)
Lifetime (err x) fetched expires = expires ≤ fetched + ocsp_failure_ttl

-- A cached answer is kept for at most an hour, never past the response's nextUpdate, for five
-- minutes where it has none, and for half a minute where it is a failure.
pub record IsBounded (e : Entry) : Type 0 where
  pub kept : Lifetime e.answer e.fetched_at e.expires

entry_of-IsBounded : (now : ℕ) (a : Answer) → IsBounded (entry_of now a)
unfolding entry_of expiry
entry_of-IsBounded now (ok r) = record { kept = ground arith }
entry_of-IsBounded now (err x) = record { kept = ground arith }

abbrev pub IsClean : Client → Type 0
IsClean c = AllVals IsBounded c.cache.order

pub new_client-IsClean : IsClean new_client
unfolding new_client new_lru
new_client-IsClean = tt

store_entry-IsClean :
    (now : ℕ) (k : Key) (a : Answer) (c : Client) → IsClean c → IsClean (store_entry now k a c).0
unfolding store_entry
store_entry-IsClean now k a c h =
    put-AllVals IsBounded k (entry_of now a) c.cache (entry_of-IsBounded now a) h

fill-IsClean :
    (now : ℕ) (k : Key) (a : Answer) (old : Option Entry) (c : Client)
    → ((e : Entry) → old ≡ some e → IsBounded e)
    → IsClean c
    → IsClean (fill now k a old c).0
unfolding fill note_result keep_old
fill-IsClean now k (ok r) old c o h = store_entry-IsClean now k (ok r) _ h
fill-IsClean now k (err x) none c o h = store_entry-IsClean now k (err x) _ h
fill-IsClean now k (err x) (some e) c o h = elim (Bool-cases (is_live now e)) [
  | inl q ↦
      rw (q, keep_old)
        (set_val-AllVals IsBounded k (retry_later now e) c.cache (kept_later (o e refl)) h)
  | inr q ↦ rw (q, keep_old) (store_entry-IsClean now k (err x) _ h)
]
  where
    kept_later : IsBounded e → IsBounded (retry_later now e)
    kept_later b = unfold retry_later in record { kept = b.kept }

-- A call keeps every cached entry within its bounds: an hour at most, never past the nextUpdate, five minutes
-- without one, half a minute for a failure; whatever the responder answers and whenever.
pub check-IsClean :
    (now later : ℕ) (k : Key) (a : Answer) (c : Client)
    → IsClean c
    → IsClean (check now later k a c).0
unfolding check ask start_refresh
check-IsClean now later k a c h =
    let got = get-AllVals IsBounded k c.cache h in
    elim (Option-cases (get k c.cache).1) [
      | inl q ↦ rw (q, check) (fill-IsClean later k a none _ (λ e p. cc) got)
      | inr (e, q) ↦ rw (q, check) (hit e (get-val IsBounded k c.cache e h q) got)
    ]
  where
    hit :
        (e : Entry)
        → IsBounded e
        → AllVals IsBounded (get k c.cache).0.order
        → IsClean (
            (if is_live now e
              then (start_refresh now k e (record c { cache = (get k c.cache).0 }), e.answer)
              else ask later k a (record c { cache = (get k c.cache).0 })).0)
    hit e b got = elim (Bool-cases (is_live now e)) [
      | inl q ↦ rw q (elim (Bool-cases (due now e)) [
        | inl d ↦ rw d (
            set_val-AllVals IsBounded k (record e { refreshing = true }) (get k c.cache).0
              (record { kept = b.kept }) got)
        | inr d ↦ rw d got
      ])
      | inr q ↦ rw q (fill-IsClean later k a none _ (λ e p. cc) got)
    ]

-- A background refresh keeps every cached entry within its bounds.
pub refresh-IsClean :
    (now : ℕ) (k : Key) (a : Answer) (c : Client) → IsClean c → IsClean (refresh now k a c)
unfolding refresh
refresh-IsClean now k a c h =
    fill-IsClean now k a (get k c.cache).1 (record c { cache = (get k c.cache).0 })
      (λ e q. get-val IsBounded k c.cache e h q) (get-AllVals IsBounded k c.cache h)

-- With the cache within its bounds, an answer is the one that the responder gave to this call, or that of a
-- cached entry that has not expired and is within its bounds.
pub check_source :
    (now later : ℕ) (k : Key) (a : Answer) (c : Client)
    → IsClean c
    → ((check now later k a c).1 ≡ a)
      ⊎ ((e : Entry) × ((get k c.cache).1 ≡ some e)
          × ((check now later k a c).1 ≡ e.answer)
          × (now < e.expires)
          × IsBounded e)
unfolding check ask
check_source now later k a c h = elim (Option-cases (get k c.cache).1) [
  | inl q ↦ inl (rw (q, check) (fetched a (record c { cache = (get k c.cache).0 })))
  | inr (e, q) ↦ elim (Bool-cases (is_live now e)) [
    | inl live ↦
        inr (e, q, rw (q, check, live) refl, alive e live, get-val IsBounded k c.cache e h q)
    | inr stale ↦ inl (rw (q, check, stale) (fetched a (record c { cache = (get k c.cache).0 })))
  ]
]
  where
    fetched : (a : Answer) (c : Client) → (fill later k a none c).1.answer ≡ a
    fetched (ok r) c = unfold fill store_entry entry_of in refl
    fetched (err x) c = unfold fill store_entry entry_of in refl

    alive : (e : Entry) → is_live now e ≡ true → now < e.expires
    alive e q = unfold is_live in ground arith

-- ===== src/Tests/CacheRuns.antt =====
-- The cache, and the OCSP client over it.
use manager.Prelude.{ℕ, ◌<◌, ◌≡◌, ◌⊎◌, some, [], ◌∷◌, arith, nat_eq, lookup}
use manager.OperatorCa.Base.{hour}
use manager.OperatorCa.Lru.{Lru, new_lru, get, put}
use manager.OperatorCa.Lru.Order.{IsWf, view, spec_put}
use manager.OperatorCa.Lru.Refines.{put-refines, new_lru-IsWf}
use manager.OperatorCa.Ocsp.{Key, Entry, key_eq, Client, new_client, check}
use manager.OperatorCa.Ocsp.Lifetime.{
  IsClean, IsBounded, new_client-IsClean, check-IsClean, check_source,
}
use manager.Tests.Data.{good_response}

abbrev cache : Lru ℕ ℕ
cache = put 1 10 (new_lru 2)

cache-IsWf : IsWf cache
cache-IsWf = (put-refines 1 10 (new_lru 2) (new_lru-IsWf 2)).0

put-refines_example :
    IsWf (put 2 20 cache)
    × (view (put 2 20 cache).order ≡ spec_put cache.max 2 20 (view cache.order))
put-refines_example = put-refines 2 20 cache cache-IsWf

room : 0 < cache.max
unfolding put manager.OperatorCa.Lru.element lookup new_lru manager.OperatorCa.Lru.trim
    manager.OperatorCa.Lru.push_front
room = omega arith

abbrev key : Key
key = record { anchor = "a1"; serial = b'3' ∷ b'2' ∷ [] }

abbrev asked_once : Client
asked_once = (check hour hour key good_response new_client).0

asked_once-IsClean : IsClean asked_once
asked_once-IsClean = check-IsClean hour hour key good_response new_client new_client-IsClean

check_source_example :
    ((check hour hour key good_response asked_once).1 ≡ good_response)
    ⊎ ((e : Entry) × ((get key asked_once.cache).1 ≡ some e)
        × ((check hour hour key good_response asked_once).1 ≡ e.answer)
        × (hour < e.expires)
        × IsBounded e)
check_source_example = check_source hour hour key good_response asked_once asked_once-IsClean

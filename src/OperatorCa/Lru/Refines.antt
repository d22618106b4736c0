-- ===== src/OperatorCa/Lru/Refines.antt =====
-- The cache of lru.go refines a list of keys and values in order of use.
use manager.Prelude.{
  ℕ, suc, ◌<◌, ◌≡◌, refl, ap, ◌∙◌, ◌≢◌, inl, inr, none, some, List, [], ◌∷◌, ltb, Comparable, ◌==◌,
  nat_eq, if◌then◌else◌, lookup, lookup-delete, lookup-insert, length, All, arith, Bool-cases,
  Option-cases,
}
use manager.OperatorCa.Lru.{
  Element, Lru, back, new_lru, to_front, get, evict, push_front, trim, put,
}
use manager.OperatorCa.Lru.Order.{
  drop_last, touch, spec_get, spec_put, view, find_key, id_of, Apart, IsWf, All-find_key,
  id_of-find_key, element_lem, lookup-view, view-remove_key, All-remove_key, Distinct-remove_key,
  id_of-remove_key, remove_id-remove_key, Apart-remove_key, find_key-back, delete-back,
}

module _ {K V : Type 0} ⦃e : Comparable K⦄ where
  -- The element that a key leads to, with another value, put in front.
  to_front-IsWf :
      (k : K) (v : V) (c : Lru K V) (x : Element K V)
      → IsWf c
      → find_key k c.order ≡ some x
      → IsWf (to_front (record x { val = v }) c)
  unfolding to_front id_of
  to_front-IsWf k v c x w h =
      let same = remove_id-remove_key k c.order x w.distinct h in
      let key = (All-find_key (λ y. y.id < c.next_id) k c.order x h w.fresh).1 in
      let below = (All-find_key (λ y. y.id < c.next_id) k c.order x h w.fresh).0 in
      rw same (record {
        indexed = λ j.
            w.indexed j
            ∙ ground (
              arith,
              id_of-remove_key k j c.order,
              id_of-find_key k c.order x h,
              key,
              e.same_iff k j,
            );
        distinct =
            (Apart-remove_key x k c.order w.distinct h, Distinct-remove_key k c.order w.distinct);
        fresh = (below, All-remove_key (λ y. y.id < c.next_id) k c.order w.fresh);
      })

  view-to_front :
      (k : K) (v : V) (c : Lru K V) (x : Element K V)
      → IsWf c
      → find_key k c.order ≡ some x
      → view (to_front (record x { val = v }) c).order ≡ touch k v (view c.order)
  unfolding to_front view touch
  view-to_front k v c x w h =
      let same = remove_id-remove_key k c.order x w.distinct h in
      let key = (All-find_key (λ y. y.id < c.next_id) k c.order x h w.fresh).1 in
      rw (same, key, view-remove_key k c.order) refl

  pub new_lru-IsWf : (max : ℕ) → IsWf (new_lru {K = K} {V = V} max)
  unfolding new_lru id_of lookup
  new_lru-IsWf max = record { indexed = λ k. refl; distinct = tt; fresh = tt }

  absent-Apart :
      (i : ℕ) (k : K) (xs : List (Element K V))
      → find_key k xs ≡ none
      → All (λ x. x.id < i) xs
      → All (Apart i k) xs
  unfolding find_key
  absent-Apart i k [] h a = tt
  absent-Apart i k (x ∷ xs) h a = elim (Bool-cases (x.key == k)) [
    | inl q ↦ let impossible : some x ≡ none = rw q at h in cc
    | inr q ↦ (record { ids = ground (arith, a.0); keys = q }, absent-Apart i k xs (rw q at h) a.1)
  ]

  fresh-suc :
      (n : ℕ) (xs : List (Element K V)) → All (λ x. x.id < n) xs → All (λ x. x.id < suc n) xs
  fresh-suc n [] a = tt
  fresh-suc n (x ∷ xs) a = (omega (arith, a.0), fresh-suc n xs a.1)

  push_front-IsWf :
      (k : K) (v : V) (c : Lru K V) → IsWf c → find_key k c.order ≡ none → IsWf (push_front k v c)
  unfolding push_front id_of
  push_front-IsWf k v c w h = record {
    indexed = λ j. lookup-insert k j c.next_id c.items ∙ ground (arith, w.indexed j);
    distinct = (absent-Apart c.next_id k c.order h w.fresh, w.distinct);
    fresh = (omega arith, fresh-suc c.next_id c.order w.fresh);
  }

  evict-IsWf : (c : Lru K V) → IsWf c → IsWf (evict c)
  unfolding evict
  evict-IsWf c w = elim (Option-cases (back c.order)) [
    | inl h ↦ rw (h, evict) w
    | inr (x, h) ↦
        let found = find_key-back c.order x w.distinct h in
        let same = remove_id-remove_key x.key c.order x w.distinct found in
        rw (h, evict, same)
          (record {
            indexed = λ j.
                lookup-delete x.key j c.items
                ∙ ground (arith, w.indexed j, id_of-remove_key x.key j c.order);
            distinct = Distinct-remove_key x.key c.order w.distinct;
            fresh = All-remove_key (λ y. y.id < c.next_id) x.key c.order w.fresh;
          })
  ]

  view-evict : (c : Lru K V) → IsWf c → view (evict c).order ≡ drop_last (view c.order)
  unfolding evict
  view-evict c w = elim (Option-cases (back c.order)) [
    | inl h ↦ rw (h, evict) (empty c.order h)
    | inr (x, h) ↦
        let found = find_key-back c.order x w.distinct h in
        rw (h, evict, remove_id-remove_key x.key c.order x w.distinct found)
          (delete-back c.order x w.distinct h)
  ]
    where
      empty : (xs : List (Element K V)) → back xs ≡ none → view xs ≡ drop_last (view xs)
      empty [] h = unfold view drop_last in refl
      empty (x ∷ xs) h = absurd (some_back x xs h)
        where
          some_back : (x : Element K V) (xs : List (Element K V)) → back (x ∷ xs) ≢ none
          some_back x [] h = unfold back in cc
          some_back x (y ∷ ys) h = some_back y ys (unfold back in h)

  -- A lookup in a well-formed cache answers what the specification, a list of entries by last use,
  -- holds, moves the entry in front as it does, and keeps the cache well formed.
  pub get-refines :
      (k : K) (c : Lru K V)
      → IsWf c
      → IsWf (get k c).0
        × (view (get k c).0.order ≡ (spec_get k (view c.order)).0)
        × ((get k c).1 ≡ (spec_get k (view c.order)).1)
  unfolding get spec_get
  get-refines k c w = elim (Option-cases (find_key k c.order)) [
    | inl h ↦
        let absent : lookup k (view c.order) ≡ none = rw (lookup-view k c.order, h) refl in
        rw (element_lem k c w, h, absent, get, spec_get) (w, refl, refl)
    | inr (x, h) ↦
        let present : lookup k (view c.order) ≡ some x.val = rw (lookup-view k c.order, h) refl in
        rw (element_lem k c w, h, present, get, spec_get)
          (to_front-IsWf k x.val c x w h, view-to_front k x.val c x w h, refl)
  ]

  length-view : (xs : List (Element K V)) → length (view xs) ≡ length xs
  unfolding view
  length-view [] = refl
  length-view (x ∷ xs) = ap suc (length-view xs)

  -- A new key goes in front, and the oldest goes out where that is one too many.
  put_new :
      (k : K) (v : V) (c : Lru K V)
      → IsWf c
      → find_key k c.order ≡ none
      → IsWf (trim (push_front k v c))
        × (view (trim (push_front k v c)).order ≡ (
            if ltb c.max (suc (length (view c.order)))
            then drop_last ((k, v) ∷ view c.order)
            else (k, v) ∷ view c.order))
  unfolding trim
  put_new k v c w h =
      let pushed = push_front-IsWf k v c w h in
      elim (Bool-cases (ltb c.max (suc (length c.order)))) [
        | inl over ↦
            rw (length-view c.order, same_length, over)
              (
                evict-IsWf (push_front k v c) pushed,
                view-evict (push_front k v c) pushed ∙ same_view,
              )
        | inr fits ↦
            rw (length-view c.order, same_length, fits) (pushed, unfold push_front view in refl)
      ]
    where
      same_length :
          ltb (push_front k v c).max (length (push_front k v c).order)
          ≡ ltb c.max (suc (length c.order))
      same_length = unfold push_front in refl

      same_view : drop_last (view (push_front k v c).order) ≡ drop_last ((k, v) ∷ view c.order)
      same_view = unfold push_front view in refl

  -- A write to a well-formed cache does what the specification does, the eviction of the entry
  -- used longest ago included, and keeps the cache well formed.
  pub put-refines :
      (k : K) (v : V) (c : Lru K V)
      → IsWf c
      → IsWf (put k v c) × (view (put k v c).order ≡ spec_put c.max k v (view c.order))
  unfolding put spec_put
  put-refines k v c w = elim (Option-cases (find_key k c.order)) [
    | inl h ↦
        let absent : lookup k (view c.order) ≡ none = rw (lookup-view k c.order, h) refl in
        rw (element_lem k c w, h, absent, put, spec_put) (put_new k v c w h)
    | inr (x, h) ↦
        let present : lookup k (view c.order) ≡ some x.val = rw (lookup-view k c.order, h) refl in
        rw (element_lem k c w, h, present, put, spec_put)
          (to_front-IsWf k v c x w h, view-to_front k v c x w h)
  ]

-- ===== src/OperatorCa/Lru/Values.antt =====
-- What holds of every value in the cache, and reading back what was written.
use manager.Prelude.{
  ℕ, suc, ◌<◌, ◌≡◌, refl, ◌∙◌, inl, inr, Bool, true, false, none, some, List, [], ◌∷◌, ltb,
  Comparable, ◌==◌, nat_eq, if◌then◌else◌, Map, lookup, length, All, arith, ==-self, Bool-cases,
  Option-cases,
}
use manager.OperatorCa.Lru.{
  Element, Lru, find, remove_id, set_id, back, element, to_front, get, evict, push_front, trim, put,
  set_val, sweep, remove,
}
use manager.OperatorCa.Lru.Order.{drop_last, touch, spec_get, spec_put, view, IsWf}
use manager.OperatorCa.Lru.Refines.{get-refines, put-refines}

module _ {K V : Type 0} ⦃e : Comparable K⦄ (P : V → Type 0) where
  abbrev pub AllVals : List (Element K V) → Type 0
  AllVals xs = All (λ x. P x.val) xs

  find-AllVals :
      (i : ℕ) (xs : List (Element K V)) (x : Element K V)
      → find i xs ≡ some x
      → AllVals xs
      → P x.val
  unfolding find
  find-AllVals i [] x h a = cc
  find-AllVals i (y ∷ ys) x h a = elim (Bool-cases (y.id == i)) [
    | inl q ↦ let same : some y ≡ some x = rw q at h in ground (arith, a.0, same)
    | inr q ↦ find-AllVals i ys x (rw q at h) a.1
  ]

  element-AllVals :
      (k : K) (c : Lru K V) (x : Element K V) → element k c ≡ some x → AllVals c.order → P x.val
  unfolding element
  element-AllVals k c x h a = elim (Option-cases (lookup k c.items)) [
    | inl q ↦ let stuck : none ≡ some x = rw (q, element) at h in cc
    | inr (i, q) ↦ find-AllVals i c.order x (rw (q, element) at h) a
  ]

  remove_id-AllVals : (i : ℕ) (xs : List (Element K V)) → AllVals xs → AllVals (remove_id i xs)
  unfolding remove_id
  remove_id-AllVals i [] a = tt
  remove_id-AllVals i (x ∷ xs) a = elim (Bool-cases (x.id == i)) [
    | inl q ↦ rw q (remove_id-AllVals i xs a.1)
    | inr q ↦ rw q (a.0, remove_id-AllVals i xs a.1)
  ]

  evict-AllVals : (c : Lru K V) → AllVals c.order → AllVals (evict c).order
  unfolding evict
  evict-AllVals c a = elim (Option-cases (back c.order)) [
    | inl q ↦ rw (q, evict) a
    | inr (x, q) ↦ rw (q, evict) (remove_id-AllVals x.id c.order a)
  ]

  pub get-AllVals : (k : K) (c : Lru K V) → AllVals c.order → AllVals (get k c).0.order
  unfolding get to_front
  get-AllVals k c a = elim (Option-cases (element k c)) [
    | inl q ↦ rw (q, get) a
    | inr (x, q) ↦ rw (q, get) (element-AllVals k c x q a, remove_id-AllVals x.id c.order a)
  ]

  -- Whatever is read satisfies what every value does.
  pub get-val : (k : K) (c : Lru K V) (v : V) → AllVals c.order → (get k c).1 ≡ some v → P v
  unfolding get
  get-val k c v a h = elim (Option-cases (element k c)) [
    | inl q ↦ let stuck : none ≡ some v = rw (q, get) at h in cc
    | inr (x, q) ↦
        let same : some x.val ≡ some v = rw (q, get) at h in
        ground (arith, same, element-AllVals k c x q a)
  ]

  pub put-AllVals :
      (k : K) (v : V) (c : Lru K V) → P v → AllVals c.order → AllVals (put k v c).order
  unfolding put trim push_front to_front
  put-AllVals k v c p a = elim (Option-cases (element k c)) [
    | inl q ↦ rw (q, put) (pushed (ltb c.max (suc (length c.order))))
    | inr (x, q) ↦ rw (q, put) (p, remove_id-AllVals x.id c.order a)
  ]
    where
      new : Lru K V
      new = push_front k v c

      pushed : (b : Bool) → AllVals (if b then evict new else new).order
      pushed true = evict-AllVals new (p, a)
      pushed false = (p, a)

  set_id-AllVals :
      (i : ℕ) (v : V) (xs : List (Element K V)) → P v → AllVals xs → AllVals (set_id i v xs)
  unfolding set_id
  set_id-AllVals i v [] p a = tt
  set_id-AllVals i v (x ∷ xs) p a = elim (Bool-cases (x.id == i)) [
    | inl q ↦ rw q (p, set_id-AllVals i v xs p a.1)
    | inr q ↦ rw q (a.0, set_id-AllVals i v xs p a.1)
  ]

  pub set_val-AllVals :
      (k : K) (v : V) (c : Lru K V) → P v → AllVals c.order → AllVals (set_val k v c).order
  unfolding set_val
  set_val-AllVals k v c p a = elim (Option-cases (element k c)) [
    | inl q ↦ rw (q, set_val) a
    | inr (x, q) ↦ rw (q, set_val) (set_id-AllVals x.id v c.order p a)
  ]

  sweep-AllVals :
      (match : K → Bool) (m : Map K ℕ) (xs : List (Element K V))
      → AllVals xs
      → AllVals (sweep match m xs)
  unfolding sweep
  sweep-AllVals match [] xs a = a
  sweep-AllVals match ((k, i) ∷ m) xs a = elim (Bool-cases (match k)) [
    | inl q ↦ rw q (sweep-AllVals match m (remove_id i xs) (remove_id-AllVals i xs a))
    | inr q ↦ rw q (sweep-AllVals match m xs a)
  ]

  pub remove-AllVals :
      (match : K → Bool) (c : Lru K V) → AllVals c.order → AllVals (remove match c).order
  unfolding remove
  remove-AllVals match c a = sweep-AllVals match c.items c.order a

module _ {K V : Type 0} ⦃e : Comparable K⦄ where
  pub put-max : (k : K) (v : V) (c : Lru K V) → (put k v c).max ≡ c.max
  unfolding put trim push_front to_front evict
  put-max k v c = ground arith

  pub get-max : (k : K) (c : Lru K V) → (get k c).0.max ≡ c.max
  unfolding get to_front
  get-max k c = ground arith

  lookup-spec_put :
      (max : ℕ) (k : K) (v : V) (m : Map K V) → 0 < max → lookup k (spec_put max k v m) ≡ some v
  unfolding spec_put touch lookup drop_last
  lookup-spec_put max k v [] h = ground (arith, ==-self k)
  lookup-spec_put max k v (p ∷ m) h = ground (arith, ==-self k)

  -- In a well-formed cache with room for an entry, what is written is read back next.
  pub get-put : (k : K) (v : V) (c : Lru K V) → IsWf c → 0 < c.max → (get k (put k v c)).1 ≡ some v
  get-put k v c w h =
      let (put_wf, put_view) = put-refines k v c w in
      (get-refines k (put k v c) put_wf).2
      ∙ read k v (view (put k v c).order) (rw put_view (lookup-spec_put c.max k v (view c.order) h))
    where
      read : (k : K) (v : V) (m : Map K V) → lookup k m ≡ some v → (spec_get k m).1 ≡ some v
      read k v m q = unfold spec_get in rw (q, spec_get) refl

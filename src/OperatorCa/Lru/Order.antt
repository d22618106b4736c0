-- ===== src/OperatorCa/Lru/Order.antt =====
-- The elements of the cache in their order: by key, by id, and as the entries of the specification.
use manager.Prelude.{
  ℕ, ◌<◌, ◌≡◌, refl, ◌∙◌, inl, inr, false, Option, none, some, List, [], ◌∷◌, ltb, Comparable, ◌==◌,
  nat_eq, if◌then◌else◌, Map, lookup, delete, length, All, arith, ==-self, nat_beq_iff, Bool-cases,
  Option-cases,
}
use manager.OperatorCa.Lru.{Element, Lru, find, remove_id, back, element}

unfoldable pub drop_last {ℓ} : {A : Type ℓ} → List A → List A
drop_last [] = []
drop_last (p ∷ []) = []
drop_last (p ∷ q ∷ m) = p ∷ drop_last (q ∷ m)

module _ {K V : Type 0} ⦃e : Comparable K⦄ where
  -- The specification: a map whose entries stand in order of use, the last used in front.
  unfoldable pub touch : K → V → Map K V → Map K V
  touch k v m = (k, v) ∷ delete k m

  unfoldable pub spec_get : K → Map K V → Map K V × Option V
  spec_get k m = elim (lookup k m) [ none ↦ (m, none) | some v ↦ (touch k v m, some v) ]

  unfoldable pub spec_put : ℕ → K → V → Map K V → Map K V
  spec_put max k v m = elim (lookup k m) [
    | none ↦ if ltb max (length ((k, v) ∷ m)) then drop_last ((k, v) ∷ m) else (k, v) ∷ m
    | some _ ↦ touch k v m
  ]

  unfoldable pub view : List (Element K V) → Map K V
  view [] = []
  view (x ∷ xs) = (x.key, x.val) ∷ view xs

  unfoldable pub find_key : K → List (Element K V) → Option (Element K V)
  find_key k [] = none
  find_key k (x ∷ xs) = if x.key == k then some x else find_key k xs

  unfoldable pub remove_key : K → List (Element K V) → List (Element K V)
  remove_key k [] = []
  remove_key k (x ∷ xs) = let rest = remove_key k xs in if x.key == k then rest else x ∷ rest

  unfoldable pub id_of : K → List (Element K V) → Option ℕ
  id_of k [] = none
  id_of k (x ∷ xs) = if x.key == k then some x.id else id_of k xs

  pub record Apart (i : ℕ) (k : K) (y : Element K V) : Type 0 where
    pub ids : (y.id == i) ≡ false
    pub keys : (y.key == k) ≡ false

  abbrev pub Distinct : List (Element K V) → Type 0
  Distinct [] = Unit
  Distinct (x ∷ xs) = All (Apart x.id x.key) xs × Distinct xs

  -- The index names exactly the elements of the list, no two share a key or an id, and the ids
  -- handed out lie below the next one.
  pub record IsWf (c : Lru K V) : Type 0 where
    pub indexed : (k : K) → lookup k c.items ≡ id_of k c.order
    pub distinct : Distinct c.order
    pub fresh : All (λ x. x.id < c.next_id) c.order

  pub All-find_key :
      (P : Element K V → Type 0) (k : K) (xs : List (Element K V)) (x : Element K V)
      → find_key k xs ≡ some x
      → All P xs
      → P x × (x.key ≡ k)
  unfolding find_key
  All-find_key P k [] x h a = cc
  All-find_key P k (y ∷ ys) x h a = elim (Bool-cases (y.key == k)) [
    | inl q ↦
        let same : some y ≡ some x = rw q at h in
        (ground (arith, a.0), ground (arith, (e.same_iff y.key k).0 q))
    | inr q ↦ All-find_key P k ys x (rw q at h) a.1
  ]

  pub find_key-none : (k : K) (xs : List (Element K V)) → find_key k xs ≡ none → id_of k xs ≡ none
  unfolding find_key id_of
  find_key-none k [] h = refl
  find_key-none k (x ∷ xs) h = ground (arith, find_key-none k xs)

  pub id_of-find_key :
      (k : K) (xs : List (Element K V)) (x : Element K V)
      → find_key k xs ≡ some x
      → id_of k xs ≡ some x.id
  unfolding find_key id_of
  id_of-find_key k [] x h = cc
  id_of-find_key k (y ∷ ys) x h = ground (arith, id_of-find_key k ys x)

  -- Among distinct elements the id leads to the element that the key leads to.
  find-find_key :
      (k : K) (xs : List (Element K V)) (x : Element K V)
      → Distinct xs
      → find_key k xs ≡ some x
      → find x.id xs ≡ some x
  unfolding find_key find
  find-find_key k [] x d h = cc
  find-find_key k (y ∷ ys) x d h = elim (Bool-cases (y.key == k)) [
    | inl q ↦ let same : some y ≡ some x = rw q at h in ground (arith, ==-self y.id)
    | inr q ↦
        let rest : find_key k ys ≡ some x = rw q at h in
        let apart = (All-find_key (Apart y.id y.key) k ys x rest d.0).0 in
        ground (arith, apart.ids, find-find_key k ys x d.1 rest)
  ]

  pub element_lem : (k : K) (c : Lru K V) → IsWf c → element k c ≡ find_key k c.order
  unfolding element
  element_lem k c w = elim (Option-cases (find_key k c.order)) [
    | inl h ↦ rw (w.indexed k ∙ find_key-none k c.order h, element, h) refl
    | inr (x, h) ↦
        rw (w.indexed k ∙ id_of-find_key k c.order x h, element, h)
          (find-find_key k c.order x w.distinct h)
  ]

  pub lookup-view :
      (k : K) (xs : List (Element K V))
      → lookup k (view xs) ≡ elim (find_key k xs) [ none ↦ none | some x ↦ some x.val ]
  unfolding lookup view find_key
  lookup-view k [] = refl
  lookup-view k (x ∷ xs) = ground (arith, lookup-view k xs)

  pub view-remove_key :
      (k : K) (xs : List (Element K V)) → view (remove_key k xs) ≡ delete k (view xs)
  unfolding view remove_key delete
  view-remove_key k [] = refl
  view-remove_key k (x ∷ xs) = ground (arith, view-remove_key k xs)

  pub All-remove_key :
      (P : Element K V → Type 0) (k : K) (xs : List (Element K V))
      → All P xs
      → All P (remove_key k xs)
  unfolding remove_key
  All-remove_key P k [] a = tt
  All-remove_key P k (x ∷ xs) a = elim (Bool-cases (x.key == k)) [
    | inl q ↦ rw q (All-remove_key P k xs a.1)
    | inr q ↦ rw q (a.0, All-remove_key P k xs a.1)
  ]

  pub Distinct-remove_key :
      (k : K) (xs : List (Element K V)) → Distinct xs → Distinct (remove_key k xs)
  unfolding remove_key
  Distinct-remove_key k [] d = tt
  Distinct-remove_key k (x ∷ xs) d = elim (Bool-cases (x.key == k)) [
    | inl q ↦ rw q (Distinct-remove_key k xs d.1)
    | inr q ↦ rw q (All-remove_key (Apart x.id x.key) k xs d.0, Distinct-remove_key k xs d.1)
  ]

  pub id_of-remove_key :
      (k j : K) (xs : List (Element K V))
      → id_of j (remove_key k xs) ≡ (if k == j then none else id_of j xs)
  unfolding id_of remove_key
  id_of-remove_key k j [] = ground arith
  id_of-remove_key k j (x ∷ xs) =
      ground
        (arith, id_of-remove_key k j xs, e.same_iff x.key k, e.same_iff x.key j, e.same_iff k j)

  -- Nothing to remove.
  remove_id-Apart :
      (x : Element K V) (xs : List (Element K V))
      → All (Apart x.id x.key) xs
      → remove_id x.id xs ≡ xs
  unfolding remove_id
  remove_id-Apart x [] a = refl
  remove_id-Apart x (y ∷ ys) a = rw (a.0.ids, remove_id-Apart x ys a.1) refl

  remove_key-Apart :
      (x : Element K V) (xs : List (Element K V))
      → All (Apart x.id x.key) xs
      → remove_key x.key xs ≡ xs
  unfolding remove_key
  remove_key-Apart x [] a = refl
  remove_key-Apart x (y ∷ ys) a = rw (a.0.keys, remove_key-Apart x ys a.1) refl

  -- Removing the element that a key leads to, by its id, is removing the key.
  pub remove_id-remove_key :
      (k : K) (xs : List (Element K V)) (x : Element K V)
      → Distinct xs
      → find_key k xs ≡ some x
      → remove_id x.id xs ≡ remove_key k xs
  unfolding find_key remove_id remove_key
  remove_id-remove_key k [] x d h = cc
  remove_id-remove_key k (y ∷ ys) x d h = elim (Bool-cases (y.key == k)) [
    | inl q ↦
        let same : some y ≡ some x = rw q at h in
        let same_key : y.key ≡ k = (e.same_iff y.key k).0 q in
        let ids = remove_id-Apart y ys d.0 in
        let keys = remove_key-Apart y ys d.0 in
        ground (arith, q, same, ids, keys, same_key, ==-self y.id, ==-self y.key)
    | inr q ↦
        let rest : find_key k ys ≡ some x = rw q at h in
        let apart = (All-find_key (Apart y.id y.key) k ys x rest d.0).0 in
        let ih = remove_id-remove_key k ys x d.1 rest in
        ground (arith, apart.ids, ih, q, nat_beq_iff x.id y.id, nat_beq_iff y.id x.id)
  ]

  pub Apart-remove_key :
      (x : Element K V) (k : K) (xs : List (Element K V))
      → Distinct xs
      → find_key k xs ≡ some x
      → All (Apart x.id x.key) (remove_key k xs)
  unfolding find_key remove_key
  Apart-remove_key x k [] d h = tt
  Apart-remove_key x k (y ∷ ys) d h = elim (Bool-cases (y.key == k)) [
    | inl q ↦
        let same : some y ≡ some x = rw q at h in
        let same_key : y.key ≡ k = (e.same_iff y.key k).0 q in
        let keys : remove_key k ys ≡ ys = rw (← same_key) (remove_key-Apart y ys d.0) in
        let is_x : y ≡ x = ground (arith, same) in rw (q, keys, ← is_x) d.0
    | inr q ↦
        let rest : find_key k ys ≡ some x = rw q at h in
        let apart = (All-find_key (Apart y.id y.key) k ys x rest d.0).0 in
        rw q (
          record {
            ids = ground (arith, apart.ids);
            keys = ground (arith, apart.keys, e.same_iff y.key x.key, e.same_iff x.key y.key);
          },
          Apart-remove_key x k ys d.1 rest,
        )
  ]

  -- The last element of a list of distinct ones is the one that its key leads to.
  pub find_key-back :
      (xs : List (Element K V)) (x : Element K V)
      → Distinct xs
      → back xs ≡ some x
      → find_key x.key xs ≡ some x
  unfolding back find_key
  find_key-back [] x d h = cc
  find_key-back (y ∷ []) x d h = ground (arith, ==-self y.key, h)
  find_key-back (y ∷ z ∷ ys) x d h =
      let ih = find_key-back (z ∷ ys) x d.1 h in
      let apart = (All-find_key (Apart y.id y.key) x.key (z ∷ ys) x ih d.0).0 in
      rw (flip y x apart) ih
    where
      flip : (y x : Element K V) → Apart y.id y.key x → (y.key == x.key) ≡ false
      flip y x a = ground (arith, a.keys, e.same_iff y.key x.key, e.same_iff x.key y.key)

  -- Removing the last element by its key drops the last entry.
  pub delete-back :
      (xs : List (Element K V)) (x : Element K V)
      → Distinct xs
      → back xs ≡ some x
      → view (remove_key x.key xs) ≡ drop_last (view xs)
  unfolding back view remove_key drop_last
  delete-back [] x d h = cc
  delete-back (y ∷ []) x d h = ground (arith, ==-self y.key, h)
  delete-back (y ∷ z ∷ ys) x d h =
      let found = find_key-back (z ∷ ys) x d.1 h in
      let apart = (All-find_key (Apart y.id y.key) x.key (z ∷ ys) x found d.0).0 in
      let ih = delete-back (z ∷ ys) x d.1 h in
      ground (arith, apart.keys, e.same_iff y.key x.key, e.same_iff x.key y.key, ih)

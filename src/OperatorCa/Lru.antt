-- ===== src/OperatorCa/Lru.antt =====
-- internal/operatorca/lru.go: the least-recently-used cache, a list of elements with an index of
-- the keys. Go's pointers to list elements are ids here; an id is never used twice. Each method
-- runs under the cache's lock, so it is one step.
pub mod Order
pub mod Refines
pub mod Values
use manager.Prelude.{
  ℕ, suc, ◌+◌, Bool, true, false, not, Option, none, some, List, [], ◌∷◌, ◌++◌, ltb, Comparable,
  ◌==◌, nat_eq, if◌then◌else◌, Map, lookup, insert, delete, length, keep,
}

-- *list.Element holding an *lruEntry
pub record Element {ℓ κ} (K : Type ℓ) (V : Type κ) : Type (ℓ ⊔ κ) where
  pub id : ℕ
  pub key : K
  pub val : V

-- `order` has the element used last in front.
pub record Lru {ℓ κ} (K : Type ℓ) (V : Type κ) : Type (ℓ ⊔ κ) where
  pub max : ℕ
  pub order : List (Element K V)
  pub items : Map K ℕ
  pub next_id : ℕ

module _ {ℓ κ} {K : Type ℓ} {V : Type κ} where
  unfoldable pub find : ℕ → List (Element K V) → Option (Element K V)
  find i [] = none
  find i (x ∷ xs) = if x.id == i then some x else find i xs

  -- order.Remove(e)
  unfoldable pub remove_id : ℕ → List (Element K V) → List (Element K V)
  remove_id i [] = []
  remove_id i (x ∷ xs) = let rest = remove_id i xs in if x.id == i then rest else x ∷ rest

  unfoldable pub set_id : ℕ → V → List (Element K V) → List (Element K V)
  set_id i v [] = []
  set_id i v (x ∷ xs) = (if x.id == i then record x { val = v } else x) ∷ set_id i v xs

  -- order.Back()
  unfoldable pub back : List (Element K V) → Option (Element K V)
  back [] = none
  back (x ∷ []) = some x
  back (x ∷ y ∷ xs) = back (y ∷ xs)

module _ {ℓ κ} {K : Type ℓ} {V : Type κ} ⦃e : Comparable K⦄ where
  unfoldable pub new_lru : ℕ → Lru K V
  new_lru max = record { max = max; order = []; items = []; next_id = 0 }

  -- The element that the index names, if any.
  unfoldable pub element : K → Lru K V → Option (Element K V)
  element k c = elim (lookup k c.items) [ none ↦ none | some i ↦ find i c.order ]

  -- Gives `x`'s place in front to `x` as it is now.
  unfoldable pub to_front : Element K V → Lru K V → Lru K V
  to_front x c = record c { order = x ∷ remove_id x.id c.order }

  unfoldable pub get : K → Lru K V → Lru K V × Option V
  get k c = elim (element k c) [ none ↦ (c, none) | some x ↦ (to_front x c, some x.val) ]

  unfoldable pub evict : Lru K V → Lru K V
  evict c = elim (back c.order) [
    | none ↦ c
    | some oldest ↦ record c {
      order = remove_id oldest.id c.order;
      items = delete oldest.key c.items;
    }
  ]

  unfoldable pub push_front : K → V → Lru K V → Lru K V
  push_front k v c = record c {
    order = record { id = c.next_id; key = k; val = v } ∷ c.order;
    items = insert k c.next_id c.items;
    next_id = suc c.next_id;
  }

  unfoldable pub trim : Lru K V → Lru K V
  trim c = if ltb c.max (length c.order) then evict c else c

  unfoldable pub put : K → V → Lru K V → Lru K V
  put k v c = elim (element k c) [
    | none ↦ trim (push_front k v c)
    | some x ↦ to_front (record x { val = v }) c
  ]

  -- The entry is changed where it stands, through the pointer that the cache holds.
  unfoldable pub set_val : K → V → Lru K V → Lru K V
  set_val k v c = elim (element k c) [
    | none ↦ c
    | some x ↦ record c { order = set_id x.id v c.order }
  ]

  unfoldable pub sweep : (K → Bool) → Map K ℕ → List (Element K V) → List (Element K V)
  sweep match [] order = order
  sweep match ((k, i) ∷ m) order = sweep match m (if match k then remove_id i order else order)

  -- remove(match): each key of the index that matches goes, with its element.
  unfoldable pub remove : (K → Bool) → Lru K V → Lru K V
  remove match c = record c {
    order = sweep match c.items c.order;
    items = keep (λ p. not (match p.0)) c.items;
  }

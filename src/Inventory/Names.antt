-- ===== src/Inventory/Names.antt =====
-- Names of nodes: each node is found under its name and its id, and a former name leads to the node
-- that gave it up last.
use manager.Prelude.{
  ℕ, ◌≤◌, ◌<◌, ◌≡◌, ◌≢◌, refl, sym, ap, ◌∙◌, inl, inr, true, false, not, ◌&&◌, ◌||◌, none, some,
  List, [], ◌∷◌, ◌++◌, String, map, ltb, ◌==◌, ==-self, nat_eq, string_eq, eq_iff, ok, ok_eq, Map,
  lookup, insert, delete, lookup-insert, lookup-insert_self, lookup-delete, Bool-cases,
  Option-cases, All, arith,
}
use manager.Inventory.{
  Node, NodeName, Inventory, node, find_id, node_by_id, no_span, latest_span, node_by_former_name,
  close_span, renamed, rename_found, rename_node,
}

pub find_id_sound :
    (id : String) (m : Map String Node) (n : Node) → find_id id m ≡ some n → n.id ≡ id
unfolding find_id
find_id_sound id [] n h = absurd (cc)
find_id_sound id ((k, x) ∷ m) n h = elim (Bool-cases (x.id == id)) [
  | inl e ↦ let q = rw e at h in let same : x ≡ n = cc in rw (← same) ((eq_iff x.id id).0 e)
  | inr e ↦ find_id_sound id m n (rw e at h)
]

-- The history says that the node has the name now.
pub data Holds (id name : String) : List NodeName → Type 0 where
  here :
      {h : NodeName} {hs : List NodeName}
      → h.node_id ≡ id
      → h.name ≡ name
      → h.until ≡ 0
      → Holds id name (h ∷ hs)
  there : {h : NodeName} {hs : List NodeName} → Holds id name hs → Holds id name (h ∷ hs)

-- No span ends after `at`, and one that ends at `at` is the node's.
abbrev Before : String → ℕ → NodeName → Type 0
Before id at h = (h.until ≤ at) × (h.until ≡ at → h.node_id ≡ id)

-- The span is the node's and ends at `at`.
abbrev IsLast : String → ℕ → NodeName → Type 0
IsLast id at h = (h.node_id ≡ id) × (h.until ≡ at)

latest_span-IsLast :
    (id name : String) (at : ℕ) (hs : List NodeName) (latest : NodeName)
    → id ≢ ""
    → All (Before id at) hs
    → IsLast id at latest
    → IsLast id at (latest_span name hs latest)
unfolding latest_span
latest_span-IsLast id name at [] latest nz a l = l
latest_span-IsLast id name at (h ∷ hs) x nz a l =
    let stays : (h.name == name && not (h.until == 0) && (x.node_id == "" || ltb x.until h.until))
        ≡ false =
      ground (arith, l.1, a.0.0, eq_iff x.node_id "", nz, l.0) in
    rw (stays, latest_span) (latest_span-IsLast id name at hs x nz a.1 l)

-- The history says that the node gave up the name at `at`.
data GaveUp (id name : String) (at : ℕ) : List NodeName → Type 0 where
  here :
      {h : NodeName} {hs : List NodeName}
      → h.node_id ≡ id
      → h.name ≡ name
      → h.until ≡ at
      → GaveUp id name at (h ∷ hs)
  there : {h : NodeName} {hs : List NodeName} → GaveUp id name at hs → GaveUp id name at (h ∷ hs)

latest_span-found :
    (id name : String) (at : ℕ) (hs : List NodeName) (latest : NodeName)
    → id ≢ ""
    → at ≢ 0
    → All (Before id at) hs
    → latest.until < at
    → GaveUp id name at hs
    → IsLast id at (latest_span name hs latest)
unfolding latest_span
latest_span-found id name at [] x ne nz a b g = elim g [ ]
latest_span-found id name at (h ∷ hs) x ne nz a b (here i n u) =
    let chosen : (h.name == name && not (h.until == 0) && (x.node_id == "" || ltb x.until h.until))
        ≡ true =
      ground (arith, eq_iff h.name name, n, u, nz, b) in
    rw (chosen, latest_span) (latest_span-IsLast id name at hs h ne a.1 (i, u))
latest_span-found id name at (h ∷ hs) x ne nz a b (there g) =
    elim (Bool-cases
      (h.name == name && not (h.until == 0) && (x.node_id == "" || ltb x.until h.until))) [
        | inr e ↦ rw (e, latest_span) (latest_span-found id name at hs x ne nz a.1 b g)
        | inl e ↦ elim (Bool-cases (h.until == at)) [
          | inl u ↦
              let ends : h.until ≡ at = ground (arith, u) in
              rw (e, latest_span) (latest_span-IsLast id name at hs h ne a.1 (a.0.1 ends, ends))
          | inr u ↦
              rw (e, latest_span)
                (latest_span-found id name at hs h ne nz a.1 (ground (arith, u, a.0.0)) g)
        ]
      ]

close_span-GaveUp :
    (id name : String) (at : ℕ) (hs tail : List NodeName)
    → Holds id name hs
    → GaveUp id name at (map (close_span id at) hs ++ tail)
unfolding close_span
close_span-GaveUp id name at [] tail x = elim x [ ]
close_span-GaveUp id name at (h ∷ hs) tail (here i n u) =
    let closes : (h.node_id == id && h.until == 0) ≡ true = rw (i, u, ==-self id) refl in
    rw closes (here i n refl)
close_span-GaveUp id name at (h ∷ hs) tail (there x) =
    there (close_span-GaveUp id name at hs tail x)

close_span-Before :
    (id new_name : String) (at : ℕ) (hs : List NodeName)
    → All (λ h. h.until < at) hs
    → All (Before id at) (
        map (close_span id at) hs
        ++ record { node_id = id; name = new_name; since = at; until = 0 } ∷ [])
unfolding close_span
close_span-Before id new_name at [] a = ((omega arith, λ e. refl), tt)
close_span-Before id new_name at (h ∷ hs) a = elim (Bool-cases (h.node_id == id && h.until == 0)) [
  | inl e ↦ rw e (
    (omega arith, λ x. (eq_iff h.node_id id).0 (ground (arith, e))),
    close_span-Before id new_name at hs a.1,
  )
  | inr e ↦ rw e (
    (omega (arith, a.0), λ x. absurd (omega (arith, x, a.0))),
    close_span-Before id new_name at hs a.1,
  )
]

rename_found-ok :
    (id new_name : String) (at : ℕ) (was n : Node) (s : Inventory)
    → (rename_found id new_name at was s).1 ≡ ok n
    → was.name ≢ new_name
    → (n ≡ record was { name = new_name })
      × ((rename_found id new_name at was s).0 ≡ renamed id new_name at was s)
unfolding rename_found
rename_found-ok id new_name at was n s h ne = elim (Bool-cases (was.name == new_name)) [
  | inl e ↦ absurd (ne ((eq_iff was.name new_name).0 e))
  | inr e ↦ elim (Option-cases (lookup new_name s.nodes)) [
    | inr (x, q) ↦ absurd (let k = rw (e, q) at h in cc)
    | inl q ↦ (sym (ok_eq (rw (e, q) at h)), rw (e, q) refl)
  ]
]

renamed-node_by_id :
    (id new_name : String) (at : ℕ) (was : Node) (s : Inventory)
    → was.id ≡ id
    → node_by_id id (renamed id new_name at was s) ≡ some (record was { name = new_name })
unfolding node_by_id renamed find_id insert
renamed-node_by_id id new_name at was s same = ground (arith, eq_iff was.id id)

follow :
    (id name : String) (at : ℕ) (s : Inventory) (n : Node)
    → id ≢ ""
    → IsLast id at (latest_span name s.node_names no_span)
    → node_by_id id s ≡ some n
    → node_by_former_name name s ≡ some n
unfolding node_by_former_name node_by_id
follow id name at s n ne l found =
    let latest = latest_span name s.node_names no_span in
    let given : (latest.node_id == "") ≡ false =
      ground (arith, eq_iff latest.node_id "", l.0, ne) in
    rw given (ap (λ x. find_id x s.nodes) l.0 ∙ found)

renamed-node :
    (id new_name : String) (at : ℕ) (was : Node) (s : Inventory)
    → was.name ≢ new_name
    → (node new_name (renamed id new_name at was s) ≡ some (record was { name = new_name }))
      × (node was.name (renamed id new_name at was s) ≡ none)
unfolding node renamed
renamed-node id new_name at was s ne =
    let moved : Node = record was { name = new_name } in
    let rest = delete was.name s.nodes in
    (
      lookup-insert_self new_name moved rest,
      lookup-insert new_name was.name moved rest
          ∙ ground (
            arith,
            lookup-delete was.name was.name s.nodes,
            ==-self was.name,
            eq_iff new_name was.name,
            ne,
          ),
    )

renamed-IsLast :
    (id new_name : String) (at : ℕ) (was : Node) (s : Inventory)
    → Holds id was.name s.node_names
    → All (λ h. h.until < at) s.node_names
    → id ≢ ""
    → at ≢ 0
    → IsLast id at (latest_span was.name (renamed id new_name at was s).node_names no_span)
unfolding renamed
renamed-IsLast id new_name at was s holds before ne nz =
    latest_span-found id was.name at _ no_span ne nz
      (close_span-Before id new_name at s.node_names before) (omega (arith, nz))
      (close_span-GaveUp id was.name at s.node_names _ holds)

-- When a node, whose id is not empty, is renamed to another name, at a time after every span of the history, and the history says
-- that it has its old name: it is found under the new name and under its id, with nothing else of it
-- changed, no node has the old name, and the old name as a former name leads to it.
pub rename_node-followed :
    (id new_name : String) (at : ℕ) (s : Inventory) (was n : Node)
    → node_by_id id s ≡ some was
    → was.name ≢ new_name
    → Holds id was.name s.node_names
    → All (λ h. h.until < at) s.node_names
    → id ≢ ""
    → at ≢ 0
    → (rename_node id new_name at s).1 ≡ ok n
    → (n ≡ record was { name = new_name })
      × (node new_name (rename_node id new_name at s).0 ≡ some n)
      × (node_by_id id (rename_node id new_name at s).0 ≡ some n)
      × (node was.name (rename_node id new_name at s).0 ≡ none)
      × (node_by_former_name was.name (rename_node id new_name at s).0 ≡ some n)
unfolding rename_node node_by_id
rename_node-followed id new_name at s was n found ne holds before given nz h =
    let same_id = find_id_sound id s.nodes was found in
    let (is_n, is_t) = rename_found-ok id new_name at was n s (rw (found, rename_node) at h) ne in
    let t = renamed id new_name at was s in
    let answer : (rename_node id new_name at s).0 ≡ t = rw (found, rename_node) is_t in
    let by_id = renamed-node_by_id id new_name at was s same_id in
    let (by_name, old_name) = renamed-node id new_name at was s ne in
    rw (is_n, answer)
      (
        refl,
        by_name,
        by_id,
        old_name,
        follow id was.name at t (record was { name = new_name }) given
            (renamed-IsLast id new_name at was s holds before given nz) by_id,
      )

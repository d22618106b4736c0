-- ===== src/Fleet/Removal.antt =====
-- When RemoveNode removes a node, and what it leaves.
use manager.Prelude.{
  ℕ, ◌≡◌, ◌≢◌, ◌↔◌, refl, ap, ◌∙◌, inl, inr, false, Option, none, some, [], ◌∷◌, ◌++◌, String, ◌==◌,
  string_eq, eq_iff, if◌then◌else◌, Result, ok, err, ok_eq, >>=-ok, Result-cases, subst, ◌>>◌,
  refuse_if, lookup-delete, Bool-cases, Option-cases, arith,
}
use manager.Authz.{Identity, Level, viewer, operator, admin, below, rank}
use manager.Inventory.{Node, Inventory, Missing, node, find_id, node_by_id, remove_node}
use manager.Inventory.Names.{find_id_sound}
use manager.Fleet.{
  State, permission_denied, require_admin, require_level, operator_level, invalid_argument,
}
use manager.Fleet.Nodes.{names_node, after_remove, remove_known, remove_found, remove_node_call}

-- The caller is an administrator.
abbrev pub IsAdmin : Option Identity → Type 0
IsAdmin none = ⊥
IsAdmin (some who) = who.level ≡ admin

pub require_admin-IsAdmin :
    (caller : Option Identity) → require_admin caller ≡ ok tt → IsAdmin caller
unfolding require_admin require_level operator_level below rank
require_admin-IsAdmin none h = absurd (cc)
require_admin-IsAdmin (some who) h = level who.level h
  where
    level : (l : Level) → refuse_if (below l admin) permission_denied ≡ ok tt → l ≡ admin
    level viewer h = absurd (cc)
    level operator h = absurd (cc)
    level admin h = refl

pub IsAdmin-require_admin :
    (caller : Option Identity) → IsAdmin caller → require_admin caller ≡ ok tt
unfolding require_admin require_level operator_level below rank
IsAdmin-require_admin none a = absurd a
IsAdmin-require_admin (some who) a = rw a refl

-- An administrator names a node, confirms its name, and no pending enrollment names the node.
abbrev pub Removes : Option Identity → String → String → State → Node → Type 0
Removes caller id confirm s n =
    IsAdmin caller
    × (id ≢ "")
    × (node_by_id id s.inventory ≡ some n)
    × (confirm ≡ n.name)
    × (names_node n s.enrollments ≡ false)

-- The rows after a removal.
abbrev pub without : Node → ℕ → State → State
without n now s = record s {
  inventory = (remove_node n.id now s.inventory).0;
  audit = s.audit ++ record { kind = "node-removed"; target_id = n.id } ∷ [];
}

pub guards-ok :
    (caller : Option Identity) (id : String)
    → (require_admin caller >> refuse_if (id == "") invalid_argument) ≡ ok tt
    → IsAdmin caller × (id ≢ "")
guards-ok caller id h =
    let (u, admin_ok, rest) =
      >>=-ok (require_admin caller) (λ _. refuse_if (id == "") invalid_argument) h in
    (require_admin-IsAdmin caller admin_ok, given id rest)
  where
    given : (id : String) → refuse_if (id == "") invalid_argument ≡ ok tt → id ≢ ""
    given id h p = let e = (eq_iff id "").1 p in let k = rw e at h in cc

pub ok-guards :
    (caller : Option Identity) (id : String)
    → IsAdmin caller
    → id ≢ ""
    → (require_admin caller >> refuse_if (id == "") invalid_argument) ≡ ok tt
ok-guards caller id a ne = elim (Bool-cases (id == "")) [
  | inl e ↦ absurd (ne ((eq_iff id "").0 e))
  | inr e ↦ rw (IsAdmin-require_admin caller a, e) refl
]

remove_node-known :
    (id : String) (now : ℕ) (s : Inventory) (n : Node)
    → node_by_id id s ≡ some n
    → (remove_node n.id now s).1 ≡ ok n
unfolding node_by_id remove_node
remove_node-known id now s n h =
    let same = find_id_sound id s.nodes n h in
    let known : find_id n.id s.nodes ≡ some n = ap (λ x. find_id x s.nodes) same ∙ h in
    rw (known, remove_node) refl

after_remove-known :
    (id : String) (now : ℕ) (s : State) (n : Node)
    → node_by_id id s.inventory ≡ some n
    → after_remove s (remove_node n.id now s.inventory) ≡ (without n now s, ok n)
unfolding after_remove
after_remove-known id now s n h =
    go (remove_node n.id now s.inventory) (remove_node-known id now s.inventory n h)
  where
    go :
        (r : Inventory × Result Missing Node)
        → r.1 ≡ ok n
        → after_remove s r ≡ (
          record s {
            inventory = r.0;
            audit = s.audit ++ record { kind = "node-removed"; target_id = n.id } ∷ [];
          },
          ok n,
        )
    go (t, ok m) q = let same : m ≡ n = ok_eq q in rw same refl
    go (t, err e) q = absurd (cc)

remove_known-Removes :
    (id confirm : String) (now : ℕ) (s : State) (n m : Node)
    → node_by_id id s.inventory ≡ some n
    → (remove_known confirm now s n).1 ≡ ok m
    → (n ≡ m) × (confirm ≡ n.name) × (names_node n s.enrollments ≡ false)
unfolding remove_known
remove_known-Removes id confirm now s n m known h = elim (Bool-cases (confirm == n.name)) [
  | inr e ↦ absurd (let k = rw (remove_known, e) at h in cc)
  | inl e ↦ elim (Bool-cases (names_node n s.enrollments)) [
    | inl f ↦ absurd (let k = rw (remove_known, e, f) at h in cc)
    | inr f ↦
        let k = rw (remove_known, e, f, after_remove-known id now s n known) at h in
        (ok_eq k, (eq_iff confirm n.name).0 e, f)
  ]
]

Removes-remove_known :
    (caller : Option Identity) (id confirm : String) (now : ℕ) (s : State) (n : Node)
    → Removes caller id confirm s n
    → remove_node_call caller id confirm now s ≡ (without n now s, ok n)
unfolding remove_node_call remove_found remove_known
Removes-remove_known caller id confirm now s n (a, ne, known, c, free) =
    rw
      (
        remove_node_call,
        ok-guards caller id a ne,
        known,
        remove_found,
        remove_known,
        (eq_iff confirm n.name).1 c,
        free,
      )
      (after_remove-known id now s n known)

remove_node_call-Removes :
    (caller : Option Identity) (id confirm : String) (now : ℕ) (s : State) (n : Node)
    → (remove_node_call caller id confirm now s).1 ≡ ok n
    → Removes caller id confirm s n
unfolding remove_node_call remove_found
remove_node_call-Removes caller id confirm now s n h =
    elim (Result-cases (require_admin caller >> refuse_if (id == "") invalid_argument)) [
      | inr (e, q) ↦ absurd (let k = rw (remove_node_call, q) at h in cc)
      | inl (u, q) ↦ elim (Option-cases (node_by_id id s.inventory)) [
        | inl z ↦ absurd (let k = rw (remove_node_call, q, z, remove_found) at h in cc)
        | inr (m, z) ↦
            let k = rw (remove_node_call, q, z, remove_found) at h in
            let (same, c, free) = remove_known-Removes id confirm now s m n z k in
            let (a, ne) = guards-ok caller id q in
            (
              a,
              ne,
              z ∙ ap some same,
              c ∙ ap (λ x. x.name) same,
              subst (λ x. names_node x s.enrollments ≡ false) same free,
            )
      ]
    ]

without-node :
    (n : Node) (now : ℕ) (s : State) (id : String)
    → node_by_id id s.inventory ≡ some n
    → (name : String)
    → node name (without n now s).inventory
      ≡ (if n.name == name then none else node name s.inventory)
unfolding node remove_node node_by_id
without-node n now s id h name =
    let same = find_id_sound id s.inventory.nodes n h in
    let known : find_id n.id s.inventory.nodes ≡ some n =
      ap (λ x. find_id x s.inventory.nodes) same ∙ h in
    rw (known, remove_node)
      (lookup-delete n.name name s.inventory.nodes
        ∙ ground (arith, eq_iff n.name name, eq_iff name n.name))

-- RemoveNode answers with a node exactly when an administrator gives its id, which is not empty, and
-- confirms its name, and no enrollment that waits for approval names the node.
pub remove_node_call_iff :
    (caller : Option Identity) (id confirm : String) (now : ℕ) (s : State) (n : Node)
    → ((remove_node_call caller id confirm now s).1 ≡ ok n) ↔ Removes caller id confirm s n
remove_node_call_iff caller id confirm now s n = (
  remove_node_call-Removes caller id confirm now s n,
  λ r. ap (λ x. x.1) (Removes-remove_known caller id confirm now s n r),
)

-- When RemoveNode answers with a node, no node has its name any more, every other name leads where it
-- led, no enrollment has changed, and one event about the node was added to the audit log.
pub remove_node_call-gone :
    (caller : Option Identity) (id confirm : String) (now : ℕ) (s : State) (n : Node)
    → (remove_node_call caller id confirm now s).1 ≡ ok n
    → ((name : String)
        → node name (remove_node_call caller id confirm now s).0.inventory
          ≡ (if n.name == name then none else node name s.inventory))
      × ((remove_node_call caller id confirm now s).0.enrollments ≡ s.enrollments)
      × ((remove_node_call caller id confirm now s).0.audit
          ≡ s.audit ++ record { kind = "node-removed"; target_id = n.id } ∷ [])
remove_node_call-gone caller id confirm now s n h =
    let r = remove_node_call-Removes caller id confirm now s n h in
    let (a, ne, known, confirmed, free) = r in
    rw (Removes-remove_known caller id confirm now s n r)
      (without-node n now s id known, refl, refl)

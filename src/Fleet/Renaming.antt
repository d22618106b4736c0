-- ===== src/Fleet/Renaming.antt =====
-- How requests find a node after RenameNode.
use manager.Prelude.{
  ℕ, ◌<◌, ◌≡◌, ◌≢◌, refl, sym, ap, subst, ◌∙◌, inl, inr, false, not, Option, none, some, String,
  ◌==◌, ==-self, string_eq, eq_iff, if◌then◌else◌, Result, ok, err, ok_eq, >>=-ok, Result-cases,
  ◌>>◌, refuse_if, All, Option-cases, arith,
}
use manager.Authz.{Identity}
use manager.Inventory.{
  Node, Inventory, Missing, node, find_id, node_by_id, node_by_former_name, rename_node,
}
use manager.Inventory as Inventory
use manager.Inventory.Names.{Holds, find_id_sound, rename_node-followed}
use manager.Fleet.{State, require_admin, node_not_found, node_ref_mismatch, invalid_argument}
use manager.Fleet.Removal.{IsAdmin, guards-ok}
use manager.Fleet.Nodes.{
  current_names, former_names_too, former_too, by_name, found, by_id, same_node, resolve_node,
  Texts, validate_node_name, to_rename, after_rename, rename_to, rename_node_call,
}

to_rename-known :
    (texts : Texts) (caller : Option Identity) (id new_name : String) (s : Inventory) (n : Node)
    → to_rename texts caller id new_name s ≡ ok n
    → IsAdmin caller × (id ≢ "") × (node_by_id id s ≡ some n)
unfolding to_rename resolve_node by_id
to_rename-known texts caller id new_name s n h =
    let (u, first, h3) =
      >>=-ok
        (require_admin caller
          >> refuse_if (id == "") invalid_argument
          >> validate_node_name texts new_name)
        (λ _. resolve_node id "" current_names s) h in
    let (v, guards, valid) =
      >>=-ok (require_admin caller >> refuse_if (id == "") invalid_argument)
        (λ _. validate_node_name texts new_name) first in
    let (a, ne) = guards-ok caller id guards in
    let given : (id == "") ≡ false = ground (arith, eq_iff id "", ne) in
    (
      a,
      ne,
      elim (Option-cases (node_by_id id s)) [
        | inl z ↦ absurd (let k = rw (resolve_node, given, by_id, z) at h3 in cc)
        | inr (m, z) ↦ let k = rw (resolve_node, given, by_id, z) at h3 in z ∙ ap some (ok_eq k)
      ],
    )

after_rename-ok :
    (s : State) (r : Inventory × Result Missing Node) (n : Node)
    → (after_rename s r).1 ≡ ok n
    → (r.1 ≡ ok n) × ((after_rename s r).0.inventory ≡ r.0)
unfolding after_rename
after_rename-ok s (t, ok m) n h = (ap ok (ok_eq h), refl)
after_rename-ok s (t, err Inventory.node_name_taken) n h = absurd (cc)
after_rename-ok s (t, err Inventory.node_not_found) n h = absurd (cc)

-- A successful call to rename a node to another name ran the rename of the store.
rename_node_call-ok :
    (texts : Texts) (caller : Option Identity) (id new_name : String) (now : ℕ) (s : State)
    (was n : Node)
    → node_by_id id s.inventory ≡ some was
    → was.name ≢ new_name
    → (rename_node_call texts caller id new_name now s).1 ≡ ok n
    → (id ≢ "")
      × ((rename_node id new_name now s.inventory).1 ≡ ok n)
      × ((rename_node_call texts caller id new_name now s).0.inventory
          ≡ (rename_node id new_name now s.inventory).0)
unfolding rename_node_call rename_to node_by_id
rename_node_call-ok texts caller id new_name now s was n known ne h =
    elim (Result-cases (to_rename texts caller id new_name s.inventory)) [
      | inr (e, q) ↦ absurd (let k = rw (rename_node_call, q) at h in cc)
      | inl (m, q) ↦
          let (a, given, found_it) = to_rename-known texts caller id new_name s.inventory m q in
          let some_same : some was ≡ some m = sym known ∙ found_it in
          let same : was ≡ m = cc in
          let same_id : m.id ≡ id = find_id_sound id s.inventory.nodes m found_it in
          let other : (m.name == new_name) ≡ false =
            subst (λ x. (x.name == new_name) ≡ false) same
              (ground (arith, eq_iff was.name new_name, ne)) in
          let k : (after_rename s (rename_node m.id new_name now s.inventory)).1 ≡ ok n =
            rw (rename_node_call, q, rename_to, other) at h in
          let (ran, inv) = after_rename-ok s (rename_node m.id new_name now s.inventory) n k in
          let ran_id = subst (λ x. (rename_node x new_name now s.inventory).1 ≡ ok n) same_id ran in
          let inv_id = inv ∙ ap (λ x. (rename_node x new_name now s.inventory).0) same_id in
          (given, ran_id, rw (rename_node_call, q, rename_to, other) inv_id)
    ]

found_by :
    (id : String) (t : Inventory) (n : Node) (name old : String)
    → id ≢ ""
    → node_by_id id t ≡ some n
    → node name t ≡ some n
    → node old t ≡ none
    → node_by_former_name old t ≡ some n
    → (resolve_node id "" current_names t ≡ ok n)
      × (resolve_node "" name current_names t ≡ ok n)
      × (resolve_node "" old former_names_too t ≡ ok n)
      × (resolve_node id old former_names_too t ≡ ok n)
      × (resolve_node "" old current_names t ≡ err node_not_found)
unfolding resolve_node by_id by_name found former_too same_node
found_by id t n name old ne known here gone former =
    let given : (id == "") ≡ false = ground (arith, eq_iff id "", ne) in
    (
      rw (resolve_node, given, by_id, known) refl,
      rw (resolve_node, by_name, here) refl,
      rw (resolve_node, by_name, gone, former_too, former) refl,
      rw (resolve_node, given, by_id, known, by_name, gone, former_too, former) (same n),
      rw (resolve_node, by_name, gone) refl,
    )
  where
    same :
        (n : Node)
        → (if old == "" then ok n else (if not (n.id == n.id) then err node_ref_mismatch else ok n))
          ≡ ok n
    same n = ground (arith, ==-self n.id)

-- After RenameNode gave the node with an id another name, at a time after every span of the history and
-- while the history says that the node has its old name: a request finds it by its id and by its new
-- name; GetNode, which also reads former names, finds it by its old name, alone and beside the id; and
-- to every other request the old name leads nowhere.
pub rename_node_call-found :
    (texts : Texts) (caller : Option Identity) (id new_name : String) (now : ℕ) (s : State)
    (was n : Node)
    → node_by_id id s.inventory ≡ some was
    → was.name ≢ new_name
    → Holds id was.name s.inventory.node_names
    → All (λ h. h.until < now) s.inventory.node_names
    → now ≢ 0
    → (rename_node_call texts caller id new_name now s).1 ≡ ok n
    → (resolve_node id "" current_names
          (rename_node_call texts caller id new_name now s).0.inventory
        ≡ ok n)
      × (resolve_node "" new_name current_names
            (rename_node_call texts caller id new_name now s).0.inventory
          ≡ ok n)
      × (resolve_node "" was.name former_names_too
            (rename_node_call texts caller id new_name now s).0.inventory
          ≡ ok n)
      × (resolve_node id was.name former_names_too
            (rename_node_call texts caller id new_name now s).0.inventory
          ≡ ok n)
      × (resolve_node "" was.name current_names
            (rename_node_call texts caller id new_name now s).0.inventory
          ≡ err node_not_found)
rename_node_call-found texts caller id new_name now s was n known ne holds before nz h =
    let (given, ran, same) = rename_node_call-ok texts caller id new_name now s was n known ne h in
    let (is_n, here, by, gone, former) =
      rename_node-followed id new_name now s.inventory was n known ne holds before given nz ran in
    rw same (
      found_by id (rename_node id new_name now s.inventory).0 n new_name was.name given by here gone
        former)

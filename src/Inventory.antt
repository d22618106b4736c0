-- ===== src/Inventory.antt =====
-- The inventory of internal/store/memory/memory.go: nodes and the history of their names, profiles,
-- adapters, enrollments and operator credentials. A fresh node id is an argument.
pub mod Catalog
pub mod Names
pub mod Refines
use manager.Prelude.{
  ℕ, Bool, true, false, not, ◌&&◌, ◌||◌, Option, none, some, List, [], ◌∷◌, ◌++◌, String, map, ltb,
  ◌==◌, nat_eq, string_eq, if◌then◌else◌, Result, ok, err, Map, lookup, insert, delete,
}

-- store.Node
pub record Node : Type 0 where
  pub id : String
  pub name : String
  pub endpoint : String
  pub role : String
  pub admin_cert : String
  pub admin_key : String
  pub ca_cert : String

-- store.NodeName
pub record NodeName : Type 0 where
  pub node_id : String
  pub name : String
  pub since : ℕ
  pub until : ℕ

-- The errors of the inventory.
pub data Missing : Type 0 where
  node_not_found node_name_taken : Missing

-- The nodes by name, and the history in the order it was recorded.
pub record Inventory : Type 0 where
  pub nodes : Map String Node
  pub node_names : List NodeName

-- Node
unfoldable pub node : String → Inventory → Option Node
node name s = lookup name s.nodes

-- nodeByIDLocked. Ids are distinct, so the order of the map does not matter.
unfoldable pub find_id : String → Map String Node → Option Node
find_id id [] = none
find_id id ((k, n) ∷ nodes) = let rest = find_id id nodes in if n.id == id then some n else rest

-- NodeByID
unfoldable pub node_by_id : String → Inventory → Option Node
node_by_id id s = find_id id s.nodes

-- A span that Go leaves at its zero value.
abbrev pub no_span : NodeName
no_span = record { node_id = ""; name = ""; since = 0; until = 0 }

-- The loop of NodeByFormerName.
unfoldable pub latest_span : String → List NodeName → NodeName → NodeName
latest_span name [] latest = latest
latest_span name (h ∷ hs) latest = latest_span name hs (
    if h.name == name && not (h.until == 0) && (latest.node_id == "" || ltb latest.until h.until)
    then h
    else latest)

-- NodeByFormerName
unfoldable pub node_by_former_name : String → Inventory → Option Node
unfolding latest_span
node_by_former_name name s =
    let latest = latest_span name s.node_names no_span in
    if latest.node_id == "" then none else find_id latest.node_id s.nodes

unfoldable pub with_id : String → Node → Node
with_id fresh n = if n.id == "" then record n { id = fresh } else n

-- AddNode
unfoldable pub add_node : String → Node → Inventory → Inventory
add_node fresh n s = elim (lookup n.name s.nodes) [
  | some existing ↦ record s { nodes = insert n.name (record n { id = existing.id }) s.nodes }
  | none ↦ record {
    nodes = insert n.name (with_id fresh n) s.nodes;
    node_names =
        s.node_names
        ++ record { node_id = (with_id fresh n).id; name = n.name; since = 0; until = 0 } ∷ [];
  }
]

-- The loop of NewWithCatalog, over each node with the fresh id drawn for it if it needs one.
unfoldable pub load : List (String × Node) → Inventory → Inventory
unfolding with_id
load [] s = s
load ((fresh, n) ∷ nodes) s = load nodes record {
  nodes = insert n.name (with_id fresh n) s.nodes;
  node_names =
      s.node_names
      ++ record { node_id = (with_id fresh n).id; name = n.name; since = 0; until = 0 } ∷ [];
}

-- What NewWithCatalog makes of the nodes.
unfoldable pub new_with_catalog : List (String × Node) → Inventory
unfolding load
new_with_catalog nodes = load nodes record { nodes = []; node_names = [] }

-- One round of the loop that closes the current span of a node.
unfoldable pub close_span : String → ℕ → NodeName → NodeName
close_span id at h = if h.node_id == id && h.until == 0 then record h { until = at } else h

-- RemoveNode
unfoldable pub remove_node : String → ℕ → Inventory → Inventory × Result Missing Node
remove_node id at s = elim (find_id id s.nodes) [
  | none ↦ (s, err node_not_found)
  | some n ↦ (
    record { nodes = delete n.name s.nodes; node_names = map (close_span id at) s.node_names },
    ok n,
  )
]

unfoldable pub renamed : String → String → ℕ → Node → Inventory → Inventory
renamed id new_name at n s = record {
  nodes = insert new_name (record n { name = new_name }) (delete n.name s.nodes);
  node_names =
      map (close_span id at) s.node_names
      ++ record { node_id = id; name = new_name; since = at; until = 0 } ∷ [];
}

unfoldable pub rename_found :
    String → String → ℕ → Node → Inventory → Inventory × Result Missing Node
rename_found id new_name at n s =
    if n.name == new_name then (s, ok n) else elim (lookup new_name s.nodes) [
      | some other ↦ (s, err node_name_taken)
      | none ↦ (renamed id new_name at n s, ok (record n { name = new_name }))
    ]

-- RenameNode
unfoldable pub rename_node : String → String → ℕ → Inventory → Inventory × Result Missing Node
rename_node id new_name at s = elim (find_id id s.nodes) [
  | none ↦ (s, err node_not_found)
  | some n ↦ rename_found id new_name at n s
]

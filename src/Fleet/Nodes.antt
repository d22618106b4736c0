-- ===== src/Fleet/Nodes.antt =====
-- internal/fleet/nodeid.go and removenode.go: how a request names a node, renaming and removal.
use manager.Prelude.{
  ℕ, Bool, false, not, ◌&&◌, ◌||◌, Option, none, some, List, [], ◌∷◌, ◌++◌, String, ◌==◌, string_eq,
  if◌then◌else◌, Result, ok, err, ◌>>◌, refuse_if,
}
use manager.Authz.{Identity}
use manager.Inventory.{
  Node, Inventory, Missing, node, node_by_id, node_by_former_name, rename_node, remove_node,
}
use manager.Inventory as Inventory
use manager.Inventory.Catalog.{Enrollment}
use manager.Fleet.{
  State, Refusal, invalid_argument, node_not_found, node_ref_mismatch, node_name_invalid,
  node_name_taken, remove_not_confirmed, node_in_use, require_admin,
}

-- nodeLookup
pub data NodeLookup : Type 0 where
  current_names former_names_too : NodeLookup

unfoldable pub former_too : NodeLookup → String → Inventory → Option Node
former_too current_names name s = none
former_too former_names_too name s = node_by_former_name name s

-- The closure byName of resolveNode.
unfoldable pub by_name : NodeLookup → String → Inventory → Option Node
unfolding former_too
by_name names name s = elim (node name s) [ some n ↦ some n | none ↦ former_too names name s ]

unfoldable pub found : Option Node → Result Refusal Node
found none = err node_not_found
found (some n) = ok n

-- Whether the name leads to the node that the id leads to.
unfoldable pub same_node : Node → Option Node → Result Refusal Node
same_node n none = err node_ref_mismatch
same_node n (some other) = if not (other.id == n.id) then err node_ref_mismatch else ok n

unfoldable pub by_id : NodeLookup → String → Inventory → Option Node → Result Refusal Node
unfolding same_node by_name
by_id names name s none = err node_not_found
by_id names name s (some n) = if name == "" then ok n else same_node n (by_name names name s)

-- resolveNode
unfoldable pub resolve_node : String → String → NodeLookup → Inventory → Result Refusal Node
unfolding found by_id by_name
resolve_node id name names s =
    if id == "" then found (by_name names name s) else by_id names name s (node_by_id id s)

-- regexp.MatchString, and uuid.Parse followed by String.
pub record Texts : Type 0 where
  pub match_string : String → String → Bool
  pub parse_uuid : String → Option String

abbrev pub node_label : String
node_label = "^[a-z0-9]([a-z0-9-]{0,61}[a-z0-9])?$"

-- IsNodeID
unfoldable pub is_node_id : Texts → String → Bool
is_node_id texts s = elim (texts.parse_uuid s) [ none ↦ false | some id ↦ id == s ]

-- validateNodeName
unfoldable pub validate_node_name : Texts → String → Result Refusal (Unit {0})
unfolding is_node_id
validate_node_name texts name =
    refuse_if (not (texts.match_string node_label name)) node_name_invalid
    >> refuse_if (is_node_id texts name) node_name_invalid

-- The guards of RenameNode, and the node that it is about.
unfoldable pub to_rename :
    Texts → Option Identity → String → String → Inventory → Result Refusal Node
unfolding require_admin validate_node_name resolve_node
to_rename texts caller id new_name s =
    require_admin caller
    >> refuse_if (id == "") invalid_argument
    >> validate_node_name texts new_name
    >> resolve_node id "" current_names s

unfoldable pub after_rename : State → Inventory × Result Missing Node → State × Result Refusal Node
after_rename s (t, err Inventory.node_name_taken) = (s, err node_name_taken)
after_rename s (t, err Inventory.node_not_found) = (s, err node_not_found)
after_rename s (t, ok n) = (
  record s {
    inventory = t;
    audit = s.audit ++ record { kind = "node-renamed"; target_id = n.id } ∷ [];
  },
  ok n,
)

unfoldable pub rename_to : String → ℕ → State → Node → State × Result Refusal Node
unfolding after_rename
rename_to new_name now s current =
    if current.name == new_name
    then (s, ok current)
    else after_rename s (rename_node current.id new_name now s.inventory)

-- RenameNode
unfoldable pub rename_node_call :
    Texts → Option Identity → String → String → ℕ → State → State × Result Refusal Node
unfolding to_rename rename_to
rename_node_call texts caller id new_name now s =
    elim (to_rename texts caller id new_name s.inventory) [
      | err e ↦ (s, err e)
      | ok current ↦ rename_to new_name now s current
    ]

-- The loop of RemoveNode over the enrollments.
unfoldable pub names_node : Node → List Enrollment → Bool
names_node n [] = false
names_node n (e ∷ es) =
    (e.status == "PENDING" && (e.proposed_name == n.name || e.admitted_node_id == n.id))
    || names_node n es

unfoldable pub after_remove : State → Inventory × Result Missing Node → State × Result Refusal Node
after_remove s (t, err e) = (s, err node_not_found)
after_remove s (t, ok n) = (
  record s {
    inventory = t;
    audit = s.audit ++ record { kind = "node-removed"; target_id = n.id } ∷ [];
  },
  ok n,
)

unfoldable pub remove_known : String → ℕ → State → Node → State × Result Refusal Node
unfolding names_node after_remove
remove_known confirm now s n =
    if not (confirm == n.name)
    then (s, err remove_not_confirmed)
    else if names_node n s.enrollments
    then (s, err node_in_use)
    else after_remove s (remove_node n.id now s.inventory)

unfoldable pub remove_found : String → ℕ → State → Option Node → State × Result Refusal Node
unfolding remove_known
remove_found confirm now s none = (s, err node_not_found)
remove_found confirm now s (some n) = remove_known confirm now s n

-- RemoveNode, without the move of the node's credentials folder, which changes no row.
unfoldable pub remove_node_call :
    Option Identity → String → String → ℕ → State → State × Result Refusal Node
unfolding require_admin remove_found
remove_node_call caller id confirm now s =
    elim (require_admin caller >> refuse_if (id == "") invalid_argument) [
      | err e ↦ (s, err e)
      | ok u ↦ remove_found confirm now s (node_by_id id s.inventory)
    ]

-- ===== src/Tests/InventoryRuns.antt =====
-- The inventory and its handlers at concrete inputs: a node that takes a new name and one that is
-- removed, two profiles, and an enrollment that is rejected.
use manager.Prelude.{
  ◌<◌, ◌≡◌, ◌≢◌, refl, ◌==◌, string_eq, Bool, true, false, Option, none, some, List, [], ◌∷◌,
  String, ok, err, is_ok, ◌↔◌, ◌++◌, if◌then◌else◌, eq_iff, arith,
}
use manager.Inventory.{
  Node, NodeName, Inventory, node, node_by_id, node_by_former_name, rename_node, find_id,
  rename_found, renamed,
}
use manager.Inventory.Names.{here, there}
use manager.Inventory.Catalog.{Profile, Enrollment, enrollment, profile, find_row}
use manager.Authz.{Identity, admin}
use manager.Fleet.{State, node_not_found}
use manager.Fleet.Nodes.{
  Texts, resolve_node, current_names, former_names_too, rename_node_call, remove_node_call,
}
use manager.Fleet.Enrollments.{rejected, reject_enrollment}
use manager.Fleet.Removal.{Removes, remove_node_call_iff, remove_node_call-gone}
use manager.Fleet.Renaming.{rename_node_call-found}
use manager.Fleet.Catalog.{Outcome, profile_call, create, profile_call-Outcome}
use manager.Fleet.Rejection.{reject_enrollment_once}

abbrev named : String → Node
named name = record {
  id = "n1";
  name = name;
  endpoint = "10.0.0.1:50000";
  role = "root";
  admin_cert = "";
  admin_key = "";
  ca_cert = "";
}

abbrev span : String → NodeName
span name = record { node_id = "n1"; name = name; since = 0; until = 0 }

-- "old" was the name before "alpha".
abbrev inventory : Inventory
inventory = record {
  nodes = ("alpha", named "alpha") ∷ [];
  node_names = record { node_id = "n1"; name = "old"; since = 0; until = 3 } ∷ span "alpha" ∷ [];
}

-- The node leads from its first name after two renames.
rename_node_twice :
    node_by_former_name "old" (rename_node "n1" "beta" 5 inventory).0 ≡ some (named "beta")
unfolding node_by_former_name rename_node find_id rename_found manager.Prelude.lookup renamed
    manager.Inventory.close_span manager.Prelude.insert
rename_node_twice = refl

alpha_beta : ◌≢◌ {A = String} "alpha" "beta"
alpha_beta p = let stuck = (eq_iff "alpha" "beta").1 p in cc

n1_given : ◌≢◌ {A = String} "n1" ""
n1_given p = let stuck = (eq_iff "n1" "").1 p in cc

abbrev tls : Profile
tls = record { name = "tls"; spec = 1 ∷ [] }

abbrev ssh : Profile
ssh = record { name = "ssh"; spec = 2 ∷ [] }

-- Every name is a label, and none is an id.
abbrev texts : Texts
texts = record { match_string = λ pattern s. true; parse_uuid = λ s. none }

abbrev request : Enrollment
request = record {
  id = "enr-1";
  proposed_name = "gamma";
  role = "";
  parent_cn = "Root";
  address = "";
  status = "PENDING";
  attestation_summary = "";
  attestation_node_id = "";
  csr_key_type = "";
  csr_subject_cn = "";
  requested_at = "now";
  rejection_reason = "";
  admitted_node_name = "";
  admitted_node_id = "";
  kind = "SUBORDINATE";
  pinned_key_sha256 = "";
  attestation_ok = false;
  profile = "sub";
}

abbrev fleet : State
fleet = record {
  inventory = inventory;
  enrollments = request ∷ [];
  profiles = tls ∷ ssh ∷ [];
  audit = [];
}

abbrev boss : Option Identity
boss =
    some
      record { cn = "boss"; serial = []; level = admin; via = ""; key_id = ""; issuer_sha256 = "" }

rename_node_call-found_example :
    (resolve_node "n1" "" current_names
        (rename_node_call texts boss "n1" "beta" 5 fleet).0.inventory
      ≡ ok (named "beta"))
    × (resolve_node "" "beta" current_names
          (rename_node_call texts boss "n1" "beta" 5 fleet).0.inventory
        ≡ ok (named "beta"))
    × (resolve_node "" "alpha" former_names_too
          (rename_node_call texts boss "n1" "beta" 5 fleet).0.inventory
        ≡ ok (named "beta"))
    × (resolve_node "n1" "alpha" former_names_too
          (rename_node_call texts boss "n1" "beta" 5 fleet).0.inventory
        ≡ ok (named "beta"))
    × (resolve_node "" "alpha" current_names
          (rename_node_call texts boss "n1" "beta" 5 fleet).0.inventory
        ≡ err node_not_found)
unfolding node_by_id rename_node_call find_id manager.Authz.below manager.Authz.rank rename_node
    rename_found manager.Prelude.lookup
rename_node_call-found_example =
    rename_node_call-found texts boss "n1" "beta" 5 fleet (named "alpha") (named "beta") refl
      alpha_beta (there (here refl refl refl)) (omega arith, (omega arith, tt)) (omega arith) refl

remove_node_call_iff_example :
    ((remove_node_call boss "n1" "alpha" 5 fleet).1 ≡ ok (named "alpha"))
    ↔ Removes boss "n1" "alpha" fleet (named "alpha")
remove_node_call_iff_example = remove_node_call_iff boss "n1" "alpha" 5 fleet (named "alpha")

remove_node_call-gone_example :
    ((name : String)
      → node name (remove_node_call boss "n1" "alpha" 5 fleet).0.inventory
        ≡ (if (named "alpha").name == name then none else node name inventory))
    × ((remove_node_call boss "n1" "alpha" 5 fleet).0.enrollments ≡ fleet.enrollments)
    × ((remove_node_call boss "n1" "alpha" 5 fleet).0.audit
        ≡ [] ++ record { kind = "node-removed"; target_id = "n1" } ∷ [])
unfolding remove_node_call manager.Authz.below manager.Authz.rank node_by_id find_id
    manager.Inventory.remove_node
remove_node_call-gone_example = remove_node_call-gone boss "n1" "alpha" 5 fleet (named "alpha") refl

reject_enrollment_once_example :
    ((rejected "spam" request).status ≡ "REJECTED")
    × ((rejected "spam" request).rejection_reason ≡ "spam")
    × (enrollment "enr-1" (reject_enrollment boss "enr-1" "spam" fleet).0.enrollments
        ≡ some (rejected "spam" request))
    × ((k : String)
        → "enr-1" ≢ k
        → enrollment k (reject_enrollment boss "enr-1" "spam" fleet).0.enrollments
          ≡ enrollment k fleet.enrollments)
    × ((reject_enrollment boss "enr-1" "spam" fleet).0.inventory ≡ inventory)
    × ((again : Option Identity) (why : String)
        → is_ok
            (reject_enrollment again "enr-1" why (reject_enrollment boss "enr-1" "spam" fleet).0).1
          ≡ false)
unfolding reject_enrollment manager.Fleet.require_level manager.Authz.below manager.Authz.rank
    enrollment manager.Inventory.Catalog.update_enrollment
reject_enrollment_once_example =
    reject_enrollment_once boss "enr-1" "spam" fleet (rejected "spam" request) refl

-- A message is the profile's name.
profile_call-Outcome_example :
    Outcome {M = String}
      (λ m. m)
      (λ m. some [])
      (create (some "tls"))
      boss
      fleet
      (profile_call {M = String} (λ m. m) (λ m. some []) (create (some "tls")) boss fleet)
unfolding find_row
profile_call-Outcome_example =
    profile_call-Outcome {M = String} (λ m. m) (λ m. some []) (create (some "tls")) boss fleet
      (refl, (refl, tt))

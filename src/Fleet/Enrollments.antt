-- ===== src/Fleet/Enrollments.antt =====
-- internal/fleet/enrollment.go: opening a SUBORDINATE enrollment and rejecting one. A LINK, which dials
-- the node, and approvals, which run a ceremony between nodes, are not modelled.
use manager.Prelude.{
  false, not, ◌&&◌, ◌||◌, Option, none, some, List, [], ◌∷◌, ◌++◌, String, ◌==◌, string_eq,
  if◌then◌else◌, Result, ok, err, ◌>>=◌, ◌>>◌, refuse_if,
}
use manager.Authz.{Identity, operator}
use manager.Inventory.{Inventory}
use manager.Inventory.Catalog.{
  Enrollment, SliceError, enrollment, add_enrollment, update_enrollment,
}
use manager.Fleet.{
  State, Refusal, invalid_argument, internal, enrollment_not_found, not_pending, require_level,
}
use manager.Fleet.Nodes.{resolve_node, current_names}

-- The fields of CreateEnrollmentRequest that a SUBORDINATE reads.
pub record Request : Type 0 where
  pub child_node : String
  pub child_node_id : String
  pub parent_cn : String
  pub profile : String

-- The child's name: as given, or that of the node with the given id.
unfoldable pub child_name : Request → Inventory → Result Refusal String
unfolding resolve_node
child_name msg s =
    if msg.child_node_id == ""
    then ok msg.child_node
    else resolve_node msg.child_node_id msg.child_node current_names s >>= λ n. ok n.name

unfoldable pub child_of : Request → Inventory → Result Refusal String
unfolding child_name
child_of msg s =
    refuse_if
      ((msg.child_node == "" && msg.child_node_id == "")
        || msg.parent_cn == ""
        || msg.profile == "")
      invalid_argument
    >> child_name msg s

-- The row of a SUBORDINATE; `id` is drawn afresh and `at` is the current time, formatted.
unfoldable pub subordinate : String → String → Request → String → Enrollment
subordinate id at msg child = record {
  id = id;
  proposed_name = child;
  role = "";
  parent_cn = msg.parent_cn;
  address = "";
  status = "PENDING";
  attestation_summary = "";
  attestation_node_id = "";
  csr_key_type = "";
  csr_subject_cn = "";
  requested_at = at;
  rejection_reason = "";
  admitted_node_name = "";
  admitted_node_id = "";
  kind = "SUBORDINATE";
  pinned_key_sha256 = "";
  attestation_ok = false;
  profile = msg.profile;
}

-- createSubordinateEnrollment
unfoldable pub create_subordinate_enrollment :
    String → String → Request → State → State × Result Refusal Enrollment
unfolding child_of subordinate
create_subordinate_enrollment id at msg s = elim (child_of msg s.inventory) [
  | err e ↦ (s, err e)
  | ok child ↦ (
    record s { enrollments = add_enrollment (subordinate id at msg child) s.enrollments },
    ok (subordinate id at msg child),
  )
]

-- What RejectEnrollment does to the row.
unfoldable pub rejected : String → Enrollment → Enrollment
rejected reason e = record e { status = "REJECTED"; rejection_reason = reason }

-- The end of RejectEnrollment: the row read again, and the audit event.
unfoldable pub reject_done : State → Option Enrollment → State × Result Refusal Enrollment
reject_done s none = (s, err internal)
reject_done s (some final) = (
  record s { audit = s.audit ++ record { kind = "enroll-rejected"; target_id = final.id } ∷ [] },
  ok final,
)

unfoldable pub after_update :
    State
    → String
    → List Enrollment × Result SliceError (Unit {0})
    → State × Result Refusal Enrollment
unfolding reject_done
after_update s id (rows, err e) = (s, err internal)
after_update s id (rows, ok u) = reject_done (record s { enrollments = rows }) (enrollment id rows)

unfoldable pub reject_found : String → State → Option Enrollment → State × Result Refusal Enrollment
unfolding rejected after_update
reject_found reason s none = (s, err enrollment_not_found)
reject_found reason s (some e) =
    if not (e.status == "PENDING")
    then (s, err not_pending)
    else after_update s e.id (update_enrollment e.id (rejected reason) s.enrollments)

-- RejectEnrollment
unfoldable pub reject_enrollment :
    Option Identity → String → String → State → State × Result Refusal Enrollment
unfolding reject_found
reject_enrollment caller id reason s = elim (require_level operator caller) [
  | err e ↦ (s, err e)
  | ok u ↦ reject_found reason s (enrollment id s.enrollments)
]

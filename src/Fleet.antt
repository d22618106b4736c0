-- ===== src/Fleet.antt =====
-- internal/fleet: the state that the handlers of nodes, enrollments and profiles share, and their
-- guards. An audit row keeps its kind and the id or name of its target.
pub mod Nodes
pub mod Enrollments
pub mod Profiles
pub mod Catalog
pub mod Removal
pub mod Renaming
pub mod Rejection
use manager.Prelude.{Bool, Option, none, some, List, String, Result, ok, err, ◌>>=◌, refuse_if}
use manager.Authz.{Identity, Level, operator, admin, below}
use manager.Inventory.{Inventory}
use manager.Inventory.Catalog.{Enrollment, Profile}

-- What the audit log keeps of an event.
pub record Entry : Type 0 where
  pub kind : String
  pub target_id : String

pub record State : Type 0 where
  pub inventory : Inventory
  pub enrollments : List Enrollment
  pub profiles : List Profile
  pub audit : List Entry

-- The codes and errors that the handlers answer with.
pub data Refusal : Type 0 where
  unauthenticated permission_denied invalid_argument internal : Refusal
  node_not_found node_ref_mismatch node_name_invalid node_name_taken : Refusal
  remove_not_confirmed node_in_use enrollment_not_found not_pending : Refusal
  profile_exists profile_not_found : Refusal

-- operatorLevel
unfoldable pub operator_level : Option Identity → Result Refusal Identity
operator_level none = err unauthenticated
operator_level (some who) = ok who

-- The guard on a level that follows operatorLevel.
unfoldable pub require_level : Level → Option Identity → Result Refusal (Unit {0})
unfolding operator_level
require_level min caller =
    operator_level caller >>= λ who. refuse_if (below who.level min) permission_denied

-- requireAdmin
unfoldable pub require_admin : Option Identity → Result Refusal (Unit {0})
unfolding require_level
require_admin caller = require_level admin caller

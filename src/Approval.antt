-- ===== src/Approval.antt =====
-- internal/approval/approval.go: step-up approvals, over the approvals of the in-memory store
-- (internal/store/memory/memory.go). A person decides, an agent's key uses, each at most once.
pub mod Lifecycle
pub mod Use
use manager.Prelude.{
  ℕ, ◌+◌, ◌*◌, Bool, true, false, not, ◌&&◌, ◌||◌, Option, none, some, List, [], ◌∷◌, String, ltb,
  ◌==◌, nat_eq, string_eq, if◌then◌else◌, Result, ok, err, Map, lookup, insert,
}
use manager.OperatorCa.Base.{minute}
use manager.OperatorCa.Serial.{Text}
use manager.Authz.{Level, Identity, token, level_from_token, below}
use manager.Authz as Authz

abbrev pub default_ttl : ℕ
default_ttl = 15 * minute

pub data Error : Type 0 where
  not_found needs_cert not_pending approver_level awaiting denied_error expired_error : Error
  used_error mismatch key_level bad_level bad_status : Error

-- store.Approval, without its summary. Statuses are those of store.go.
pub record Approval : Type 0 where
  pub id : String
  pub tool : String
  pub request_digest : String
  pub requested_by_cn : String
  pub requested_by_serial : Text
  pub key_id : String
  pub required_level : String
  pub created_at : ℕ
  pub expires_at : ℕ
  pub status : String
  pub decided_by_cn : String
  pub decided_by_serial : Text
  pub decided_by_level : String
  pub decided_at : ℕ
  pub used_at : ℕ

abbrev pub pending : String
pending = "pending"

abbrev pub approved : String
approved = "approved"

abbrev pub denied : String
denied = "denied"

abbrev pub expired : String
expired = "expired"

abbrev pub used : String
used = "used"

-- Audit rows of the lifecycle: what happened to which approval, and who did it.
pub data Kind : Type 0 where
  requested_row approved_row denied_row decide_refused_row used_row : Kind

pub record Row : Type 0 where
  pub kind : Kind
  pub approval_id : String
  pub actor : Identity

pub record Store : Type 0 where
  pub approvals : Map String Approval
  pub audit : List Row

unfoldable pub record_row : Kind → String → Identity → Store → Store
record_row k id who s = record s {
  audit = record { kind = k; approval_id = id; actor = who } ∷ s.audit;
}

-- Status
unfoldable pub status : Approval → ℕ → String
status a now =
    if (a.status == pending || a.status == approved) && not (ltb now a.expires_at)
    then expired
    else a.status

-- AddApproval
unfoldable pub add_approval : Approval → Store → Store
add_approval a s = record s { approvals = insert a.id a s.approvals }

unfoldable pub decided : String → Identity → ℕ → Approval → Approval
decided status who at a = record a {
  status = status;
  decided_by_cn = who.cn;
  decided_by_serial = who.serial;
  decided_by_level = token who.level;
  decided_at = at;
}

-- DecideApproval
unfoldable pub decide_approval : String → String → Identity → ℕ → Store → Store × Option Approval
decide_approval id status who at s = elim (lookup id s.approvals) [
  | none ↦ (s, none)
  | some a ↦ if not (a.status == pending) || not (ltb at a.expires_at) then (s, none) else (
    record s { approvals = insert id (decided status who at a) s.approvals },
    some (decided status who at a),
  )
]

unfoldable pub spent : ℕ → Approval → Approval
spent at a = record a { status = used; used_at = at }

-- UseApproval
unfoldable pub use_approval : String → ℕ → Store → Store × Option Approval
use_approval id at s = elim (lookup id s.approvals) [
  | none ↦ (s, none)
  | some a ↦
      if not (a.status == approved) || not (ltb at a.expires_at)
      then (s, none)
      else (record s { approvals = insert id (spent at a) s.approvals }, some (spent at a))
]

-- ttl
unfoldable pub ttl_or_default : ℕ → ℕ
ttl_or_default ttl = if ltb 0 ttl then ttl else default_ttl

unfoldable pub new_approval : ℕ → ℕ → String → Identity → String → String → Level → Approval
new_approval now ttl id requester tool digest required = record {
  id = id;
  tool = tool;
  request_digest = digest;
  requested_by_cn = requester.cn;
  requested_by_serial = requester.serial;
  key_id = requester.key_id;
  required_level = token required;
  created_at = now;
  expires_at = now + ttl_or_default ttl;
  status = pending;
  decided_by_cn = "";
  decided_by_serial = [];
  decided_by_level = "";
  decided_at = 0;
  used_at = 0;
}

-- Request: `id` is the fresh random id
unfoldable pub request :
    ℕ → ℕ → String → Identity → String → String → Level → Store → Store × Approval
request now ttl id requester tool digest required s =
    let a = new_approval now ttl id requester tool digest required in
    (record_row requested_row id requester (add_approval a s), a)

unfoldable pub decision : Bool → String
decision true = approved
decision false = denied

unfoldable pub decision_row : Bool → Kind
decision_row true = approved_row
decision_row false = denied_row

unfoldable pub after_decide :
    Bool → String → Identity → Store × Option Approval → Store × Result Error Approval
after_decide approve id who (s, none) = (s, err not_pending)
after_decide approve id who (s, some a) = (record_row (decision_row approve) id who s, ok a)

unfoldable pub decide_at_level :
    ℕ → Identity → String → Bool → Result Authz.Error Level → Store → Store × Result Error Approval
decide_at_level now who id approve (err e) s = (s, err bad_level)
decide_at_level now who id approve (ok required) s =
    if below who.level required
    then (record_row decide_refused_row id who s, err approver_level)
    else after_decide approve id who (decide_approval id (decision approve) who now s)

-- Decide
unfoldable pub decide : ℕ → Identity → String → Bool → Store → Store × Result Error Approval
decide now who id approve s =
    if not (who.key_id == "") then (s, err needs_cert) else elim (lookup id s.approvals) [
      | none ↦ (s, err not_found)
      | some a ↦
          if not (status a now == pending)
          then (s, err not_pending)
          else decide_at_level now who id approve (level_from_token a.required_level) s
    ]

-- statusErr: `none` is nil
unfoldable pub status_err : String → Option Error
status_err st =
    if st == approved
    then none
    else if st == pending
    then some awaiting
    else if st == denied
    then some denied_error
    else if st == expired
    then some expired_error
    else some used_error

unfoldable pub lost_race : String → ℕ → Store → Error
lost_race id now s = elim (lookup id s.approvals) [
  | none ↦ used_error
  | some latest ↦ elim (status_err (status latest now)) [ none ↦ used_error | some e ↦ e ]
]

unfoldable pub after_use :
    ℕ → String → Identity → Store × Option Approval → Store × Result Error Approval
after_use now id who (s, none) = (s, err (lost_race id now s))
after_use now id who (s, some a) = (record_row used_row id who s, ok a)

unfoldable pub approver_below : Result Authz.Error Level → Level → Bool
approver_below (err e) min = true
approver_below (ok l) min = below l min

unfoldable pub use_checks : ℕ → Identity → String → String → Level → Approval → Option Error
use_checks now who tool digest min a =
    if not (a.key_id == who.key_id) || not (a.tool == tool) || not (a.request_digest == digest)
    then some mismatch
    else elim (status_err (status a now)) [
      | some e ↦ some e
      | none ↦
          if below who.level min
          then some key_level
          else if approver_below (level_from_token a.decided_by_level) min
          then some approver_level
          else none
    ]

-- Use
unfoldable pub use_call :
    ℕ → Identity → String → String → String → Level → Store → Store × Result Error Approval
use_call now who id tool digest min s = elim (lookup id s.approvals) [
  | none ↦ (s, err not_found)
  | some a ↦ elim (use_checks now who tool digest min a) [
    | some e ↦ (s, err e)
    | none ↦ after_use now id who (use_approval id now s)
  ]
]

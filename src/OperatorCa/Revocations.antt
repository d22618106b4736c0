-- ===== src/OperatorCa/Revocations.antt =====
-- internal/operatorca/revocation.go: the revocation engine of one replica. Its methods lock the
-- engine's mutex; each call is one step here, with the clock and what OCSP answers as arguments.
-- The log lines and audit rows that it writes are kept newest first in `logs` and `audits`.
pub mod Engine
pub mod Web
pub mod Mcp
pub mod Outage
pub mod Denylist
pub mod Poll
use manager.Prelude.{
  ℕ, ◌+◌, ◌-◌, ◌*◌, Bool, true, false, not, ◌&&◌, ◌||◌, Option, none, some, List, [], ◌∷◌, String,
  ltb, leb, ◌==◌, nat_eq, string_eq, bytes_eq, if◌then◌else◌, Result, ok, err, Map, lookup, insert,
  member, add,
}
use manager.OperatorCa.Base.{
  minute, hour, Certificate, Reason, Error, unknown_anchor_error, revoked, revoked_ocsp,
  ocsp_unknown, stale_ocsp, stale_crl, stale_denylist, no_crl, reject_cert, unknown_anchor,
  no_source,
}
use manager.OperatorCa.Serial.{Text, serial_key, normalize_serial}
use manager.OperatorCa.Crl.{VerifiedCrl, is_fresh}
use manager.OperatorCa.Ocsp
use manager.OperatorCa.Ocsp.{Client, Answer, Key, OcspResult, Status}

abbrev pub policy_hard : String
policy_hard = "hard"

abbrev pub policy_soft : String
policy_soft = "soft"

abbrev pub max_denylist_age : ℕ
max_denylist_age = 5 * minute

abbrev pub stale_log_every : ℕ
stale_log_every = hour

-- Anchor
pub record Anchor : Type 0 where
  pub cert : Certificate
  pub sha256 : String
  pub state : String
  pub crl_source : String
  pub crl_location : String
  pub ocsp_mode : String
  pub ocsp_url : String
  pub from_config : Bool

-- HasCRL
unfoldable pub has_crl : Anchor → Bool
has_crl a = not (a.crl_source == "") && not (a.crl_source == "none")

-- anchorState
pub record AnchorState : Type 0 where
  pub anchor : Anchor
  pub denied : List Text
  pub crl : Option VerifiedCrl
  pub last_error : String
  pub last_stale_log : ℕ
  pub expired_audited : Bool
  pub ocsp_outage : Bool
  pub last_ocsp_log : ℕ

pub data Audit : Type 0 where
  crl_expired ocsp_unavailable : String → Audit

-- The log lines that the engine spaces out, with their anchor and time.
pub data Log : Type 0 where
  stale_crl_log ocsp_outage_log : String → ℕ → Log

-- Revocations
pub record Revocations : Type 0 where
  pub policy : String
  pub anchors : Map String AnchorState
  pub denylist : Map String (List Text)
  pub polled_at : ℕ
  pub ocsp : Option Client
  pub audits : List Audit
  pub logs : List Log

-- Membership in a map of sets, where a missing key is the empty set.
unfoldable pub in_set : Option (List Text) → Text → Bool
in_set none s = false
in_set (some set) s = member set s

unfoldable pub in_crl : Option VerifiedCrl → Text → Bool
in_crl none s = false
in_crl (some v) s = member v.revoked_serials s

unfoldable pub state_in_crl : Option AnchorState → Text → Bool
state_in_crl none s = false
state_in_crl (some st) s = in_crl st.crl s

-- revokedLocked
unfoldable pub revoked_locked : Revocations → String → Text → Bool
revoked_locked r sha serial =
    in_set (lookup sha r.denylist) serial || state_in_crl (lookup sha r.anchors) serial

-- IsRevoked, Denylisted, CRLRevoked
unfoldable pub is_revoked : Revocations → String → Text → Bool
is_revoked r sha serial = revoked_locked r sha (normalize_serial serial)

unfoldable pub denylisted : Revocations → String → Text → Bool
denylisted r sha serial = in_set (lookup sha r.denylist) (normalize_serial serial)

unfoldable pub crl_revoked : Revocations → String → Text → Bool
crl_revoked r sha serial = state_in_crl (lookup sha r.anchors) (normalize_serial serial)

unfoldable pub first_uri : Option Certificate → String
first_uri none = ""
first_uri (some leaf) = elim leaf.ocsp_server [ [] ↦ "" | uri ∷ _ ↦ uri ]

-- ResponderURL
unfoldable pub responder_url : Anchor → Option Certificate → String
responder_url a leaf =
    if a.ocsp_mode == "url" then a.ocsp_url else if a.ocsp_mode == "aia" then first_uri leaf else ""

-- responderFor
unfoldable pub responder_for : Revocations → Anchor → Option Certificate → String
responder_for r a leaf = elim r.ocsp [ none ↦ "" | some _ ↦ responder_url a leaf ]

-- ocspRefusal
unfoldable pub ocsp_refusal : OcspResult → Result Error (Unit {0})
ocsp_refusal res = elim res.status [
  | Status.good ↦ ok tt
  | Status.revoked ↦ err (reject_cert revoked_ocsp)
  | Status.unknown ↦ err (reject_cert ocsp_unknown)
]

-- Changes the state of an anchor that is known.
unfoldable pub set_state : String → AnchorState → Revocations → Revocations
set_state sha st r = record r { anchors = insert sha st r.anchors }

-- endOCSPOutage
unfoldable pub end_ocsp_outage : String → Revocations → Revocations
end_ocsp_outage sha r = elim (lookup sha r.anchors) [
  | none ↦ r
  | some st ↦ if st.ocsp_outage then set_state sha (record st { ocsp_outage = false }) r else r
]

-- The condition of the hourly log lines.
unfoldable pub log_due : ℕ → ℕ → Bool
log_due last now = last == 0 || leb stale_log_every (now - last)

unfoldable pub note_ocsp_outage_log : ℕ → Revocations × AnchorState → Revocations × AnchorState
note_ocsp_outage_log now (r, st) =
    if log_due st.last_ocsp_log now
    then (
      record r { logs = ocsp_outage_log st.anchor.sha256 now ∷ r.logs },
      record st { last_ocsp_log = now },
    )
    else (r, st)

unfoldable pub note_ocsp_outage_audit : Revocations × AnchorState → Revocations × AnchorState
note_ocsp_outage_audit (r, st) = if st.ocsp_outage then (r, st) else (
  record r { audits = ocsp_unavailable st.anchor.sha256 ∷ r.audits },
  record st { ocsp_outage = true },
)

-- noteOCSPOutageLocked
unfoldable pub note_ocsp_outage : ℕ → Revocations × AnchorState → Revocations × AnchorState
note_ocsp_outage now p = note_ocsp_outage_audit (note_ocsp_outage_log now p)

unfoldable pub note_stale_log : ℕ → Revocations × AnchorState → Revocations × AnchorState
note_stale_log now (r, st) =
    if log_due st.last_stale_log now
    then (
      record r { logs = stale_crl_log st.anchor.sha256 now ∷ r.logs },
      record st { last_stale_log = now },
    )
    else (r, st)

unfoldable pub has_value {ℓ} : {A : Type ℓ} → Option A → Bool
has_value none = false
has_value (some a) = true

unfoldable pub note_stale_audit : Revocations × AnchorState → Revocations × AnchorState
note_stale_audit (r, st) =
    if has_value st.crl && not st.expired_audited
    then (
      record r { audits = crl_expired st.anchor.sha256 ∷ r.audits },
      record st { expired_audited = true },
    )
    else (r, st)

-- noteStaleLocked
unfoldable pub note_stale : ℕ → Revocations × AnchorState → Revocations × AnchorState
note_stale now p = note_stale_audit (note_stale_log now p)

unfoldable pub crl_fresh : AnchorState → ℕ → Bool
crl_fresh st now = has_crl st.anchor && (elim st.crl [ none ↦ false | some v ↦ is_fresh v now ])

-- Whether the certificate may pass with no answer from OCSP and no policy.
unfoldable pub passes : AnchorState → String → ℕ → Bool
passes st responder now = crl_fresh st now || (not (has_crl st.anchor) && responder == "")

unfoldable pub hard_refusal : String → Error
hard_refusal responder = if responder == "" then no_source stale_crl else no_source stale_ocsp

unfoldable pub note_if_crl : ℕ → Revocations × AnchorState → Revocations × AnchorState
note_if_crl now (r, st) = if has_crl st.anchor then note_stale now (r, st) else (r, st)

unfoldable pub note_if_ocsp : ℕ → String → Revocations × AnchorState → Revocations × AnchorState
note_if_ocsp now responder p = if responder == "" then p else note_ocsp_outage now p

-- What soft policy writes down when it lets a certificate pass.
unfoldable pub note_soft : String → String → ℕ → Revocations → AnchorState → Revocations
note_soft sha responder now r st =
    let (r', st') = note_if_ocsp now responder (note_if_crl now (r, st)) in set_state sha st' r'

-- The second locked part of checkWeb.
unfoldable pub web_policy :
    ℕ → String → String → Revocations → Revocations × Result Error (Unit {0})
web_policy now sha responder r = elim (lookup sha r.anchors) [
  | none ↦ (r, err unknown_anchor)
  | some st ↦
      if passes st responder now
      then (r, ok tt)
      else if r.policy == policy_hard
      then (r, err (hard_refusal responder))
      else (note_soft sha responder now r st, ok tt)
]

unfoldable pub ask_client :
    ℕ → ℕ → String → Text → Answer → Client → Revocations → Revocations × Option Answer
ask_client now later sha key answer c r =
    let (c', a) = Ocsp.check now later (record { anchor = sha; serial = key }) answer c in
    (record r { ocsp = some c' }, some a)

-- The call of the OCSP client, where there is a client and a responder; `none` where not.
unfoldable pub ask_ocsp :
    ℕ → ℕ → String → String → Text → Answer → Revocations → Revocations × Option Answer
ask_ocsp now later responder sha key answer r = elim r.ocsp [
  | none ↦ (r, none)
  | some c ↦ if responder == "" then (r, none) else ask_client now later sha key answer c r
]

unfoldable pub after_ocsp :
    ℕ → String → String → Revocations × Option Answer → Revocations × Result Error (Unit {0})
after_ocsp later sha responder (r, some (ok res)) = (end_ocsp_outage sha r, ocsp_refusal res)
after_ocsp later sha responder (r, some (err e)) = web_policy later sha responder r
after_ocsp later sha responder (r, none) = web_policy later sha responder r

-- checkWeb: at `now`, OCSP done at `later`
unfoldable pub check_web :
    ℕ
    → ℕ
    → Answer
    → String
    → ℕ
    → Option Certificate
    → Revocations
    → Revocations × Result Error (Unit {0})
check_web now later answer sha serial leaf r = elim (lookup sha r.anchors) [
  | none ↦ (r, err unknown_anchor)
  | some st ↦
      if revoked_locked r sha (serial_key serial)
      then (r, err (reject_cert revoked))
      else (let responder = responder_for r st.anchor leaf in
          after_ocsp later sha responder
            (ask_ocsp now later responder sha (serial_key serial) answer r))
]

-- CheckWebCert
unfoldable pub check_web_cert :
    ℕ → ℕ → Answer → String → Certificate → Revocations → Revocations × Result Error (Unit {0})
check_web_cert now later answer sha leaf r =
    check_web now later answer sha leaf.serial_number (some leaf) r

-- checkMCPSets
unfoldable pub check_mcp_sets : ℕ → String → Text → Revocations → Result Error Anchor
check_mcp_sets now sha serial r = elim (lookup sha r.anchors) [
  | none ↦ err unknown_anchor
  | some st ↦
      if revoked_locked r sha serial
      then err (reject_cert revoked)
      else if ltb max_denylist_age (now - r.polled_at)
      then err (no_source stale_denylist)
      else if not (has_crl st.anchor)
      then err (no_source no_crl)
      else if not (crl_fresh st now)
      then err (no_source stale_crl)
      else ok st.anchor
]

unfoldable pub after_ocsp_mcp :
    String → Revocations × Option Answer → Revocations × Result Error (Unit {0})
after_ocsp_mcp sha (r, some (ok res)) = (end_ocsp_outage sha r, ocsp_refusal res)
after_ocsp_mcp sha (r, some (err e)) = (r, ok tt)
after_ocsp_mcp sha (r, none) = (r, ok tt)

-- checkMCP
unfoldable pub check_mcp :
    ℕ
    → ℕ
    → Answer
    → String
    → ℕ
    → Option Certificate
    → Revocations
    → Revocations × Result Error (Unit {0})
check_mcp now later answer sha serial cert r = elim (check_mcp_sets now sha (serial_key serial) r) [
  | err e ↦ (r, err e)
  | ok a ↦
      after_ocsp_mcp sha
        (ask_ocsp now later (responder_for r a cert) sha (serial_key serial) answer r)
]

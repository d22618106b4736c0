-- ===== src/OperatorCa/Revocations/Engine.antt =====
-- internal/operatorca/revocation.go: how the engine takes over trust anchors, denylist entries and
-- CRLs, and the trust poll. The store is the interface `OperatorTrust`.
use manager.Prelude.{
  ℕ, Bool, true, false, not, ◌||◌, Option, none, some, List, [], ◌∷◌, String, ◌==◌, nat_eq,
  string_eq, bytes_eq, if◌then◌else◌, Result, ok, err, Map, lookup, insert, add,
}
use manager.OperatorCa.Base.{
  Bytes, Error, reasoned, unavailable, unknown_anchor_error, database_required,
  database_required_error,
}
use manager.OperatorCa.Serial.{Text, normalize_serial}
use manager.OperatorCa.Crl.{Decoders, VerifiedCrl, OperatorCrl, is_fresh, verify_crl, accept_newer}
use manager.OperatorCa.Ocsp
use manager.OperatorCa.Ocsp.{Client, new_client}
use manager.OperatorCa.Trust.{DenylistEntry, OperatorTrust}
use manager.OperatorCa.Revocations.{
  policy_soft, Anchor, AnchorState, Revocations, has_crl, set_state,
}

-- NewRevocations: OCSP is on where there is a fetcher.
unfoldable pub new_revocations : String → Bool → Revocations
new_revocations policy with_ocsp = record {
  policy = if policy == "" then policy_soft else policy;
  anchors = [];
  denylist = [];
  polled_at = 0;
  ocsp = if with_ocsp then some new_client else none;
  audits = [];
  logs = [];
}

-- &anchorState{anchor: a, denied: denied}
unfoldable pub new_state : Anchor → List Text → AnchorState
new_state a denied = record {
  anchor = a;
  denied = denied;
  crl = none;
  last_error = "";
  last_stale_log = 0;
  expired_audited = false;
  ocsp_outage = false;
  last_ocsp_log = 0;
}

-- A key that a map of sets lacks reads as the empty set.
unfoldable pub set_of : Option (List Text) → List Text
set_of none = []
set_of (some set) = set

unfoldable pub ocsp_changed : Option Client → Anchor → Anchor → Bool
ocsp_changed none old a = false
ocsp_changed (some c) old a = not (old.ocsp_mode == a.ocsp_mode) || not (old.ocsp_url == a.ocsp_url)

unfoldable pub clear_anchor : String → Option Client → Option Client
clear_anchor sha none = none
clear_anchor sha (some c) = some (Ocsp.clear_anchor sha c)

unfoldable pub kept_state : Anchor → List Text → Bool → AnchorState → AnchorState
kept_state a denied changed st = record st {
  anchor = a;
  denied = denied;
  ocsp_outage = if changed then false else st.ocsp_outage;
}

-- One round of SetAnchors: the engine, whose old states are shared with the new map, and that map.
unfoldable pub take_anchor :
    Anchor → Revocations × Map String AnchorState → Revocations × Map String AnchorState
take_anchor a (r, next) =
    let denied = set_of (lookup a.sha256 r.denylist) in
    elim (lookup a.sha256 r.anchors) [
      | none ↦ (r, insert a.sha256 (new_state a denied) next)
      | some st ↦
          let changed = ocsp_changed r.ocsp st.anchor a in
          let st' = kept_state a denied changed st in
          (
            record r {
              anchors = insert a.sha256 st' r.anchors;
              ocsp = if changed then clear_anchor a.sha256 r.ocsp else r.ocsp;
            },
            insert a.sha256 st' next,
          )
    ]

unfoldable pub take_anchors :
    List Anchor → Revocations × Map String AnchorState → Revocations × Map String AnchorState
take_anchors [] p = p
take_anchors (a ∷ as') p = take_anchors as' (take_anchor a p)

-- SetAnchors
unfoldable pub set_anchors : List Anchor → Revocations → Revocations
set_anchors anchors r =
    let (r', next) = take_anchors anchors (r, []) in record r' { anchors = next }

-- The set of one operator CA, with a serial more.
unfoldable pub deny_serial : String → Text → Map String (List Text) → Map String (List Text)
deny_serial sha serial next = insert sha (add serial (set_of (lookup sha next))) next

unfoldable pub denylist_of : List DenylistEntry → Map String (List Text) → Map String (List Text)
denylist_of [] next = next
denylist_of (e ∷ es) next =
    denylist_of es (deny_serial e.issuer_sha256 (normalize_serial e.serial_hex) next)

unfoldable pub set_denied : Map String (List Text) → Map String AnchorState → Map String AnchorState
set_denied denylist [] = []
set_denied denylist ((sha, st) ∷ m) =
    (sha, record st { denied = set_of (lookup sha denylist) }) ∷ set_denied denylist m

unfoldable pub use_denylist : List DenylistEntry → Revocations → Revocations
use_denylist entries r =
    let next = denylist_of entries [] in
    record r { denylist = next; anchors = set_denied next r.anchors }

unfoldable pub mark_polled : ℕ → Revocations → Revocations
mark_polled now r = record r { polled_at = now }

unfoldable pub record_crl_error : String → String → Revocations → Revocations
record_crl_error sha msg r = elim (lookup sha r.anchors) [
  | none ↦ r
  | some st ↦ set_state sha (record st { last_error = msg }) r
]

unfoldable pub row_of_issuer : String → List OperatorCrl → Option OperatorCrl
row_of_issuer sha [] = none
row_of_issuer sha (c ∷ cs) = elim (row_of_issuer sha cs) [
  | some later ↦ some later
  | none ↦ if c.issuer_sha256 == sha then some c else none
]

unfoldable pub same_crl : Option VerifiedCrl → Bytes → Bool
same_crl none der = false
same_crl (some v) der = v.der == der

unfoldable pub use_crl : VerifiedCrl → ℕ → AnchorState → AnchorState
use_crl v now st = record st {
  crl = some v;
  expired_audited = if is_fresh v now then false else st.expired_audited;
}

unfoldable pub use_verified : Result Error VerifiedCrl → ℕ → AnchorState → AnchorState
use_verified (ok v) now st = use_crl v now st
use_verified (err e) now st = st

-- What Reload makes of the CRL bytes that the store holds for an anchor.
unfoldable pub use_stored : Decoders → ℕ → Option Bytes → AnchorState → AnchorState
use_stored d now none st = st
use_stored d now (some der) st =
    if same_crl st.crl der then st else use_verified (verify_crl d der st.anchor.cert now) now st

unfoldable pub use_row : Decoders → ℕ → Option OperatorCrl → AnchorState → AnchorState
use_row d now none st = st
use_row d now (some row) st = use_stored d now row.der (record st { last_error = row.last_error })

unfoldable pub warn_unloaded : ℕ → AnchorState → AnchorState
warn_unloaded now st = elim st.crl [
  | some _ ↦ st
  | none ↦ if has_crl st.anchor then record st { last_stale_log = now } else st
]

unfoldable pub reload_states :
    Decoders → ℕ → List OperatorCrl → Map String AnchorState → Map String AnchorState
reload_states d now crls [] = []
reload_states d now crls ((sha, st) ∷ m) =
    (sha, warn_unloaded now (use_row d now (row_of_issuer sha crls) st))
    ∷ reload_states d now crls m

unfoldable pub use_crls : Decoders → ℕ → List OperatorCrl → Revocations → Revocations
use_crls d now crls r = record r { anchors = reload_states d now crls r.anchors; polled_at = now }

module _ {S : Type 0} (t : OperatorTrust S) (d : Decoders) where
  -- reloadDenylist, with what it returns
  unfoldable pub reload_denylist : S → Revocations → Revocations × Result Error (Unit {0})
  reload_denylist s r = elim (t.operator_denylist s) [
    | err e ↦ (r, err e)
    | ok entries ↦ (use_denylist entries r, ok tt)
  ]

  unfoldable pub reload_crls : ℕ → S → Revocations → Revocations × Result Error (Unit {0})
  reload_crls now s r = elim (t.operator_crls s) [
    | err e ↦ (r, err e)
    | ok crls ↦ (use_crls d now crls r, ok tt)
  ]

  unfoldable pub and_crls :
      ℕ → S → Revocations × Result Error (Unit {0}) → Revocations × Result Error (Unit {0})
  and_crls now s (r, err e) = (r, err e)
  and_crls now s (r, ok u) = reload_crls now s r

  -- Reload
  unfoldable pub reload : ℕ → S → Revocations → Revocations × Result Error (Unit {0})
  reload now s r = and_crls now s (reload_denylist s r)

  -- Deny's error for a store without a denylist is wrapped.
  unfoldable pub deny_error : Error → Error
  deny_error database_required_error = reasoned unavailable database_required
  deny_error e = e

  unfoldable pub after_add :
      Revocations → S × Result Error Bool → S × Revocations × Result Error (Unit {0})
  after_add r (s, err e) = (s, r, err (deny_error e))
  after_add r (s, ok _) = let (r', done) = reload_denylist s r in (s, r', done)

  unfoldable pub normal_entry : ℕ → DenylistEntry → DenylistEntry
  normal_entry now e = record e {
    serial_hex = normalize_serial e.serial_hex;
    revoked_at = if e.revoked_at == 0 then now else e.revoked_at;
  }

  -- Deny
  unfoldable pub deny :
      ℕ → DenylistEntry → S → Revocations → S × Revocations × Result Error (Unit {0})
  deny now e s r = after_add r (t.add_operator_denylist_entry (normal_entry now e) s)

  unfoldable pub new_row : ℕ → String → String → VerifiedCrl → OperatorCrl
  new_row now sha source v = record {
    issuer_sha256 = sha;
    der = some v.der;
    number = v.number;
    this_update = v.list.this_update;
    next_update = v.list.next_update;
    fetched_at = now;
    source = source;
    last_error = "";
    last_attempt_at = 0;
  }

  unfoldable pub after_put :
      ℕ
      → String
      → VerifiedCrl
      → AnchorState
      → Revocations
      → S × Result Error Bool
      → S × Revocations × Result Error Bool
  after_put now sha v st r (s, err e) = (s, r, err e)
  after_put now sha v st r (s, ok false) = (s, r, ok false)
  after_put now sha v st r (s, ok true) =
      (s, set_state sha (use_crl v now (record st { last_error = "" })) r, ok true)

  -- StoreCRL
  unfoldable pub store_crl :
      ℕ → String → Bytes → String → S → Revocations → S × Revocations × Result Error Bool
  store_crl now sha der source s r = elim (lookup sha r.anchors) [
    | none ↦ (s, r, err unknown_anchor_error)
    | some st ↦ elim (verify_crl d der st.anchor.cert now) [
      | err e ↦ (s, r, err e)
      | ok v ↦
          after_put now sha v st r
            (t.put_operator_crl (new_row now sha source v) (λ cur. accept_newer cur v) s)
    ]
  ]

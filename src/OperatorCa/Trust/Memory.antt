-- ===== src/OperatorCa/Trust/Memory.antt =====
-- internal/store/memory/operatortrust.go: CRLs for one process, no denylist.
use manager.Prelude.{
  ℕ, ◌+◌, Bool, true, false, Option, none, some, List, [], String, Map, lookup, insert, Result, ok,
  err, string_eq, map,
}
use manager.OperatorCa.Base.{Error, database_required_error}
use manager.OperatorCa.Crl.{OperatorCrl}
use manager.OperatorCa.Trust.{DenylistEntry, TrustVersion, DecideCrl, OperatorTrust}

pub record TrustState : Type 0 where
  pub crls : Map String OperatorCrl
  pub epoch : ℕ

-- The row that a decision sees: only one with a CRL counts.
unfoldable pub current : Option OperatorCrl → Option OperatorCrl
current none = none
current (some c) = elim c.der [ none ↦ none | some d ↦ some c ]

unfoldable pub put_decided :
    OperatorCrl → Result Error Bool → TrustState → TrustState × Result Error Bool
put_decided c (err e) s = (s, err e)
put_decided c (ok false) s = (s, ok false)
put_decided c (ok true) s = (
  record s {
    crls =
        insert c.issuer_sha256 (record c { last_error = ""; last_attempt_at = c.fetched_at })
          s.crls;
    epoch = s.epoch + 1;
  },
  ok true,
)

-- PutOperatorCRL
unfoldable pub put_operator_crl :
    OperatorCrl → DecideCrl → TrustState → TrustState × Result Error Bool
put_operator_crl c decide s = put_decided c (decide (current (lookup c.issuer_sha256 s.crls))) s

-- OperatorCRLs
unfoldable pub operator_crls : TrustState → Result Error (List OperatorCrl)
operator_crls s = ok (map (λ p. p.1) s.crls)

abbrev pub no_row : String → OperatorCrl
no_row sha = record {
  issuer_sha256 = sha;
  der = none;
  number = none;
  this_update = 0;
  next_update = 0;
  fetched_at = 0;
  source = "";
  last_error = "";
  last_attempt_at = 0;
}

unfoldable pub row_or_new : String → Option OperatorCrl → OperatorCrl
row_or_new sha none = no_row sha
row_or_new sha (some c) = c

-- RecordOperatorCRLAttempt
unfoldable pub record_operator_crl_attempt : String → String → ℕ → TrustState → TrustState
record_operator_crl_attempt sha last_error at s =
    let c = row_or_new sha (lookup sha s.crls) in
    record s {
      crls =
          insert sha
            (record c { issuer_sha256 = sha; last_error = last_error; last_attempt_at = at })
            s.crls;
    }

-- OperatorDenylist, AddOperatorDenylistEntry, OperatorTrustVersion
unfoldable pub operator_denylist : TrustState → Result Error (List DenylistEntry)
operator_denylist s = ok []

unfoldable pub add_operator_denylist_entry :
    DenylistEntry → TrustState → TrustState × Result Error Bool
add_operator_denylist_entry e s = (s, err database_required_error)

unfoldable pub operator_trust_version : TrustState → Result Error TrustVersion
operator_trust_version s = ok (record { cas = ""; epoch = s.epoch })

abbrev pub memory_trust : OperatorTrust TrustState
memory_trust = record {
  operator_crls = operator_crls;
  put_operator_crl = put_operator_crl;
  operator_denylist = operator_denylist;
  add_operator_denylist_entry = add_operator_denylist_entry;
  operator_trust_version = operator_trust_version;
}

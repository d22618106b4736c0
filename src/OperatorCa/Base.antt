-- ===== src/OperatorCa/Base.antt =====
-- What the modules of operator CA trust share: X.509 data as Go's crypto/x509 hands it over, the
-- refusals, and the clock. Times are nanoseconds since the zero time, which is 0.
use manager.Prelude.{ℕ, ◌*◌, Bool, List, String}

abbrev pub Bytes : Type 0
Bytes = List ℕ

abbrev pub second : ℕ
second = 1_000_000_000

abbrev pub minute : ℕ
minute = 60 * second

abbrev pub hour : ℕ
hour = 60 * minute

-- pkix.Extension
pub record Extension : Type 0 where
  pub oid : List ℕ
  pub critical : Bool
  pub value : Bytes

-- The fields of x509.Certificate that the manager reads.
pub record Certificate : Type 0 where
  pub raw : Bytes
  pub common_name : String
  pub raw_subject : Bytes
  pub subject_key_id : Bytes
  pub serial_number : ℕ
  pub extensions : List Extension
  pub ocsp_server : List String
  pub not_before : ℕ
  pub not_after : ℕ

-- Codes and sub-reasons of internal/apperr that operator CA trust answers with.
pub data Code : Type 0 where
  cert_rejected no_revocation_source operator_ca_rejected unavailable : Code

pub data Reason : Type 0 where
  revoked not_chained revoked_ocsp ocsp_unknown stale_ocsp stale_crl stale_denylist no_crl : Reason
  crl_invalid crl_rollback ocsp_unreachable ocsp_invalid database_required : Reason

-- apperr.Reasoned, or an error with no code: an operator CA that is not trusted, a store's error.
pub data Error : Type 0 where
  reasoned : Code → Reason → Error
  unknown_anchor_error : Error
  database_required_error : Error
  store_error : String → Error

-- rejectCert
unfoldable pub reject_cert : Reason → Error
reject_cert r = reasoned cert_rejected r

-- unknownAnchor
unfoldable pub unknown_anchor : Error
unknown_anchor = reasoned cert_rejected not_chained

-- noRevocationSource
unfoldable pub no_source : Reason → Error
no_source r = reasoned no_revocation_source r

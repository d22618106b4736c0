-- ===== src/OperatorCa/Crl.antt =====
-- internal/operatorca/crl.go: a CRL is verified against its anchor before it is used, and a stored
-- CRL is never replaced by an older one.
pub mod Acceptable
pub mod Verified
pub mod Rollback
use manager.Prelude.{
  ℕ, ◌+◌, ◌*◌, ◌^◌, Bool, true, false, not, ◌&&◌, ◌||◌, Option, none, some, List, [], ◌∷◌, String,
  ltb, ◌==◌, nat_eq, string_eq, bytes_eq, if◌then◌else◌, Result, ok, err, ◌>>=◌, ◌>>◌, refuse_if,
  length, add,
}
use manager.OperatorCa.Base.{
  Bytes, minute, Extension, Certificate, Error, reasoned, operator_ca_rejected, crl_invalid,
  crl_rollback,
}
use manager.OperatorCa.Serial.{Text, serial_key}

abbrev pub max_crl_size : ℕ
max_crl_size = 4 * 2 ^ 20

abbrev pub max_clock_skew : ℕ
max_clock_skew = 5 * minute

abbrev pub oid_authority_key_id : List ℕ
oid_authority_key_id = 2 ∷ 5 ∷ 29 ∷ 35 ∷ []

abbrev pub oid_crl_number : List ℕ
oid_crl_number = 2 ∷ 5 ∷ 29 ∷ 20 ∷ []

abbrev pub oid_delta_crl : List ℕ
oid_delta_crl = 2 ∷ 5 ∷ 29 ∷ 27 ∷ []

abbrev pub oid_idp : List ℕ
oid_idp = 2 ∷ 5 ∷ 29 ∷ 28 ∷ []

abbrev pub oid_reason_code : List ℕ
oid_reason_code = 2 ∷ 5 ∷ 29 ∷ 21 ∷ []

abbrev pub oid_invalidity_date : List ℕ
oid_invalidity_date = 2 ∷ 5 ∷ 29 ∷ 24 ∷ []

abbrev pub oid_cert_issuer : List ℕ
oid_cert_issuer = 2 ∷ 5 ∷ 29 ∷ 29 ∷ []

-- issuingDistributionPoint, with the length of its reasons in bits
pub record Idp : Type 0 where
  pub only_user_certs : Bool
  pub only_ca_certs : Bool
  pub some_reasons_bits : ℕ
  pub indirect_crl : Bool
  pub only_attribute_certs : Bool

-- x509.RevocationListEntry
pub record Entry : Type 0 where
  pub serial_number : ℕ
  pub extensions : List Extension

-- x509.RevocationList
pub record RevocationList : Type 0 where
  pub raw_issuer : Bytes
  pub authority_key_id : Bytes
  pub number : Option ℕ
  pub this_update : ℕ
  pub next_update : ℕ
  pub extensions : List Extension
  pub entries : List Entry

-- What crypto/x509, encoding/pem and encoding/asn1 do with bytes.
pub record Decoders : Type 0 where
  pub pem_decode : Bytes → Option (String × Bytes)
  pub parse_list : Bytes → Option RevocationList
  pub signed_by : RevocationList → Certificate → Bool
  pub unmarshal_idp : Bytes → Option (Idp × Bytes)

pub record VerifiedCrl : Type 0 where
  pub list : RevocationList
  pub der : Bytes
  pub number : Option ℕ
  pub revoked_serials : List Text

abbrev pub invalid : Error
invalid = reasoned operator_ca_rejected crl_invalid

abbrev pub rollback : Error
rollback = reasoned operator_ca_rejected crl_rollback

-- Fresh
unfoldable pub is_fresh : VerifiedCrl → ℕ → Bool
is_fresh v now = ltb now v.list.next_update

-- The bytes of the CRL, out of a PEM block or as they are.
unfoldable pub der_of : Bytes → Option (String × Bytes) → Result Error Bytes
der_of b none = ok b
der_of b (some (type, bytes)) = do refuse_if (not (type == "X509 CRL")) invalid; ok bytes

unfoldable pub check_idp : Option (Idp × Bytes) → Result Error (Unit {0})
check_idp none = err invalid
check_idp (some (idp, rest)) = do
  refuse_if (not (length rest == 0)) invalid
  refuse_if idp.indirect_crl invalid
  refuse_if (idp.only_ca_certs || idp.only_attribute_certs) invalid
  refuse_if (ltb 0 idp.some_reasons_bits) invalid

-- One round of checkCRLExtensions.
unfoldable pub check_extension : Decoders → Extension → Result Error (Unit {0})
check_extension d ext =
    if ext.oid == oid_delta_crl
    then err invalid
    else if ext.oid == oid_idp
    then check_idp (d.unmarshal_idp ext.value)
    else if ext.oid == oid_authority_key_id || ext.oid == oid_crl_number
    then ok tt
    else refuse_if ext.critical invalid

unfoldable pub check_extensions : Decoders → List Extension → Result Error (Unit {0})
check_extensions d [] = ok tt
check_extensions d (ext ∷ exts) = do check_extension d ext; check_extensions d exts

unfoldable pub check_entry_extensions : List Extension → Result Error (Unit {0})
check_entry_extensions [] = ok tt
check_entry_extensions (ext ∷ exts) = do
  refuse_if (ext.oid == oid_cert_issuer) invalid
  refuse_if
      (ext.critical && not (ext.oid == oid_reason_code) && not (ext.oid == oid_invalidity_date))
      invalid
  check_entry_extensions exts

-- The loop over the entries: the serials listed, or a refusal.
unfoldable pub collect : List Entry → List Text → Result Error (List Text)
collect [] revoked = ok revoked
collect (e ∷ es) revoked = do
  check_entry_extensions e.extensions
  collect es (add (serial_key e.serial_number) revoked)

unfoldable pub parsed : Option RevocationList → Result Error RevocationList
parsed none = err invalid
parsed (some l) = ok l

abbrev pub key_ids_differ : Bytes → Bytes → Bool
key_ids_differ authority subject =
    ltb 0 (length authority) && ltb 0 (length subject) && not (authority == subject)

-- The checks of a parsed list up to its entries.
unfoldable pub check_list : Decoders → RevocationList → Certificate → ℕ → Result Error (Unit {0})
check_list d list anchor now = do
  refuse_if (not (d.signed_by list anchor)) invalid
  refuse_if (not (list.raw_issuer == anchor.raw_subject)) invalid
  refuse_if (key_ids_differ list.authority_key_id anchor.subject_key_id) invalid
  refuse_if (list.next_update == 0) invalid
  refuse_if (ltb (now + max_clock_skew) list.this_update) invalid
  check_extensions d list.extensions

unfoldable pub verify_crl : Decoders → Bytes → Certificate → ℕ → Result Error VerifiedCrl
verify_crl d b anchor now = do
  refuse_if (ltb max_crl_size (length b)) invalid
  der ← der_of b (d.pem_decode b)
  list ← parsed (d.parse_list der)
  check_list d list anchor now
  revoked ← collect list.entries []
  ok (record { list = list; der = der; number = list.number; revoked_serials = revoked })

-- store.OperatorCRL
pub record OperatorCrl : Type 0 where
  pub issuer_sha256 : String
  pub der : Option Bytes
  pub number : Option ℕ
  pub this_update : ℕ
  pub next_update : ℕ
  pub fetched_at : ℕ
  pub source : String
  pub last_error : String
  pub last_attempt_at : ℕ

unfoldable pub newer_number : Option ℕ → Option ℕ → Option Bool
newer_number (some stored) (some next) = some (ltb stored next)
newer_number _ _ = none

unfoldable pub same_der : Option Bytes → Bytes → Bool
same_der none next = [] == next
same_der (some stored) next = stored == next

unfoldable pub accept_if : Bool → Result Error Bool
accept_if true = ok true
accept_if false = err rollback

-- AcceptNewer: `none` is `has == false`.
unfoldable pub accept_newer : Option OperatorCrl → VerifiedCrl → Result Error Bool
accept_newer none next = ok true
accept_newer (some stored) next =
    if same_der stored.der next.der
    then ok false
    else elim (newer_number stored.number next.number) [
      | some newer ↦ accept_if newer
      | none ↦ accept_if (ltb stored.this_update next.list.this_update)
    ]

-- ===== src/OperatorCa/Trust.antt =====
-- The OperatorTrust interface of internal/store/operatortrust.go, as far as the revocation engine
-- uses it, and the in-memory store's implementation in internal/store/memory/operatortrust.go.
pub mod Memory
use manager.Prelude.{
  ℕ, Option, List, [], ◌∷◌, String, Result, Bool, true, false, ◌&&◌, ◌||◌, ◌==◌, string_eq,
  bytes_eq, ◌≡◌, ok,
}
use manager.OperatorCa.Base.{Error}
use manager.OperatorCa.Serial.{Text}
use manager.OperatorCa.Crl.{OperatorCrl}

-- store.DenylistEntry: the fields that decide something
pub record DenylistEntry : Type 0 where
  pub issuer_sha256 : String
  pub serial_hex : Text
  pub revoked_at : ℕ

-- store.TrustVersion
pub record TrustVersion : Type 0 where
  pub cas : String
  pub epoch : ℕ

-- store.DecideCRL: `none` is `has == false`
abbrev pub DecideCrl : Type 0
DecideCrl = Option OperatorCrl → Result Error Bool

pub record OperatorTrust (S : Type 0) : Type 0 where
  pub operator_crls : S → Result Error (List OperatorCrl)
  pub put_operator_crl : OperatorCrl → DecideCrl → S → S × Result Error Bool
  pub operator_denylist : S → Result Error (List DenylistEntry)
  pub add_operator_denylist_entry : DenylistEntry → S → S × Result Error Bool
  pub operator_trust_version : S → Result Error TrustVersion

-- Whether an entry stands in the denylist under the issuer and serial.
unfoldable pub lists : String → Text → List DenylistEntry → Bool
lists sha serial [] = false
lists sha serial (e ∷ es) =
    (e.issuer_sha256 == sha && e.serial_hex == serial) || lists sha serial es

-- What the interface promises of the denylist: an entry that was added, or was there before, is
-- read back under its issuer and serial. A store may still fail to answer.
pub record KeepsEntries {S : Type 0} (t : OperatorTrust S) : Type 0 where
  pub entry_read :
      (e : DenylistEntry) (s : S) (added : Bool) (es : List DenylistEntry)
      → (t.add_operator_denylist_entry e s).1 ≡ ok added
      → t.operator_denylist (t.add_operator_denylist_entry e s).0 ≡ ok es
      → lists e.issuer_sha256 e.serial_hex es ≡ true

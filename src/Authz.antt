-- ===== src/Authz.antt =====
-- internal/authz: access levels and the identity of a caller (level.go, identity.go), and the
-- client-certificate middleware (middleware.go).
pub mod Middleware
use manager.Prelude.{
  ℕ, ◌<◌, ◌≡◌, refl, Bool, true, false, Option, none, some, List, [], ◌∷◌, String, ltb, ◌==◌,
  nat_eq, string_eq, bytes_eq, if◌then◌else◌, Result, ok, err,
}
use manager.OperatorCa.Base.{Bytes, Extension, Certificate}
use manager.OperatorCa.Serial.{Text, format_serial}

-- Level
pub data Level : Type 0 where
  viewer operator admin : Level

-- The order of the levels, which Go compares as integers.
unfoldable pub rank : Level → ℕ
rank viewer = 0
rank operator = 1
rank admin = 2

unfoldable pub below : Level → Level → Bool
below a b = ltb (rank a) (rank b)

-- Token
unfoldable pub token : Level → String
token viewer = "viewer"
token operator = "operator"
token admin = "admin"

pub data Error : Type 0 where
  unknown_token undecodable_level no_level : Error

-- LevelFromToken
unfoldable pub level_from_token : String → Result Error Level
level_from_token s =
    if s == "viewer"
    then ok viewer
    else if s == "operator"
    then ok operator
    else if s == "admin"
    then ok admin
    else err unknown_token

abbrev pub access_level_oid : List ℕ
access_level_oid = 1 ∷ 3 ∷ 6 ∷ 1 ∷ 4 ∷ 1 ∷ 59999 ∷ 1 ∷ 1 ∷ []

unfoldable pub level_of_value : Option String → Result Error Level
level_of_value none = err undecodable_level
level_of_value (some token) = level_from_token token

-- The loop of LevelFromCertificate; `unmarshal` is asn1.Unmarshal into a string.
unfoldable pub level_from_extensions : (Bytes → Option String) → List Extension → Result Error Level
level_from_extensions unmarshal [] = err no_level
level_from_extensions unmarshal (ext ∷ exts) =
    if ext.oid == access_level_oid
    then level_of_value (unmarshal ext.value)
    else level_from_extensions unmarshal exts

unfoldable pub level_from_certificate : (Bytes → Option String) → Certificate → Result Error Level
level_from_certificate unmarshal cert = level_from_extensions unmarshal cert.extensions

-- Identity
pub record Identity : Type 0 where
  pub cn : String
  pub serial : Text
  pub level : Level
  pub via : String
  pub key_id : String
  pub issuer_sha256 : String

-- ActorKind
unfoldable pub actor_kind : Identity → String
actor_kind id = if id.key_id == "" then "cert" else "mcp_key"

unfoldable pub identity_at : Certificate → Result Error Level → Result Error Identity
identity_at cert (err e) = err e
identity_at cert (ok level) = ok (record {
  cn = cert.common_name;
  serial = format_serial cert.serial_number;
  level = level;
  via = "";
  key_id = "";
  issuer_sha256 = "";
})

-- IdentityFromCertificate
unfoldable pub identity_from_certificate :
    (Bytes → Option String) → Certificate → Result Error Identity
identity_from_certificate unmarshal cert = identity_at cert (level_from_certificate unmarshal cert)

-- A level is read back from its token.
pub level_from_token-token : (l : Level) → level_from_token (token l) ≡ ok l
unfolding level_from_token token
level_from_token-token viewer = refl
level_from_token-token operator = refl
level_from_token-token admin = refl

-- ===== src/McpAuth.antt =====
-- internal/mcpauth/resolver.go and key.go: an agent's bearer key becomes the live identity of the
-- operator certificate it is bound to. The keys are those of internal/store/memory/memory.go.
-- Parameters: base64 decoding, SHA-256, x509 parsing and chain verification, and the texts of errors.
pub mod Resolving
pub mod Keys
pub mod Logging
pub mod Revocation
pub mod Minting
pub mod Minted
use Prim.Native.String.{String, ◌++◌, len, slice}
use text.Mathlib.Text.{starts_with}
use manager.Prelude.{
  ℕ, Bool, true, false, not, ◌&&◌, ◌||◌, Option, none, some, List, [], ◌∷◌, ltb, ◌==◌, nat_eq,
  string_eq, if◌then◌else◌, Result, ok, err, Map, lookup, insert, length,
}
use manager.OperatorCa.Base.{Bytes, Certificate, Code, no_revocation_source, reasoned}
use manager.OperatorCa.Base as Base
use manager.OperatorCa.Serial.{Text}
use manager.Authz.{Level, Identity, level_from_token, identity_from_certificate, below}
use manager.Audit.{AuditEvent, record_event}

-- store.McpKey. A zero time is unset.
pub record McpKey : Type 0 where
  pub id : String
  pub token_hash : String
  pub label : String
  pub client_name : String
  pub operator_serial : Text
  pub operator_cn : String
  pub operator_cert_der : Bytes
  pub level_ceiling : String
  pub created_at : ℕ
  pub last_used_at : ℕ
  pub revoked_at : ℕ
  pub expires_at : ℕ

-- Reasons a key is refused
pub data Refusal : Type 0 where
  malformed unknown_key key_revoked key_expired cert_untrusted cert_expired cert_revoked : Refusal
  cert_no_level revocation_stale stored_ceiling : Refusal

-- McpKeyByHash
unfoldable pub mcp_key_by_hash : String → Map String McpKey → Option McpKey
mcp_key_by_hash hash [] = none
mcp_key_by_hash hash ((id, k) ∷ keys) =
    if k.token_hash == hash then some k else mcp_key_by_hash hash keys

-- RevokeMcpKey
unfoldable pub revoke_mcp_key : String → ℕ → Map String McpKey → Map String McpKey × Option McpKey
revoke_mcp_key id at keys = elim (lookup id keys) [
  | none ↦ (keys, none)
  | some k ↦
      if k.revoked_at == 0
      then (insert id (record k { revoked_at = at }) keys, some (record k { revoked_at = at }))
      else (keys, some k)
]

-- TouchMcpKey
unfoldable pub touch_mcp_key : String → ℕ → Map String McpKey → Map String McpKey × Bool
touch_mcp_key id at keys = elim (lookup id keys) [
  | none ↦ (keys, false)
  | some k ↦ (insert id (record k { last_used_at = at }) keys, k.last_used_at == 0)
]

abbrev pub key_prefix : String
key_prefix = "fos_mcp_"

abbrev pub key_bytes : ℕ
key_bytes = 32

-- WellFormed: 43 is the length of 32 bytes in base64
unfoldable pub well_formed : (String → Option Bytes) → String → Bool
well_formed decode s =
    if not (starts_with s key_prefix) || not (len (slice s (len key_prefix) (len s)) == 43)
    then false
    else elim (decode (slice s (len key_prefix) (len s))) [
      | none ↦ false
      | some b ↦ length b == key_bytes
    ]

unfoldable pub lower_level : Level → Level → Level
lower_level a b = if below b a then b else a

unfoldable pub with_ceiling : McpKey → Identity → Result Refusal Identity
with_ceiling key id =
    if key.level_ceiling == ""
    then ok (record id { via = "mcp"; key_id = key.id })
    else elim (level_from_token key.level_ceiling) [
      | err e ↦ err stored_ceiling
      | ok c ↦ ok (record id { level = lower_level id.level c; via = "mcp"; key_id = key.id })
    ]

unfoldable pub check_refusal : Base.Error → Refusal
check_refusal (reasoned no_revocation_source reason) = revocation_stale
check_refusal e = cert_revoked

unfoldable pub after_check :
    {S : Type 0}
    → McpKey
    → Identity
    → S × Result Base.Error (Unit {0})
    → S × Result Refusal Identity
after_check key id (s, err e) = (s, err (check_refusal e))
after_check key id (s, ok u) = (s, with_ceiling key id)

-- What the resolver is configured with, and the libraries it calls. `verify` gives the last
-- certificate of the first chain, and `check` is the MCPChecker over its state.
pub record Config (S : Type 0) : Type 0 where
  pub decode : String → Option Bytes
  pub hash_key : String → String
  pub parse : Bytes → Option Certificate
  pub verify : ℕ → Certificate → Option Bytes
  pub fingerprint : Bytes → String
  pub unmarshal : Bytes → Option String
  pub check : String → Certificate → S → S × Result Base.Error (Unit {0})
  pub sha : String → String
  pub show : Refusal → String

module _ {S : Type 0} (config : Config S) where
  unfoldable pub validate_certificate : McpKey → ℕ → Certificate → S → S × Result Refusal Identity
  validate_certificate key now cert s =
      if ltb now cert.not_before || ltb cert.not_after now
      then (s, err cert_expired)
      else elim (config.verify now cert) [
        | none ↦ (s, err cert_untrusted)
        | some anchor ↦ elim (identity_from_certificate config.unmarshal cert) [
          | err e ↦ (s, err cert_no_level)
          | ok id ↦
              after_check key (record id { issuer_sha256 = config.fingerprint anchor })
                (config.check (config.fingerprint anchor) cert s)
        ]
      ]

  -- validate
  unfoldable pub validate : McpKey → ℕ → S → S × Result Refusal Identity
  validate key now s =
      if not (key.revoked_at == 0)
      then (s, err key_revoked)
      else if not (key.expires_at == 0) && not (ltb now key.expires_at)
      then (s, err key_expired)
      else elim (config.parse key.operator_cert_der) [
        | none ↦ (s, err cert_untrusted)
        | some cert ↦ validate_certificate key now cert s
      ]

  -- The keys, the audit log and the revocation state.
  pub record World : Type 0 where
    pub keys : Map String McpKey
    pub log : List AuditEvent
    pub checker : S

  unfoldable pub key_row : String → String → String → String → AuditEvent
  key_row kind summary id outcome = record {
    id = "";
    at = "";
    kind = kind;
    summary = summary;
    target_kind = "mcp-key";
    target_path = "/mcp-keys/" ++ id;
    actor_kind = "";
    actor_cn = "";
    actor_serial = "";
    key_id = "";
    via = "";
    tool = "";
    request_digest = "";
    outcome = outcome;
    approval_id = "";
    approver_serial = "";
    chain_version = 0;
    prev_hash = "";
    hash = "";
  }

  unfoldable pub bound : McpKey → Identity
  bound key = record {
    cn = key.operator_cn;
    serial = key.operator_serial;
    level = Level.viewer;
    via = "mcp";
    key_id = key.id;
    issuer_sha256 = "";
  }

  unfoldable pub reject : String → String → McpKey → Refusal → World → World
  reject row_id at key e w = record w {
    log =
        (record_event config.sha row_id at (some (bound key)) none
          (key_row "mcp-key-rejected" ("Rejected MCP key " ++ (key.id ++ (": " ++ config.show e)))
            key.id "denied")
          w.log).0;
  }

  unfoldable pub first_use : String → String → McpKey → Identity → World → World
  first_use row_id at key id w = record w {
    log =
        (record_event config.sha row_id at (some id) none
          (key_row "mcp-key-first-used" ("MCP key " ++ (key.id ++ " used for the first time"))
            key.id "")
          w.log).0;
  }

  unfoldable pub touched :
      String → String → McpKey → Identity → World → Map String McpKey × Bool → World
  touched row_id at key id w (keys, true) = first_use row_id at key id (record w { keys = keys })
  touched row_id at key id w (keys, false) = record w { keys = keys }

  unfoldable pub after_validate :
      ℕ
      → String
      → String
      → McpKey
      → World
      → S × Result Refusal Identity
      → World × Result Refusal Identity
  after_validate now row_id at key w (s, err e) =
      (reject row_id at key e (record w { checker = s }), err e)
  after_validate now row_id at key w (s, ok id) =
      (touched row_id at key id (record w { checker = s }) (touch_mcp_key key.id now w.keys), ok id)

  -- Resolve: `row_id` and `at` are the fresh id and the time of the audit row
  unfoldable pub resolve : ℕ → String → String → String → World → World × Result Refusal Identity
  resolve now row_id at bearer w =
      if not (well_formed config.decode bearer)
      then (w, err malformed)
      else elim (mcp_key_by_hash (config.hash_key bearer) w.keys) [
        | none ↦ (w, err unknown_key)
        | some key ↦ after_validate now row_id at key w (validate key now w.checker)
      ]

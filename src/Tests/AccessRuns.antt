-- ===== src/Tests/AccessRuns.antt =====
-- Identities, agents' keys, approvals and the audit log.
use Prim.Native.String.{String}
use manager.Prelude.{
  ℕ, ◌+◌, ◌*◌, ◌<◌, ◌≤◌, ◌≡◌, ◌≢◌, ◌∙◌, ◌⊎◌, ◌↔◌, inl, inr, refl, Bool, true, false, Option, none,
  some, List, [], ◌∷◌, ok, err, arith, Result, lookup, length, Map, is_ok, string_eq,
}
use manager.OperatorCa.Base.{Bytes, Certificate, hour}
use manager.OperatorCa.Serial.{Text}
use manager.OperatorCa.Revocations.{AnchorState, Revocations}
use manager.OperatorCa.Revocations.Web.{fresh_answer}
use manager.OperatorCa.Revocations.Mcp.{McpAllows, asked}
use manager.Authz.{
  Level, Identity, rank, token, level_from_token, level_from_token-token, identity_from_certificate,
}
use manager.Authz as Authz
use manager.Authz.Middleware.{served, client_cert, Admitted, client_cert_iff}
use manager.Audit.{AuditEvent, add_audit_event}
use manager.Audit.Chain.{Chained, Clash, add_audit_event-Chained, tamper_evident}
use manager.McpAuth.{
  McpKey, Refusal, key_revoked, key_expired, Config, World, mcp_key_by_hash, revoke_mcp_key,
  validate, with_ceiling, resolve, well_formed, key_row,
}
use manager.McpAuth.Resolving.{
  Live, issued, IsCapped, Live-validate, Live-validate-with_ceiling, validate-Live,
}
use manager.McpAuth.Keys.{touches, revokes, key_run, revoked_for_good}
use manager.McpAuth.Revocation.{revocations_check, validate-McpAllows}
use manager.Tests.Data.{leaf, unmarshal, engine, good_response}

abbrev pub alice : Identity
alice = record {
  cn = "alice";
  serial = b'3' ∷ b'2' ∷ [];
  level = Level.admin;
  via = "web";
  key_id = "";
  issuer_sha256 = "a1";
}

passed : client_cert unmarshal (some (λ c rest. ok "a1")) (leaf ∷ []) ≡ served alice
unfolding client_cert identity_from_certificate Authz.identity_at Authz.level_from_certificate
    Authz.level_from_extensions manager.Prelude.list_beq Authz.level_of_value level_from_token
    manager.Authz.Middleware.authorize manager.Authz.Middleware.authorized
    manager.OperatorCa.Serial.format_serial
passed = refl

client_cert_iff_example :
    (client_cert unmarshal (some (λ c rest. ok "a1")) (leaf ∷ []) ≡ served alice)
    ↔ Admitted unmarshal (λ c rest. ok "a1") (leaf ∷ []) alice
client_cert_iff_example = client_cert_iff unmarshal (λ c rest. ok "a1") (leaf ∷ []) alice

-- A digest of the right length, which collides.
abbrev pub digest : String → String
digest s = "0123456789abcdef0123456789abcdef0123456789abcdef0123456789abcdef"

abbrev blank : AuditEvent
blank = record {
  id = "aud-1";
  at = "2026-01-01T00:00:00Z";
  kind = "approval-used";
  summary = "Approval used";
  target_kind = "approval";
  target_path = "/approvals/p1";
  actor_kind = "";
  actor_cn = "";
  actor_serial = "";
  key_id = "";
  via = "";
  tool = "";
  request_digest = "";
  outcome = "ok";
  approval_id = "";
  approver_serial = "";
  chain_version = 0;
  prev_hash = "";
  hash = "";
}

abbrev pub log : List AuditEvent
log = (add_audit_event digest blank []).0

pub log-Chained : Chained digest log
log-Chained = add_audit_event-Chained digest blank [] none_yet
  where
    none_yet : Chained digest []
    none_yet = unfold Chained in tt

tamper_evident_example : (log ≡ log) ⊎ Clash digest log log
tamper_evident_example = tamper_evident digest (λ s. refl) log log log-Chained log-Chained refl refl

-- A key bound to the administrator's certificate, with the ceiling of an operator.
abbrev pub key : McpKey
key = record {
  id = "k1";
  token_hash = "h1";
  label = "agent";
  client_name = "agent";
  operator_serial = b'3' ∷ b'2' ∷ [];
  operator_cn = "alice";
  operator_cert_der = 2 ∷ [];
  level_ceiling = "operator";
  created_at = 1;
  last_used_at = 0;
  revoked_at = 0;
  expires_at = 0;
}

abbrev pub config : Config Revocations
config = record {
  decode = λ s. none;
  hash_key = λ s. "h1";
  parse = λ b. some leaf;
  verify = λ now c. some (1 ∷ []);
  fingerprint = λ b. "a1";
  unmarshal = unmarshal;
  check = revocations_check (10 * hour) (10 * hour) good_response;
  sha = digest;
  show = λ e. "refused";
}

abbrev pub agent : Identity
agent = record {
  cn = "alice";
  serial = b'3' ∷ b'2' ∷ [];
  level = Level.operator;
  via = "mcp";
  key_id = "k1";
  issuer_sha256 = "a1";
}

abbrev plain : Identity
plain = record alice { via = ""; issuer_sha256 = "" }

capped : with_ceiling key (issued config (1 ∷ []) plain) ≡ ok agent
unfolding with_ceiling level_from_token manager.McpAuth.lower_level Authz.below rank
capped = refl

mcp_ok : (config.check "a1" leaf engine).1 ≡ ok tt
unfolding revocations_check manager.OperatorCa.Revocations.check_mcp
    manager.OperatorCa.Revocations.check_mcp_sets lookup
    manager.OperatorCa.Revocations.revoked_locked manager.OperatorCa.Revocations.in_set
    manager.OperatorCa.Revocations.state_in_crl manager.OperatorCa.Revocations.in_crl
    manager.Prelude.member manager.Prelude.list_beq manager.OperatorCa.Serial.serial_key
    manager.OperatorCa.Revocations.has_crl manager.OperatorCa.Revocations.crl_fresh
    manager.OperatorCa.Crl.is_fresh manager.OperatorCa.Revocations.after_ocsp_mcp
    manager.OperatorCa.Revocations.ask_ocsp
mcp_ok = refl

live : Live config key (10 * hour) engine leaf (1 ∷ []) plain
unfolding identity_from_certificate Authz.identity_at Authz.level_from_certificate
    Authz.level_from_extensions manager.Prelude.list_beq Authz.level_of_value level_from_token
    manager.OperatorCa.Serial.format_serial
live = record {
  not_revoked = refl;
  unexpired = inl refl;
  parsed = refl;
  begun = omega arith;
  not_over = omega arith;
  chained = refl;
  leveled = refl;
  passed = mcp_ok;
}

resolved : (validate config key (10 * hour) engine).1 ≡ ok agent
resolved =
    Live-validate-with_ceiling config key (10 * hour) engine leaf (1 ∷ []) plain live ∙ capped

validate-Live_example :
    (cert : Certificate) × (anchor : Bytes) × (id : Identity) × Live config key
      (10 * hour)
      engine
      cert
      anchor
      id
    × (with_ceiling key (issued config anchor id) ≡ ok agent)
validate-Live_example = validate-Live config key (10 * hour) engine agent resolved

Live-validate_example :
    IsCapped config key (1 ∷ []) plain (validate config key (10 * hour) engine).1
Live-validate_example = Live-validate config key (10 * hour) engine leaf (1 ∷ []) plain live

validate-McpAllows_example :
    (cert : Certificate) × (anchor : Bytes) × (st : AnchorState) × ((config.parse
          key.operator_cert_der
        ≡ some cert)
      × (config.verify (10 * hour) cert ≡ some anchor)
      × (lookup (config.fingerprint anchor) engine.anchors ≡ some st)
      × McpAllows engine st (config.fingerprint anchor) cert.serial_number (10 * hour) (
          fresh_answer
            (asked
              (10 * hour)
              (10 * hour)
              good_response
              (config.fingerprint anchor)
              cert.serial_number
              (some cert)
              engine
              st).1))
validate-McpAllows_example =
    validate-McpAllows config (10 * hour) good_response key (10 * hour) engine agent refl resolved

abbrev keys : Map String McpKey
keys = ("k1", key) ∷ []

stored : lookup "k1" keys ≡ some key
unfolding lookup
stored = refl

revoked_for_good_example :
    (k : McpKey) × (lookup "k1"
        (key_run (touches "k1" 9 ∷ revokes "k1" 8 ∷ []) (revoke_mcp_key "k1" 5 keys).0)
      ≡ some k)
    × ((validate config k (10 * hour) engine).1 ≡ err key_revoked)
revoked_for_good_example =
    revoked_for_good config (touches "k1" 9 ∷ revokes "k1" 8 ∷ []) "k1" 5 key keys (10 * hour)
      engine (λ p. omega (arith, p)) stored refl

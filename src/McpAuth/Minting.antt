-- ===== src/McpAuth/Minting.antt =====
-- internal/mcpauth/keys.go: minting, listing and revoking MCP keys, over the keys of the in-memory
-- store. The admission check is a parameter, as are base64, hex, SHA-256 and `%q`. What the random
-- source and the clock give to a mint is its `Draw`.
use Prim.Native.String.{String, ◌++◌}
use manager.Prelude.{
  ℕ, not, ◌&&◌, Option, none, some, List, ◌==◌, nat_eq, string_eq, bytes_eq, if◌then◌else◌, Result,
  ok, err, refuse_if, ◌>>◌, Map, lookup, insert,
}
use manager.OperatorCa.Base.{Bytes}
use manager.OperatorCa.Base as Base
use manager.Authz.{Level, Identity, level_from_token, below}
use manager.Audit.{AuditEvent, record_event}
use manager.McpAuth.{McpKey, key_prefix, revoke_mcp_key}

-- Errors of the operations on keys. `no_randomness` wraps the random source's error, and `no_row` is
-- the store's.
pub data KeyError : Type 0 where
  bad_ceiling ceiling_too_high forbidden not_found no_randomness no_row : KeyError
  not_admitted : Base.Error → KeyError

-- What Keys is configured with, and the libraries it calls. `sha` is SHA-256 in hex, on a text.
pub record Codecs : Type 0 where
  pub encode : Bytes → String
  pub hex : Bytes → String
  pub sha : String → String
  pub quote : String → String

-- The rows of the store that Keys changes.
pub record KeyStore : Type 0 where
  pub keys : Map String McpKey
  pub log : List AuditEvent

pub record Draw : Type 0 where
  pub now : ℕ
  pub key_entropy : Option Bytes
  pub id_bytes : Bytes
  pub row_id : String
  pub row_at : String

abbrev pub Admission : Type 0
Admission = Option (Bytes → Result Base.Error (Unit {0}))

-- NewKey
unfoldable pub new_key : (Bytes → String) → Option Bytes → Result KeyError String
new_key encode none = err no_randomness
new_key encode (some b) = ok (key_prefix ++ encode b)

-- newKeyID
unfoldable pub new_key_id : (Bytes → String) → Bytes → String
new_key_id hex b = "mk-" ++ hex b

-- AddMcpKey
unfoldable pub add_mcp_key : McpKey → Map String McpKey → Map String McpKey
add_mcp_key k keys = insert k.id k keys

unfoldable pub ceiling_text : String → String
ceiling_text c = if c == "" then "none" else c

-- The first test of Mint.
unfoldable pub check_ceiling : String → Level → Result KeyError (Unit {0})
check_ceiling ceiling level = if ceiling == "" then ok tt else elim (level_from_token ceiling) [
  | err e ↦ err bad_ceiling
  | ok l ↦ refuse_if (below level l) ceiling_too_high
]

unfoldable pub admit : Admission → Bytes → Result KeyError (Unit {0})
admit none der = ok tt
admit (some check) der = elim (check der) [ err e ↦ err (not_admitted e) | ok u ↦ ok tt ]

unfoldable pub lifecycle_row : String → String → String → AuditEvent
lifecycle_row kind summary id = record {
  id = "";
  at = "";
  kind = kind;
  summary = summary;
  target_kind = "mcp-key";
  target_path = "/mcp-keys/" ++ id;
  actor_kind = "";
  actor_cn = "";
  actor_serial = "";
  key_id = "";
  via = "";
  tool = "";
  request_digest = "";
  outcome = "";
  approval_id = "";
  approver_serial = "";
  chain_version = 0;
  prev_hash = "";
  hash = "";
}

module _ (codecs : Codecs) where
  unfoldable pub minted_key : Identity → Bytes → String → String → String → Draw → String → McpKey
  minted_key owner der label client ceiling draw plain = record {
    id = new_key_id codecs.hex draw.id_bytes;
    token_hash = codecs.sha plain;
    label = label;
    client_name = client;
    operator_serial = owner.serial;
    operator_cn = owner.cn;
    operator_cert_der = der;
    level_ceiling = ceiling;
    created_at = draw.now;
    last_used_at = 0;
    revoked_at = 0;
    expires_at = 0;
  }

  unfoldable pub created_summary : McpKey → String
  created_summary key =
      "Created MCP key "
      ++ (key.id
          ++ (" (label "
              ++ (codecs.quote key.label
                  ++ (", client "
                      ++ (codecs.quote key.client_name
                          ++ (", ceiling "
                              ++ (codecs.quote (ceiling_text key.level_ceiling) ++ ")")))))))

  unfoldable pub store_key : Identity → Draw → McpKey → KeyStore → KeyStore
  store_key owner draw key ks = record {
    keys = add_mcp_key key ks.keys;
    log =
        (record_event codecs.sha draw.row_id draw.row_at (some owner) none
          (lifecycle_row "mcp-key-created" (created_summary key) key.id) ks.log).0;
  }

  -- The tests of Mint, and the plain key.
  unfoldable pub mint_checks : Admission → Identity → Bytes → String → Draw → Result KeyError String
  mint_checks admission owner der ceiling draw = do
    check_ceiling ceiling owner.level
    admit admission der
    new_key codecs.encode draw.key_entropy

  -- Mint
  unfoldable pub mint :
      Admission
      → Identity
      → Bytes
      → String
      → String
      → String
      → Draw
      → KeyStore
      → KeyStore × Result KeyError (String × McpKey)
  mint admission owner der label client ceiling draw ks =
      elim (mint_checks admission owner der ceiling draw) [
        | err e ↦ (ks, err e)
        | ok plain ↦ (
          store_key owner draw (minted_key owner der label client ceiling draw plain) ks,
          ok (plain, minted_key owner der label client ceiling draw plain),
        )
      ]

  unfoldable pub revoked_summary : String → McpKey → String
  revoked_summary id key =
      "Revoked MCP key "
      ++ (id
          ++ (" (label "
              ++ (codecs.quote key.label ++ (", bound to " ++ (key.operator_cn ++ ")")))))

  unfoldable pub after_revoke :
      Identity
      → String
      → String
      → String
      → McpKey
      → KeyStore
      → Map String McpKey × Option McpKey
      → KeyStore × Result KeyError McpKey
  after_revoke caller id row_id row_at key ks (keys, none) = (ks, err no_row)
  after_revoke caller id row_id row_at key ks (keys, some revoked) = (
    record {
      keys = keys;
      log =
          (record_event codecs.sha row_id row_at (some caller) none
            (lifecycle_row "mcp-key-revoked" (revoked_summary id key) id) ks.log).0;
    },
    ok revoked,
  )

  -- Revoke
  unfoldable pub revoke :
      Identity → String → ℕ → String → String → KeyStore → KeyStore × Result KeyError McpKey
  revoke caller id now row_id row_at ks = elim (lookup id ks.keys) [
    | none ↦ (ks, err not_found)
    | some key ↦
        if not (key.operator_serial == caller.serial) && below caller.level Level.admin
        then (ks, err forbidden)
        else if not (key.revoked_at == 0)
        then (ks, ok key)
        else after_revoke caller id row_id row_at key ks (revoke_mcp_key id now ks.keys)
  ]

-- ===== src/McpAuth/Logging.antt =====
-- What resolving a bearer leaves behind: a refused key is logged, a bearer that names no key is not.
use Prim.Native.String.{String}
use manager.Prelude.{ℕ, ◌≡◌, refl, true, none, string_eq, Bool-cases, inl, inr}
use manager.Audit.{AuditEvent}
use manager.McpAuth.{McpKey, Config, World, mcp_key_by_hash, resolve, well_formed}

module _ {S : Type 0} (config : Config S) (now : ℕ) (row_id at bearer : String)
    (w : World config) where
  -- A bearer that is not of the form of a key, or that no stored key has the hash of, changes nothing.
  pub resolve-unknown :
      (well_formed config.decode bearer ≡ true
        → mcp_key_by_hash (config.hash_key bearer) w.keys ≡ none)
      → (resolve config now row_id at bearer w).0 ≡ w
  unfolding resolve
  resolve-unknown h = elim (Bool-cases (well_formed config.decode bearer)) [
    | inr e ↦ rw (e, resolve) refl
    | inl e ↦ let none_found = h e in rw (e, none_found, resolve) refl
  ]

  -- What the audit row of a refused key says.
  pub record Denial (key : McpKey) (row : AuditEvent) : Type 0 where
    pub kind : row.kind ≡ "mcp-key-rejected"
    pub outcome : row.outcome ≡ "denied"
    pub key_id : row.key_id ≡ key.id
    pub actor : row.actor_cn ≡ key.operator_cn
    pub via : row.via ≡ "mcp"

-- ===== src/McpAuth/Revocation.antt =====
-- The resolver over the revocation engine of the operator CAs.
use manager.Prelude.{
  ℕ, ◌≡◌, sym, ap, ◌∙◌, String, some, Option, Result, ok, lookup, string_eq, Option-cases, inl, inr,
}
use manager.OperatorCa.Base.{Bytes, Certificate}
use manager.OperatorCa.Base as Base
use manager.Authz.{Identity}
use manager.OperatorCa.Ocsp.{Answer}
use manager.OperatorCa.Revocations.{AnchorState, Revocations, check_mcp, check_mcp_sets}
use manager.OperatorCa.Revocations.Web.{fresh_answer}
use manager.OperatorCa.Revocations.Mcp.{asked, McpAllows, check_mcp_iff}
use manager.McpAuth.{McpKey, Config, validate}
use manager.McpAuth.Resolving.{validate-Live}

-- CheckMCPCert as the resolver's checker, at one request: `answer` is the responder's.
unfoldable pub revocations_check :
    ℕ → ℕ → Answer → String → Certificate → Revocations → Revocations × Result Base.Error (Unit {0})
revocations_check now later answer sha cert r =
    check_mcp now later answer sha cert.serial_number (some cert) r

check_mcp-known :
    (now later : ℕ) (answer : Answer) (sha : String) (n : ℕ) (cert : Option Certificate)
    (r : Revocations)
    → (check_mcp now later answer sha n cert r).1 ≡ ok tt
    → (st : AnchorState) × (lookup sha r.anchors ≡ some st)
unfolding check_mcp check_mcp_sets
check_mcp-known now later answer sha n cert r h = elim (Option-cases (lookup sha r.anchors)) [
  | inr p ↦ p
  | inl q ↦ absurd (let k = rw (q, check_mcp, check_mcp_sets) at h in cc)
]

-- Where the resolver's checker is the revocation engine, a key is accepted only while the
-- certificate it is bound to passes the whole MCP rule under the trusted operator CA it chains to:
-- not revoked, a recent poll, a CRL within nextUpdate, and no OCSP status other than good.
pub validate-McpAllows :
    (config : Config Revocations) (later : ℕ) (answer : Answer) (key : McpKey) (now : ℕ)
    (r : Revocations) (who : Identity)
    → config.check ≡ revocations_check now later answer
    → (validate config key now r).1 ≡ ok who
    → (cert : Certificate) × (anchor : Bytes) × (st : AnchorState) × ((config.parse
            key.operator_cert_der
          ≡ some cert)
        × (config.verify now cert ≡ some anchor)
        × (lookup (config.fingerprint anchor) r.anchors ≡ some st)
        × McpAllows r st (config.fingerprint anchor) cert.serial_number now (
            fresh_answer
              (asked now later answer
                (config.fingerprint anchor)
                cert.serial_number
                (some cert)
                r
                st).1))
unfolding revocations_check
validate-McpAllows config later answer key now r who wired h =
    let (cert, anchor, id, live, top) = validate-Live config key now r who h in
    let sha = config.fingerprint anchor in
    let passed : (check_mcp now later answer sha cert.serial_number (some cert) r).1 ≡ ok tt =
      sym (
        ap
          (λ (f : String → Certificate → Revocations → Revocations × Result Base.Error (Unit {0})).
            (f sha cert r).1)
          wired)
      ∙ live.passed in
    let (st, known) =
      check_mcp-known now later answer sha cert.serial_number (some cert) r passed in
    (
      cert,
      anchor,
      st,
      (
        live.parsed,
        live.chained,
        known,
        (check_mcp_iff now later answer sha cert.serial_number (some cert) r st known).0 passed,
      ),
    )

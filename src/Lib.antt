-- ===== src/Lib.antt =====
-- The fleet manager: operator CA trust, agents' keys, approvals and the audit log.
--
-- The manager lets operators in by client certificates of trusted operator CAs and agents by bearer
-- keys bound to such certificates. At every request it asks the revocation engine about the
-- certificate. A step-up call of an agent runs only under an approval that a person gave, and what
-- happened is appended to a hash chain.
--
-- Files and the code they model (paths from the repository's root):
--   Prelude          what the components share: Boolean tests, results, Go's maps and sets as lists.
--   OperatorCa.Base  certificates as crypto/x509 hands them over, refusals, the clock.
--   OperatorCa.Serial  internal/operatorca/certcheck.go (SerialKey, NormalizeSerial) and formatSerial of
--                    internal/authz/middleware.go.
--   OperatorCa.Lru   internal/operatorca/lru.go, refined to a list of entries by last use.
--   OperatorCa.Crl   internal/operatorca/crl.go (VerifyCRL, AcceptNewer).
--   OperatorCa.Ocsp  internal/operatorca/ocspclient.go (Check, refresh, fill, ClearAnchor).
--   OperatorCa.Trust internal/store/operatortrust.go, an interface, and in Trust.Memory its
--                    implementation in internal/store/memory/operatortrust.go.
--   OperatorCa.Revocations  internal/operatorca/revocation.go: the state and the decisions checkWeb and
--                    checkMCP; Engine has SetAnchors, Reload, Deny and StoreCRL, Poll the Poller.
--   Authz            internal/authz: levels, identities and, in Middleware, clientCert.
--   McpAuth          internal/mcpauth/resolver.go and key.go, in Minting keys.go, and the key rows of
--                    internal/store/memory/memory.go.
--   Approval         internal/approval/approval.go and the approval rows of the memory store.
--   Audit            HashEvent of internal/store/store.go, AddAuditEvent of the memory store, and
--                    internal/auditlog/auditlog.go.
--   RateLimit        internal/ratelimit/ratelimit.go.
--   OAuth            internal/oauth/oauth.go and the login rows of the memory store: registration and the
--                    rows here, the handlers in Authorizing, Consent and Tokens, histories in Runs.
--   Bootstrap        internal/bootstrap over the tables of internal/store/postgres/bootstrap.go: the tables
--                    here, token.go in Tokens, service.go and the token lock in Service, latch.go and the
--                    start of the service in Latching.
--   Inventory        internal/store/memory/memory.go: nodes and their names here, the other tables in Catalog.
--   Fleet            internal/fleet: guards here, nodeid.go and removenode.go in Nodes, enrollment.go in
--                    Enrollments, profiles.go in Profiles, over the tables of Inventory.
--   Tests            each theorem at a concrete input.
--
-- How the parts meet: McpAuth calls its checker, which McpAuth.Revocation fills with the engine's
-- checkMCP; the engine asks the OCSP client, which keeps its answers in the cache, and reads CRLs and
-- denylist entries through the interface of OperatorCa.Trust; McpAuth appends to the log of Audit.
-- The token endpoint of OAuth mints its keys by McpAuth.Minting. The handlers of Fleet work on the
-- tables of Inventory.
--
-- Conventions: a time is a number of nanoseconds since the zero time, so 0 is unset, and durations are
-- numbers too. Times that Go writes as differences are compared as sums, or subtracted where a
-- negative difference answers the same as none. What the network, a responder, the clock or the
-- random source gives is an argument. A method that holds the lock is one step; where it lets the
-- lock go and takes it again, its parts are functions of their own, called in the order of the
-- source with nothing between them; so are the calls of the store that a handler of Fleet makes.
-- Logs and audit rows keep what decides whether they are written.
-- A Go string is a text, or the list of its bytes where the source cuts it or builds it from bytes.
-- The digits of a number are written with as many rounds as the number, which is enough for a base
-- of at least 2 and is proved so; crockford's inner loop runs as many rounds as there are bits, which
-- is proved to be enough; nothing else runs on fuel. A statement of SQL is a function on lists of rows.
--
-- Parameters: JSON, protobuf, net/url, PEM, ASN.1, X.509 parsing, signatures and chain verification,
-- base64, SHA-256, regexp, the parser of UUIDs, and the token bucket of golang.org/x/time/rate.
--
-- Not modelled: LINK enrollments, approvals of enrollments and the other handlers of internal/fleet,
-- internal/mcpserver, registration in first run (register.go, firstadmin.go and reset.go of
-- internal/bootstrap), the trust store and its watchers, the contents of OCSP responses
-- (internal/operatorca/ocsp.go), the Postgres store, node connections, configuration and the web UI.
-- In the revocation engine the decisions on a serial given as text and the banner texts of Status are
-- left out.
pub mod Prelude
pub mod OperatorCa
pub mod Authz
pub mod Audit
pub mod McpAuth
pub mod Approval
pub mod RateLimit
pub mod OAuth
pub mod Bootstrap
pub mod Inventory
pub mod Fleet
pub mod Tests

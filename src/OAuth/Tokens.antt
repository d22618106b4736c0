-- ===== src/OAuth/Tokens.antt =====
-- token of internal/oauth/oauth.go: a code is redeemed for an MCP key.
use Prim.Native.String.{String}
use manager.Prelude.{
  ℕ, not, Option, none, some, ltb, ◌==◌, string_eq, if◌then◌else◌, Result, ok, err, refuse_if,
  ◌>>=◌, ◌>>◌, Map,
}
use manager.OperatorCa.Base.{Bytes, Certificate}
use manager.Authz.{Identity, identity_from_certificate}
use manager.McpAuth.{McpKey}
use manager.McpAuth.Minting.{
  KeyError, bad_ceiling, ceiling_too_high, not_admitted, Admission, Draw, KeyStore, mint,
}
use manager.OAuth.{
  OAuthCode, State, Server, Reply, oauth_error, access_token, form_get, hash_token,
  verifier_matches, take_oauth_code,
}

-- x509.ParseCertificate, and the encoding of the access level.
pub record Parsers : Type 0 where
  pub parse : Bytes → Option Certificate
  pub unmarshal : Bytes → Option String

-- The arguments of oauthError.
pub record Failure : Type 0 where
  pub status : ℕ
  pub error : String
  pub description : String

unfoldable pub answer : Failure → Reply
answer f = oauth_error f.status f.error f.description

unfoldable pub invalid_grant : String → Failure
invalid_grant desc = record { status = 400; error = "invalid_grant"; description = desc }

unfoldable pub server_error : String → Failure
server_error desc = record { status = 500; error = "server_error"; description = desc }

unfoldable pub mint_refusal : KeyError → Failure
mint_refusal bad_ceiling = invalid_grant "the level ceiling is no longer allowed"
mint_refusal ceiling_too_high = invalid_grant "the level ceiling is no longer allowed"
mint_refusal (not_admitted e) = invalid_grant "the operator certificate can't hold an MCP key"
mint_refusal _ = server_error "the key could not be minted"

unfoldable pub after_mint : State → KeyStore × Result KeyError (String × McpKey) → State × Reply
after_mint s (ks, err e) = (record s { minted = ks }, answer (mint_refusal e))
after_mint s (ks, ok issued) = (record s { minted = ks }, access_token issued.0)

unfoldable pub owner_of : Parsers → OAuthCode → Result Failure Identity
owner_of parsers code = elim (parsers.parse code.operator_cert_der) [
  | none ↦ err (server_error "the stored operator certificate does not parse")
  | some cert ↦ elim (identity_from_certificate parsers.unmarshal cert) [
    | err e ↦ err (invalid_grant "the operator certificate carries no access level")
    | ok owner ↦ ok (record owner { via = "web" })
  ]
]

-- The code that the store gave up, if it has not expired.
unfoldable pub live_code : ℕ → Option OAuthCode → Result Failure OAuthCode
live_code now none = err (invalid_grant "the code is unknown, used or expired")
live_code now (some code) =
    if ltb now code.expires_at
    then ok code
    else err (invalid_grant "the code is unknown, used or expired")

module _ {U : Type 0} (server : Server U) (parsers : Parsers) where
  -- The cases after the code is taken.
  unfoldable pub grant_checks :
      ℕ → Map String String → Option OAuthCode → Result Failure (OAuthCode × Identity)
  grant_checks now form taken = do
    code ← live_code now taken
    refuse_if (not (form_get "client_id" form == code.client_id))
        (invalid_grant "the code was issued to another client")
    refuse_if (not (form_get "redirect_uri" form == code.redirect_uri))
        (invalid_grant "redirect_uri does not match the authorization request")
    refuse_if (not (verifier_matches server (form_get "code_verifier" form) code.code_challenge))
        (invalid_grant "code_verifier does not match the code challenge")
    owner ← owner_of parsers code
    ok (code, owner)

  module _ (admission : Admission) where
    unfoldable pub mint_for : Draw → OAuthCode → Identity → State → State × Reply
    mint_for draw code owner s = after_mint s (
        mint server.codecs admission owner code.operator_cert_der code.label code.client_name
          code.level_ceiling draw s.minted)

    unfoldable pub redeem : ℕ → Draw → Map String String → State × Option OAuthCode → State × Reply
    redeem now draw form (s, taken) = elim (grant_checks now form taken) [
      | err r ↦ (s, answer r)
      | ok grant ↦ mint_for draw grant.0 grant.1 s
    ]

    -- token
    unfoldable pub redeem_code : ℕ → Draw → Option (Map String String) → State → State × Reply
    redeem_code now draw none s = (s, oauth_error 400 "invalid_request" "the body is not a form")
    redeem_code now draw (some form) s =
        if not (form_get "grant_type" form == "authorization_code")
        then (s, oauth_error 400 "unsupported_grant_type" "only authorization_code is supported")
        else redeem now draw form (take_oauth_code (hash_token server (form_get "code" form)) s)

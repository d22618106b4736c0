-- ===== src/Tests/LoginRuns.antt =====
-- Logins of an MCP client.
use Prim.Native.String.{String, ◌++◌}
use manager.Prelude.{
  ◌+◌, ◌*◌, ◌≤◌, ◌<◌, ◌⊎◌, take, utf8, ◌≡◌, ◌≢◌, ◌↔◌, refl, true, none, some, [], ◌∷◌, string_eq,
  bytes_eq, list_beq, eq_iff, ok, lookup, length, arith,
}
use manager.OperatorCa.Base.{minute}
use manager.Authz.{Level, admin, Identity}
use manager.McpAuth.{key_prefix, McpKey}
use manager.McpAuth.Minting.{admit, new_key}
use manager.McpAuth.Minted.{capped}
use manager.Audit.{string_of}
use manager.OAuth.{
  OAuthCode, OAuthRequest, State, Client, Urls, Server, Reply, registered, access_token, form_get,
  hash_token, loopback, verifier_matches, decode_client_id, encode_client_id, register, truncated,
  max_redirect_uris, max_client_name, Registered,
}
use manager.OAuth.Authorizing.{is_registered, query_error, authorize, new_request}
use manager.OAuth.Consent.{Context, Decision, operator_of, decision_error, consent_decide, new_code}
use manager.OAuth.Tokens.{redeem_code, owner_of}
use manager.OAuth.Grants.{Issues, redeem_code_iff, redeem_code-issued}
use manager.OAuth.Runs.{run}
use manager.OAuth.Once.{successes, redeemed_once}
use manager.OAuth.Redirects.{GoBack, run-GoBack}
use manager.OAuth.Clients.{register-decode_client_id}
use manager.OAuth.Login.{Starts, Approves, Presents, login_completes}
use manager.Tests.Data.{leaf}
use manager.Tests.LoginData.{
  agent_client, server, parsers, query, form, empty, alice, ctx, approval, draw, other, history,
  back, code, ready, owner,
}

-- The client as its registration records it.
abbrev recorded : Registered
recorded = record {
  name = 97 ∷ 103 ∷ 101 ∷ 110 ∷ 116 ∷ [];
  redirect_uris = agent_client.redirect_uris;
}

answered :
    register server (some agent_client) ≡ registered (encode_client_id server recorded) recorded
unfolding register encode_client_id manager.OAuth.is_loopback loopback manager.OAuth.loopback_url
    manager.OAuth.loopback_host truncated utf8
answered = refl

register-decode_client_id_example :
    (decode_client_id server (encode_client_id server recorded)
      ≡ some (record {
        name = string_of (take max_client_name (utf8 "agent"));
        redirect_uris = agent_client.redirect_uris;
      }))
    × (length agent_client.redirect_uris ≤ max_redirect_uris)
    × ((max_client_name < length (utf8 "agent"))
        ⊎ (string_of (take max_client_name (utf8 "agent")) ≡ "agent"))
unfolding utf8 string_of
register-decode_client_id_example =
    register-decode_client_id server string_of agent_client recorded
      (encode_client_id server recorded) refl refl refl answered

starts_client : decode_client_id server (form_get "client_id" query) ≡ some agent_client
unfolding decode_client_id form_get lookup manager.OAuth.unmarshal_client
    manager.OAuth.checked_client manager.OAuth.is_loopback loopback manager.OAuth.loopback_url
    manager.OAuth.loopback_host
starts_client = refl

starts_redirect : loopback server (form_get "redirect_uri" query) ≡ some back
unfolding loopback form_get lookup manager.OAuth.loopback_url manager.OAuth.loopback_host
starts_redirect = refl

starts_own : is_registered server back agent_client.redirect_uris ≡ true
unfolding is_registered manager.OAuth.Authorizing.matches loopback manager.OAuth.loopback_url
    manager.OAuth.loopback_host manager.OAuth.same_loopback
starts_own = refl

starts_valid : query_error server back query ≡ none
unfolding query_error form_get lookup manager.OAuth.valid_pkce manager.OAuth.unreserved
starts_valid = refl

starts : Starts server parsers none query agent_client back
starts = record {
  is_client = starts_client;
  is_redirect = starts_redirect;
  is_own = starts_own;
  is_valid = starts_valid;
}

approves_operator : operator_of ctx ≡ ok (alice, leaf)
unfolding operator_of
approves_operator = refl

approves_valid : decision_error alice approval ≡ none
unfolding decision_error manager.OAuth.Consent.ceiling_error manager.Authz.level_from_token
    manager.Authz.below manager.Authz.rank
approves_valid = refl

approves : Approves server parsers none ctx alice leaf approval
approves = record { is_operator = approves_operator; is_valid = approves_valid; is_approval = refl }

same_code : form_get "code" form ≡ server.codecs.encode (2 ∷ [])
unfolding form_get list_beq lookup
same_code = refl

same_client : form_get "client_id" form ≡ form_get "client_id" query
unfolding form_get lookup
same_client = refl

same_redirect : form_get "redirect_uri" form ≡ back
unfolding form_get lookup
same_redirect = refl

grant_type : form_get "grant_type" form ≡ "authorization_code"
unfolding form_get lookup
grant_type = refl

proven :
    verifier_matches server (form_get "code_verifier" form) (form_get "code_challenge" query) ≡ true
unfolding verifier_matches manager.OAuth.valid_pkce form_get lookup manager.OAuth.unreserved
    list_beq
proven = refl

presents : Presents server parsers none form query back (2 ∷ [])
presents = record {
  grant_type = grant_type;
  same_code = same_code;
  same_client = same_client;
  same_redirect = same_redirect;
  proven = proven;
}

is_owner :
    owner_of parsers (
      new_code server
        (10 * minute)
        (2 ∷ [])
        alice
        leaf
        approval
        (new_request server minute (1 ∷ []) agent_client back query))
    ≡ ok owner
unfolding owner_of manager.Authz.identity_from_certificate manager.Authz.identity_at
    manager.Authz.level_from_certificate manager.Authz.level_from_extensions list_beq
    manager.Authz.level_of_value manager.Authz.level_from_token
    manager.OperatorCa.Serial.format_serial
is_owner = refl

admitted : admit none leaf.raw ≡ ok tt
unfolding admit
admitted = refl

has_owner : owner_of parsers code ≡ ok owner
unfolding owner_of manager.Authz.identity_from_certificate manager.Authz.identity_at
    manager.Authz.level_from_certificate manager.Authz.level_from_extensions list_beq
    manager.Authz.level_of_value manager.Authz.level_from_token
    manager.OperatorCa.Serial.format_serial
has_owner = refl

in_store : lookup (hash_token server (form_get "code" form)) ready.codes ≡ some code
unfolding lookup hash_token form_get
in_store = refl

plain : new_key server.codecs.encode draw.key_entropy ≡ ok "fos_mcp_key"
unfolding new_key list_beq
plain = refl

issues : Issues server parsers none (10 * minute) draw form ready "fos_mcp_key"
unfolding form_get lookup manager.Authz.level_from_token manager.Authz.below manager.Authz.rank
issues = record {
  code = code;
  owner = owner;
  grant_type = grant_type;
  is_stored = in_store;
  is_redeemed = record {
    unexpired = omega arith;
    same_client = same_client;
    same_redirect = same_redirect;
    proven = proven;
    is_owner = has_owner;
  };
  is_minted = record {
    within = capped Level.operator refl refl;
    is_admitted = admitted;
    is_plain = plain;
  };
}

issued :
    (redeem_code server parsers none (10 * minute) draw (some form) ready).1
    ≡ access_token "fos_mcp_key"
issued = (redeem_code_iff server parsers none (10 * minute) draw form ready "fos_mcp_key").1 issues

redeem_code_iff_example :
    ((redeem_code server parsers none (10 * minute) draw (some form) ready).1
      ≡ access_token "fos_mcp_key")
    ↔ Issues server parsers none (10 * minute) draw form ready "fos_mcp_key"
redeem_code_iff_example =
    redeem_code_iff server parsers none (10 * minute) draw form ready "fos_mcp_key"

redeem_code-issued_example :
    (i : Issues server parsers none (10 * minute) draw form ready "fos_mcp_key") × (lookup
        (hash_token server (form_get "code" form))
        (redeem_code server parsers none (10 * minute) draw (some form) ready).0.codes
      ≡ none)
    × ((key : McpKey) × (lookup key.id
            (redeem_code server parsers none (10 * minute) draw (some form) ready).0.minted.keys
          ≡ some key)
        × (key.token_hash ≡ "fos_mcp_key")
        × (key.operator_cert_der ≡ i.code.operator_cert_der)
        × (key.operator_serial ≡ i.owner.serial)
        × (key.level_ceiling ≡ i.code.level_ceiling)
        × (key.revoked_at ≡ 0))
redeem_code-issued_example =
    redeem_code-issued server parsers none (10 * minute) draw form ready "fos_mcp_key" issued

other_code : ◌≢◌ {A = String} (hash_token server (server.codecs.encode (9 ∷ []))) "secret"
unfolding hash_token list_beq
other_code p = let stuck = (eq_iff "other" "secret").1 p in cc

redeemed_once_example :
    (successes server parsers none "secret" history ready ≤ 1)
    × (lookup "secret" ready.codes ≡ none
        → successes server parsers none "secret" history ready ≡ 0)
redeemed_once_example =
    redeemed_once server parsers none "secret" history ready (tt, (other_code, (tt, (tt, tt))))

run-GoBack_example : GoBack server parsers none (run server parsers none history empty)
run-GoBack_example =
    run-GoBack server parsers none history empty (record { requests = tt; codes = tt })

other_login : ◌≢◌ {A = String} (server.codecs.encode (9 ∷ [])) (server.codecs.encode (1 ∷ []))
unfolding list_beq
other_login p = let stuck = (eq_iff "other" "login").1 p in cc

login_completes_example :
    (redeem_code server parsers none (10 * minute + 5) draw (some form) (
      run server parsers none []
        (consent_decide server
          (10 * minute)
          (2 ∷ [])
          ctx
          (server.codecs.encode (1 ∷ []))
          "application/json"
          (some approval)
          (run server parsers none
            (other ∷ [])
            (authorize server minute minute (1 ∷ []) query empty).0)).0)).1
    ≡ access_token (key_prefix ++ server.codecs.encode (3 ∷ []))
unfolding new_request
login_completes_example =
    login_completes server parsers none empty query agent_client back minute minute (1 ∷ [])
      (other ∷ []) [] (10 * minute) (2 ∷ []) ctx alice leaf approval (10 * minute + 5) draw form
      owner (3 ∷ []) starts ((other_login, omega arith), tt) (omega arith) approves tt (omega arith)
      presents is_owner refl admitted refl

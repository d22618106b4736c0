-- ===== src/OAuth/Authorizing.antt =====
-- authorize of internal/oauth/oauth.go: the start of a login. `now` and `store_now` are the server's
-- and the store's reading of the clock, and `entropy` the 32 random bytes of the request's id.
use Prim.Native.String.{String, ◌++◌}
use manager.Prelude.{
  ℕ, ◌+◌, Bool, false, not, ◌&&◌, ◌||◌, Option, none, some, List, [], ◌∷◌, ◌==◌, string_eq,
  if◌then◌else◌, Map,
}
use manager.OperatorCa.Base.{Bytes}
use manager.OAuth.{
  OAuthRequest, State, Client, Server, Reply, plain_error, found, form_get, valid_pkce, resource,
  with_params, loopback, same_loopback, decode_client_id, request_ttl, add_oauth_request,
}

module _ {U : Type 0} (server : Server U) where
  unfoldable pub matches : U → Option U → Bool
  matches redirect none = false
  matches redirect (some reg) = same_loopback server reg redirect

  -- The loop over the client's redirect URIs.
  unfoldable pub is_registered : U → List String → Bool
  is_registered redirect [] = false
  is_registered redirect (uri ∷ uris) =
      matches redirect (loopback server uri) || is_registered redirect uris

  -- fail of authorize
  unfoldable pub fail_to : U → String → String → String → Reply
  fail_to redirect state code desc = found (
      with_params server redirect
        (("error", code) ∷ ("error_description", desc) ∷ ("state", state) ∷ []))

  -- The tests of the query, once the redirect is known to be the client's.
  unfoldable pub query_error : U → Map String String → Option Reply
  query_error redirect q =
      if not (form_get "response_type" q == "code")
      then some (
          fail_to redirect (form_get "state" q) "unsupported_response_type"
            "only the authorization code flow is supported")
      else if not (form_get "code_challenge_method" q == "S256")
          || not (valid_pkce (form_get "code_challenge" q))
      then some (
          fail_to redirect (form_get "state" q) "invalid_request"
            "PKCE with code_challenge_method S256 is required")
      else if not (form_get "resource" q == "") && not (form_get "resource" q == resource server)
      then some (
          fail_to redirect (form_get "state" q) "invalid_target"
            ("the only resource here is " ++ resource server))
      else none

  unfoldable pub new_request : ℕ → Bytes → Client → U → Map String String → OAuthRequest
  new_request now entropy c redirect q = record {
    id = server.codecs.encode entropy;
    client_id = form_get "client_id" q;
    client_name = c.name;
    redirect_uri = server.urls.show redirect;
    state = form_get "state" q;
    code_challenge = form_get "code_challenge" q;
    expires_at = now + request_ttl;
  }

  unfoldable pub request_page : String → String
  request_page id = "/oauth/consent?req=" ++ server.urls.query_escape id

  unfoldable pub not_registered : Reply
  not_registered = plain_error 400 "redirect_uri is not registered for this client"

  unfoldable pub authorize_to :
      ℕ → ℕ → Bytes → Map String String → Client → U → State → State × Reply
  authorize_to now store_now entropy q c redirect s =
      if not (is_registered redirect c.redirect_uris)
      then (s, not_registered)
      else elim (query_error redirect q) [
        | some reply ↦ (s, reply)
        | none ↦ (
          add_oauth_request store_now (new_request now entropy c redirect q) s,
          found (request_page (new_request now entropy c redirect q).id),
        )
      ]

  -- authorize
  unfoldable pub authorize : ℕ → ℕ → Bytes → Map String String → State → State × Reply
  authorize now store_now entropy q s = elim (decode_client_id server (form_get "client_id" q)) [
    | none ↦ (s, plain_error 400 "unknown client_id")
    | some c ↦ elim (loopback server (form_get "redirect_uri" q)) [
      | none ↦ (s, not_registered)
      | some redirect ↦ authorize_to now store_now entropy q c redirect s
    ]
  ]

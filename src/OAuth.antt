-- ===== src/OAuth.antt =====
-- internal/oauth/oauth.go: the one-time login of an MCP client, with the login rows of
-- internal/store/memory/memory.go. What the parts share is here: the rows, the libraries, PKCE,
-- client ids and loopback redirects. JSON, base64, SHA-256, net/url, net.ParseIP and
-- mime.ParseMediaType are parameters.
pub mod Authorizing
pub mod Consent
pub mod Tokens
pub mod Grants
pub mod Runs
pub mod Effects
pub mod Once
pub mod Redirects
pub mod Spared
pub mod Login
pub mod Clients
use Prim.Native.Char.{Char, code}
use Prim.Native.String.{String, ◌++◌, len, slice}
use Prim.Native.String as Str
use text.Mathlib.Text.{starts_with}
use manager.Prelude.{
  ℕ, ◌*◌, Bool, true, false, not, ◌&&◌, ◌||◌, Option, none, some, List, [], ◌∷◌, leb, ltb, ◌==◌,
  nat_eq, string_eq, if◌then◌else◌, Map, lookup, insert, delete, keep, all, length, take, utf8,
}
use manager.OperatorCa.Base.{Bytes, minute}
use manager.OperatorCa.Serial.{Text}
use manager.McpAuth.Minting.{Codecs, KeyStore}

abbrev pub request_ttl : ℕ
request_ttl = 10 * minute

abbrev pub code_ttl : ℕ
code_ttl = minute

abbrev pub client_id_prefix : String
client_id_prefix = "fos-client-"

abbrev pub max_client_name : ℕ
max_client_name = 200

abbrev pub max_redirect_uris : ℕ
max_redirect_uris = 10

abbrev pub max_redirect_len : ℕ
max_redirect_len = 512

abbrev pub max_label : ℕ
max_label = 200

-- store.OAuthRequest
pub record OAuthRequest : Type 0 where
  pub id : String
  pub client_id : String
  pub client_name : String
  pub redirect_uri : String
  pub state : String
  pub code_challenge : String
  pub expires_at : ℕ

-- store.OAuthCode
pub record OAuthCode : Type 0 where
  pub code_hash : String
  pub client_id : String
  pub client_name : String
  pub redirect_uri : String
  pub code_challenge : String
  pub operator_cn : String
  pub operator_serial : Text
  pub operator_cert_der : Bytes
  pub level_ceiling : String
  pub label : String
  pub expires_at : ℕ

-- The login rows of the store, and the rows of Keys.
pub record State : Type 0 where
  pub requests : Map String OAuthRequest
  pub codes : Map String OAuthCode
  pub minted : KeyStore

-- AddOAuthRequest: `now` is the store's own reading of the clock
unfoldable pub add_oauth_request : ℕ → OAuthRequest → State → State
unfolding keep
add_oauth_request now r s = record s {
  requests = insert r.id r (keep (λ row. not (ltb row.1.expires_at now)) s.requests);
  codes = keep (λ row. not (ltb row.1.expires_at now)) s.codes;
}

-- OAuthRequest
unfoldable pub oauth_request : String → State → Option OAuthRequest
oauth_request id s = lookup id s.requests

-- TakeOAuthRequest
unfoldable pub take_oauth_request : String → State → State × Option OAuthRequest
take_oauth_request id s = (record s { requests = delete id s.requests }, lookup id s.requests)

-- AddOAuthCode
unfoldable pub add_oauth_code : OAuthCode → State → State
add_oauth_code c s = record s { codes = insert c.code_hash c s.codes }

-- TakeOAuthCode
unfoldable pub take_oauth_code : String → State → State × Option OAuthCode
take_oauth_code hash s = (record s { codes = delete hash s.codes }, lookup hash s.codes)

-- A client as it is read from JSON, whose strings are always valid UTF-8.
pub record Client : Type 0 where
  pub name : String
  pub redirect_uris : List String

-- A client as a registration records it. Its name was cut at a number of bytes, which need not be the end
-- of a character, so it is kept as bytes.
pub record Registered : Type 0 where
  pub name : Bytes
  pub redirect_uris : List String

-- The libraries over URLs. `hostname` is without the port and `host` with it, `show` is String(),
-- `with_query` sets query values and prints, and `loopback_ip` is net.ParseIP with IsLoopback.
pub record Urls (U : Type 0) : Type 0 where
  pub parse : String → Option U
  pub scheme : U → String
  pub fragment : U → String
  pub has_user : U → Bool
  pub hostname : U → String
  pub host : U → String
  pub path : U → String
  pub raw_query : U → String
  pub show : U → String
  pub with_query : List (String × String) → U → String
  pub loopback_ip : String → Bool
  pub query_escape : String → String

-- What the server is configured with. `codecs.encode` is unpadded base64url.
pub record Server (U : Type 0) : Type 0 where
  pub urls : Urls U
  pub codecs : Codecs
  pub decode : String → Option Bytes
  pub marshal : Registered → Bytes
  pub unmarshal : Bytes → Option Client
  pub digest : String → Bytes
  pub public_url : String

-- What a handler answers.
pub data Reply : Type 0 where
  plain_error : ℕ → String → Reply
  oauth_error : ℕ → String → String → Reply
  found : String → Reply
  registered : String → Registered → Reply
  consent_view : String → String → String → Text → List String → Reply
  redirect_to : String → Reply
  access_token : String → Reply
  nil_dereference : Reply

-- url.Values.Get
unfoldable pub form_get : String → Map String String → String
form_get k form = elim (lookup k form) [ none ↦ "" | some v ↦ v ]

abbrev pub between : ℕ → ℕ → ℕ → Bool
between lo hi n = leb lo n && leb n hi

-- unreserved: the last three tests are those of "-._~"
unfoldable pub unreserved : Char → Bool
unreserved c =
    between b'A' b'Z' (code c)
    || between b'a' b'z' (code c)
    || between b'0' b'9' (code c)
    || code c == b'-'
    || code c == b'.'
    || code c == b'_'
    || code c == b'~'

unfoldable pub all_unreserved : String → Bool
all_unreserved Str.[] = true
all_unreserved (Str.◌∷◌ c s) = let rest = all_unreserved s in if unreserved c then rest else false

-- validPKCE
unfoldable pub valid_pkce : String → Bool
unfolding all_unreserved
valid_pkce s = if ltb (len s) 43 || ltb 128 (len s) then false else all_unreserved s

module _ {U : Type 0} (server : Server U) where
  -- resource
  unfoldable pub resource : String
  resource = server.public_url ++ "/mcp"

  -- hashToken
  unfoldable pub hash_token : String → String
  hash_token s = server.codecs.sha s

  -- verifierMatches
  unfoldable pub verifier_matches : String → String → Bool
  verifier_matches verifier challenge =
      if not (valid_pkce verifier)
      then false
      else server.codecs.encode (server.digest verifier) == challenge

  -- withParams
  unfoldable pub with_params : U → List (String × String) → String
  unfolding keep
  with_params u params = server.urls.with_query (keep (λ p. not (p.1 == "")) params) u

  unfoldable pub loopback_host : U → Bool
  loopback_host u =
      if server.urls.hostname u == "localhost"
      then true
      else server.urls.loopback_ip (server.urls.hostname u)

  unfoldable pub loopback_url : U → Bool
  loopback_url u =
      if not (server.urls.scheme u == "http")
        || not (server.urls.fragment u == "")
        || server.urls.has_user u
      then false
      else loopback_host u

  -- loopback
  unfoldable pub loopback : String → Option U
  loopback raw = if ltb max_redirect_len (len raw) then none else elim (server.urls.parse raw) [
    | none ↦ none
    | some u ↦ if loopback_url u then some u else none
  ]

  -- sameLoopback
  unfoldable pub same_loopback : U → U → Bool
  same_loopback reg a =
      server.urls.hostname reg == server.urls.hostname a
      && server.urls.path reg == server.urls.path a
      && server.urls.raw_query reg == server.urls.raw_query a

  unfoldable pub is_loopback : String → Bool
  is_loopback raw = elim (loopback raw) [ none ↦ false | some u ↦ true ]

  -- encodeClientID
  unfoldable pub encode_client_id : Registered → String
  encode_client_id c = client_id_prefix ++ server.codecs.encode (server.marshal c)

  unfoldable pub checked_client : Client → Option Client
  unfolding all
  checked_client c =
      if length c.redirect_uris == 0
      then none
      else if all is_loopback c.redirect_uris
      then some c
      else none

  unfoldable pub unmarshal_client : Option Bytes → Option Client
  unmarshal_client none = none
  unmarshal_client (some b) = elim (server.unmarshal b) [ none ↦ none | some c ↦ checked_client c ]

  -- decodeClientID
  unfoldable pub decode_client_id : String → Option Client
  decode_client_id id =
      if not (starts_with id client_id_prefix)
      then none
      else unmarshal_client (server.decode (slice id (len client_id_prefix) (len id)))

  -- name[:maxClientName] on the bytes of the name
  unfoldable pub truncated : Bytes → Bytes
  truncated name = if ltb max_client_name (length name) then take max_client_name name else name

  -- register: `metadata` is the decoded body, its client name and redirect URIs
  unfoldable pub register : Option Client → Reply
  unfolding all
  register none = oauth_error 400 "invalid_client_metadata" "the body is not client metadata JSON"
  register (some meta) =
      if length meta.redirect_uris == 0 || ltb max_redirect_uris (length meta.redirect_uris)
      then oauth_error 400 "invalid_redirect_uri"
          "between 1 and 10 loopback redirect_uris are required"
      else if not (all is_loopback meta.redirect_uris)
      then oauth_error 400 "invalid_redirect_uri"
          "only http loopback redirect URIs (127.0.0.1, [::1], localhost) are accepted"
      else let c : Registered = record {
        name = truncated (utf8 meta.name);
        redirect_uris = meta.redirect_uris;
      } in
        registered (encode_client_id c) c

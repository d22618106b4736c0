-- ===== src/Tests/LoginData.antt =====
-- The inputs of the tests of logins: an agent's client, an operator and a code.
use Prim.Native.String.{String}
use manager.Prelude.{
  ◌+◌, ◌*◌, true, false, some, List, [], ◌∷◌, ◌==◌, string_eq, bytes_eq, if◌then◌else◌, Map,
}
use manager.OperatorCa.Base.{minute}
use manager.Authz.{admin, Identity}
use manager.McpAuth.Minting.{Codecs, Draw}
use manager.OAuth.{OAuthCode, OAuthRequest, State, Client, Urls, Server}
use manager.OAuth.Consent.{Context, Decision}
use manager.OAuth.Tokens.{Parsers}
use manager.OAuth.Runs.{Op, authorizes, consents, redeems}
use manager.Tests.Data.{leaf, unmarshal}

-- 43 unreserved characters.
abbrev pub verifier : String
verifier = "abcdefghijklmnopqrstuvwxyz0123456789-._~ABC"

abbrev pub agent_client : Client
agent_client = record { name = "agent"; redirect_uris = "http://localhost/cb" ∷ [] }

-- The verifier is its own challenge, and a URL is its text.
abbrev pub codecs : Codecs
codecs = record {
  encode = λ b.
      if b == []
      then verifier
      else if b == 1 ∷ []
      then "login"
      else if b == 2 ∷ []
      then "secret"
      else if b == 3 ∷ []
      then "key"
      else "other";
  hex = λ b. "00";
  sha = λ s. s;
  quote = λ s. s;
}

abbrev pub urls : Urls String
urls = record {
  parse = λ s. some s;
  scheme = λ s. "http";
  fragment = λ s. "";
  has_user = λ s. false;
  hostname = λ s. "localhost";
  host = λ s. "localhost";
  path = λ s. "/cb";
  raw_query = λ s. "";
  show = λ s. s;
  with_query = λ params s. s;
  loopback_ip = λ s. false;
  query_escape = λ s. s;
}

abbrev pub server : Server String
server = record {
  urls = urls;
  codecs = codecs;
  decode = λ s. some (4 ∷ []);
  marshal = λ c. 4 ∷ [];
  unmarshal = λ b. some agent_client;
  digest = λ s. [];
  public_url = "https://fleetos.example.org";
}

abbrev pub parsers : Parsers
parsers = record { parse = λ b. some leaf; unmarshal = unmarshal }

abbrev pub query : Map String String
query =
    ("client_id", "fos-client-other")
    ∷ ("redirect_uri", "http://localhost:4711/cb")
    ∷ ("state", "xyz")
    ∷ ("response_type", "code")
    ∷ ("code_challenge_method", "S256")
    ∷ ("code_challenge", verifier)
    ∷ []

abbrev pub form : Map String String
form =
    ("grant_type", "authorization_code")
    ∷ ("code", "secret")
    ∷ ("client_id", "fos-client-other")
    ∷ ("redirect_uri", "http://localhost:4711/cb")
    ∷ ("code_verifier", verifier)
    ∷ []

abbrev pub empty : State
empty = record { requests = []; codes = []; minted = record { keys = []; log = [] } }

abbrev pub alice : Identity
alice = record {
  cn = "alice";
  serial = b'3' ∷ b'2' ∷ [];
  level = admin;
  via = "web";
  key_id = "";
  issuer_sha256 = "a1";
}

abbrev pub ctx : Context
ctx = record { identity = alice; peer = some leaf }

abbrev pub approval : Decision
approval = record { approve = true; label = ""; level_ceiling = "operator" }

abbrev pub draw : Draw
draw = record {
  now = 12 * minute;
  key_entropy = some (3 ∷ []);
  id_bytes = 7 ∷ [];
  row_id = "aud-1";
  row_at = "now";
}

-- Another login that starts in between.
abbrev pub other : Op
other = authorizes minute minute (9 ∷ []) query

abbrev pub history : List Op
history =
    other
    ∷ consents (10 * minute) (9 ∷ []) ctx "other" "application/json" (some approval)
    ∷ redeems (10 * minute + 5) draw (some form)
    ∷ redeems (10 * minute + 6) draw (some form)
    ∷ []

abbrev pub back : String
back = "http://localhost:4711/cb"

abbrev pub pending_login : OAuthRequest
pending_login = record {
  id = "login";
  client_id = "fos-client-other";
  client_name = "agent";
  redirect_uri = back;
  state = "xyz";
  code_challenge = verifier;
  expires_at = 11 * minute;
}

abbrev pub code : OAuthCode
code = record {
  code_hash = "secret";
  client_id = "fos-client-other";
  client_name = "agent";
  redirect_uri = back;
  code_challenge = verifier;
  operator_cn = "alice";
  operator_serial = b'3' ∷ b'2' ∷ [];
  operator_cert_der = 2 ∷ [];
  level_ceiling = "operator";
  label = "agent";
  expires_at = 11 * minute;
}

abbrev pub ready : State
ready = record empty { codes = ("secret", code) ∷ [] }

abbrev pub owner : Identity
owner = record alice { issuer_sha256 = "" }

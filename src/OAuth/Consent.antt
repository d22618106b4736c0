-- ===== src/OAuth/Consent.antt =====
-- consentInfo and consentDecide of internal/oauth/oauth.go: the operator's decision, behind the
-- client-certificate middleware. `peer` is the certificate that the middleware put on the request.
use Prim.Native.String.{String, len}
use manager.Prelude.{
  ℕ, ◌+◌, Bool, not, Option, none, some, List, [], ◌∷◌, ltb, ◌==◌, string_eq, if◌then◌else◌, Result,
  ok, err,
}
use manager.OperatorCa.Base.{Bytes, Certificate}
use manager.Authz.{Level, viewer, operator, admin, Identity, token, level_from_token, below}
use manager.OAuth.{
  OAuthRequest, OAuthCode, State, Server, Reply, plain_error, consent_view, redirect_to,
  nil_dereference, hash_token, with_params, max_label, code_ttl, oauth_request, take_oauth_request,
  add_oauth_code,
}

-- What the middleware put on the request's context.
pub record Context : Type 0 where
  pub identity : Identity
  pub peer : Option Certificate

-- operator
unfoldable pub operator_of : Context → Result Reply (Identity × Certificate)
operator_of c = elim c.peer [
  | none ↦ err (plain_error 401 "client certificate required")
  | some cert ↦
      if not (c.identity.key_id == "")
      then err (plain_error 401 "client certificate required")
      else ok (c.identity, cert)
]

-- The tests of pending, on what the store has.
unfoldable pub unexpired : ℕ → Option OAuthRequest → Result Reply OAuthRequest
unexpired now none = err (plain_error 404 "unknown or expired login request")
unexpired now (some r) =
    if ltb now r.expires_at then ok r else err (plain_error 404 "unknown or expired login request")

-- The loop over the levels from viewer to the operator's.
unfoldable pub ceilings : Level → List String
ceilings viewer = token viewer ∷ []
ceilings operator = token viewer ∷ token operator ∷ []
ceilings admin = token viewer ∷ token operator ∷ token admin ∷ []

-- consentDecision
pub record Decision : Type 0 where
  pub approve : Bool
  pub label : String
  pub level_ceiling : String

unfoldable pub bad_ceiling_reply : Reply
bad_ceiling_reply =
    plain_error 400 "level_ceiling must be viewer, operator or admin, and not above your own level"

unfoldable pub ceiling_error : String → Level → Option Reply
ceiling_error ceiling level = if ceiling == "" then none else elim (level_from_token ceiling) [
  | err e ↦ some bad_ceiling_reply
  | ok l ↦ if below level l then some bad_ceiling_reply else none
]

-- The tests of the decision before the request is taken.
unfoldable pub decision_error : Identity → Decision → Option Reply
decision_error id d = elim (ceiling_error d.level_ceiling id.level) [
  | some r ↦ some r
  | none ↦ if ltb max_label (len d.label) then some (plain_error 400 "label is too long") else none
]

module _ {U : Type 0} (server : Server U) where
  unfoldable pub view_of : Identity → Result Reply OAuthRequest → Reply
  view_of id (err r) = r
  view_of id (ok req) = elim (server.urls.parse req.redirect_uri) [
    | none ↦ nil_dereference
    | some u ↦ consent_view req.client_name (server.urls.host u) id.cn id.serial (ceilings id.level)
  ]

  -- consentInfo
  unfoldable pub consent_info : ℕ → Context → String → State → Reply
  consent_info now ctx id s = elim (operator_of ctx) [
    | err r ↦ r
    | ok who ↦ view_of who.0 (unexpired now (oauth_request id s))
  ]

  -- The answer that sends the browser back to the client.
  unfoldable pub send_back : OAuthRequest → List (String × String) → Reply
  send_back req params = elim (server.urls.parse req.redirect_uri) [
    | none ↦ nil_dereference
    | some u ↦ redirect_to (with_params server u params)
  ]

  unfoldable pub label_or : String → String → String
  label_or label name = if label == "" then name else label

  unfoldable pub new_code : ℕ → Bytes → Identity → Certificate → Decision → OAuthRequest → OAuthCode
  new_code now entropy id cert d req = record {
    code_hash = hash_token server (server.codecs.encode entropy);
    client_id = req.client_id;
    client_name = req.client_name;
    redirect_uri = req.redirect_uri;
    code_challenge = req.code_challenge;
    operator_cn = id.cn;
    operator_serial = id.serial;
    operator_cert_der = cert.raw;
    level_ceiling = d.level_ceiling;
    label = label_or d.label req.client_name;
    expires_at = now + code_ttl;
  }

  -- The end of consentDecide, with the request it took.
  unfoldable pub decided :
      ℕ → Bytes → Identity → Certificate → Decision → OAuthRequest → State → State × Reply
  decided now entropy id cert d req s =
      if not d.approve
      then (s, send_back req (("error", "access_denied") ∷ ("state", req.state) ∷ []))
      else (
        add_oauth_code (new_code now entropy id cert d req) s,
        send_back req (("code", server.codecs.encode entropy) ∷ ("state", req.state) ∷ []),
      )

  unfoldable pub decide_taken :
      ℕ → Bytes → Identity → Certificate → Decision → State × Option OAuthRequest → State × Reply
  decide_taken now entropy id cert d (s, taken) = elim (unexpired now taken) [
    | err r ↦ (s, r)
    | ok req ↦ decided now entropy id cert d req s
  ]

  -- The decision of the body, if it is one.
  unfoldable pub decide_body :
      ℕ → Bytes → Identity → Certificate → String → Option Decision → State → State × Reply
  decide_body now entropy who cert id none s =
      (s, plain_error 400 "the body is not a consent decision")
  decide_body now entropy who cert id (some d) s = elim (decision_error who d) [
    | some r ↦ (s, r)
    | none ↦ decide_taken now entropy who cert d (take_oauth_request id s)
  ]

  -- consentDecide: `media` is the media type of the body, and `body` the decoded decision
  unfoldable pub consent_decide :
      ℕ → Bytes → Context → String → String → Option Decision → State → State × Reply
  consent_decide now entropy ctx id media body s = elim (operator_of ctx) [
    | err r ↦ (s, r)
    | ok who ↦
        if not (media == "application/json")
        then (s, plain_error 415 "the consent decision must be application/json")
        else decide_body now entropy who.0 who.1 id body s
  ]

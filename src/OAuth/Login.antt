-- ===== src/OAuth/Login.antt =====
-- A login that a client starts, an operator approves in time and the client redeems in time ends with
-- a key, whatever other logins do in between.
use Prim.Native.String.{String, ◌++◌}
use manager.Prelude.{
  ℕ, ◌+◌, ◌<◌, ◌≡◌, refl, inl, inr, Bool, true, false, not, none, some, List, ◌==◌, string_eq,
  eq_iff, if◌then◌else◌, ok, Map, lookup, lookup-insert_self, Bool-cases, Option-cases,
  Result-cases, lt→ltb,
}
use manager.OperatorCa.Base.{Bytes, Certificate}
use manager.Authz.{Level, Identity, level_from_token, below}
use manager.McpAuth.{key_prefix}
use manager.McpAuth.Minting.{Admission, Draw, admit, new_key}
use manager.McpAuth.Minted.{Within, full, capped}
use manager.OAuth.{
  OAuthRequest, State, Client, Server, Reply, access_token, form_get, hash_token, verifier_matches,
  loopback, decode_client_id, request_ttl, code_ttl, add_oauth_request, add_oauth_code,
  take_oauth_request,
}
use manager.OAuth.Authorizing.{is_registered, query_error, new_request, authorize_to, authorize}
use manager.OAuth.Consent.{
  Context, Decision, operator_of, unexpired, ceiling_error, decision_error, new_code, decided,
  decide_taken, decide_body, consent_decide,
}
use manager.OAuth.Tokens.{Parsers, owner_of, redeem_code}
use manager.OAuth.Grants.{redeem_code_iff}
use manager.OAuth.Runs.{Op, run}
use manager.OAuth.Spared.{SparesRequest, SparesCode, AllSpare, run-request, run-code}

if_not-true {ℓ κ} :
    {A : Type ℓ} (P : A → Type κ) (b : Bool) (x y : A) → b ≡ true → P y → P (if not b then x else y)
if_not-true P true x y e p = p
if_not-true P false x y e p = absurd (cc)

module _ {U : Type 0} (server : Server U) (parsers : Parsers) (admission : Admission) where
  -- The query starts a login of the client, back to the redirect.
  pub record Starts (q : Map String String) (c : Client) (redirect : U) : Type 0 where
    pub is_client : decode_client_id server (form_get "client_id" q) ≡ some c
    pub is_redirect : loopback server (form_get "redirect_uri" q) ≡ some redirect
    pub is_own : is_registered server redirect c.redirect_uris ≡ true
    pub is_valid : query_error server redirect q ≡ none

  -- The decision is an approval by an operator with a certificate, within the operator's level.
  pub record Approves (ctx : Context) (who : Identity) (cert : Certificate) (d : Decision)
      : Type 0 where
    pub is_operator : operator_of ctx ≡ ok (who, cert)
    pub is_valid : decision_error who d ≡ none
    pub is_approval : d.approve ≡ true

  authorize-stored :
      (now store_now : ℕ) (entropy : Bytes) (q : Map String String) (s : State) (c : Client)
      (redirect : U)
      → Starts q c redirect
      → lookup
          (server.codecs.encode entropy)
          (authorize server now store_now entropy q s).0.requests
        ≡ some (new_request server now entropy c redirect q)
  unfolding authorize authorize_to add_oauth_request new_request
  authorize-stored now store_now entropy q s c redirect v =
      rw (v.is_client, authorize, v.is_redirect, v.is_own, v.is_valid)
        (lookup-insert_self (server.codecs.encode entropy) _ _)

  consent_decide-stored :
      (now : ℕ) (entropy : Bytes) (ctx : Context) (id : String) (d : Decision) (s : State)
      (who : Identity) (cert : Certificate) (req : OAuthRequest)
      → Approves ctx who cert d
      → lookup id s.requests ≡ some req
      → now < req.expires_at
      → lookup
          (hash_token server (server.codecs.encode entropy))
          (consent_decide server now entropy ctx id "application/json" (some d) s).0.codes
        ≡ some (new_code server now entropy who cert d req)
  unfolding consent_decide decide_body decide_taken decided unexpired add_oauth_code new_code
      take_oauth_request
  consent_decide-stored now entropy ctx id d s who cert req v found lt =
      rw
        (
          v.is_operator,
          consent_decide,
          v.is_valid,
          decide_body,
          found,
          decide_taken,
          lt→ltb now req.expires_at lt,
        )
        (if_not-true
          (λ (r : State × Reply).
            lookup (hash_token server (server.codecs.encode entropy)) r.0.codes
            ≡ some (new_code server now entropy who cert d req))
          d.approve _ _ v.is_approval
          (lookup-insert_self (hash_token server (server.codecs.encode entropy)) _ s.codes))

  ceiling_error-Within :
      (ceiling : String) (level : Level) → ceiling_error ceiling level ≡ none → Within ceiling level
  unfolding ceiling_error
  ceiling_error-Within ceiling level h = elim (Bool-cases (ceiling == "")) [
    | inl e ↦ full ((eq_iff ceiling "").0 e)
    | inr e ↦ elim (Result-cases (level_from_token ceiling)) [
      | inr (x, q) ↦ absurd (let k = rw (e, q) at h in cc)
      | inl (l, q) ↦ elim (Bool-cases (below level l)) [
        | inl b ↦ absurd (let k = rw (e, q, b) at h in cc)
        | inr b ↦ capped l q b
      ]
    ]
  ]

  decision_error-Within :
      (who : Identity) (d : Decision)
      → decision_error who d ≡ none
      → Within d.level_ceiling who.level
  unfolding decision_error
  decision_error-Within who d h = elim (Option-cases (ceiling_error d.level_ceiling who.level)) [
    | inl q ↦ ceiling_error-Within d.level_ceiling who.level q
    | inr (r, q) ↦ absurd (let k = rw (q, decision_error) at h in cc)
  ]

  -- The form that redeems the code which the client got for its query.
  pub record Presents (form q : Map String String) (redirect : U) (entropy : Bytes) : Type 0 where
    pub grant_type : form_get "grant_type" form ≡ "authorization_code"
    pub same_code : form_get "code" form ≡ server.codecs.encode entropy
    pub same_client : form_get "client_id" form ≡ form_get "client_id" q
    pub same_redirect : form_get "redirect_uri" form ≡ server.urls.show redirect
    pub proven :
        verifier_matches server (form_get "code_verifier" form) (form_get "code_challenge" q) ≡ true

  -- A login ends with a key: if the query is valid for a client and its redirect, an operator with a
  -- certificate approves the request within ten minutes, the client presents the code with the right
  -- verifier within a minute of that, the certificate still has the operator's level and is admitted, and
  -- the random source gives bytes, then the token endpoint answers with a fresh key. In between, any
  -- other steps may happen that neither decide this request nor redeem this code, draw no equal id or
  -- code, and purge nothing after the expiry of this request and of this code.
  pub login_completes :
      (s : State) (q : Map String String) (c : Client) (redirect : U) (start store_now : ℕ)
      (id_bytes : Bytes) (before after : List Op) (consent : ℕ) (code_bytes : Bytes) (ctx : Context)
      (who : Identity) (cert : Certificate) (d : Decision) (redemption : ℕ) (draw : Draw)
      (form : Map String String) (owner : Identity) (key : Bytes)
      → Starts q c redirect
      → AllSpare server parsers admission
          (SparesRequest server parsers admission
            (new_request server start id_bytes c redirect q)
            (server.codecs.encode id_bytes))
          before
      → consent < start + request_ttl
      → Approves ctx who cert d
      → AllSpare server parsers admission
          (SparesCode server parsers admission (
            new_code server consent code_bytes who cert d
              (new_request server start id_bytes c redirect q)))
          after
      → redemption < consent + code_ttl
      → Presents form q redirect code_bytes
      → owner_of parsers (
          new_code server consent code_bytes who cert d
            (new_request server start id_bytes c redirect q))
        ≡ ok owner
      → owner.level ≡ who.level
      → admit admission cert.raw ≡ ok tt
      → draw.key_entropy ≡ some key
      → (redeem_code server parsers admission redemption draw (some form) (
          run server parsers admission after
            (consent_decide server consent code_bytes ctx
              (server.codecs.encode id_bytes)
              "application/json"
              (some d)
              (run server parsers admission before
                (authorize server start store_now id_bytes q s).0)).0)).1
        ≡ access_token (key_prefix ++ server.codecs.encode key)
  unfolding new_code new_request new_key
  login_completes s q c redirect start store_now id_bytes before after consent code_bytes ctx who
        cert d redemption draw form owner key starts spared₁ in_time₁ approves spared₂ in_time₂
        presents is_owner level admitted drawn =
      let req = new_request server start id_bytes c redirect q in
      let code = new_code server consent code_bytes who cert d req in
      let s₁ = (authorize server start store_now id_bytes q s).0 in
      let s₂ = run server parsers admission before s₁ in
      let waiting : lookup (server.codecs.encode id_bytes) s₂.requests ≡ some req =
        run-request server parsers admission before s₁ (server.codecs.encode id_bytes) req spared₁
          (authorize-stored start store_now id_bytes q s c redirect starts) in
      let s₃ =
        (consent_decide server consent code_bytes ctx (server.codecs.encode id_bytes)
          "application/json" (some d) s₂).0 in
      let s₄ = run server parsers admission after s₃ in
      let stored : lookup code.code_hash s₄.codes ≡ some code =
        run-code server parsers admission after s₃ code spared₂ (
          consent_decide-stored consent code_bytes ctx (server.codecs.encode id_bytes) d s₂ who cert
            req approves waiting in_time₁) in
      (redeem_code_iff server parsers admission redemption draw form s₄
          (key_prefix ++ server.codecs.encode key)).1
        (record {
          code = code;
          owner = owner;
          grant_type = presents.grant_type;
          is_stored = rw presents.same_code stored;
          is_redeemed = record {
            unexpired = in_time₂;
            same_client = presents.same_client;
            same_redirect = presents.same_redirect;
            proven = presents.proven;
            is_owner = is_owner;
          };
          is_minted = record {
            within = rw level (decision_error-Within who d approves.is_valid);
            is_admitted = admitted;
            is_plain = rw drawn refl;
          };
        })

-- ===== src/OAuth/Effects.antt =====
-- What each handler of the login does to the rows of the store.
use Prim.Native.String.{String}
use manager.Prelude.{
  ℕ, ◌<◌, ◌≡◌, refl, inl, inr, Bool, true, false, not, Option, none, some, ltb, ◌==◌, string_eq,
  Result, ok, err, ok_eq, ap, Result-cases, Bool-cases, Option-cases, Map, lookup, delete, ltb→lt,
  if◌then◌else◌,
}
use manager.OperatorCa.Base.{Bytes, Certificate}
use manager.Authz.{Identity}
use manager.McpAuth.{McpKey}
use manager.McpAuth.Minting.{KeyError, KeyStore, Admission, Draw}
use manager.OAuth.{
  OAuthRequest, OAuthCode, State, Client, Server, Reply, form_get, hash_token, loopback,
  decode_client_id, add_oauth_request, add_oauth_code, take_oauth_request, take_oauth_code,
}
use manager.OAuth.Authorizing.{is_registered, query_error, new_request, authorize_to, authorize}
use manager.OAuth.Consent.{
  Context, Decision, operator_of, unexpired, decision_error, new_code, decided, decide_taken,
  decide_body, consent_decide,
}
use manager.OAuth.Tokens.{Parsers, grant_checks, after_mint, mint_for, redeem, redeem_code}

-- A property of both answers of an early return.
if_not-elim {ℓ κ} :
    {A : Type ℓ} (P : A → Type κ) (b : Bool) (x y : A)
    → (b ≡ false → P x)
    → (b ≡ true → P y)
    → P (if not b then x else y)
if_not-elim P true x y p q = q refl
if_not-elim P false x y p q = p refl

module _ {U : Type 0} (server : Server U) where
  -- authorize: nothing, or a request of a client whose redirect it is.
  pub data Authorized (now store_now : ℕ) (entropy : Bytes) (q : Map String String) (s : State)
      : State → Type 0 where
    refused : Authorized now store_now entropy q s s
    raised :
        (c : Client) (redirect : U)
        → decode_client_id server (form_get "client_id" q) ≡ some c
        → loopback server (form_get "redirect_uri" q) ≡ some redirect
        → is_registered server redirect c.redirect_uris ≡ true
        → query_error server redirect q ≡ none
        → Authorized now store_now entropy q s
            (add_oauth_request store_now (new_request server now entropy c redirect q) s)

  authorize_to-Authorized :
      (now store_now : ℕ) (entropy : Bytes) (q : Map String String) (s : State) (c : Client)
      (redirect : U)
      → decode_client_id server (form_get "client_id" q) ≡ some c
      → loopback server (form_get "redirect_uri" q) ≡ some redirect
      → Authorized now store_now entropy q s
          (authorize_to server now store_now entropy q c redirect s).0
  unfolding authorize_to
  authorize_to-Authorized now store_now entropy q s c redirect d l =
      elim (Bool-cases (is_registered server redirect c.redirect_uris)) [
        | inr e ↦ rw e refused
        | inl e ↦ elim (Option-cases (query_error server redirect q)) [
          | inr (r, p) ↦ rw (e, p) refused
          | inl p ↦ rw (e, p) (raised c redirect d l e p)
        ]
      ]

  pub authorize-Authorized :
      (now store_now : ℕ) (entropy : Bytes) (q : Map String String) (s : State)
      → Authorized now store_now entropy q s (authorize server now store_now entropy q s).0
  unfolding authorize
  authorize-Authorized now store_now entropy q s =
      elim (Option-cases (decode_client_id server (form_get "client_id" q))) [
        | inl d ↦ rw (d, authorize) refused
        | inr (c, d) ↦ elim (Option-cases (loopback server (form_get "redirect_uri" q))) [
          | inl l ↦ rw (d, authorize, l) refused
          | inr (redirect, l) ↦
              rw (d, authorize, l)
                (authorize_to-Authorized now store_now entropy q s c redirect d l)
        ]
      ]

  -- consentDecide: nothing, or the request taken, or taken and a code given for it.
  pub data Decided (now : ℕ) (entropy : Bytes) (ctx : Context) (id : String)
      (body : Option Decision) (s : State) : State → Type 0 where
    untouched : Decided now entropy ctx id body s s
    taken : Decided now entropy ctx id body s (take_oauth_request id s).0
    granted :
        (who : Identity) (cert : Certificate) (d : Decision) (req : OAuthRequest)
        → operator_of ctx ≡ ok (who, cert)
        → body ≡ some d
        → decision_error who d ≡ none
        → d.approve ≡ true
        → lookup id s.requests ≡ some req
        → now < req.expires_at
        → Decided now entropy ctx id body s (
            add_oauth_code (new_code server now entropy who cert d req) (take_oauth_request id s).0)

  unexpired-ok :
      (now : ℕ) (o : Option OAuthRequest) (req : OAuthRequest)
      → unexpired now o ≡ ok req
      → (o ≡ some req) × (now < req.expires_at)
  unfolding unexpired
  unexpired-ok now none req h = cc
  unexpired-ok now (some r) req h = elim (Bool-cases (ltb now r.expires_at)) [
    | inr e ↦ absurd (let k = rw e at h in cc)
    | inl e ↦
        let same : r ≡ req = ok_eq (rw e at h) in
        (ap some same, rw (← same) (ltb→lt now r.expires_at e))
  ]

  decide_taken-Decided :
      (now : ℕ) (entropy : Bytes) (ctx : Context) (id : String) (s : State) (who : Identity)
      (cert : Certificate) (d : Decision)
      → operator_of ctx ≡ ok (who, cert)
      → decision_error who d ≡ none
      → Decided now entropy ctx id
          (some d)
          s
          (decide_taken server now entropy who cert d (take_oauth_request id s)).0
  unfolding decide_taken decided take_oauth_request
  decide_taken-Decided now entropy ctx id s who cert d o n =
      elim (Result-cases (unexpired now (lookup id s.requests))) [
        | inr (r, q) ↦ rw (q, decide_taken) taken
        | inl (req, q) ↦
            let (found, lt) = unexpired-ok now (lookup id s.requests) req q in
            rw (q, decide_taken, decided)
              (if_not-elim (λ (r : State × Reply). Decided now entropy ctx id (some d) s r.0)
                d.approve _ _ (λ e. taken) (λ e. granted who cert d req o refl n e found lt))
      ]

  decide_body-Decided :
      (now : ℕ) (entropy : Bytes) (ctx : Context) (id : String) (body : Option Decision) (s : State)
      (who : Identity) (cert : Certificate)
      → operator_of ctx ≡ ok (who, cert)
      → Decided now entropy ctx id body s (decide_body server now entropy who cert id body s).0
  unfolding decide_body
  decide_body-Decided now entropy ctx id none s who cert o = untouched
  decide_body-Decided now entropy ctx id (some d) s who cert o =
      elim (Option-cases (decision_error who d)) [
        | inr (r, n) ↦ rw (n, decide_body) untouched
        | inl n ↦ rw (n, decide_body) (decide_taken-Decided now entropy ctx id s who cert d o n)
      ]

  pub consent_decide-Decided :
      (now : ℕ) (entropy : Bytes) (ctx : Context) (id media : String) (body : Option Decision)
      (s : State)
      → Decided now entropy ctx id body s (consent_decide server now entropy ctx id media body s).0
  unfolding consent_decide
  consent_decide-Decided now entropy ctx id media body s = elim (Result-cases (operator_of ctx)) [
    | inr (r, o) ↦ rw (o, consent_decide) untouched
    | inl ((who, cert), o) ↦
        rw (o, consent_decide)
          (if_not-elim (λ (r : State × Reply). Decided now entropy ctx id body s r.0)
            (media == "application/json") _ _ (λ e. untouched)
            (λ e. decide_body-Decided now entropy ctx id body s who cert o))
  ]

  -- token: nothing, or the code taken; only the minted keys change otherwise.
  pub data Redeemed (form : Option (Map String String)) (s : State) : State → Type 0 where
    unread : Redeemed form s s
    spent :
        (f : Map String String) (t : State)
        → form ≡ some f
        → t.requests ≡ s.requests
        → t.codes ≡ delete (hash_token server (form_get "code" f)) s.codes
        → Redeemed form s t

  module _ (parsers : Parsers) (admission : Admission) where
    redeem-codes :
        (now : ℕ) (draw : Draw) (form : Map String String) (t : State) (o : Option OAuthCode)
        → ((redeem server parsers admission now draw form (t, o)).0.codes ≡ t.codes)
          × ((redeem server parsers admission now draw form (t, o)).0.requests ≡ t.requests)
    unfolding redeem mint_for after_mint
    redeem-codes now draw form t o = elim (Result-cases (grant_checks server parsers now form o)) [
      | inr (r, q) ↦ rw (q, redeem) (refl, refl)
      | inl ((code, owner), q) ↦ rw (q, redeem) (after t _)
    ]
      where
        after :
            (t : State) (m : KeyStore × Result KeyError (String × McpKey))
            → ((after_mint t m).0.codes ≡ t.codes) × ((after_mint t m).0.requests ≡ t.requests)
        after t (ks, err e) = (refl, refl)
        after t (ks, ok i) = (refl, refl)

    pub redeem_code-Redeemed :
        (now : ℕ) (draw : Draw) (form : Option (Map String String)) (s : State)
        → Redeemed form s (redeem_code server parsers admission now draw form s).0
    unfolding redeem_code take_oauth_code
    redeem_code-Redeemed now draw none s = unread
    redeem_code-Redeemed now draw (some f) s =
        if_not-elim (λ (r : State × Reply). Redeemed (some f) s r.0)
          (form_get "grant_type" f == "authorization_code") _ _ (λ e. unread)
          (λ e.
            let (codes, requests) = redeem-codes now draw f _ _ in spent f _ refl requests codes)

-- ===== src/OAuth/Redirects.antt =====
-- Logins only ever send a browser back to a loopback redirect of a registered client.
use Prim.Native.String.{String, len}
use manager.Prelude.{
  ℕ, ◌≡◌, refl, inl, inr, Bool, true, Option, some, List, [], ◌∷◌, ltb, ◌==◌, string_eq, Map,
  lookup, insert, delete, keep, member, ==-self, arith, All, Comparable, Bool-cases, Option-cases,
}
use manager.OperatorCa.Base.{Bytes}
use manager.McpAuth.Minting.{Admission}
use manager.OAuth.{
  max_redirect_len, OAuthRequest, OAuthCode, State, Server, Client, form_get, loopback,
  same_loopback, loopback_url, decode_client_id, add_oauth_request, add_oauth_code,
  take_oauth_request,
}
use manager.OAuth.Authorizing.{new_request, is_registered, matches}
use manager.OAuth.Consent.{Context, Decision, new_code}
use manager.OAuth.Tokens.{Parsers}
use manager.OAuth.Runs.{Op, authorizes, consents, redeems, step, run}
use manager.OAuth.Effects.{
  Authorized, refused, raised, authorize-Authorized, Decided, untouched, taken, granted,
  consent_decide-Decided, Redeemed, unread, spent, redeem_code-Redeemed,
}

-- Every value of the map has the property.
abbrev pub AllValues {ℓ κ ι} : {K : Type ℓ} {V : Type κ} → (V → Type ι) → Map K V → Type ι
AllValues P m = All (λ row. P row.1) m

module _ {ℓ κ ι} {K : Type ℓ} {V : Type κ} ⦃e : Comparable K⦄ (P : V → Type ι) where
  lookup-AllValues : (k : K) (m : Map K V) (v : V) → lookup k m ≡ some v → AllValues P m → P v
  unfolding lookup
  lookup-AllValues k [] v h a = absurd (cc)
  lookup-AllValues k ((j, w) ∷ m) v h a = elim (Bool-cases (j == k)) [
    | inl b ↦ let q = rw b at h in let same : w ≡ v = cc in rw (← same) a.0
    | inr b ↦ lookup-AllValues k m v (rw b at h) a.1
  ]

  keep-AllValues : (p : K × V → Bool) (m : Map K V) → AllValues P m → AllValues P (keep p m)
  unfolding keep
  keep-AllValues p [] a = tt
  keep-AllValues p (row ∷ m) a = elim (Bool-cases (p row)) [
    | inl b ↦ rw b (a.0, keep-AllValues p m a.1)
    | inr b ↦ rw b (keep-AllValues p m a.1)
  ]

  delete-AllValues : (k : K) (m : Map K V) → AllValues P m → AllValues P (delete k m)
  unfolding delete
  delete-AllValues k [] a = tt
  delete-AllValues k ((j, v) ∷ m) a = elim (Bool-cases (j == k)) [
    | inl b ↦ rw b (delete-AllValues k m a.1)
    | inr b ↦ rw b (a.0, delete-AllValues k m a.1)
  ]

module _ {U : Type 0} (server : Server U) (parsers : Parsers) (admission : Admission) where
  -- The text is a loopback redirect, and one of the client's own but for the port.
  pub record OwnLoopback (client_id uri : String) : Type 0 where
    pub client : Client
    pub url : U
    pub own : String
    pub own_url : U
    pub is_client : decode_client_id server client_id ≡ some client
    pub is_shown : uri ≡ server.urls.show url
    pub is_loopback : loopback_url server url ≡ true
    pub is_registered_uri : member client.redirect_uris own ≡ true
    pub is_own : loopback server own ≡ some own_url
    pub is_same : same_loopback server own_url url ≡ true

  -- Every pending request and every code goes back to its own client on the operator's machine.
  pub record GoBack (s : State) : Type 0 where
    pub requests :
        AllValues (λ (r : OAuthRequest). OwnLoopback r.client_id r.redirect_uri) s.requests
    pub codes : AllValues (λ (c : OAuthCode). OwnLoopback c.client_id c.redirect_uri) s.codes

  is_registered_sound :
      (redirect : U) (uris : List String)
      → is_registered server redirect uris ≡ true
      → (uri : String) × (u : U) × (member uris uri ≡ true)
        × (loopback server uri ≡ some u)
        × (same_loopback server u redirect ≡ true)
  unfolding is_registered matches member
  is_registered_sound redirect [] h = absurd (cc)
  is_registered_sound redirect (uri ∷ uris) h = elim (Option-cases (loopback server uri)) [
    | inl n ↦ further (is_registered_sound redirect uris (rw (n, is_registered) at h))
    | inr (u, q) ↦ elim (Bool-cases (same_loopback server u redirect)) [
      | inl b ↦ (uri, u, rw (==-self uri) refl, q, b)
      | inr b ↦ further (is_registered_sound redirect uris (rw (q, matches, b) at h))
    ]
  ]
    where
      further :
          ((own : String) × (u : U) × (member uris own ≡ true)
            × (loopback server own ≡ some u)
            × (same_loopback server u redirect ≡ true))
          → ((own : String) × (u : U) × (member (uri ∷ uris) own ≡ true)
              × (loopback server own ≡ some u)
              × (same_loopback server u redirect ≡ true))
      further (own, u, m, l, b) = (own, u, unfold member in ground (arith, m), l, b)

  loopback-loopback_url :
      (raw : String) (u : U) → loopback server raw ≡ some u → loopback_url server u ≡ true
  unfolding loopback
  loopback-loopback_url raw u h = elim (Bool-cases (ltb max_redirect_len (len raw))) [
    | inl b ↦ absurd (let k = rw b at h in cc)
    | inr b ↦ elim (Option-cases (server.urls.parse raw)) [
      | inl n ↦ absurd (let k = rw (b, n) at h in cc)
      | inr (v, q) ↦ elim (Bool-cases (loopback_url server v)) [
        | inr f ↦ absurd (let k = rw (b, q, f) at h in cc)
        | inl t ↦ let k = rw (b, q, t) at h in let same : v ≡ u = cc in rw (← same) t
      ]
    ]
  ]

  Authorized-GoBack :
      (now store_now : ℕ) (entropy : Bytes) (q : Map String String) (s : State) {t : State}
      → Authorized server now store_now entropy q s t
      → GoBack s
      → GoBack t
  unfolding add_oauth_request new_request insert
  Authorized-GoBack now store_now entropy q s refused g = g
  Authorized-GoBack now store_now entropy q s (raised c redirect d l r n) g =
      let (uri, u, listed, own, same) = is_registered_sound redirect c.redirect_uris r in
      record {
        requests = (
          record {
            client = c;
            url = redirect;
            own = uri;
            own_url = u;
            is_client = d;
            is_shown = refl;
            is_loopback = loopback-loopback_url (form_get "redirect_uri" q) redirect l;
            is_registered_uri = listed;
            is_own = own;
            is_same = same;
          },
          delete-AllValues _ _ _ (keep-AllValues _ _ _ g.requests),
        );
        codes = keep-AllValues _ _ _ g.codes;
      }

  Decided-GoBack :
      (now : ℕ) (entropy : Bytes) (ctx : Context) (id : String) (body : Option Decision) (s : State)
      {t : State}
      → Decided server now entropy ctx id body s t
      → GoBack s
      → GoBack t
  unfolding add_oauth_code take_oauth_request new_code insert
  Decided-GoBack now entropy ctx id body s untouched g = g
  Decided-GoBack now entropy ctx id body s taken g = record {
    requests = delete-AllValues _ id s.requests g.requests;
    codes = g.codes;
  }
  Decided-GoBack now entropy ctx id body s (granted who cert d req o b n a l lt) g = record {
    requests = delete-AllValues _ id s.requests g.requests;
    codes =
        (lookup-AllValues _ id s.requests req l g.requests, delete-AllValues _ _ s.codes g.codes);
  }

  Redeemed-GoBack :
      (form : Option (Map String String)) (s : State) {t : State}
      → Redeemed server form s t
      → GoBack s
      → GoBack t
  Redeemed-GoBack form s unread g = g
  Redeemed-GoBack form s (spent f t q r c) g = record {
    requests = rw r g.requests;
    codes = rw c (delete-AllValues _ _ s.codes g.codes);
  }

  step-GoBack : (op : Op) (s : State) → GoBack s → GoBack (step server parsers admission op s).0
  unfolding step
  step-GoBack (authorizes now store_now entropy q) s =
      Authorized-GoBack now store_now entropy q s
        (authorize-Authorized server now store_now entropy q s)
  step-GoBack (consents now entropy ctx id media body) s =
      Decided-GoBack now entropy ctx id body s
        (consent_decide-Decided server now entropy ctx id media body s)
  step-GoBack (redeems now draw form) s =
      Redeemed-GoBack form s (redeem_code-Redeemed server parsers admission now draw form s)

  -- Over any history of logins, from any state where it is so (one with no login rows among them), every
  -- pending request and every code has a redirect URI that a loopback URL prints as, and that URL matches,
  -- in host, path and query, a loopback redirect among those that its client registered.
  pub run-GoBack :
      (ops : List Op) (s : State) → GoBack s → GoBack (run server parsers admission ops s)
  unfolding run
  run-GoBack [] s g = g
  run-GoBack (op ∷ ops) s g = run-GoBack ops _ (step-GoBack op s g)

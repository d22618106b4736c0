-- ===== src/OAuth/Spared.antt =====
-- Which steps of other logins leave a pending request or a code in place.
use Prim.Native.String.{String}
use manager.Prelude.{
  ℕ, ◌≤◌, ◌≡◌, ◌≢◌, refl, ◌∙◌, inl, inr, Bool, true, false, not, Option, none, some, List, [], ◌∷◌,
  ltb, ◌==◌, string_eq, eq_iff, Map, lookup, insert, delete, keep, lookup-insert, lookup-delete,
  Comparable, Bool-cases, arith,
}
use manager.OperatorCa.Base.{Bytes}
use manager.McpAuth.Minting.{Admission, Draw}
use manager.OAuth.{
  OAuthRequest, OAuthCode, State, Server, form_get, hash_token, add_oauth_request, add_oauth_code,
  take_oauth_request,
}
use manager.OAuth.Authorizing.{new_request}
use manager.OAuth.Consent.{Context, Decision, new_code}
use manager.OAuth.Tokens.{Parsers}
use manager.OAuth.Runs.{Op, authorizes, consents, redeems, step, run}
use manager.OAuth.Effects.{
  Authorized, refused, raised, authorize-Authorized, Decided, untouched, taken, granted,
  consent_decide-Decided, Redeemed, unread, spent, redeem_code-Redeemed,
}

module _ {ℓ κ} {K : Type ℓ} {V : Type κ} ⦃e : Comparable K⦄ where
  lookup-keep-some :
      (p : K × V → Bool) (k : K) (v : V) (m : Map K V)
      → ((j : K) → p (j, v) ≡ true)
      → lookup k m ≡ some v
      → lookup k (keep p m) ≡ some v
  unfolding lookup keep
  lookup-keep-some p k v [] all h = absurd (cc)
  lookup-keep-some p k v ((j, w) ∷ m) all h = elim (Bool-cases (j == k)) [
    | inl b ↦ let q = rw b at h in let same : w ≡ v = cc in rw (same, all j, b) refl
    | inr b ↦ ground (arith, b, lookup-keep-some p k v m all (rw b at h))
  ]

  lookup-insert_other :
      (k j : K) (w : V) (o : Option V) (m : Map K V)
      → (k == j) ≡ false
      → lookup j m ≡ o
      → lookup j (insert k w m) ≡ o
  lookup-insert_other k j w o m b h = lookup-insert k j w m ∙ rw (b, h) refl

  lookup-delete_other :
      (k j : K) (o : Option V) (m : Map K V)
      → (k == j) ≡ false
      → lookup j m ≡ o
      → lookup j (delete k m) ≡ o
  lookup-delete_other k j o m b h = lookup-delete k j m ∙ rw (b, h) refl

differ : (a b : String) → a ≢ b → (a == b) ≡ false
differ a b n = elim (Bool-cases (a == b)) [ inl e ↦ absurd (n ((eq_iff a b).0 e)) | inr e ↦ e ]

not_before : (a b : ℕ) → a ≤ b → not (ltb b a) ≡ true
not_before a b h = ground arith

module _ {U : Type 0} (server : Server U) (parsers : Parsers) (admission : Admission) where
  -- What leaves a pending request in place: no purge after its expiry, no decision on it, and no other
  -- request that draws its id.
  abbrev pub SparesRequest : OAuthRequest → String → Op → Type 0
  SparesRequest r id (authorizes now store_now entropy q) =
      (server.codecs.encode entropy ≢ id) × (store_now ≤ r.expires_at)
  SparesRequest r id (consents now entropy ctx other media body) = other ≢ id
  SparesRequest r id (redeems now draw form) = Unit

  -- What leaves a code in place: no purge after its expiry, no other code with its hash, and nobody
  -- who redeems it.
  abbrev pub SparesCode : OAuthCode → Op → Type 0
  SparesCode c (authorizes now store_now entropy q) = store_now ≤ c.expires_at
  SparesCode c (consents now entropy ctx other media body) =
      hash_token server (server.codecs.encode entropy) ≢ c.code_hash
  SparesCode c (redeems now draw none) = Unit
  SparesCode c (redeems now draw (some form)) =
      hash_token server (form_get "code" form) ≢ c.code_hash

  abbrev pub AllSpare : (Op → Type 0) → List Op → Type 0
  AllSpare P [] = Unit
  AllSpare P (op ∷ ops) = P op × AllSpare P ops

  authorizes-request :
      (now store_now : ℕ) (entropy : Bytes) (q : Map String String) (s : State) (id : String)
      (r : OAuthRequest) {t : State}
      → SparesRequest r id (authorizes now store_now entropy q)
      → Authorized server now store_now entropy q s t
      → lookup id s.requests ≡ some r
      → lookup id t.requests ≡ some r
  unfolding add_oauth_request new_request
  authorizes-request now store_now entropy q s id r a refused h = h
  authorizes-request now store_now entropy q s id r a (raised c redirect d l i n) h =
      lookup-insert_other _ id _ _ _ (differ _ id a.0)
        (lookup-keep-some _ id r s.requests (λ j. not_before store_now r.expires_at a.1) h)

  consents-request :
      (now : ℕ) (entropy : Bytes) (ctx : Context) (other : String) (body : Option Decision)
      (s : State) (id : String) (r : OAuthRequest) {t : State}
      → other ≢ id
      → Decided server now entropy ctx other body s t
      → lookup id s.requests ≡ some r
      → lookup id t.requests ≡ some r
  unfolding add_oauth_code take_oauth_request
  consents-request now entropy ctx other body s id r a untouched h = h
  consents-request now entropy ctx other body s id r a taken h =
      lookup-delete_other other id _ s.requests (differ other id a) h
  consents-request now entropy ctx other body s id r a (granted who cert d req o b n y l lt) h =
      lookup-delete_other other id _ s.requests (differ other id a) h

  redeems-request :
      (form : Option (Map String String)) (s : State) (id : String) (r : OAuthRequest) {t : State}
      → Redeemed server form s t
      → lookup id s.requests ≡ some r
      → lookup id t.requests ≡ some r
  redeems-request form s id r unread h = h
  redeems-request form s id r (spent f t e q c) h = rw q h

  pub run-request :
      (ops : List Op) (s : State) (id : String) (r : OAuthRequest)
      → AllSpare (SparesRequest r id) ops
      → lookup id s.requests ≡ some r
      → lookup id (run server parsers admission ops s).requests ≡ some r
  unfolding run step
  run-request [] s id r a h = h
  run-request (authorizes now store_now entropy q ∷ ops) s id r a h = run-request ops _ id r a.1 (
      authorizes-request now store_now entropy q s id r a.0
        (authorize-Authorized server now store_now entropy q s) h)
  run-request (consents now entropy ctx other media body ∷ ops) s id r a h =
      run-request ops _ id r a.1 (
        consents-request now entropy ctx other body s id r a.0
          (consent_decide-Decided server now entropy ctx other media body s) h)
  run-request (redeems now draw form ∷ ops) s id r a h = run-request ops _ id r a.1 (
      redeems-request form s id r (redeem_code-Redeemed server parsers admission now draw form s) h)

  authorizes-code :
      (now store_now : ℕ) (entropy : Bytes) (q : Map String String) (s : State) (c : OAuthCode)
      {t : State}
      → store_now ≤ c.expires_at
      → Authorized server now store_now entropy q s t
      → lookup c.code_hash s.codes ≡ some c
      → lookup c.code_hash t.codes ≡ some c
  unfolding add_oauth_request
  authorizes-code now store_now entropy q s c a refused h = h
  authorizes-code now store_now entropy q s c a (raised x redirect d l i n) h =
      lookup-keep-some _ c.code_hash c s.codes (λ j. not_before store_now c.expires_at a) h

  consents-code :
      (now : ℕ) (entropy : Bytes) (ctx : Context) (other : String) (body : Option Decision)
      (s : State) (c : OAuthCode) {t : State}
      → hash_token server (server.codecs.encode entropy) ≢ c.code_hash
      → Decided server now entropy ctx other body s t
      → lookup c.code_hash s.codes ≡ some c
      → lookup c.code_hash t.codes ≡ some c
  unfolding add_oauth_code take_oauth_request new_code
  consents-code now entropy ctx other body s c a untouched h = h
  consents-code now entropy ctx other body s c a taken h = h
  consents-code now entropy ctx other body s c a (granted who cert d req o b n y l lt) h =
      lookup-insert_other _ c.code_hash _ _ s.codes (differ _ c.code_hash a) h

  redeems-code :
      (now : ℕ) (draw : Draw) (form : Option (Map String String)) (s : State) (c : OAuthCode)
      {t : State}
      → SparesCode c (redeems now draw form)
      → Redeemed server form s t
      → lookup c.code_hash s.codes ≡ some c
      → lookup c.code_hash t.codes ≡ some c
  redeems-code now draw form s c a unread h = h
  redeems-code now draw none s c a (spent f t e q d) h = absurd (cc)
  redeems-code now draw (some form) s c a (spent f t e q d) h =
      let same : form ≡ f = cc in
      rw (d, ← same) (lookup-delete_other _ c.code_hash _ s.codes (differ _ c.code_hash a) h)

  pub run-code :
      (ops : List Op) (s : State) (c : OAuthCode)
      → AllSpare (SparesCode c) ops
      → lookup c.code_hash s.codes ≡ some c
      → lookup c.code_hash (run server parsers admission ops s).codes ≡ some c
  unfolding run step
  run-code [] s c a h = h
  run-code (authorizes now store_now entropy q ∷ ops) s c a h = run-code ops _ c a.1 (
      authorizes-code now store_now entropy q s c a.0
        (authorize-Authorized server now store_now entropy q s) h)
  run-code (consents now entropy ctx other media body ∷ ops) s c a h = run-code ops _ c a.1 (
      consents-code now entropy ctx other body s c a.0
        (consent_decide-Decided server now entropy ctx other media body s) h)
  run-code (redeems now draw form ∷ ops) s c a h = run-code ops _ c a.1 (
      redeems-code now draw form s c a.0
        (redeem_code-Redeemed server parsers admission now draw form s) h)

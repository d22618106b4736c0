-- ===== src/OAuth/Once.antt =====
-- A code is redeemed at most once.
use Prim.Native.String.{String}
use manager.Prelude.{
  ℕ, ◌+◌, ◌≤◌, ◌≡◌, ◌≢◌, refl, ap, inl, inr, Bool, true, false, ◌&&◌, Option, none, some, List, [],
  ◌∷◌, ◌==◌, string_eq, eq_iff, if◌then◌else◌, Map, lookup, keep, lookup-insert, lookup-delete,
  Comparable, Bool-cases, arith,
}
use manager.OperatorCa.Base.{Bytes}
use manager.McpAuth.Minting.{Admission}
use manager.OAuth.{
  OAuthCode, State, Server, Reply, access_token, form_get, hash_token, add_oauth_request,
  add_oauth_code, take_oauth_request,
}
use manager.OAuth.Consent.{new_code}
use manager.OAuth.Tokens.{Parsers, redeem_code}
use manager.OAuth.Grants.{redeem_code-issued}
use manager.OAuth.Runs.{Op, authorizes, consents, redeems, step, run}
use manager.OAuth.Effects.{
  Authorized, refused, raised, authorize-Authorized, Decided, untouched, taken, granted,
  consent_decide-Decided, Redeemed, unread, spent, redeem_code-Redeemed,
}

lookup-keep-none {ℓ κ} :
    {K : Type ℓ} {V : Type κ} ⦃e : Comparable K⦄ (p : K × V → Bool) (k : K) (m : Map K V)
    → lookup k m ≡ none
    → lookup k (keep p m) ≡ none
unfolding lookup keep
lookup-keep-none p k [] h = refl
lookup-keep-none p k ((j, v) ∷ m) h = ground (arith, lookup-keep-none p k m)

-- How often the code can still be redeemed.
left : Option OAuthCode → ℕ
left none = 0
left (some c) = 1

left-le : (o : Option OAuthCode) → left o ≤ 1
unfolding left
left-le none = omega arith
left-le (some c) = omega arith

left-none : (o p : Option OAuthCode) → (o ≡ none → p ≡ none) → left p ≤ left o
unfolding left
left-none (some c) p h = left-le p
left-none none p h = rw (h refl) (omega arith)

choice-left : (b : Bool) (o : Option OAuthCode) → left (if b then none else o) ≤ left o
unfolding left
choice-left true o = omega arith
choice-left false o = omega arith

is_token : Reply → Bool
is_token (access_token plain) = true
is_token _ = false

is_token_sound : (r : Reply) → is_token r ≡ true → (plain : String) × (r ≡ access_token plain)
unfolding is_token
is_token_sound (access_token plain) h = (plain, refl)
is_token_sound _ h = absurd (cc)

module _ {U : Type 0} (server : Server U) (parsers : Parsers) (admission : Admission) where
  -- The consents of the history draw no code with this hash.
  abbrev pub Apart : String → Op → Type 0
  Apart hash (consents now entropy ctx id media body) =
      hash_token server (server.codecs.encode entropy) ≢ hash
  Apart hash _ = Unit

  abbrev pub AllApart : String → List Op → Type 0
  AllApart hash [] = Unit
  AllApart hash (op ∷ ops) = Apart hash op × AllApart hash ops

  -- 1 where the request names the code and is answered with a key.
  pub success : String → Op → State → ℕ
  success hash (redeems now draw (some form)) s =
      if hash_token server (form_get "code" form) == hash
        && is_token (step server parsers admission (redeems now draw (some form)) s).1
      then 1
      else 0
  success hash _ s = 0

  pub successes : String → List Op → State → ℕ
  successes hash [] s = 0
  successes hash (op ∷ ops) s =
      success hash op s + successes hash ops (step server parsers admission op s).0

  Authorized-left :
      (hash : String) (now store_now : ℕ) (entropy : Bytes) (q : Map String String) (s : State)
      {t : State}
      → Authorized server now store_now entropy q s t
      → left (lookup hash t.codes) ≤ left (lookup hash s.codes)
  unfolding add_oauth_request
  Authorized-left hash now store_now entropy q s refused = omega arith
  Authorized-left hash now store_now entropy q s (raised c redirect d l r n) =
      left-none (lookup hash s.codes) _ (lookup-keep-none _ hash s.codes)

  Decided-left :
      (hash : String) (now : ℕ) (entropy : Bytes) (s : State) {ctx : manager.OAuth.Consent.Context}
      {id : String} {body : Option manager.OAuth.Consent.Decision} {t : State}
      → hash_token server (server.codecs.encode entropy) ≢ hash
      → Decided server now entropy ctx id body s t
      → left (lookup hash t.codes) ≤ left (lookup hash s.codes)
  unfolding add_oauth_code take_oauth_request new_code
  Decided-left hash now entropy s ne untouched = omega arith
  Decided-left hash now entropy s ne taken = omega arith
  Decided-left hash now entropy s ne (granted who cert d req o b n a l lt) =
      elim (Bool-cases (hash_token server (server.codecs.encode entropy) == hash)) [
        | inl e ↦ absurd (ne ((eq_iff (hash_token server (server.codecs.encode entropy)) hash).0 e))
        | inr e ↦
            rw (lookup-insert (hash_token server (server.codecs.encode entropy)) hash _ s.codes, e)
              (omega arith)
      ]

  Redeemed-left :
      (hash : String) (form : Option (Map String String)) (s : State) {t : State}
      → Redeemed server form s t
      → left (lookup hash t.codes) ≤ left (lookup hash s.codes)
  unfolding left
  Redeemed-left hash form s unread = omega arith
  Redeemed-left hash form s (spent f t q r c) =
      rw (c, lookup-delete (hash_token server (form_get "code" f)) hash s.codes)
        (choice-left (hash_token server (form_get "code" f) == hash) (lookup hash s.codes))

  success-left :
      (hash : String) (op : Op) (s : State)
      → Apart hash op
      → success hash op s + left (lookup hash (step server parsers admission op s).0.codes)
        ≤ left (lookup hash s.codes)
  unfolding success step left
  success-left hash (authorizes now store_now entropy q) s a = omega (
    arith,
    Authorized-left hash now store_now entropy q s
        (authorize-Authorized server now store_now entropy q s),
  )
  success-left hash (consents now entropy ctx id media body) s a = omega (
    arith,
    Decided-left hash now entropy s a
        (consent_decide-Decided server now entropy ctx id media body s),
  )
  success-left hash (redeems now draw none) s a = omega (
    arith,
    Redeemed-left hash none s (redeem_code-Redeemed server parsers admission now draw none s),
  )
  success-left hash (redeems now draw (some form)) s a =
      elim (Bool-cases (hash_token server (form_get "code" form) == hash)) [
        | inr e ↦ rw e (omega (arith, kept))
        | inl e ↦
            elim (Bool-cases
              (is_token (redeem_code server parsers admission now draw (some form) s).1)) [
                | inr n ↦ rw (e, n) (omega (arith, kept))
                | inl y ↦
                    let (plain, h) = is_token_sound _ y in
                    rw (e, y) (issued plain h ((eq_iff _ hash).0 e))
              ]
      ]
    where
      kept :
          left (lookup hash (redeem_code server parsers admission now draw (some form) s).0.codes)
          ≤ left (lookup hash s.codes)
      kept =
          Redeemed-left hash (some form) s
            (redeem_code-Redeemed server parsers admission now draw (some form) s)

      issued :
          (plain : String)
          → (redeem_code server parsers admission now draw (some form) s).1 ≡ access_token plain
          → hash_token server (form_get "code" form) ≡ hash
          → 1
              + left (
                  lookup hash (redeem_code server parsers admission now draw (some form) s).0.codes)
            ≤ left (lookup hash s.codes)
      issued plain h same =
          let (i, gone, key) =
            redeem_code-issued server parsers admission now draw form s plain h in
          rw (← same, gone, i.is_stored) (omega arith)

  successes-left :
      (hash : String) (ops : List Op) (s : State)
      → AllApart hash ops
      → successes hash ops s + left (lookup hash (run server parsers admission ops s).codes)
        ≤ left (lookup hash s.codes)
  unfolding successes run
  successes-left hash [] s a = omega arith
  successes-left hash (op ∷ ops) s a = omega (
    arith,
    success-left hash op s a.0,
    successes-left hash ops (step server parsers admission op s).0 a.1,
  )

  -- Over any history of logins, from any state, in which no consent draws a code with this hash, the
  -- code is answered with a key at most once, and never where the store does not have it at the start.
  pub redeemed_once :
      (hash : String) (ops : List Op) (s : State)
      → AllApart hash ops
      → (successes hash ops s ≤ 1) × (lookup hash s.codes ≡ none → successes hash ops s ≡ 0)
  unfolding left
  redeemed_once hash ops s a = (
    omega (arith, successes-left hash ops s a, left-le (lookup hash s.codes)),
    λ n. omega (arith, successes-left hash ops s a, ap left n),
  )

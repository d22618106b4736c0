-- ===== src/OAuth/Grants.antt =====
-- What the token endpoint asks for, and what a key it gives is bound to.
use Prim.Native.String.{String}
use manager.Prelude.{
  ℕ, ◌<◌, ◌≡◌, ◌≢◌, refl, ap, subst, ◌∙◌, ◌↔◌, inl, inr, Bool, true, false, not, Option, none, some,
  ltb, ◌==◌, ==-self, string_eq, eq_iff, ok, refuse_if-ok, >>=-ok, ok_eq, Result-cases, Bool-cases,
  Map, lookup, delete, lookup-insert_self, lookup-delete, arith, ltb→lt, lt→ltb,
}
use manager.Authz.{Identity}
use manager.McpAuth.{McpKey}
use manager.McpAuth.Minting.{
  KeyError, Admission, Draw, mint, mint_checks, minted_key, store_key, add_mcp_key,
}
use manager.McpAuth.Minted.{Mints, mint_checks-Mints, Mints-mint_checks}
use manager.OAuth.{
  OAuthCode, State, Server, access_token, form_get, hash_token, verifier_matches, take_oauth_code,
}
use manager.OAuth.Tokens.{
  Parsers, owner_of, live_code, answer, mint_refusal, after_mint, grant_checks, mint_for, redeem,
  redeem_code,
}

module _ {U : Type 0} (server : Server U) (parsers : Parsers) where
  -- The request names the code's client and redirect URI and proves the code's PKCE challenge before
  -- the code expires, and the code's certificate is its operator's.
  pub record Redeems (now : ℕ) (form : Map String String) (code : OAuthCode) (owner : Identity)
      : Type 0 where
    pub unexpired : now < code.expires_at
    pub same_client : form_get "client_id" form ≡ code.client_id
    pub same_redirect : form_get "redirect_uri" form ≡ code.redirect_uri
    pub proven : verifier_matches server (form_get "code_verifier" form) code.code_challenge ≡ true
    pub is_owner : owner_of parsers code ≡ ok owner

  live_code-ok :
      (now : ℕ) (o : Option OAuthCode) (code : OAuthCode)
      → live_code now o ≡ ok code
      → (o ≡ some code) × (now < code.expires_at)
  unfolding live_code
  live_code-ok now none code h = cc
  live_code-ok now (some c) code h = elim (Bool-cases (ltb now c.expires_at)) [
    | inr e ↦ absurd (let k = rw e at h in cc)
    | inl e ↦
        let same : c ≡ code = ok_eq (rw e at h) in
        (ap some same, rw (← same) (ltb→lt now c.expires_at e))
  ]

  pub grant_checks-Redeems :
      (now : ℕ) (form : Map String String) (o : Option OAuthCode) (code : OAuthCode)
      (owner : Identity)
      → grant_checks server parsers now form o ≡ ok (code, owner)
      → (o ≡ some code) × Redeems now form code owner
  unfolding grant_checks
  grant_checks-Redeems now form o code owner h =
      let (c, live, h₁) = >>=-ok (live_code now o) _ h in
      let (e₁, h₂) = refuse_if-ok (not (form_get "client_id" form == c.client_id)) _ _ h₁ in
      let (e₂, h₃) = refuse_if-ok (not (form_get "redirect_uri" form == c.redirect_uri)) _ _ h₂ in
      let (e₃, h₄) = refuse_if-ok _ _ _ h₃ in
      let (w, own, h₅) = >>=-ok (owner_of parsers c) _ h₄ in
      let (same, lt) = live_code-ok now o c live in
      let pair : (c, w) ≡ (code, owner) = ok_eq h₅ in
      let r : Redeems now form c w = record {
        unexpired = lt;
        same_client = guarded (form_get "client_id" form) c.client_id e₁;
        same_redirect = guarded (form_get "redirect_uri" form) c.redirect_uri e₂;
        proven =
            not_false (verifier_matches server (form_get "code_verifier" form) c.code_challenge) e₃;
        is_owner = own;
      } in
      (same ∙ ap (λ p. some p.0) pair, subst (λ p. Redeems now form p.0 p.1) pair r)
    where
      not_false : (b : Bool) → not b ≡ false → b ≡ true
      not_false b e = ground arith

      guarded : (a b : String) → not (a == b) ≡ false → a ≡ b
      guarded a b e = (eq_iff a b).0 (not_false (a == b) e)

  pub Redeems-grant_checks :
      (now : ℕ) (form : Map String String) (code : OAuthCode) (owner : Identity)
      → Redeems now form code owner
      → grant_checks server parsers now form (some code) ≡ ok (code, owner)
  unfolding grant_checks live_code
  Redeems-grant_checks now form code owner r =
      rw
        (
          lt→ltb now code.expires_at r.unexpired,
          (eq_iff (form_get "client_id" form) code.client_id).1 r.same_client,
          (eq_iff (form_get "redirect_uri" form) code.redirect_uri).1 r.same_redirect,
          r.proven,
          r.is_owner,
        )
        refl

  module _ (admission : Admission) where
    -- The code that the form names.
    abbrev pub named : Map String String → State → Option OAuthCode
    named form s = lookup (hash_token server (form_get "code" form)) s.codes

    -- What the answer to a redemption needs.
    pub record Issues (now : ℕ) (draw : Draw) (form : Map String String) (s : State)
        (plain : String) : Type 0 where
      pub code : OAuthCode
      pub owner : Identity
      pub grant_type : form_get "grant_type" form ≡ "authorization_code"
      pub is_stored : named form s ≡ some code
      pub is_redeemed : Redeems now form code owner
      pub is_minted :
          Mints server.codecs admission owner code.operator_cert_der code.level_ceiling draw plain

    -- The key that a redemption stores.
    pub issued_key : Draw → OAuthCode → Identity → String → McpKey
    issued_key draw code owner plain =
        minted_key server.codecs owner code.operator_cert_der code.label code.client_name
          code.level_ceiling draw plain

    mint_for-Mints :
        (draw : Draw) (code : OAuthCode) (owner : Identity) (s : State) (plain : String)
        → (mint_for server parsers admission draw code owner s).1 ≡ access_token plain
        → Mints server.codecs admission owner code.operator_cert_der code.level_ceiling draw plain
    unfolding mint_for mint after_mint answer
    mint_for-Mints draw code owner s plain h =
        elim (Result-cases (
          mint_checks server.codecs admission owner code.operator_cert_der code.level_ceiling
            draw)) [
              | inr (e, q) ↦ absurd (refusal e (rw (q, mint) at h))
              | inl (p, q) ↦
                  let same : p ≡ plain = issued_eq (rw (q, mint) at h) in
                  mint_checks-Mints server.codecs admission owner code.operator_cert_der
                    code.level_ceiling draw plain (q ∙ ap ok same)
            ]
      where
        issued_eq : {a b : String} → access_token a ≡ access_token b → a ≡ b
        issued_eq e = cc

        refusal : (e : KeyError) → answer (mint_refusal e) ≢ access_token plain
        refusal e p = cc

    Mints-mint_for :
        (draw : Draw) (code : OAuthCode) (owner : Identity) (s : State) (plain : String)
        → Mints server.codecs admission owner code.operator_cert_der code.level_ceiling draw plain
        → mint_for server parsers admission draw code owner s ≡ (
          record s {
            minted = store_key server.codecs owner draw (issued_key draw code owner plain) s.minted;
          },
          access_token plain,
        )
    unfolding mint_for mint after_mint issued_key
    Mints-mint_for draw code owner s plain m =
        rw
          (
            Mints-mint_checks server.codecs admission owner code.operator_cert_der
                code.level_ceiling draw plain m,
            mint,
          )
          refl

    redeem-Issues :
        (now : ℕ) (draw : Draw) (form : Map String String) (s t : State) (plain : String)
        → form_get "grant_type" form ≡ "authorization_code"
        → (redeem server parsers admission now draw form (t, named form s)).1 ≡ access_token plain
        → Issues now draw form s plain
    unfolding redeem answer
    redeem-Issues now draw form s t plain g h =
        elim (Result-cases (grant_checks server parsers now form (named form s))) [
          | inr (r, q) ↦ absurd (let k = rw (q, redeem) at h in cc)
          | inl ((code, owner), q) ↦
              let (stored, r) = grant_checks-Redeems now form (named form s) code owner q in
              record {
                code = code;
                owner = owner;
                grant_type = g;
                is_stored = stored;
                is_redeemed = r;
                is_minted = mint_for-Mints draw code owner t plain (rw (q, redeem) at h);
              }
        ]

    Issues-redeem :
        (now : ℕ) (draw : Draw) (form : Map String String) (s t : State) (plain : String)
        (i : Issues now draw form s plain)
        → redeem server parsers admission now draw form (t, named form s) ≡ (
          record t {
            minted =
                store_key server.codecs i.owner draw
                  (issued_key draw i.code i.owner plain)
                  t.minted;
          },
          access_token plain,
        )
    unfolding redeem
    Issues-redeem now draw form s t plain i =
        rw (i.is_stored, redeem, Redeems-grant_checks now form i.code i.owner i.is_redeemed)
          (Mints-mint_for draw i.code i.owner t plain i.is_minted)

    -- The token endpoint answers with a key exactly if the form's grant type is authorization_code, it
    -- names a stored code, the code's expiry, client, redirect URI and PKCE challenge all fit, the
    -- operator certificate that the code carries has an access level, and the mint takes the code's level
    -- ceiling and admits the certificate.
    pub redeem_code_iff :
        (now : ℕ) (draw : Draw) (form : Map String String) (s : State) (plain : String)
        → ((redeem_code server parsers admission now draw (some form) s).1 ≡ access_token plain)
          ↔ Issues now draw form s plain
    unfolding redeem_code take_oauth_code
    redeem_code_iff now draw form s plain =
        elim (Bool-cases (form_get "grant_type" form == "authorization_code")) [
          | inr e ↦ rw e (
            λ h. cc,
            λ i.
                let yes =
                  (eq_iff (form_get "grant_type" form) "authorization_code").1 i.grant_type in
                cc,
          )
          | inl e ↦
              let t = (take_oauth_code (hash_token server (form_get "code" form)) s).0 in
              rw e (
                λ h.
                    redeem-Issues now draw form s t plain
                      ((eq_iff (form_get "grant_type" form) "authorization_code").0 e) h,
                λ i. ap (λ r. r.1) (Issues-redeem now draw form s t plain i),
              )
        ]

    pub Issues-redeem_code :
        (now : ℕ) (draw : Draw) (form : Map String String) (s : State) (plain : String)
        (i : Issues now draw form s plain)
        → redeem_code server parsers admission now draw (some form) s ≡ (
          record s {
            codes = delete (hash_token server (form_get "code" form)) s.codes;
            minted =
                store_key server.codecs i.owner draw
                  (issued_key draw i.code i.owner plain)
                  s.minted;
          },
          access_token plain,
        )
    unfolding redeem_code take_oauth_code
    Issues-redeem_code now draw form s plain i =
        rw ((eq_iff (form_get "grant_type" form) "authorization_code").1 i.grant_type) (
          Issues-redeem now draw form s
            (take_oauth_code (hash_token server (form_get "code" form)) s).0 plain i)

    -- When the token endpoint answers with a key, the form named a stored code that fits it, the code is
    -- gone afterwards, and the store has the key under its id: with the hash of the answer, the operator
    -- certificate that gave consent and the level ceiling of that consent.
    pub redeem_code-issued :
        (now : ℕ) (draw : Draw) (form : Map String String) (s : State) (plain : String)
        → (redeem_code server parsers admission now draw (some form) s).1 ≡ access_token plain
        → (i : Issues now draw form s plain) × (lookup
              (hash_token server (form_get "code" form))
              (redeem_code server parsers admission now draw (some form) s).0.codes
            ≡ none)
          × ((key : McpKey) × (lookup key.id
                  (redeem_code server parsers admission now draw (some form) s).0.minted.keys
                ≡ some key)
              × (key.token_hash ≡ server.codecs.sha plain)
              × (key.operator_cert_der ≡ i.code.operator_cert_der)
              × (key.operator_serial ≡ i.owner.serial)
              × (key.level_ceiling ≡ i.code.level_ceiling)
              × (key.revoked_at ≡ 0))
    unfolding store_key add_mcp_key issued_key minted_key
    redeem_code-issued now draw form s plain h =
        let i = (redeem_code_iff now draw form s plain).0 h in
        let hash = hash_token server (form_get "code" form) in
        let key = issued_key draw i.code i.owner plain in
        rw (Issues-redeem_code now draw form s plain i) (
          i,
          (lookup-delete hash hash s.codes ∙ rw (==-self hash) refl),
          (key, lookup-insert_self key.id key s.minted.keys, refl, refl, refl, refl, refl),
        )

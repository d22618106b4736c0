-- ===== src/McpAuth/Resolving.antt =====
-- Whom a key resolves to, and at which level.
use manager.Prelude.{
  ℕ, ◌≤◌, ◌<◌, ◌≡◌, refl, sym, ap, ◌∙◌, ◌⊎◌, inl, inr, true, false, not, ◌&&◌, ◌||◌, some, ltb,
  ◌==◌, nat_eq, string_eq, eq_iff, Result, ok, err, arith, ok_eq, ◌≢◌, min, Bool-cases,
  Option-cases, Result-cases,
}
use manager.OperatorCa.Base.{Bytes, Certificate}
use manager.OperatorCa.Base as Base
use manager.Authz as Authz
use manager.Authz.{Level, Identity, rank, below, level_from_token, identity_from_certificate}
use manager.McpAuth.{
  McpKey, Config, Refusal, stored_ceiling, lower_level, with_ceiling, after_check,
  validate_certificate, validate,
}

lower_level-le :
    (a b : Level) → (rank (lower_level a b) ≤ rank a) × (rank (lower_level a b) ≤ rank b)
unfolding lower_level below
lower_level-le a b = ground arith

rank-lower_level : (a b : Level) → rank (lower_level a b) ≡ min (rank a) (rank b)
unfolding lower_level below
rank-lower_level a b = ground arith

-- A ceiling only lowers the level of the certificate.
pub with_ceiling-level :
    (key : McpKey) (id who : Identity)
    → with_ceiling key id ≡ ok who
    → (rank who.level ≤ rank id.level)
      × ((c : Level) → level_from_token key.level_ceiling ≡ ok c → rank who.level ≤ rank c)
unfolding with_ceiling
with_ceiling-level key id who h = elim (Bool-cases (key.level_ceiling == "")) [
  | inl e ↦
      let same = ap (λ (w : Identity). w.level) (ok_eq (rw (e, with_ceiling) at h)) in
      (
        rw same (omega arith),
        λ c q. absurd (no_level c (rw ((eq_iff key.level_ceiling "").0 e) at q)),
      )
  | inr e ↦ elim (Result-cases (level_from_token key.level_ceiling)) [
    | inr (f, q) ↦ absurd (let k = rw (e, q, with_ceiling) at h in cc)
    | inl (c, q) ↦
        let same = ap (λ (w : Identity). w.level) (ok_eq (rw (e, q, with_ceiling) at h)) in
        let le = rw same at (lower_level-le id.level c) in
        (le.0, λ d p. rw (ok_eq (sym p ∙ q)) le.1)
  ]
]
  where
    no_level : (c : Level) → level_from_token "" ≢ ok c
    no_level c q = unfold level_from_token in cc

module _ {S : Type 0} (config : Config S) where
  -- What is checked of a key and its certificate at every request.
  pub record Live (key : McpKey) (now : ℕ) (s : S) (cert : Certificate) (anchor : Bytes)
      (id : Identity) : Type 0 where
    pub not_revoked : key.revoked_at ≡ 0
    pub unexpired : (key.expires_at ≡ 0) ⊎ (now < key.expires_at)
    pub parsed : config.parse key.operator_cert_der ≡ some cert
    pub begun : cert.not_before ≤ now
    pub not_over : now ≤ cert.not_after
    pub chained : config.verify now cert ≡ some anchor
    pub leveled : identity_from_certificate config.unmarshal cert ≡ ok id
    pub passed : (config.check (config.fingerprint anchor) cert s).1 ≡ ok tt

  abbrev pub issued : Bytes → Identity → Identity
  issued anchor id = record id { issuer_sha256 = config.fingerprint anchor }

  after_check-ok :
      (key : McpKey) (id : Identity) (p : S × Result Base.Error (Unit {0}))
      → p.1 ≡ ok tt
      → (after_check key id p).1 ≡ with_ceiling key id
  unfolding after_check
  after_check-ok key id (s, ok u) h = refl
  after_check-ok key id (s, err e) h = absurd (cc)

  ok-after_check :
      (key : McpKey) (id who : Identity) (p : S × Result Base.Error (Unit {0}))
      → (after_check key id p).1 ≡ ok who
      → (p.1 ≡ ok tt) × (with_ceiling key id ≡ ok who)
  unfolding after_check
  ok-after_check key id who (s, ok u) h = (refl, h)
  ok-after_check key id who (s, err e) h = absurd (cc)

  pub Live-validate-with_ceiling :
      (key : McpKey) (now : ℕ) (s : S) (cert : Certificate) (anchor : Bytes) (id : Identity)
      → Live key now s cert anchor id
      → (validate config key now s).1 ≡ with_ceiling key (issued anchor id)
  unfolding validate validate_certificate after_check
  Live-validate-with_ceiling key now s cert anchor id v =
      let revoked : (key.revoked_at == 0) ≡ true = ground (arith, v.not_revoked) in
      let expired : (not (key.expires_at == 0) && not (ltb now key.expires_at)) ≡ false =
        ground (arith, v.unexpired) in
      let period : (ltb now cert.not_before || ltb cert.not_after now) ≡ false =
        ground (arith, v.begun, v.not_over) in
      rw (revoked, expired, v.parsed, period, v.chained, v.leveled)
        (after_check-ok key (issued anchor id) _ v.passed)

  -- The identity of the certificate under its operator CA, for the key, at a level.
  abbrev pub resolved_as : McpKey → Bytes → Identity → Level → Identity
  resolved_as key anchor id level = record {
    cn = id.cn;
    serial = id.serial;
    level = level;
    via = "mcp";
    key_id = key.id;
    issuer_sha256 = config.fingerprint anchor;
  }

  -- What the key's ceiling makes of the certificate's identity: a key without one has the level of the
  -- certificate, a key with one the lower of the two, and a ceiling that is no level is refused.
  pub data IsCapped (key : McpKey) (anchor : Bytes) (id : Identity)
      : Result Refusal Identity → Type 0 where
    uncapped :
        key.level_ceiling ≡ "" → IsCapped key anchor id (ok (resolved_as key anchor id id.level))
    capped :
        (ceiling level : Level)
        → level_from_token key.level_ceiling ≡ ok ceiling
        → rank level ≡ min (rank id.level) (rank ceiling)
        → IsCapped key anchor id (ok (resolved_as key anchor id level))
    unreadable :
        (e : Authz.Error)
        → key.level_ceiling ≢ ""
        → level_from_token key.level_ceiling ≡ err e
        → IsCapped key anchor id (err stored_ceiling)

  with_ceiling-IsCapped :
      (key : McpKey) (anchor : Bytes) (id : Identity)
      → IsCapped key anchor id (with_ceiling key (issued anchor id))
  unfolding with_ceiling
  with_ceiling-IsCapped key anchor id = elim (Bool-cases (key.level_ceiling == "")) [
    | inl e ↦ rw (e, with_ceiling) (uncapped ((eq_iff key.level_ceiling "").0 e))
    | inr e ↦ elim (Result-cases (level_from_token key.level_ceiling)) [
      | inr (f, q) ↦
          rw (e, q, with_ceiling)
            (unreadable f (λ p. let k = (eq_iff key.level_ceiling "").1 p in cc) q)
      | inl (c, q) ↦
          rw (e, q, with_ceiling)
            (capped c (lower_level id.level c) q (rank-lower_level id.level c))
    ]
  ]

  -- For a key that is neither revoked nor expired, whose certificate parses, is within its period, chains to a
  -- trusted operator CA, carries a level and passes the MCP revocation check: a key without a ceiling resolves to the certificate's identity, for that key and
  -- under the operator CA that the certificate chains to, at the certificate's level; a key with a ceiling
  -- to the same at the lower of the two levels; and a ceiling that is no level is refused.
  pub Live-validate :
      (key : McpKey) (now : ℕ) (s : S) (cert : Certificate) (anchor : Bytes) (id : Identity)
      → Live key now s cert anchor id
      → IsCapped key anchor id (validate config key now s).1
  Live-validate key now s cert anchor id v =
      rw (Live-validate-with_ceiling key now s cert anchor id v)
        (with_ceiling-IsCapped key anchor id)

  validate_certificate-ok :
      (key : McpKey) (now : ℕ) (s : S) (cert : Certificate) (who : Identity)
      → (validate_certificate config key now cert s).1 ≡ ok who
      → (anchor : Bytes) × (id : Identity) × ((cert.not_before ≤ now)
          × (now ≤ cert.not_after)
          × (config.verify now cert ≡ some anchor)
          × (identity_from_certificate config.unmarshal cert ≡ ok id)
          × ((config.check (config.fingerprint anchor) cert s).1 ≡ ok tt)
          × (with_ceiling key (issued anchor id) ≡ ok who))
  unfolding validate_certificate
  validate_certificate-ok key now s cert who h =
      elim (Bool-cases (ltb now cert.not_before || ltb cert.not_after now)) [
        | inl e ↦ absurd (let k = rw (e, validate_certificate) at h in cc)
        | inr e ↦ elim (Option-cases (config.verify now cert)) [
          | inl q ↦ absurd (let k = rw (e, q, validate_certificate) at h in cc)
          | inr (anchor, q) ↦
              elim (Result-cases (identity_from_certificate config.unmarshal cert)) [
                | inr (f, i) ↦ absurd (let k = rw (e, q, i, validate_certificate) at h in cc)
                | inl (id, i) ↦
                    let c =
                      ok-after_check key (issued anchor id) who _
                        (rw (e, q, i, validate_certificate) at h) in
                    (anchor, id, (ground arith, ground arith, q, i, c.0, c.1))
              ]
        ]
      ]

  -- A key is accepted only if it is neither revoked nor expired, its certificate parses, is within its period,
  -- chains to a trusted operator CA, carries a level and passes the MCP revocation check, and the identity
  -- is that certificate's, capped by the key's ceiling.
  pub validate-Live :
      (key : McpKey) (now : ℕ) (s : S) (who : Identity)
      → (validate config key now s).1 ≡ ok who
      → (cert : Certificate) × (anchor : Bytes) × (id : Identity) × Live key now s cert anchor id
        × (with_ceiling key (issued anchor id) ≡ ok who)
  unfolding validate validate_certificate after_check
  validate-Live key now s who h = elim (Bool-cases (key.revoked_at == 0)) [
    | inr e ↦ absurd (let k = rw (e, validate) at h in cc)
    | inl e ↦ elim (Bool-cases (not (key.expires_at == 0) && not (ltb now key.expires_at))) [
      | inl x ↦ absurd (let k = rw (e, x, validate) at h in cc)
      | inr x ↦ elim (Option-cases (config.parse key.operator_cert_der)) [
        | inl q ↦ absurd (let k = rw (e, x, q, validate) at h in cc)
        | inr (cert, q) ↦
            let (anchor, id, c) =
              validate_certificate-ok key now s cert who (rw (e, x, q, validate) at h) in
            (
              cert,
              anchor,
              id,
              record {
                not_revoked = ground (arith, e);
                unexpired = unexpired key x;
                parsed = q;
                begun = c.0;
                not_over = c.1;
                chained = c.2;
                leveled = c.3;
                passed = c.4;
              },
              c.5,
            )
      ]
    ]
  ]
    where
      unexpired :
          (key : McpKey)
          → (not (key.expires_at == 0) && not (ltb now key.expires_at)) ≡ false
          → (key.expires_at ≡ 0) ⊎ (now < key.expires_at)
      unexpired key x = elim (Bool-cases (key.expires_at == 0)) [
        | inl z ↦ inl (ground arith)
        | inr z ↦ inr (ground arith)
      ]

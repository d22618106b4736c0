-- ===== src/OperatorCa/Revocations/Mcp.antt =====
-- The decision for MCP keys, which fails closed.
use manager.Prelude.{
  ℕ, ◌-◌, ◌≤◌, ◌≡◌, refl, ◌⊎◌, inl, inr, ◌↔◌, true, false, Option, none, some, String, string_eq,
  ok, err, lookup, arith, Result-cases,
}
use manager.OperatorCa.Base.{Certificate}
use manager.OperatorCa.Serial.{Text, serial_key}
use manager.OperatorCa.Ocsp.{Answer, OcspResult, Status}
use manager.OperatorCa.Revocations.{
  max_denylist_age, Anchor, AnchorState, Revocations, has_crl, revoked_locked, responder_for,
  ask_ocsp, after_ocsp_mcp, check_web, check_mcp, check_mcp_sets, crl_fresh,
}
use manager.OperatorCa.Revocations.Web.{
  fresh_answer, good_answer, fresh_crl, ocsp_refusal_iff, check_web_iff,
}

-- The rule for a bearer credential: not revoked, polled in the last five minutes, a CRL source
-- whose CRL is within nextUpdate, and no other status than good where OCSP answered.
pub record McpAllows (r : Revocations) (st : AnchorState) (sha : String) (n now : ℕ)
    (a : Option OcspResult) : Type 0 where
  pub not_revoked : revoked_locked r sha (serial_key n) ≡ false
  pub polled : now - r.polled_at ≤ max_denylist_age
  pub source : has_crl st.anchor ≡ true
  pub fresh : crl_fresh st now ≡ true
  pub good_or_silent :
      (a ≡ none) ⊎ ((res : OcspResult) × (a ≡ some res) × (res.status ≡ Status.good))

sets_iff :
    (now : ℕ) (sha : String) (key : Text) (r : Revocations) (st : AnchorState)
    → lookup sha r.anchors ≡ some st
    → (check_mcp_sets now sha key r ≡ ok st.anchor) ↔ (
        (revoked_locked r sha key ≡ false)
        × (now - r.polled_at ≤ max_denylist_age)
        × (has_crl st.anchor ≡ true)
        × (crl_fresh st now ≡ true))
unfolding check_mcp_sets
sets_iff now sha key r st known = rw (known, check_mcp_sets) (λ h. ground arith, λ h. ground arith)

sets_anchor :
    (now : ℕ) (sha : String) (key : Text) (r : Revocations) (st : AnchorState) (a : Anchor)
    → lookup sha r.anchors ≡ some st
    → check_mcp_sets now sha key r ≡ ok a
    → a ≡ st.anchor
unfolding check_mcp_sets
sets_anchor now sha key r st a known h = let h' = rw (known, check_mcp_sets) at h in ground arith

module _ (now later : ℕ) (answer : Answer) (sha : String) (n : ℕ) (cert : Option Certificate)
    (r : Revocations) (st : AnchorState) where
  -- What the responder of the certificate answered.
  abbrev pub asked : Revocations × Option Answer
  asked = ask_ocsp now later (responder_for r st.anchor cert) sha (serial_key n) answer r

  answered_iff :
      (r' : Revocations) (a : Option Answer)
      → ((after_ocsp_mcp sha (r', a)).1 ≡ ok tt) ↔ (
          (fresh_answer a ≡ none)
          ⊎ ((res : OcspResult) × (fresh_answer a ≡ some res) × (res.status ≡ Status.good)))
  unfolding after_ocsp_mcp fresh_answer
  answered_iff r' none = (λ h. inl refl, λ h. refl)
  answered_iff r' (some (err e)) = (λ h. inl refl, λ h. refl)
  answered_iff r' (some (ok res)) = (
    λ h. inr (res, refl, (ocsp_refusal_iff res).0 h),
    λ h.
        (ocsp_refusal_iff res).1 (elim h [ inl e ↦ absurd (cc) | inr (s, e, good) ↦ ground arith ]),
  )

  -- Under a trusted operator CA, an MCP key's certificate passes exactly if it is not revoked, the
  -- last poll is at most five minutes old, the CA has a CRL source whose CRL is within nextUpdate,
  -- and OCSP, where it answered, said good; whatever the policy.
  pub check_mcp_iff :
      lookup sha r.anchors ≡ some st
      → ((check_mcp now later answer sha n cert r).1 ≡ ok tt)
        ↔ McpAllows r st sha n now (fresh_answer asked.1)
  unfolding check_mcp
  check_mcp_iff known = elim (Result-cases (check_mcp_sets now sha (serial_key n) r)) [
    | inr (e, q) ↦
        rw (q, check_mcp)
          (
            λ h. cc,
            λ m.
                let passed =
                  (sets_iff now sha (serial_key n) r st known).1
                    (m.not_revoked, m.polled, m.source, m.fresh) in
                cc,
          )
    | inl (a, q) ↦
        let same = sets_anchor now sha (serial_key n) r st a known q in
        let q' : check_mcp_sets now sha (serial_key n) r ≡ ok st.anchor = rw (← same) q in
        let (not_revoked, polled, source, fresh) =
          (sets_iff now sha (serial_key n) r st known).0 q' in
        rw (q', check_mcp)
          (
            λ h. record {
              not_revoked = not_revoked;
              polled = polled;
              source = source;
              fresh = fresh;
              good_or_silent = (answered_iff asked.0 asked.1).0 h;
            },
            λ m. (answered_iff asked.0 asked.1).1 m.good_or_silent,
          )
  ]

  -- Under a trusted operator CA, a certificate that passes the rule for MCP keys passes on the web
  -- path at the same moment with the same OCSP answer, under either policy.
  pub check_mcp_stricter :
      lookup sha r.anchors ≡ some st
      → later ≡ now
      → (check_mcp now later answer sha n cert r).1 ≡ ok tt
      → (check_web now later answer sha n cert r).1 ≡ ok tt
  check_mcp_stricter known together h =
      let m = (check_mcp_iff known).0 h in
      (check_web_iff now later answer sha n cert r st known).1 (
        m.not_revoked,
        elim m.good_or_silent [
          | inl e ↦ rw e (fresh_crl (rw together m.fresh))
          | inr (res, e, good) ↦ rw e (good_answer res good)
        ],
      )

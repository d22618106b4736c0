-- ===== src/OperatorCa/Revocations/Web.antt =====
-- The decision for the web path: who is allowed, and that a revoked serial never is.
use manager.Prelude.{
  ℕ, ◌≡◌, ◌≢◌, refl, sym, ◌∙◌, inl, inr, ◌↔◌, true, false, Option, none, some, String, ◌==◌,
  string_eq, eq_iff, if◌then◌else◌, Result, ok, err, lookup, arith, Bool-cases,
}
use manager.OperatorCa.Base.{Certificate, Error, reject_cert, revoked}
use manager.OperatorCa.Serial.{Text, serial_key, format_serial}
use manager.OperatorCa.Serial.Forms.{normalize_serial-format_serial}
use manager.OperatorCa.Ocsp.{Answer, OcspResult, Status}
use manager.OperatorCa.Revocations.{
  policy_hard, AnchorState, Revocations, has_crl, revoked_locked, is_revoked, responder_for,
  ocsp_refusal, web_policy, ask_client, ask_ocsp, after_ocsp, check_web, check_mcp, check_mcp_sets,
  crl_fresh, passes, hard_refusal,
}

-- All but the state of the OCSP client.
pub record SameBut (r r' : Revocations) : Type 0 where
  pub anchors : r'.anchors ≡ r.anchors
  pub denylist : r'.denylist ≡ r.denylist
  pub policy : r'.policy ≡ r.policy
  pub polled_at : r'.polled_at ≡ r.polled_at
  pub audits : r'.audits ≡ r.audits
  pub logs : r'.logs ≡ r.logs

-- A question to the OCSP client changes that client only.
pub ask_ocsp-SameBut :
    (now later : ℕ) (responder sha : String) (key : Text) (answer : Answer) (r : Revocations)
    → SameBut r (ask_ocsp now later responder sha key answer r).0
unfolding ask_ocsp ask_client
ask_ocsp-SameBut now later responder sha key answer r = ground arith

-- A serial that the engine holds for revoked under a trusted operator CA is refused as revoked, on
-- the web path and to MCP keys alike, at any time and whatever OCSP would answer, and the refusal
-- changes nothing.
pub is_revoked_refused :
    (now later : ℕ) (answer : Answer) (sha : String) (n : ℕ) (leaf : Option Certificate)
    (r : Revocations) (st : AnchorState)
    → lookup sha r.anchors ≡ some st
    → is_revoked r sha (format_serial n) ≡ true
    → (check_web now later answer sha n leaf r ≡ (r, err (reject_cert revoked)))
      × (check_mcp now later answer sha n leaf r ≡ (r, err (reject_cert revoked)))
unfolding is_revoked check_web check_mcp
is_revoked_refused now later answer sha n leaf r st known listed =
    let same = normalize_serial-format_serial n in
    let hit : revoked_locked r sha (serial_key n) ≡ true = rw (← same) listed in
    (rw (known, check_web, hit) refl, rw (sets hit, check_mcp) refl)
  where
    sets :
        revoked_locked r sha (serial_key n) ≡ true
        → check_mcp_sets now sha (serial_key n) r ≡ err (reject_cert revoked)
    sets hit = unfold check_mcp_sets in rw (known, check_mcp_sets, hit) refl

-- The answer that the check goes by: none where no responder is configured, or none answered.
unfoldable pub fresh_answer : Option Answer → Option OcspResult
fresh_answer none = none
fresh_answer (some (err e)) = none
fresh_answer (some (ok res)) = some res

-- The decision, as the documentation of CheckWebCert describes it.
pub data WebAllows (st : AnchorState) (policy responder : String) (at : ℕ)
    : Option OcspResult → Type 0 where
  good_answer :
      (res : OcspResult) → res.status ≡ Status.good → WebAllows st policy responder at (some res)
  fresh_crl : crl_fresh st at ≡ true → WebAllows st policy responder at none
  no_source_at_all :
      has_crl st.anchor ≡ false → responder ≡ "" → WebAllows st policy responder at none
  soft : policy ≢ policy_hard → WebAllows st policy responder at none

verdict : AnchorState → String → String → ℕ → Result Error (Unit {0})
verdict st policy responder at =
    if passes st responder at
    then ok tt
    else if policy == policy_hard
    then err (hard_refusal responder)
    else ok tt

web_policy-verdict :
    (at : ℕ) (sha responder : String) (r : Revocations) (st : AnchorState)
    → lookup sha r.anchors ≡ some st
    → (web_policy at sha responder r).1 ≡ verdict st r.policy responder at
unfolding web_policy verdict
web_policy-verdict at sha responder r st h = rw (h, web_policy) (ground arith)

policy_sound :
    (st : AnchorState) (policy responder : String) (at : ℕ)
    → verdict st policy responder at ≡ ok tt
    → WebAllows st policy responder at none
unfolding passes verdict
policy_sound st policy responder at h = elim (Bool-cases (crl_fresh st at)) [
  | inl q ↦ fresh_crl q
  | inr q ↦ elim (Bool-cases (has_crl st.anchor)) [
    | inl c ↦ soft (ground (arith, eq_iff policy policy_hard))
    | inr c ↦ elim (Bool-cases (responder == "")) [
      | inl e ↦ no_source_at_all c ((eq_iff responder "").0 e)
      | inr e ↦ soft (ground (arith, eq_iff policy policy_hard))
    ]
  ]
]

policy_complete :
    (st : AnchorState) (policy responder : String) (at : ℕ)
    → WebAllows st policy responder at none
    → verdict st policy responder at ≡ ok tt
unfolding passes verdict
policy_complete st policy responder at (fresh_crl q) = ground arith
policy_complete st policy responder at (no_source_at_all c e) = ground (arith, eq_iff responder "")
policy_complete st policy responder at (soft s) = ground (arith, eq_iff policy policy_hard)

pub ocsp_refusal_iff : (res : OcspResult) → (ocsp_refusal res ≡ ok tt) ↔ (res.status ≡ Status.good)
unfolding ocsp_refusal
ocsp_refusal_iff res = (λ h. ground arith, λ h. ground arith)

by_policy :
    (later : ℕ) (sha responder : String) (r r' : Revocations) (st : AnchorState)
    → SameBut r r'
    → lookup sha r.anchors ≡ some st
    → ((web_policy later sha responder r').1 ≡ ok tt) ↔ WebAllows st r.policy responder later none
by_policy later sha responder r r' st same known =
    let known' : lookup sha r'.anchors ≡ some st = rw same.anchors known in
    let e = web_policy-verdict later sha responder r' st known' in
    (
      λ h. policy_sound st r.policy responder later (rw (← same.policy) (sym e ∙ h)),
      λ w. e ∙ rw same.policy (policy_complete st r.policy responder later w),
    )

good_of :
    (res : OcspResult) {st : AnchorState} {policy responder : String} {at : ℕ}
    → WebAllows st policy responder at (some res)
    → res.status ≡ Status.good
good_of res (good_answer _ good) = good

-- The whole decision, after the denylist and the CRL said nothing.
decision_iff :
    (later : ℕ) (sha responder : String) (r r' : Revocations) (st : AnchorState) (a : Option Answer)
    → SameBut r r'
    → lookup sha r.anchors ≡ some st
    → ((after_ocsp later sha responder (r', a)).1 ≡ ok tt)
      ↔ WebAllows st r.policy responder later (fresh_answer a)
unfolding after_ocsp fresh_answer
decision_iff later sha responder r r' st (some (ok res)) same known = (
  λ h. good_answer res ((ocsp_refusal_iff res).0 h),
  λ w. (ocsp_refusal_iff res).1 (good_of res w),
)
decision_iff later sha responder r r' st (some (err e)) same known =
    by_policy later sha responder r r' st same known
decision_iff later sha responder r r' st none same known =
    by_policy later sha responder r r' st same known

module _ (now later : ℕ) (answer : Answer) (sha : String) (n : ℕ) (leaf : Option Certificate)
    (r : Revocations) (st : AnchorState) where
  -- The responder of the certificate, and what it answered.
  abbrev pub responder : String
  responder = responder_for r st.anchor leaf

  abbrev pub asked : Revocations × Option Answer
  asked = ask_ocsp now later responder sha (serial_key n) answer r

  -- A certificate under a trusted anchor is allowed exactly if neither the denylist nor the last good
  -- CRL lists its serial, and OCSP, the CRL or the policy allows it as documented.
  pub check_web_iff :
      lookup sha r.anchors ≡ some st
      → ((check_web now later answer sha n leaf r).1 ≡ ok tt) ↔ (
          (revoked_locked r sha (serial_key n) ≡ false)
          × WebAllows st r.policy responder later (fresh_answer asked.1))
  unfolding check_web
  check_web_iff known = elim (Bool-cases (revoked_locked r sha (serial_key n))) [
    | inl q ↦ rw (known, check_web, q) (λ h. cc, λ p. cc)
    | inr q ↦ rw (known, check_web, q) (λ h. (refl, free.0 h), λ p. free.1 p.1)
  ]
    where
      free :
          ((after_ocsp later sha responder asked).1 ≡ ok tt)
          ↔ WebAllows st r.policy responder later (fresh_answer asked.1)
      free =
          decision_iff later sha responder r asked.0 st asked.1
            (ask_ocsp-SameBut now later responder sha (serial_key n) answer r) known

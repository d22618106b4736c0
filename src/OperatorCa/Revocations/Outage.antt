-- ===== src/OperatorCa/Revocations/Outage.antt =====
-- What the engine writes down when soft policy lets certificates pass: one audit row for an OCSP
-- outage, one for an expired CRL, however many requests come in.
use manager.Prelude.{
  ℕ, suc, ◌+◌, ◌≤◌, ◌≡◌, refl, inl, inr, Bool, true, false, Option, none, some, List, [], ◌∷◌,
  String, ◌==◌, string_eq, if◌then◌else◌, ok, err, lookup, lookup-insert_self, arith, Bool-cases,
  Option-cases,
}
use manager.OperatorCa.Base.{Certificate}
use manager.OperatorCa.Serial.{serial_key}
use manager.OperatorCa.Ocsp.{Answer, OcspResult}
use manager.OperatorCa.Revocations.{
  policy_hard, AnchorState, Audit, crl_expired, ocsp_unavailable, Revocations, has_crl,
  revoked_locked, responder_for, set_state, end_ocsp_outage, note_ocsp_outage_log,
  note_ocsp_outage_audit, note_ocsp_outage, note_stale_log, note_stale_audit, note_stale,
  note_if_crl, note_if_ocsp, passes, note_soft, web_policy, ask_ocsp, after_ocsp, check_web,
}
use manager.OperatorCa.Revocations.Web.{SameBut, ask_ocsp-SameBut, fresh_answer}

pub outages : List Audit → ℕ
outages [] = 0
outages (ocsp_unavailable sha ∷ as') = suc (outages as')
outages (crl_expired sha ∷ as') = outages as'

pub expiries : List Audit → ℕ
expiries [] = 0
expiries (ocsp_unavailable sha ∷ as') = expiries as'
expiries (crl_expired sha ∷ as') = suc (expiries as')

-- How many more rows the anchor's flags leave open.
flag : Bool → ℕ
flag true = 0
flag false = 1

open_outage : Option AnchorState → ℕ
open_outage none = 0
open_outage (some st) = flag st.ocsp_outage

open_expiry : Option AnchorState → ℕ
open_expiry none = 0
open_expiry (some st) = flag st.expired_audited

record Paid (r : Revocations) (st : AnchorState) (p : Revocations × AnchorState) : Type 0 where
  pub anchors : p.0.anchors ≡ r.anchors
  pub outage : outages p.0.audits + flag p.1.ocsp_outage ≤ outages r.audits + flag st.ocsp_outage
  pub expiry :
      expiries p.0.audits + flag p.1.expired_audited ≤ expiries r.audits + flag st.expired_audited

note_stale-Paid :
    (now : ℕ) (r : Revocations) (st : AnchorState) → Paid r st (note_stale now (r, st))
unfolding note_stale note_stale_audit note_stale_log outages expiries flag
note_stale-Paid now r st = ground arith

note_ocsp_outage-Paid :
    (now : ℕ) (r : Revocations) (st : AnchorState) → Paid r st (note_ocsp_outage now (r, st))
unfolding note_ocsp_outage note_ocsp_outage_audit note_ocsp_outage_log outages expiries flag
note_ocsp_outage-Paid now r st = ground arith

Paid-trans :
    {r : Revocations} {st : AnchorState} {p q : Revocations × AnchorState}
    → Paid r st p
    → Paid p.0 p.1 q
    → Paid r st q
Paid-trans a b = record {
  anchors = ground (arith, a.anchors, b.anchors);
  outage = omega (arith, a.outage, b.outage);
  expiry = omega (arith, a.expiry, b.expiry);
}

Paid-refl : (r : Revocations) (st : AnchorState) → Paid r st (r, st)
Paid-refl r st = record { anchors = refl; outage = omega arith; expiry = omega arith }

soft-Paid :
    (now : ℕ) (responder : String) (r : Revocations) (st : AnchorState)
    → Paid r st (note_if_ocsp now responder (note_if_crl now (r, st)))
unfolding note_if_ocsp note_if_crl
soft-Paid now responder r st = Paid-trans crl (ocsp (note_if_crl now (r, st)))
  where
    crl : Paid r st (note_if_crl now (r, st))
    crl = elim (Bool-cases (has_crl st.anchor)) [
      | inl q ↦ rw q (note_stale-Paid now r st)
      | inr q ↦ rw q (Paid-refl r st)
    ]

    ocsp : (p : Revocations × AnchorState) → Paid p.0 p.1 (note_if_ocsp now responder p)
    ocsp p = elim (Bool-cases (responder == "")) [
      | inl q ↦ rw q (Paid-refl p.0 p.1)
      | inr q ↦ rw q (note_ocsp_outage-Paid now p.0 p.1)
    ]

-- What is left to write for the anchor `sha`, with what is written.
record Within (sha : String) (r r' : Revocations) (extra : ℕ) : Type 0 where
  pub outage :
      outages r'.audits + open_outage (lookup sha r'.anchors)
      ≤ outages r.audits + open_outage (lookup sha r.anchors) + extra
  pub expiry :
      expiries r'.audits + open_expiry (lookup sha r'.anchors)
      ≤ expiries r.audits + open_expiry (lookup sha r.anchors)

web_policy-Within :
    (now : ℕ) (sha responder : String) (r : Revocations)
    → Within sha r (web_policy now sha responder r).0 0
unfolding web_policy note_soft set_state open_outage open_expiry
web_policy-Within now sha responder r = elim (Option-cases (lookup sha r.anchors)) [
  | inl q ↦ rw (q, web_policy) (same)
  | inr (st, q) ↦
      rw (q, web_policy)
        (elim (Bool-cases (passes st responder now)) [
          | inl p ↦ rw p (same)
          | inr p ↦ rw p (elim (Bool-cases (r.policy == policy_hard)) [
            | inl h ↦ rw h (same)
            | inr h ↦
                let paid = soft-Paid now responder r st in
                rw h (record {
                  outage =
                      rw
                        (
                          lookup-insert_self sha
                              (note_if_ocsp now responder (note_if_crl now (r, st))).1
                              (note_if_ocsp now responder (note_if_crl now (r, st))).0.anchors,
                          q,
                        )
                        (omega (arith, paid.outage));
                  expiry =
                      rw
                        (
                          lookup-insert_self sha
                              (note_if_ocsp now responder (note_if_crl now (r, st))).1
                              (note_if_ocsp now responder (note_if_crl now (r, st))).0.anchors,
                          q,
                        )
                        (omega (arith, paid.expiry));
                })
          ])
        ])
]
  where
    same : Within sha r r 0
    same = record { outage = omega arith; expiry = omega arith }

end_ocsp_outage-Within : (sha : String) (r : Revocations) → Within sha r (end_ocsp_outage sha r) 1
unfolding end_ocsp_outage set_state open_outage open_expiry
end_ocsp_outage-Within sha r = elim (Option-cases (lookup sha r.anchors)) [
  | inl q ↦ rw (q, end_ocsp_outage) (same)
  | inr (st, q) ↦
      rw (q, end_ocsp_outage)
        (elim (Bool-cases st.ocsp_outage) [
          | inl o ↦ rw o (record {
            outage =
                rw (lookup-insert_self sha (record st { ocsp_outage = false }) r.anchors, q)
                  (unfold flag in ground arith);
            expiry =
                rw (lookup-insert_self sha (record st { ocsp_outage = false }) r.anchors, q)
                  (omega arith);
          })
          | inr o ↦ rw o (same)
        ])
]
  where
    same : Within sha r r 1
    same = record { outage = omega arith; expiry = omega arith }

-- 1 where OCSP answered.
pub answers : Option OcspResult → ℕ
answers none = 0
answers (some res) = 1

Within-SameBut :
    {sha : String} {r r₁ r₂ : Revocations} {n : ℕ}
    → SameBut r r₁
    → Within sha r₁ r₂ n
    → Within sha r r₂ n
Within-SameBut {sha} s w = record {
  outage = rw (← s.audits, ← s.anchors) w.outage;
  expiry = rw (← s.audits, ← s.anchors) w.expiry;
}

after_ocsp-Within :
    (later : ℕ) (sha responder : String) (r : Revocations) (a : Option Answer)
    → Within sha r (after_ocsp later sha responder (r, a)).0 (answers (fresh_answer a))
unfolding after_ocsp fresh_answer answers
after_ocsp-Within later sha responder r (some (ok res)) = end_ocsp_outage-Within sha r
after_ocsp-Within later sha responder r (some (err e)) = web_policy-Within later sha responder r
after_ocsp-Within later sha responder r none = web_policy-Within later sha responder r

-- A request to the web path for a certificate under the anchor.
pub record Request : Type 0 where
  pub now : ℕ
  pub later : ℕ
  pub answer : Answer
  pub serial : ℕ
  pub leaf : Option Certificate

abbrev step : String → Request → Revocations → Revocations
step sha q r = (check_web q.now q.later q.answer sha q.serial q.leaf r).0

-- Whether OCSP answered the request.
ocsp_answers : String → Request → Revocations → ℕ
ocsp_answers sha q r = elim (lookup sha r.anchors) [
  | none ↦ 0
  | some st ↦ answers (
      fresh_answer
        (ask_ocsp q.now q.later (responder_for r st.anchor q.leaf) sha (serial_key q.serial)
          q.answer r).1)
]

module _ (sha : String) (q : Request) (r : Revocations) where
  unknown_lem : lookup sha r.anchors ≡ none → (step sha q r ≡ r) × (ocsp_answers sha q r ≡ 0)
  unfolding check_web ocsp_answers
  unknown_lem h = (rw (h, step, check_web) refl, rw (h, ocsp_answers) refl)

  known_answers :
      (st : AnchorState)
      → lookup sha r.anchors ≡ some st
      → ocsp_answers sha q r
        ≡ answers (
            fresh_answer
              (ask_ocsp q.now q.later
                (responder_for r st.anchor q.leaf)
                sha
                (serial_key q.serial)
                q.answer
                r).1)
  unfolding ocsp_answers
  known_answers st h = rw (h, ocsp_answers) refl

  known_step :
      (st : AnchorState)
      → lookup sha r.anchors ≡ some st
      → step sha q r ≡ (
          if revoked_locked r sha (serial_key q.serial)
          then r
          else (after_ocsp q.later sha (responder_for r st.anchor q.leaf) (
              ask_ocsp q.now q.later
                (responder_for r st.anchor q.leaf)
                sha
                (serial_key q.serial)
                q.answer
                r)).0)
  unfolding check_web
  known_step st h = rw (h, step, check_web) (ground arith)

  step-Within : Within sha r (step sha q r) (ocsp_answers sha q r)
  step-Within = elim (Option-cases (lookup sha r.anchors)) [
    | inl h ↦ let (e, z) = unknown_lem h in rw (e, z) (same 0)
    | inr (st, h) ↦
        rw (known_step st h, known_answers st h)
          (elim (Bool-cases (revoked_locked r sha (serial_key q.serial))) [
            | inl b ↦ rw b (same _)
            | inr b ↦ rw b (
                Within-SameBut
                  (ask_ocsp-SameBut q.now q.later (responder_for r st.anchor q.leaf) sha
                    (serial_key q.serial) q.answer r)
                  (after_ocsp-Within q.later sha (responder_for r st.anchor q.leaf) _ _))
          ])
  ]
    where
      same : (n : ℕ) → Within sha r r n
      same n = record { outage = omega arith; expiry = omega arith }

pub run_web : String → List Request → Revocations → Revocations
run_web sha [] r = r
run_web sha (q ∷ qs) r = run_web sha qs (step sha q r)

pub run_answers : String → List Request → Revocations → ℕ
run_answers sha [] r = 0
run_answers sha (q ∷ qs) r = ocsp_answers sha q r + run_answers sha qs (step sha q r)

run-Within :
    (sha : String) (qs : List Request) (r : Revocations)
    → Within sha r (run_web sha qs r) (run_answers sha qs r)
unfolding run_web run_answers
run-Within sha [] r = record { outage = omega arith; expiry = omega arith }
run-Within sha (q ∷ qs) r =
    let first = step-Within sha q r in
    let rest = run-Within sha qs (step sha q r) in
    record {
      outage = omega (arith, first.outage, rest.outage);
      expiry = omega (arith, first.expiry, rest.expiry);
    }

open-le : (o : Option AnchorState) → (open_outage o ≤ 1) × (open_expiry o ≤ 1)
unfolding open_outage open_expiry flag
open-le none = (omega arith, omega arith)
open-le (some st) = (ground arith, ground arith)

-- Over any requests for certificates of one anchor, the engine writes at most one outage row more
-- than OCSP gave answers, and at most one row for the expiry of the CRL.
pub run_web_rows :
    (sha : String) (qs : List Request) (r : Revocations)
    → (outages (run_web sha qs r).audits ≤ outages r.audits + 1 + run_answers sha qs r)
      × (expiries (run_web sha qs r).audits ≤ expiries r.audits + 1)
run_web_rows sha qs r =
    let w = run-Within sha qs r in
    let o = open-le (lookup sha r.anchors) in
    (omega (arith, w.outage, o.0), omega (arith, w.expiry, o.1))

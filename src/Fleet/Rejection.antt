-- ===== src/Fleet/Rejection.antt =====
-- When RejectEnrollment rejects an enrollment, and that it does so once.
use manager.Prelude.{
  ◌≡◌, ◌≢◌, ◌↔◌, refl, sym, ap, ◌∙◌, inl, inr, true, false, Option, none, some, List, [], ◌∷◌, ◌++◌,
  String, ◌==◌, string_eq, eq_iff, ok, ok_eq, is_ok, Result-cases, refuse_if, Bool-cases,
  Option-cases, arith,
}
use manager.Authz.{Identity, Level, viewer, operator, admin, below, rank}
use manager.Inventory.Catalog.{
  Enrollment, enrollment_id, find_row, change_row, or_missing, enrollment, update_enrollment,
}
use manager.Fleet.{State, permission_denied, require_level, operator_level}
use manager.Fleet.Enrollments.{rejected, reject_done, after_update, reject_found, reject_enrollment}

-- The caller has at least the level operator.
abbrev pub IsOperator : Option Identity → Type 0
IsOperator none = ⊥
IsOperator (some who) = who.level ≢ viewer

require_level-IsOperator :
    (caller : Option Identity) → require_level operator caller ≡ ok tt → IsOperator caller
unfolding require_level operator_level below rank
require_level-IsOperator none h = absurd (cc)
require_level-IsOperator (some who) h = λ p. absurd (let k = rw p at h in cc)

IsOperator-require_level :
    (caller : Option Identity) → IsOperator caller → require_level operator caller ≡ ok tt
unfolding require_level operator_level below rank
IsOperator-require_level none a = absurd a
IsOperator-require_level (some who) a = level who.level a
  where
    level : (l : Level) → l ≢ viewer → refuse_if (below l operator) permission_denied ≡ ok tt
    level viewer ne = absurd (ne refl)
    level operator ne = refl
    level admin ne = refl

find_row_sound :
    (id : String) (es : List Enrollment) (e : Enrollment)
    → find_row enrollment_id id es ≡ some e
    → e.id ≡ id
unfolding find_row
find_row_sound id [] e h = absurd (cc)
find_row_sound id (x ∷ es) e h = elim (Bool-cases (x.id == id)) [
  | inl q ↦
      let k = rw q at h in let same : x ≡ e = cc in ap (λ y. y.id) (sym same) ∙ (eq_iff x.id id).0 q
  | inr q ↦ find_row_sound id es e (rw q at h)
]

find_row_head :
    (id : String) (x : Enrollment) (es : List Enrollment)
    → (x.id == id) ≡ true
    → find_row enrollment_id id (x ∷ es) ≡ some x
unfolding find_row
find_row_head id x es q = rw q refl

find_row_tail :
    (id : String) (x : Enrollment) (es : List Enrollment)
    → (x.id == id) ≡ false
    → find_row enrollment_id id (x ∷ es) ≡ find_row enrollment_id id es
unfolding find_row
find_row_tail id x es q = rw q refl

-- The row that the loop changes, and the others.
change_row-found :
    (id reason : String) (es : List Enrollment) (e : Enrollment)
    → find_row enrollment_id id es ≡ some e
    → (find_row enrollment_id id (change_row enrollment_id id (rejected reason) es).0
        ≡ some (rejected reason e))
      × ((change_row enrollment_id id (rejected reason) es).1 ≡ some (rejected reason e))
unfolding find_row change_row rejected
change_row-found id reason [] e h = absurd (cc)
change_row-found id reason (x ∷ es) e h = elim (Bool-cases (x.id == id)) [
  | inl q ↦
      let k = rw q at h in
      let same : x ≡ e = cc in
      rw q (
        find_row_head id (rejected reason x) es q ∙ ap (λ y. some (rejected reason y)) same,
        ap (λ y. some (rejected reason y)) same,
      )
  | inr q ↦
      let (a, b) = change_row-found id reason es e (rw q at h) in
      let rows = (change_row enrollment_id id (rejected reason) es).0 in
      rw q (find_row_tail id x rows q ∙ a, b)
]

change_row-others :
    (id k reason : String) (es : List Enrollment)
    → id ≢ k
    → find_row enrollment_id k (change_row enrollment_id id (rejected reason) es).0
      ≡ find_row enrollment_id k es
unfolding find_row change_row rejected
change_row-others id k reason [] ne = refl
change_row-others id k reason (x ∷ es) ne =
    ground (arith, change_row-others id k reason es, ne, eq_iff x.id id, eq_iff x.id k)

-- The rows after a rejection.
abbrev pub with_rejected : String → Enrollment → State → State
with_rejected reason e s = record s {
  enrollments = (change_row enrollment_id e.id (rejected reason) s.enrollments).0;
  audit = s.audit ++ record { kind = "enroll-rejected"; target_id = e.id } ∷ [];
}

update_enrollment-known :
    (id reason : String) (es : List Enrollment) (e : Enrollment)
    → find_row enrollment_id id es ≡ some e
    → update_enrollment id (rejected reason) es
      ≡ ((change_row enrollment_id id (rejected reason) es).0, ok tt)
unfolding update_enrollment
update_enrollment-known id reason es e h =
    go (change_row enrollment_id id (rejected reason) es) (change_row-found id reason es e h).1
  where
    go :
        (r : List Enrollment × Option Enrollment)
        → r.1 ≡ some (rejected reason e)
        → or_missing r ≡ (r.0, ok tt)
    go (rows, some x) q = refl
    go (rows, none) q = absurd (cc)

reject_found-pending :
    (id reason : String) (s : State) (e : Enrollment)
    → find_row enrollment_id id s.enrollments ≡ some e
    → e.status ≡ "PENDING"
    → reject_found reason s (some e) ≡ (with_rejected reason e s, ok (rejected reason e))
unfolding reject_found after_update reject_done enrollment rejected
reject_found-pending id reason s e h p =
    let same = find_row_sound id s.enrollments e h in
    let known : find_row enrollment_id e.id s.enrollments ≡ some e =
      ap (λ x. find_row enrollment_id x s.enrollments) same ∙ h in
    let pending : (e.status == "PENDING") ≡ true = (eq_iff e.status "PENDING").1 p in
    let rows = (change_row enrollment_id e.id (rejected reason) s.enrollments).0 in
    rw (reject_found, pending)
      (ap (after_update s e.id) (update_enrollment-known e.id reason s.enrollments e known)
        ∙ ap (reject_done (record s { enrollments = rows }))
            (change_row-found e.id reason s.enrollments e known).0)

-- The caller is at least an operator, and the enrollment with the id waits for approval.
abbrev pub Rejects : Option Identity → String → State → Enrollment → Type 0
Rejects caller id s e =
    IsOperator caller × (enrollment id s.enrollments ≡ some e) × (e.status ≡ "PENDING")

Rejects-reject_enrollment :
    (caller : Option Identity) (id reason : String) (s : State) (e : Enrollment)
    → Rejects caller id s e
    → reject_enrollment caller id reason s ≡ (with_rejected reason e s, ok (rejected reason e))
unfolding reject_enrollment enrollment
Rejects-reject_enrollment caller id reason s e (a, known, p) =
    rw (reject_enrollment, IsOperator-require_level caller a, known)
      (reject_found-pending id reason s e known p)

reject_enrollment-Rejects :
    (caller : Option Identity) (id reason : String) (s : State)
    → is_ok (reject_enrollment caller id reason s).1 ≡ true
    → (e : Enrollment) × Rejects caller id s e
unfolding reject_enrollment reject_found enrollment
reject_enrollment-Rejects caller id reason s h =
    elim (Result-cases (require_level operator caller)) [
      | inr (e, q) ↦ absurd (let k = rw (reject_enrollment, q) at h in cc)
      | inl (u, q) ↦ elim (Option-cases (find_row enrollment_id id s.enrollments)) [
        | inl z ↦ absurd (let k = rw (reject_enrollment, q, z, reject_found) at h in cc)
        | inr (e, z) ↦ elim (Bool-cases (e.status == "PENDING")) [
          | inr f ↦ absurd (let k = rw (reject_enrollment, q, z, reject_found, f) at h in cc)
          | inl f ↦ (e, (require_level-IsOperator caller q, z, (eq_iff e.status "PENDING").0 f))
        ]
      ]
    ]

-- RejectEnrollment succeeds exactly when the caller is at least an operator and an enrollment with the id
-- waits for approval.
pub reject_enrollment_iff :
    (caller : Option Identity) (id reason : String) (s : State)
    → (is_ok (reject_enrollment caller id reason s).1 ≡ true)
      ↔ ((e : Enrollment) × Rejects caller id s e)
reject_enrollment_iff caller id reason s = (
  reject_enrollment-Rejects caller id reason s,
  λ (e, r). ap (λ x. is_ok x.1) (Rejects-reject_enrollment caller id reason s e r),
)

not_pending-reject_enrollment :
    (caller : Option Identity) (id reason : String) (s : State) (e : Enrollment)
    → enrollment id s.enrollments ≡ some e
    → e.status ≢ "PENDING"
    → is_ok (reject_enrollment caller id reason s).1 ≡ false
not_pending-reject_enrollment caller id reason s e known ne =
    elim (Bool-cases (is_ok (reject_enrollment caller id reason s).1)) [
      | inr f ↦ f
      | inl t ↦
          let (d, (a, known', p)) = reject_enrollment-Rejects caller id reason s t in
          let both : some d ≡ some e = sym known' ∙ known in
          let same : d ≡ e = cc in absurd (ne (ap (λ x. x.status) (sym same) ∙ p))
    ]

rejected_not_pending : ◌≢◌ {A = String} "REJECTED" "PENDING"
rejected_not_pending p = let stuck = (eq_iff "REJECTED" "PENDING").1 p in cc

-- When RejectEnrollment answers with an enrollment, that is rejected, with the given reason, and stored
-- under the id; every other enrollment and the inventory are as before; and no caller can reject the
-- enrollment again.
pub reject_enrollment_once :
    (caller : Option Identity) (id reason : String) (s : State) (e : Enrollment)
    → (reject_enrollment caller id reason s).1 ≡ ok e
    → (e.status ≡ "REJECTED")
      × (e.rejection_reason ≡ reason)
      × (enrollment id (reject_enrollment caller id reason s).0.enrollments ≡ some e)
      × ((k : String)
          → id ≢ k
          → enrollment k (reject_enrollment caller id reason s).0.enrollments
            ≡ enrollment k s.enrollments)
      × ((reject_enrollment caller id reason s).0.inventory ≡ s.inventory)
      × ((again : Option Identity) (why : String)
          → is_ok (reject_enrollment again id why (reject_enrollment caller id reason s).0).1
            ≡ false)
unfolding enrollment rejected
reject_enrollment_once caller id reason s e h =
    let (d, r) = reject_enrollment-Rejects caller id reason s (ap is_ok h) in
    let (a, known, p) = r in
    let done = Rejects-reject_enrollment caller id reason s d r in
    let is_e : e ≡ rejected reason d = ok_eq (sym h ∙ ap (λ x. x.1) done) in
    let same = find_row_sound id s.enrollments d known in
    let stored : enrollment id (with_rejected reason d s).enrollments ≡ some (rejected reason d) =
      ap
        (λ x.
          find_row enrollment_id id (change_row enrollment_id x (rejected reason) s.enrollments).0)
        same
      ∙ (change_row-found id reason s.enrollments d known).0 in
    (
      ap (λ x. x.status) is_e,
      ap (λ x. x.rejection_reason) is_e,
      ap (λ x. enrollment id x.0.enrollments) done ∙ stored ∙ ap some (sym is_e),
      λ k ne.
          ap (λ x. enrollment k x.0.enrollments) done
          ∙ change_row-others d.id k reason s.enrollments (λ q. ne (sym same ∙ q)),
      ap (λ x. x.0.inventory) done,
      λ again why.
          ap (λ x. is_ok (reject_enrollment again id why x.0).1) done
          ∙ not_pending-reject_enrollment again id why (with_rejected reason d s)
              (rejected reason d) stored rejected_not_pending,
    )

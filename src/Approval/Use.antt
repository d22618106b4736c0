-- ===== src/Approval/Use.antt =====
-- What a use of an approval needs, and that an approval is used once.
use manager.Prelude.{
  ℕ, ◌+◌, ◌≤◌, ◌<◌, ◌≡◌, ◌≢◌, refl, ◌⊎◌, inl, inr, ◌↔◌, true, false, not, ◌&&◌, ◌||◌, Option, none,
  some, List, [], ◌∷◌, String, ltb, ◌==◌, nat_eq, string_eq, eq_iff, if◌then◌else◌, is_ok, lookup,
  insert, lookup-insert_self, arith, Bool-cases, Option-cases,
}
use manager.Authz.{Level, Identity, level_from_token, below}
use manager.Approval.{
  Approval, pending, approved, expired, used, Store, record_row, status, spent, use_approval,
  status_err, approver_below, after_use, use_checks, use_call,
}
use manager.Approval.Lifecycle.{
  Edge, stays, raised, settled, consumed, Op, requests, decides, uses, step, IsFresh, step-Edge,
}

-- What the call must show for the approval `a`: the same key, tool and request, a decision in its
-- favour that has not expired, and a caller and an approver at the tool's level.
pub record Covers (now : ℕ) (who : Identity) (tool digest : String) (min : Level) (a : Approval)
    : Type 0 where
  pub same_key : a.key_id ≡ who.key_id
  pub same_tool : a.tool ≡ tool
  pub same_digest : a.request_digest ≡ digest
  pub is_approved : a.status ≡ approved
  pub unexpired : now < a.expires_at
  pub caller_level : below who.level min ≡ false
  pub approver_level : approver_below (level_from_token a.decided_by_level) min ≡ false

status_err_sound : (st : String) → status_err st ≡ none → st ≡ approved
unfolding status_err
status_err_sound st h = ground (arith, eq_iff st approved)

expired-ne : expired ≢ approved
expired-ne p = let stuck = (eq_iff expired approved).1 p in cc

status-approved :
    (a : Approval) (now : ℕ)
    → status a now ≡ approved
    → (a.status ≡ approved) × (now < a.expires_at)
unfolding status
status-approved a now h =
    (ground (arith, expired-ne), ground (arith, expired-ne, eq_iff a.status approved))

status_err-none :
    (a : Approval) (now : ℕ)
    → status_err (status a now) ≡ none
    → (a.status ≡ approved) × (now < a.expires_at)
status_err-none a now h = status-approved a now (status_err_sound (status a now) h)

status_err-approved :
    (a : Approval) (now : ℕ)
    → a.status ≡ approved
    → now < a.expires_at
    → status_err (status a now) ≡ none
unfolding status_err status
status_err-approved a now h k = ground (arith, eq_iff a.status approved)

use_checks_iff :
    (now : ℕ) (who : Identity) (tool digest : String) (min : Level) (a : Approval)
    → (use_checks now who tool digest min a ≡ none) ↔ Covers now who tool digest min a
unfolding use_checks
use_checks_iff now who tool digest min a = (
  λ h. record {
    same_key = ground (arith, eq_iff a.key_id who.key_id);
    same_tool = ground (arith, eq_iff a.tool tool);
    same_digest = ground (arith, eq_iff a.request_digest digest);
    is_approved = (status_err-none a now (ground arith)).0;
    unexpired = (status_err-none a now (ground arith)).1;
    caller_level = ground arith;
    approver_level = ground arith;
  },
  λ c. ground (
    arith,
    c.same_key,
    c.same_tool,
    c.same_digest,
    eq_iff a.key_id who.key_id,
    eq_iff a.tool tool,
    eq_iff a.request_digest digest,
    status_err-approved a now c.is_approved c.unexpired,
    c.caller_level,
    c.approver_level,
  ),
)

use_approval-approved :
    (now : ℕ) (id : String) (s : Store) (a : Approval)
    → lookup id s.approvals ≡ some a
    → a.status ≡ approved
    → now < a.expires_at
    → use_approval id now s
      ≡ (record s { approvals = insert id (spent now a) s.approvals }, some (spent now a))
unfolding use_approval
use_approval-approved now id s a q h k = rw (q, use_approval, guard) refl
  where
    guard : (not (a.status == approved) || not (ltb now a.expires_at)) ≡ false
    guard = ground (arith, eq_iff a.status approved)

-- For a stored approval, a use succeeds exactly if the approval covers the call (same key, tool
-- and request, approved and unexpired, caller and approver at the tool's level), and after a
-- success the stored approval is the spent one.
pub use_call_iff :
    (now : ℕ) (who : Identity) (id tool digest : String) (min : Level) (s : Store) (a : Approval)
    → lookup id s.approvals ≡ some a
    → ((is_ok (use_call now who id tool digest min s).1 ≡ true) ↔ Covers now who tool digest min a)
      × (is_ok (use_call now who id tool digest min s).1 ≡ true
          → lookup id (use_call now who id tool digest min s).0.approvals ≡ some (spent now a))
unfolding use_call
use_call_iff now who id tool digest min s a q =
    rw (q, use_call)
      (elim (Option-cases (use_checks now who tool digest min a)) [
        | inr (e, c) ↦
            rw c (
              (λ h. cc, λ v. let k = (use_checks_iff now who tool digest min a).1 v in cc),
              λ h. cc,
            )
        | inl c ↦
            let v = (use_checks_iff now who tool digest min a).0 c in
            rw (c, use_approval-approved now id s a q v.is_approved v.unexpired)
              (unfold after_use record_row in
                ((λ h. v, λ w. refl), λ h. lookup-insert_self id (spent now a) s.approvals))
      ])

use_call-unknown :
    (now : ℕ) (who : Identity) (id tool digest : String) (min : Level) (s : Store)
    → lookup id s.approvals ≡ none
    → is_ok (use_call now who id tool digest min s).1 ≡ false
unfolding use_call
use_call-unknown now who id tool digest min s q = rw (q, use_call) refl

-- 1 for a successful use of the approval `id`.
pub success : String → Op → Store → ℕ
success id (uses now who j tool digest min) s =
    if j == id && is_ok (use_call now who j tool digest min s).1 then 1 else 0
success id _ s = 0

pub run : List Op → Store → Store
run [] s = s
run (op ∷ ops) s = run ops (step op s)

pub successes : String → List Op → Store → ℕ
successes id [] s = 0
successes id (op ∷ ops) s = success id op s + successes id ops (step op s)

-- Ids are random, so no request reuses one.
abbrev pub AllFresh : List Op → Store → Type 0
AllFresh [] s = Unit
AllFresh (op ∷ ops) s = IsFresh op s × AllFresh ops (step op s)

-- How often an approval can still be used.
left : Option Approval → ℕ
left none = 1
left (some a) = if a.status == used then 0 else 1

left-le : (o : Option Approval) → left o ≤ 1
unfolding left
left-le none = omega arith
left-le (some a) = ground arith

Edge-left : {id : String} {op : Op} {o p : Option Approval} → Edge id op o p → left p ≤ left o
unfolding left
Edge-left stays = omega arith
Edge-left (raised h k t g r) = ground arith
Edge-left (settled {a = a} required k h lt l b) = ground (arith, eq_iff a.status used, pending-ne)
  where
    pending-ne : pending ≢ used
    pending-ne p = let stuck = (eq_iff pending used).1 p in cc
Edge-left (consumed h lt) = ground arith

-- A successful use takes the last use.
success-left :
    (op : Op) (s : Store) (id : String)
    → IsFresh op s
    → success id op s + left (lookup id (step op s).approvals) ≤ left (lookup id s.approvals)
unfolding success
success-left (requests now ttl j who tool digest required) s id f =
    omega (arith, Edge-left (step-Edge (requests now ttl j who tool digest required) s id f))
success-left (decides now who j approve) s id f =
    omega (arith, Edge-left (step-Edge (decides now who j approve) s id f))
success-left (uses now who j tool digest min) s id f =
    let other = Edge-left (step-Edge (uses now who j tool digest min) s id f) in
    elim (Bool-cases (j == id)) [
      | inr e ↦ rw e (omega (arith, other))
      | inl e ↦ rw e (elim (Bool-cases (is_ok (use_call now who j tool digest min s).1)) [
        | inr b ↦ rw b (omega (arith, other))
        | inl b ↦ rw b (taken ((eq_iff j id).0 e) b (Option-cases (lookup j s.approvals)))
      ])
    ]
  where
    taken :
        j ≡ id
        → is_ok (use_call now who j tool digest min s).1 ≡ true
        → (lookup j s.approvals ≡ none) ⊎ ((a : Approval) × (lookup j s.approvals ≡ some a))
        → 1 + left (lookup id (step (uses now who j tool digest min) s).approvals)
          ≤ left (lookup id s.approvals)
    taken same b (inl q) = let no = use_call-unknown now who j tool digest min s q in cc
    taken same b (inr (a, q)) =
        let lem = use_call_iff now who j tool digest min s a q in
        let c = lem.0.0 b in
        rw (← same, q)
          (unfold step in
            rw (lem.1 b) (
              unfold left spent in
              ground (arith, eq_iff a.status used, c.is_approved, approved-ne)))
      where
        approved-ne : approved ≢ used
        approved-ne p = let stuck = (eq_iff approved used).1 p in cc

successes-left :
    (ops : List Op) (s : Store) (id : String)
    → AllFresh ops s
    → successes id ops s + left (lookup id (run ops s).approvals) ≤ left (lookup id s.approvals)
unfolding successes run
successes-left [] s id f = omega arith
successes-left (op ∷ ops) s id f =
    omega (arith, success-left op s id f.0, successes-left ops (step op s) id f.1)

-- Over any history of requests, decisions and uses, from any state, where no request takes the id
-- of a stored approval, an approval is used successfully at most once.
pub used_once : (ops : List Op) (s : Store) (id : String) → AllFresh ops s → successes id ops s ≤ 1
used_once ops s id f = omega (arith, successes-left ops s id f, left-le (lookup id s.approvals))

-- ===== src/Approval/Lifecycle.antt =====
-- The life of an approval: pending, then approved or denied by a person, then used.
use manager.Prelude.{
  ℕ, ◌<◌, ◌≡◌, refl, inl, inr, Bool, false, not, ◌||◌, Option, none, some, String, ltb, ◌==◌,
  nat_eq, string_eq, eq_iff, ok, lookup, lookup-insert, arith, Bool-cases, Option-cases,
  Result-cases,
}
use manager.Authz.{Level, Identity, token, level_from_token, below}
use manager.Approval.{
  Approval, pending, approved, used, Store, record_row, status, add_approval, decided,
  decide_approval, spent, use_approval, new_approval, request, decision, after_decide,
  decide_at_level, decide, use_checks, after_use, use_call,
}

-- What agents and people do.
pub data Op : Type 0 where
  requests : ℕ → ℕ → String → Identity → String → String → Level → Op
  decides : ℕ → Identity → String → Bool → Op
  uses : ℕ → Identity → String → String → String → Level → Op

-- How one operation may change the approval `id`: a request raises it, a person with a certificate and
-- no key, at the required level, settles it in time, and a use spends it in time once it is approved.
pub data Edge (id : String) : Op → Option Approval → Option Approval → Type 0 where
  stays : {op : Op} {o : Option Approval} → Edge id op o o
  raised :
      {now ttl : ℕ} {who : Identity} {tool digest : String} {required : Level} {a : Approval}
      → a.status ≡ pending
      → a.key_id ≡ who.key_id
      → a.tool ≡ tool
      → a.request_digest ≡ digest
      → a.required_level ≡ token required
      → Edge id (requests now ttl id who tool digest required) none (some a)
  settled :
      {at : ℕ} {who : Identity} {approve : Bool} {a : Approval} (required : Level)
      → who.key_id ≡ ""
      → a.status ≡ pending
      → at < a.expires_at
      → level_from_token a.required_level ≡ ok required
      → below who.level required ≡ false
      → Edge id (decides at who id approve) (some a) (
          some (record a {
            status = decision approve;
            decided_by_cn = who.cn;
            decided_by_serial = who.serial;
            decided_by_level = token who.level;
            decided_at = at;
          }))
  consumed :
      {at : ℕ} {who : Identity} {tool digest : String} {min : Level} {a : Approval}
      → a.status ≡ approved
      → at < a.expires_at
      → Edge id
          (uses at who id tool digest min)
          (some a)
          (some (record a { status = used; used_at = at }))

use_approval-Edge :
    (at : ℕ) (who : Identity) (id j tool digest : String) (min : Level) (s : Store)
    → Edge j
        (uses at who id tool digest min)
        (lookup j s.approvals)
        (lookup j (use_approval id at s).0.approvals)
unfolding use_approval spent
use_approval-Edge at who id j tool digest min s = elim (Option-cases (lookup id s.approvals)) [
  | inl q ↦ rw (q, use_approval) stays
  | inr (a, q) ↦
      rw (q, use_approval)
        (elim (Bool-cases (not (a.status == approved) || not (ltb at a.expires_at))) [
          | inl r ↦ rw r stays
          | inr r ↦
              rw (r, lookup-insert id j (spent at a) s.approvals)
                (elim (Bool-cases (id == j)) [
                  | inl e ↦
                      let same : id ≡ j = (eq_iff id j).0 e in
                      rw (e, ← same, q)
                        (consumed (ground (arith, eq_iff a.status approved)) (ground arith))
                  | inr e ↦ rw e stays
                ])
        ])
]

decide_approval-Edge :
    (id j : String) (approve : Bool) (who : Identity) (at : ℕ) (s : Store) (a : Approval)
    (required : Level)
    → lookup id s.approvals ≡ some a
    → who.key_id ≡ ""
    → level_from_token a.required_level ≡ ok required
    → below who.level required ≡ false
    → Edge j
        (decides at who id approve)
        (lookup j s.approvals)
        (lookup j (decide_approval id (decision approve) who at s).0.approvals)
unfolding decide_approval decided
decide_approval-Edge id j approve who at s a required q k l b =
    rw (q, decide_approval)
      (elim (Bool-cases (not (a.status == pending) || not (ltb at a.expires_at))) [
        | inl r ↦ rw r stays
        | inr r ↦
            rw (r, lookup-insert id j (decided (decision approve) who at a) s.approvals)
              (elim (Bool-cases (id == j)) [
                | inl e ↦
                    let same : id ≡ j = (eq_iff id j).0 e in
                    rw (e, ← same, q)
                      (settled required k (ground (arith, eq_iff a.status pending)) (ground arith) l
                        b)
                | inr e ↦ rw e stays
              ])
      ])

after_decide-approvals :
    (approve : Bool) (id : String) (who : Identity) (p : Store × Option Approval)
    → (after_decide approve id who p).0.approvals ≡ p.0.approvals
unfolding after_decide record_row
after_decide-approvals approve id who (s, none) = refl
after_decide-approvals approve id who (s, some a) = refl

decide_at_level-Edge :
    (now : ℕ) (id j : String) (approve : Bool) (who : Identity) (s : Store) (a : Approval)
    → lookup id s.approvals ≡ some a
    → who.key_id ≡ ""
    → Edge j (decides now who id approve) (lookup j s.approvals) (
        lookup j
          (decide_at_level now who id approve (level_from_token a.required_level) s).0.approvals)
unfolding decide_at_level record_row
decide_at_level-Edge now id j approve who s a q k =
    elim (Result-cases (level_from_token a.required_level)) [
      | inr (e, l) ↦ rw (l, decide_at_level) stays
      | inl (required, l) ↦
          rw (l, decide_at_level)
            (elim (Bool-cases (below who.level required)) [
              | inl b ↦ rw b stays
              | inr b ↦
                  rw
                    (
                      b,
                      after_decide-approvals approve id who
                          (decide_approval id (decision approve) who now s),
                    )
                    (decide_approval-Edge id j approve who now s a required q k l b)
            ])
    ]

decide-Edge :
    (now : ℕ) (who : Identity) (id j : String) (approve : Bool) (s : Store)
    → Edge j
        (decides now who id approve)
        (lookup j s.approvals)
        (lookup j (decide now who id approve s).0.approvals)
unfolding decide
decide-Edge now who id j approve s = elim (Bool-cases (who.key_id == "")) [
  | inr k ↦ rw k stays
  | inl k ↦ rw k (elim (Option-cases (lookup id s.approvals)) [
    | inl q ↦ rw (q, decide) stays
    | inr (a, q) ↦
        rw (q, decide)
          (elim (Bool-cases (status a now == pending)) [
            | inr p ↦ rw p stays
            | inl p ↦
                rw p (decide_at_level-Edge now id j approve who s a q ((eq_iff who.key_id "").0 k))
          ])
  ])
]

use_call-Edge :
    (now : ℕ) (who : Identity) (id j tool digest : String) (min : Level) (s : Store)
    → Edge j
        (uses now who id tool digest min)
        (lookup j s.approvals)
        (lookup j (use_call now who id tool digest min s).0.approvals)
unfolding use_call
use_call-Edge now who id j tool digest min s = elim (Option-cases (lookup id s.approvals)) [
  | inl q ↦ rw (q, use_call) stays
  | inr (a, q) ↦
      rw (q, use_call)
        (elim (Option-cases (use_checks now who tool digest min a)) [
          | inr (e, c) ↦ rw c stays
          | inl c ↦
              rw c (
                rw (kept (use_approval id now s))
                  (use_approval-Edge now who id j tool digest min s))
        ])
]
  where
    kept : (p : Store × Option Approval) → (after_use now id who p).0.approvals ≡ p.0.approvals
    kept (s, none) = unfold after_use in refl
    kept (s, some a) = unfold after_use record_row in refl

unfoldable pub step : Op → Store → Store
step (requests now ttl id who tool digest required) s =
    (request now ttl id who tool digest required s).0
step (decides now who id approve) s = (decide now who id approve s).0
step (uses now who id tool digest min) s = (use_call now who id tool digest min s).0

-- A random id is new.
abbrev pub IsFresh : Op → Store → Type 0
IsFresh (requests now ttl id who tool digest required) s = lookup id s.approvals ≡ none
IsFresh _ s = Unit

-- Each operation leaves each approval as it was, or else is the one that may change it: a request with its
-- new id raises it as pending, with the request's key, tool, digest and level; a decision on it, by a
-- caller who has no key and is at the required level, settles it in time and records that caller and
-- the verdict; or a use of it spends it in time once it was approved.
pub step-Edge :
    (op : Op) (s : Store) (id : String)
    → IsFresh op s
    → Edge id op (lookup id s.approvals) (lookup id (step op s).approvals)
unfolding step request record_row add_approval new_approval
step-Edge (requests now ttl id who tool digest required) s j fresh =
    let a = new_approval now ttl id who tool digest required in
    rw (lookup-insert id j a s.approvals) (elim (Bool-cases (id == j)) [
      | inl e ↦
          let same : id ≡ j = (eq_iff id j).0 e in
          rw (e, ← same, fresh) (raised refl refl refl refl refl)
      | inr e ↦ rw e stays
    ])
step-Edge (decides now who id approve) s j fresh = decide-Edge now who id j approve s
step-Edge (uses now who id tool digest min) s j fresh = use_call-Edge now who id j tool digest min s

-- ===== src/Bootstrap/Live.antt =====
-- The live tokens and sessions, counted, and what each operation on the tables does to the counts.
use Prim.Native.String.{String}
use manager.Prelude.{
  ℕ, suc, ◌+◌, ◌≤◌, ◌≡◌, ◌≢◌, refl, ap, inl, inr, Bool, true, false, ◌&&◌, none, some, List, [],
  ◌∷◌, map, ◌==◌, nat_eq, string_eq, eq_iff, if◌then◌else◌, Result, ok, err, Bool-cases,
  Option-cases, arith,
}
use manager.Bootstrap.{
  BootstrapState, BootstrapToken, BootstrapSession, Rows, StoreError, Fault, is_closed, end_session,
  close_bootstrap, has_token, retire_token, issue_bootstrap_token, is_live_token, consume,
  find_session, new_row, store_session, start_bootstrap_session, touch_row, touch_bootstrap_session,
  end_row, end_bootstrap_session, end_bootstrap_sessions, reset_first_run,
}

-- What the replicas, the sweep and the break-glass reset write.
pub data RowOp : Type 0 where
  closes : Fault → BootstrapState → RowOp
  issues : Fault → BootstrapToken → RowOp
  starts : Fault → String → BootstrapSession → ℕ → RowOp
  touches : Fault → String → ℕ → RowOp
  ends : Fault → String → String → ℕ → RowOp
  ends_all : Fault → String → ℕ → RowOp
  resets : Fault → ℕ → RowOp

unfoldable pub row_step : RowOp → Rows → Rows
unfolding close_bootstrap issue_bootstrap_token start_bootstrap_session touch_bootstrap_session
    end_bootstrap_session end_bootstrap_sessions reset_first_run
row_step (closes db by) rows = (close_bootstrap db by rows).0
row_step (issues db t) rows = (issue_bootstrap_token db t rows).0
row_step (starts db hash s now) rows = (start_bootstrap_session db hash s now rows).0
row_step (touches db hash at) rows = (touch_bootstrap_session db hash at rows).0
row_step (ends db hash reason at) rows = (end_bootstrap_session db hash reason at rows).0
row_step (ends_all db reason at) rows = (end_bootstrap_sessions db reason at rows).0
row_step (resets db at) rows = (reset_first_run db at rows).0

unfoldable pub row_run : List RowOp → Rows → Rows
row_run [] rows = rows
row_run (op ∷ ops) rows = row_run ops (row_step op rows)

-- The clock never reads the zero time.
abbrev pub OnTime : RowOp → Type 0
OnTime (closes db by) = by.closed_at ≢ 0
OnTime (issues db t) = t.created_at ≢ 0
OnTime (starts db hash s now) = now ≢ 0
OnTime (touches db hash at) = Unit
OnTime (ends db hash reason at) = at ≢ 0
OnTime (ends_all db reason at) = at ≢ 0
OnTime (resets db at) = Unit

abbrev pub AllOnTime : List RowOp → Type 0
AllOnTime [] = Unit
AllOnTime (op ∷ ops) = OnTime op × AllOnTime ops

-- How many sessions have not ended.
unfoldable pub unended : List BootstrapSession → ℕ
unended [] = 0
unended (s ∷ ss) = let rest = unended ss in if s.ended_at == 0 then suc rest else rest

-- How many tokens with a hash of this kind have not been used.
unfoldable pub unused_of : (String → Bool) → List BootstrapToken → ℕ
unused_of p [] = 0
unused_of p (t ∷ ts) =
    let rest = unused_of p ts in if t.used_at == 0 && p t.hash then suc rest else rest

abbrev pub any_hash : String → Bool
any_hash hash = true

abbrev pub unused : List BootstrapToken → ℕ
unused ts = unused_of any_hash ts

pub record AtMostOne (rows : Rows) : Type 0 where
  pub one_session : unended rows.sessions ≤ 1
  pub one_token : unused rows.tokens ≤ 1
  pub closed_sessions : is_closed rows.latch ≡ true → unended rows.sessions ≡ 0
  pub closed_tokens : is_closed rows.latch ≡ true → unused rows.tokens ≡ 0

pub unended-end_session :
    (at : ℕ) (reason : String) (ss : List BootstrapSession)
    → at ≢ 0
    → unended (map (end_session at reason) ss) ≡ 0
unfolding unended end_session
unended-end_session at reason [] nz = refl
unended-end_session at reason (s ∷ ss) nz = elim (Bool-cases (s.ended_at == 0)) [
  | inl e ↦ ground (arith, e, nz, unended-end_session at reason ss nz)
  | inr e ↦ ground (arith, e, unended-end_session at reason ss nz)
]

pub unused_of-retire_token :
    (p : String → Bool) (at : ℕ) (ts : List BootstrapToken)
    → at ≢ 0
    → unused_of p (map (retire_token at) ts) ≡ 0
unfolding unused_of retire_token
unused_of-retire_token p at [] nz = refl
unused_of-retire_token p at (t ∷ ts) nz = elim (Bool-cases (t.used_at == 0)) [
  | inl e ↦ ground (arith, e, nz, unused_of-retire_token p at ts nz)
  | inr e ↦ ground (arith, e, unused_of-retire_token p at ts nz)
]

pub unended-touch_row :
    (hash : String) (at : ℕ) (ss : List BootstrapSession)
    → unended (map (touch_row hash at) ss) ≡ unended ss
unfolding unended touch_row
unended-touch_row hash at [] = refl
unended-touch_row hash at (s ∷ ss) = elim (Bool-cases (s.hash == hash && s.ended_at == 0)) [
  | inl e ↦ rw (e, unended-touch_row hash at ss) refl
  | inr e ↦ rw (e, unended-touch_row hash at ss) refl
]

pub unended-end_row :
    (hash : String) (at : ℕ) (reason : String) (ss : List BootstrapSession)
    → at ≢ 0
    → unended (map (end_row hash at reason) ss) ≤ unended ss
unfolding unended end_row end_session
unended-end_row hash at reason [] nz = omega arith
unended-end_row hash at reason (s ∷ ss) nz = elim (Bool-cases (s.hash == hash)) [
  | inr e ↦ rw e ground (arith, unended-end_row hash at reason ss nz)
  | inl e ↦ elim (Bool-cases (s.ended_at == 0)) [
    | inl z ↦ ground (arith, e, z, nz, unended-end_row hash at reason ss nz)
    | inr z ↦ ground (arith, e, z, unended-end_row hash at reason ss nz)
  ]
]

unfoldable pub taken_of : Bool → ℕ
taken_of true = 1
taken_of false = 0

pub unused_of-consume :
    (p : String → Bool) (hash : String) (now : ℕ) (ts : List BootstrapToken)
    → now ≢ 0
    → unused_of p (consume hash now ts).0 + taken_of (p hash && (consume hash now ts).1)
      ≤ unused_of p ts
unfolding unused_of consume is_live_token taken_of
unused_of-consume p hash now [] nz = ground arith
unused_of-consume p hash now (t ∷ ts) nz =
    elim (Bool-cases (t.hash == hash && is_live_token now t)) [
      | inr e ↦ rw e (ground (arith, unused_of-consume p hash now ts nz))
      | inl e ↦
          let used : (t.used_at == 0) ≡ true = ground (arith, e) in
          let same : p t.hash ≡ p hash = ap p ((eq_iff t.hash hash).0 (ground (arith, e))) in
          let rest = unused_of-consume p hash now ts nz in
          rw e (rw (used, same) (one (p hash) _ _ nz (omega (arith, rest))))
    ]
  where
    one :
        (b : Bool) (m n : ℕ)
        → now ≢ 0
        → m ≤ n
        → (if now == 0 && b then suc m else m) + taken_of (b && true) ≤ (if b then suc n else n)
    one true m n nz h = ground arith
    one false m n nz h = ground arith

pub unused_of-issue :
    (p : String → Bool) (db : Fault) (t : BootstrapToken) (rows : Rows)
    → t.created_at ≢ 0
    → p t.hash ≡ false
    → unused_of p (issue_bootstrap_token db t rows).0.tokens ≤ unused_of p rows.tokens
unfolding issue_bootstrap_token unused_of
unused_of-issue p (some e) t rows nz h = omega arith
unused_of-issue p none t rows nz h = elim (Bool-cases (is_closed rows.latch)) [
  | inl c ↦ rw c (omega arith)
  | inr c ↦ elim (Bool-cases (has_token t.hash rows.tokens)) [
    | inl d ↦ rw (c, d) (omega arith)
    | inr d ↦ rw (c, d, h, unused_of-retire_token p t.created_at rows.tokens nz) (omega arith)
  ]
]

-- What a start leaves: the rows, or a single session and the token used.
pub data Started (hash : String) (s : BootstrapSession) (now : ℕ) (rows : Rows)
    : Rows → Bool → Type 0 where
  refused : Started hash s now rows rows false
  opened :
      is_closed rows.latch ≡ false
      → (consume hash now rows.tokens).1 ≡ true
      → find_session s.hash rows.sessions ≡ none
      → Started hash s now rows
          (record rows {
            tokens = (consume hash now rows.tokens).0;
            sessions = new_row s ∷ map (end_session now "superseded") rows.sessions;
          })
          true

-- Whether a start answered yes.
pub said_yes : Result StoreError Bool → Bool
said_yes (ok b) = b
said_yes (err e) = false

store_session-Started :
    (hash : String) (s : BootstrapSession) (now : ℕ) (rows : Rows) (c : List BootstrapToken × Bool)
    → consume hash now rows.tokens ≡ c
    → is_closed rows.latch ≡ false
    → Started hash s now rows
        (store_session s now rows c).0
        (said_yes (store_session s now rows c).1)
unfolding store_session said_yes
store_session-Started hash s now rows (ts, false) q c = refused
store_session-Started hash s now rows (ts, true) q c =
    elim (Option-cases (find_session s.hash rows.sessions)) [
      | inr (x, f) ↦ rw (f, store_session) refused
      | inl f ↦
          let found : (consume hash now rows.tokens).1 ≡ true = ap (λ x. x.1) q in
          let left : (consume hash now rows.tokens).0 ≡ ts = ap (λ x. x.0) q in
          rw (f, store_session, ← left) (opened c found f)
    ]

pub start_bootstrap_session-Started :
    (db : Fault) (hash : String) (s : BootstrapSession) (now : ℕ) (rows : Rows)
    → Started hash s now rows
        (start_bootstrap_session db hash s now rows).0
        (said_yes (start_bootstrap_session db hash s now rows).1)
unfolding start_bootstrap_session said_yes
start_bootstrap_session-Started (some e) hash s now rows = refused
start_bootstrap_session-Started none hash s now rows = elim (Bool-cases (is_closed rows.latch)) [
  | inl c ↦ rw c refused
  | inr c ↦ rw c (store_session-Started hash s now rows (consume hash now rows.tokens) refl c)
]

-- ===== src/Bootstrap/OneLive.antt =====
-- At most one token and one session are live, whatever the replicas do, and none once first run is
-- closed; and a token starts at most one session.
use Prim.Native.String.{String}
use manager.Prelude.{
  ℕ, ◌+◌, ◌≤◌, ◌≡◌, ◌≢◌, refl, sym, ◌∙◌, inl, inr, Bool, true, false, ◌&&◌, none, some, List, [],
  ◌∷◌, ◌==◌, nat_eq, string_eq, eq_iff, Bool-cases, arith,
}
use manager.Bootstrap.{
  BootstrapState, BootstrapToken, BootstrapSession, Rows, Fault, is_closed, close_bootstrap,
  has_token, issue_bootstrap_token, new_row, start_bootstrap_session, touch_bootstrap_session,
  end_bootstrap_session, end_bootstrap_sessions, reset_first_run,
}
use manager.Bootstrap.Live.{
  RowOp, closes, issues, starts, touches, ends, ends_all, resets, row_step, row_run, OnTime,
  AllOnTime, unended, unused_of, unused, any_hash, AtMostOne, unended-end_session,
  unended-touch_row, unended-end_row, unused_of-consume, unused_of-retire_token, unused_of-issue,
  taken_of, Started, refused, opened, said_yes, start_bootstrap_session-Started,
}

is_closed-later : (by : BootstrapState) → by.closed_at ≢ 0 → is_closed by ≡ true
unfolding is_closed
is_closed-later by nz = ground (arith, nz)

close-AtMostOne :
    (db : Fault) (by : BootstrapState) (rows : Rows)
    → by.closed_at ≢ 0
    → AtMostOne rows
    → AtMostOne (close_bootstrap db by rows).0
unfolding close_bootstrap unused_of
close-AtMostOne (some e) by rows nz a = a
close-AtMostOne none by rows nz a = elim (Bool-cases (is_closed rows.latch)) [
  | inl c ↦ rw c a
  | inr c ↦
      let none_left = unended-end_session by.closed_at "closed" rows.sessions nz in
      rw c (record {
        one_session = omega (arith, none_left);
        one_token = omega arith;
        closed_sessions = λ h. none_left;
        closed_tokens = λ h. refl;
      })
]

issue-AtMostOne :
    (db : Fault) (t : BootstrapToken) (rows : Rows)
    → t.created_at ≢ 0
    → AtMostOne rows
    → AtMostOne (issue_bootstrap_token db t rows).0
unfolding issue_bootstrap_token unused_of
issue-AtMostOne (some e) t rows nz a = a
issue-AtMostOne none t rows nz a = elim (Bool-cases (is_closed rows.latch)) [
  | inl c ↦ rw c a
  | inr c ↦ elim (Bool-cases (has_token t.hash rows.tokens)) [
    | inl d ↦ rw (c, d) a
    | inr d ↦
        let none_left = unused_of-retire_token any_hash t.created_at rows.tokens nz in
        rw (c, d)
          (record {
            one_session = a.one_session;
            one_token = omega (arith, none_left);
            closed_sessions = a.closed_sessions;
            closed_tokens = λ h. absurd (let stuck = sym c ∙ h in cc);
          })
  ]
]

Started-AtMostOne :
    (hash : String) (s : BootstrapSession) (now : ℕ) (rows : Rows) {after : Rows} {yes : Bool}
    → now ≢ 0
    → Started hash s now rows after yes
    → AtMostOne rows
    → AtMostOne after
unfolding unended new_row
Started-AtMostOne hash s now rows nz refused a = a
Started-AtMostOne hash s now rows nz (opened c d f) a =
    let none_left = unended-end_session now "superseded" rows.sessions nz in
    let fewer = unused_of-consume any_hash hash now rows.tokens nz in
    record {
      one_session = omega (arith, none_left);
      one_token = omega (arith, fewer, a.one_token);
      closed_sessions = λ h. absurd (let stuck = sym c ∙ h in cc);
      closed_tokens = λ h. absurd (let stuck = sym c ∙ h in cc);
    }

fewer-AtMostOne :
    (rows : Rows) (ss : List BootstrapSession)
    → unended ss ≤ unended rows.sessions
    → AtMostOne rows
    → AtMostOne (record rows { sessions = ss })
fewer-AtMostOne rows ss le a = record {
  one_session = omega (arith, le, a.one_session);
  one_token = a.one_token;
  closed_sessions = λ h. omega (arith, le, a.closed_sessions h);
  closed_tokens = a.closed_tokens;
}

row_step-AtMostOne :
    (op : RowOp) (rows : Rows) → OnTime op → AtMostOne rows → AtMostOne (row_step op rows)
unfolding row_step touch_bootstrap_session end_bootstrap_session end_bootstrap_sessions
    reset_first_run unended unused_of
row_step-AtMostOne (closes db by) rows t a = close-AtMostOne db by rows t a
row_step-AtMostOne (issues db token) rows t a = issue-AtMostOne db token rows t a
row_step-AtMostOne (starts db hash s now) rows t a =
    Started-AtMostOne hash s now rows t (start_bootstrap_session-Started db hash s now rows) a
row_step-AtMostOne (touches (some e) hash at) rows t a = a
row_step-AtMostOne (touches none hash at) rows t a =
    fewer-AtMostOne rows _ (omega (arith, unended-touch_row hash at rows.sessions)) a
row_step-AtMostOne (ends (some e) hash reason at) rows t a = a
row_step-AtMostOne (ends none hash reason at) rows t a =
    fewer-AtMostOne rows _ (unended-end_row hash at reason rows.sessions t) a
row_step-AtMostOne (ends_all (some e) reason at) rows t a = a
row_step-AtMostOne (ends_all none reason at) rows t a =
    fewer-AtMostOne rows _ (omega (arith, unended-end_session at reason rows.sessions t)) a
row_step-AtMostOne (resets (some e) at) rows t a = a
row_step-AtMostOne (resets none at) rows t a = record {
  one_session = omega arith;
  one_token = omega arith;
  closed_sessions = λ h. refl;
  closed_tokens = λ h. refl;
}

-- Whatever the replicas, failing calls and break-glass resets do, in any order, if the clock never reads
-- the zero time: from tables in which it is so, at most one session has not ended and at most one token
-- is unused, and both are none while first run is closed.
pub row_run-AtMostOne :
    (ops : List RowOp) (rows : Rows) → AllOnTime ops → AtMostOne rows → AtMostOne (row_run ops rows)
unfolding row_run
row_run-AtMostOne [] rows t a = a
row_run-AtMostOne (op ∷ ops) rows t a =
    row_run-AtMostOne ops (row_step op rows) t.1 (row_step-AtMostOne op rows t.0 a)

-- No token with the hash is issued.
abbrev pub NotIssued : String → RowOp → Type 0
NotIssued hash (issues db t) = t.hash ≢ hash
NotIssued hash _ = Unit

abbrev pub NeverIssued : String → List RowOp → Type 0
NeverIssued hash [] = Unit
NeverIssued hash (op ∷ ops) = NotIssued hash op × NeverIssued hash ops

-- 1 where the call starts a session by the token.
pub start : String → RowOp → Rows → ℕ
start hash (starts db h s now) rows =
    taken_of (h == hash && said_yes (start_bootstrap_session db h s now rows).1)
start hash _ rows = 0

pub starts_of : String → List RowOp → Rows → ℕ
starts_of hash [] rows = 0
starts_of hash (op ∷ ops) rows = start hash op rows + starts_of hash ops (row_step op rows)

Started-left :
    (hash h : String) (s : BootstrapSession) (now : ℕ) (rows : Rows) {after : Rows} {yes : Bool}
    → now ≢ 0
    → Started h s now rows after yes
    → taken_of (h == hash && yes) + unused_of (λ j. j == hash) after.tokens
      ≤ unused_of (λ j. j == hash) rows.tokens
unfolding taken_of
Started-left hash h s now rows nz refused = ground arith
Started-left hash h s now rows nz (opened c d f) =
    let one = unused_of-consume (λ j. j == hash) h now rows.tokens nz in omega (arith, rw d at one)

close-left :
    (p : String → Bool) (db : Fault) (by : BootstrapState) (rows : Rows)
    → unused_of p (close_bootstrap db by rows).0.tokens ≤ unused_of p rows.tokens
unfolding close_bootstrap
close-left p (some e) by rows = omega arith
close-left p none by rows = elim (Bool-cases (is_closed rows.latch)) [
  | inl c ↦ rw c (omega arith)
  | inr c ↦ rw c (unfold unused_of in omega arith)
]

start-left :
    (hash : String) (op : RowOp) (rows : Rows)
    → OnTime op
    → NotIssued hash op
    → start hash op rows + unused_of (λ j. j == hash) (row_step op rows).tokens
      ≤ unused_of (λ j. j == hash) rows.tokens
unfolding start row_step touch_bootstrap_session end_bootstrap_session end_bootstrap_sessions
    reset_first_run unused_of
start-left hash (closes db by) rows t n = omega (arith, close-left (λ j. j == hash) db by rows)
start-left hash (issues db token) rows t n =
    omega (arith, unused_of-issue (λ j. j == hash) db token rows t other)
  where
    other : (token.hash == hash) ≡ false
    other = elim (Bool-cases (token.hash == hash)) [
      | inl e ↦ absurd (n ((eq_iff token.hash hash).0 e))
      | inr e ↦ e
    ]
start-left hash (starts db h s now) rows t n =
    Started-left hash h s now rows t (start_bootstrap_session-Started db h s now rows)
start-left hash (touches (some e) h at) rows t n = omega arith
start-left hash (touches none h at) rows t n = omega arith
start-left hash (ends (some e) h reason at) rows t n = omega arith
start-left hash (ends none h reason at) rows t n = omega arith
start-left hash (ends_all (some e) reason at) rows t n = omega arith
start-left hash (ends_all none reason at) rows t n = omega arith
start-left hash (resets (some e) at) rows t n = omega arith
start-left hash (resets none at) rows t n = omega arith

starts_of-left :
    (hash : String) (ops : List RowOp) (rows : Rows)
    → AllOnTime ops
    → NeverIssued hash ops
    → starts_of hash ops rows ≤ unused_of (λ j. j == hash) rows.tokens
unfolding starts_of
starts_of-left hash [] rows t n = omega arith
starts_of-left hash (op ∷ ops) rows t n =
    omega
      (arith, start-left hash op rows t.0 n.0, starts_of-left hash ops (row_step op rows) t.1 n.1)

unused_of-le : (p : String → Bool) (ts : List BootstrapToken) → unused_of p ts ≤ unused ts
unfolding unused_of
unused_of-le p [] = omega arith
unused_of-le p (t ∷ ts) = ground (arith, unused_of-le p ts)

-- From tables with at most one unused token, over any history in which the clock never reads the zero
-- time and no token is issued with this hash again, the token starts at most one session.
pub token_once :
    (hash : String) (ops : List RowOp) (rows : Rows)
    → AllOnTime ops
    → NeverIssued hash ops
    → AtMostOne rows
    → starts_of hash ops rows ≤ 1
token_once hash ops rows t n a = omega (
  arith,
  starts_of-left hash ops rows t n,
  unused_of-le (λ j. j == hash) rows.tokens,
  a.one_token,
)

-- ===== src/Bootstrap/Gates.antt =====
-- Who gets through: the session check, and that a closed first run refuses every start.
use Prim.Native.String.{String}
use manager.Prelude.{
  ℕ, ◌+◌, ◌<◌, ◌≡◌, ◌≢◌, ◌↔◌, refl, ap, inl, inr, Bool, true, false, not, ◌||◌, Option, none, some,
  [], map, ltb, leb, ◌==◌, nat_eq, string_eq, if◌then◌else◌, Result, ok, err, Bool-cases,
  Option-cases, arith,
}
use manager.OperatorCa.Base.{Bytes, Certificate}
use manager.OperatorCa.Serial.{Text}
use manager.Authz.{admin, Identity}
use manager.Bootstrap.{
  BootstrapSession, Rows, StoreError, session_idle, is_closed, find_session, touch_row, end_session,
  bootstrap_session, touch_bootstrap_session, BootstrapState, Fault, close_bootstrap, is_recorded,
  OperatorCredential, record_first_use,
}
use manager.Bootstrap.Tokens.{session_prefix, strip}
use manager.Bootstrap.Service.{
  Error, Faults, Options, Service, mark_closed, latch_says, closed_now, state_of, from_file, state,
  gate_on, gate, admit_from, admit, failed, is_session_secret, touched, with_session, session,
  start_admitted, start_session, audit,
}
use manager.Bootstrap.Live.{unended, unended-end_session}
use manager.Bootstrap.Latching.{is_admin, latch_of, first_credential, after_close, observe}

-- A property of both branches.
if-both {ℓ κ} :
    {A : Type ℓ} (P : A → Type κ) (b : Bool) (x y : A) → P x → P y → P (if b then x else y)
if-both P true x y p q = p
if-both P false x y p q = q

module _ {L : Type 0} (options : Options L) where
  -- The secret is that of a stored session which has not ended, is less than an hour old and was used
  -- within the last fifteen minutes, and the database answers both calls.
  pub record Passes (now : ℕ) (db : Faults) (secret : Text) (s : Service L) : Type 0 where
    pub found : BootstrapSession
    pub has_form : is_session_secret options (strip (λ c. c) session_prefix secret) ≡ true
    pub is_found : find_session (options.hash_secret secret) s.rows.sessions ≡ some found
    pub unended : found.ended_at ≡ 0
    pub unexpired : now < found.expires_at
    pub recent : now < found.last_used_at + session_idle
    pub read : db.session ≡ none
    pub written : db.touch ≡ none

  touched-ok :
      (db : Faults) (now : ℕ) (hash h : String) (s : Service L)
      → (touched options hash s (touch_bootstrap_session db.touch hash now s.rows)).1 ≡ ok h
      → db.touch ≡ none
  unfolding touched touch_bootstrap_session
  touched-ok db now hash h s q = elim (Option-cases db.touch) [
    | inl n ↦ n
    | inr (e, n) ↦ absurd (let k = rw (n, touch_bootstrap_session) at q in cc)
  ]

  with_session-ok :
      (now : ℕ) (db : Faults) (entropy : Option Bytes) (ip hash h : String) (s : Service L)
      (o : Option BootstrapSession)
      → (with_session options now db entropy ip hash s o).1 ≡ ok h
      → (x : BootstrapSession) × (o ≡ some x)
        × (x.ended_at ≡ 0)
        × (now < x.expires_at)
        × (now < x.last_used_at + session_idle)
        × (db.touch ≡ none)
  unfolding with_session failed
  with_session-ok now db entropy ip hash h s none q = absurd (cc)
  with_session-ok now db entropy ip hash h s (some x) q = elim (Bool-cases (x.ended_at == 0)) [
    | inr e ↦ absurd (let k = rw e at q in cc)
    | inl e ↦
        elim (Bool-cases (not (ltb now x.expires_at) || leb (x.last_used_at + session_idle) now)) [
          | inl b ↦ absurd (let k = rw (e, b) at q in cc)
          | inr b ↦ (
            x,
            refl,
            ground (arith, e),
            ground (arith, b),
            ground (arith, b),
            touched-ok db now hash h s (rw (e, b) at q),
          )
        ]
  ]

  session-Passes :
      (now : ℕ) (db : Faults) (entropy : Option Bytes) (ip h : String) (secret : Text)
      (s : Service L)
      → (session options now db entropy ip secret s).1 ≡ ok h
      → Passes now db secret s
  unfolding session failed bootstrap_session
  session-Passes now db entropy ip h secret s q =
      elim (Bool-cases (is_session_secret options (strip (λ c. c) session_prefix secret))) [
        | inr e ↦ absurd (let k = rw e at q in cc)
        | inl e ↦ elim (Option-cases db.session) [
          | inr (x, n) ↦ absurd (let k = rw (e, n, bootstrap_session) at q in cc)
          | inl n ↦
              let (x, found, unended₀, old, idle, ok_touch) =
                with_session-ok now db entropy ip (options.hash_secret secret) h s
                  (find_session (options.hash_secret secret) s.rows.sessions)
                  (rw (e, n, bootstrap_session) at q) in
              record {
                found = x;
                has_form = e;
                is_found = found;
                unended = unended₀;
                unexpired = old;
                recent = idle;
                read = n;
                written = ok_touch;
              }
        ]
      ]

  Passes-session :
      (now : ℕ) (db : Faults) (entropy : Option Bytes) (ip : String) (secret : Text) (s : Service L)
      → Passes now db secret s
      → session options now db entropy ip secret s ≡ (
        record s {
          rows = record s.rows {
            sessions = map (touch_row (options.hash_secret secret) now) s.rows.sessions;
          };
        },
        ok (options.hash_secret secret),
      )
  unfolding session bootstrap_session with_session touched touch_bootstrap_session
  Passes-session now db entropy ip secret s p =
      let not_ended : (p.found.ended_at == 0) ≡ true = ground (arith, p.unended) in
      let live : (not (ltb now p.found.expires_at) || leb (p.found.last_used_at + session_idle) now)
          ≡ false =
        ground (arith, p.unexpired, p.recent) in
      rw
        (
          p.has_form, p.read, bootstrap_session, p.is_found, not_ended, live, p.written,
          touch_bootstrap_session,
        )
        refl

  -- A session-gated call passes exactly if the secret has the prefix and more, its hash is that of a stored
  -- session that has not ended, is not past its end and was used within the last fifteen minutes, and the
  -- database answers; then the call is recorded as the session's last use and nothing else changes.
  pub session_iff :
      (now : ℕ) (db : Faults) (entropy : Option Bytes) (ip : String) (secret : Text) (s : Service L)
      → (((session options now db entropy ip secret s).1 ≡ ok (options.hash_secret secret))
          ↔ Passes now db secret s)
        × (Passes now db secret s
            → (session options now db entropy ip secret s).0 ≡ record s {
              rows = record s.rows {
                sessions = map (touch_row (options.hash_secret secret) now) s.rows.sessions;
              };
            })
  session_iff now db entropy ip secret s = (
    (
      session-Passes now db entropy ip (options.hash_secret secret) secret s,
      λ p. ap (λ r. r.1) (Passes-session now db entropy ip secret s p),
    ),
    λ p. ap (λ r. r.0) (Passes-session now db entropy ip secret s p),
  )

  -- The answer is an error and the tables and printed tokens are as they were.
  pub record Refuses {A : Type 0} (s : Service L) (r : Service L × Result Error A) : Type 0 where
    pub error : Error
    pub is_error : r.1 ≡ err error
    pub same_rows : r.0.rows ≡ s.rows
    pub same_printed : r.0.printed ≡ s.printed

  closed_now-closed :
      (now : ℕ) (db : Faults) (s : Service L)
      → is_closed s.rows.latch ≡ true
      → Refuses s (gate_on options (state_of options now db (closed_now options db s)))
  unfolding closed_now state_of gate_on latch_says mark_closed
  closed_now-closed now db s c =
      if-both (λ r. Refuses s (gate_on options (state_of options now db r))) s.closed _ _
        (record { error = _; is_error = refl; same_rows = refl; same_printed = refl })
        (elim (Option-cases db.state) [
          | inl n ↦
              rw (n, c)
                (record { error = _; is_error = refl; same_rows = refl; same_printed = refl })
          | inr (e, n) ↦
              rw n (record { error = _; is_error = refl; same_rows = refl; same_printed = refl })
        ])

  gate-closed :
      (now : ℕ) (db : Faults) (s : Service L)
      → is_closed s.rows.latch ≡ true
      → Refuses s (gate options now db s)
  unfolding gate state gate_on
  gate-closed now db s c =
      let refusing : (e : Error) → Refuses {A = Unit {0}} s (s, err e) =
        λ e. record { error = e; is_error = refl; same_rows = refl; same_printed = refl } in
      if-both (λ r. Refuses s (gate_on options r)) (from_file options options.source) _ _
        (refusing _)
        (if-both (λ r. Refuses s (gate_on options r)) (not options.has_store) _ _ (refusing _)
          (if-both (λ r. Refuses s (gate_on options r)) options.first_run_disabled _ _ (refusing _)
            (closed_now-closed now db s c)))

  admit_from-Refuses :
      (now : ℕ) (ip : String) (s : Service L) (r : Service L × Result Error (Unit {0}))
      → Refuses s r
      → Refuses s (admit_from options now ip r)
  unfolding admit_from
  admit_from-Refuses now ip s (t, err e) x = x
  admit_from-Refuses now ip s (t, ok u) x = absurd (let q = x.is_error in cc)

  start_admitted-Refuses :
      (now : ℕ) (db : Faults) (entropy next : Option Bytes) (ip : String) (token : Text)
      (s : Service L) (r : Service L × Result Error (Unit {0}))
      → Refuses s r
      → Refuses s (start_admitted options now db entropy next ip token r)
  unfolding start_admitted
  start_admitted-Refuses now db entropy next ip token s (t, err e) x = record {
    error = e;
    is_error = refl;
    same_rows = x.same_rows;
    same_printed = x.same_printed;
  }
  start_admitted-Refuses now db entropy next ip token s (t, ok u) x =
      absurd (let q = x.is_error in cc)

  -- While the stored latch is closed, every replica refuses every call to start a session, whatever the
  -- token, the time, its configuration, what it remembers and what the database answers, and the tables and
  -- the printed tokens stay as they are.
  pub start_session-closed :
      (now : ℕ) (db : Faults) (entropy next : Option Bytes) (ip : String) (token : Text)
      (s : Service L)
      → is_closed s.rows.latch ≡ true
      → Refuses s (start_session options now db entropy next ip token s)
  unfolding start_session admit
  start_session-closed now db entropy next ip token s c =
      start_admitted-Refuses now db entropy next ip token s _
        (admit_from-Refuses now ip s _ (gate-closed now db s c))

  closing : BootstrapState → Rows → Rows
  closing by rows = record rows {
    latch = by;
    sessions = map (end_session by.closed_at "closed") rows.sessions;
    tokens = [];
  }

  close_bootstrap-open :
      (f : Fault) (by : BootstrapState) (rows : Rows)
      → f ≡ none
      → is_closed rows.latch ≡ false
      → close_bootstrap f by rows ≡ (closing by rows, ok true)
  unfolding close_bootstrap closing
  close_bootstrap-open f by rows n c = rw (n, close_bootstrap, c) refl

  -- What closing leaves of the tables.
  record ClosedRows (now : ℕ) (id : Identity) (cert : Certificate) (before rows : Rows)
      : Type 0 where
    same_latch : rows.latch ≡ latch_of options now id cert
    all_ended : rows.sessions ≡ map (end_session now "closed") before.sessions
    no_tokens : rows.tokens ≡ []

  first_use-ClosedRows :
      (now : ℕ) (db : Faults) (id : Identity) (cert : Certificate) (c : OperatorCredential)
      (before rows : Rows)
      → ClosedRows now id cert before rows
      → ClosedRows now id cert before (record_first_use db.first_use c now rows).0
  unfolding record_first_use
  first_use-ClosedRows now db id cert c before rows x = elim (Option-cases db.first_use) [
    | inr (e, n) ↦ rw (n, record_first_use) x
    | inl n ↦
        rw (n, record_first_use)
          (if-both (λ (r : Rows × Result StoreError Bool). ClosedRows now id cert before r.0)
            (is_recorded c.issuer_sha256 c.serial_hex rows.operator_credentials) _ _ x
            (record {
              same_latch = x.same_latch;
              all_ended = x.all_ended;
              no_tokens = x.no_tokens;
            }))
  ]

  observe-ClosedRows :
      (now : ℕ) (db : Faults) (id : Identity) (cert : Certificate) (s : Service L)
      → options.has_store ≡ true
      → id.level ≡ admin
      → s.closed ≡ false
      → db.close ≡ none
      → is_closed s.rows.latch ≡ false
      → ClosedRows now id cert s.rows (observe options now db id cert s).rows
  unfolding observe is_admin after_close mark_closed audit closing latch_of
  observe-ClosedRows now db id cert s h l f n c =
      let guard : (not options.has_store || not (is_admin id.level) || s.closed) ≡ false =
        rw (h, l, f) refl in
      rw (guard, close_bootstrap-open db.close (latch_of options now id cert) s.rows n c)
        (first_use-ClosedRows now db id cert (first_credential options id cert) s.rows
          (closing (latch_of options now id cert) s.rows)
          (record { same_latch = refl; all_ended = refl; no_tokens = refl }))

  -- When an admin's certificate is first seen by a replica with a store, first run is open and the database
  -- answers, first run closes in that person's name: no session is left and no token, and any replica over
  -- the same tables refuses every later start of a session and changes nothing.
  pub observe_closes :
      (now : ℕ) (db : Faults) (id : Identity) (cert : Certificate) (s : Service L)
      → now ≢ 0
      → options.has_store ≡ true
      → id.level ≡ admin
      → s.closed ≡ false
      → db.close ≡ none
      → is_closed s.rows.latch ≡ false
      → ((observe options now db id cert s).rows.latch ≡ latch_of options now id cert)
        × (unended (observe options now db id cert s).rows.sessions ≡ 0)
        × ((observe options now db id cert s).rows.tokens ≡ [])
        × ((later : ℕ) (faults : Faults) (entropy next : Option Bytes) (ip : String) (token : Text)
              (t : Service L)
            → t.rows ≡ (observe options now db id cert s).rows
            → Refuses t (start_session options later faults entropy next ip token t))
  unfolding is_closed latch_of
  observe_closes now db id cert s nz h l f n c =
      let x = observe-ClosedRows now db id cert s h l f n c in
      (
        x.same_latch,
        rw x.all_ended (unended-end_session now "closed" s.rows.sessions nz),
        x.no_tokens,
        λ later faults entropy next ip token t same.
            start_session-closed later faults entropy next ip token t
              (rw (same, x.same_latch) (ground (arith, nz))),
      )

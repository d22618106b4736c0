-- ===== src/Bootstrap/Service.antt =====
-- internal/bootstrap/service.go, token.go and latch.go: the guards of the first-run calls, sessions,
-- tokens and the latch, in one replica. `Faults` is what the database answers to the calls of one
-- request. SHA-256 in hex and the token bucket of the limiter are parameters. Of the audit rows and
-- banners the kind and the token are kept.
use Prim.Native.String.{String}
use manager.Prelude.{
  ℕ, ◌+◌, Bool, true, false, not, ◌||◌, Option, none, some, List, [], ◌∷◌, ltb, leb, ◌==◌, nat_eq,
  string_eq, if◌then◌else◌, Result, ok, err, Map,
}
use manager.OperatorCa.Base.{Bytes}
use manager.OperatorCa.Serial.{Text}
use manager.RateLimit.{Window, fail_window, fail_client, blocked}
use manager.Bootstrap.{
  BootstrapSession, OperatorCa, Rows, StoreError, database, bootstrap_closed, Fault, token_ttl,
  session_idle, session_max, is_closed, issue_bootstrap_token, live_bootstrap_token,
  start_bootstrap_session, bootstrap_session, touch_bootstrap_session, end_bootstrap_session,
  end_bootstrap_sessions, has_live_bootstrap_session,
}
use manager.Bootstrap.Tokens.{session_prefix, strip, new_token, new_session_secret, canonical_token}

-- Refusals of the calls.
pub data Error : Type 0 where
  unavailable first_run_closed rate_limited token_invalid session_invalid no_randomness : Error
  store_error : StoreError → Error

-- BootstrapState of the API
pub data State : Type 0 where
  not_applicable unavailable_state closed_state open_state in_progress : State

-- The faults of one request, by the call of the store.
pub record Faults : Type 0 where
  pub state : Fault
  pub live_session : Fault
  pub operator_cas : Fault
  pub session : Fault
  pub start : Fault
  pub touch : Fault
  pub end_one : Fault
  pub end_all : Fault
  pub issue : Fault
  pub live_token : Fault
  pub lock : Fault
  pub close : Fault
  pub first_use : Fault

-- What the process was started with. The source is that of the trust store, if there is one.
pub record Options (L : Type 0) : Type 0 where
  pub has_store : Bool
  pub first_run_disabled : Bool
  pub source : Option String
  pub space : ℕ → Bool
  pub upper : ℕ → ℕ
  pub hash_secret : Text → String
  pub lower : String → String
  pub fresh : L
  pub spend : ℕ → L → L
  pub tokens_at : ℕ → L → ℕ

-- The tables, this replica's latch, token lock and limiters, and what it printed and audited.
pub record Service (L : Type 0) : Type 0 where
  pub rows : Rows
  pub closed : Bool
  pub holds_lock : Bool
  pub per_client : Map String L
  pub global : Window
  pub printed : List Text
  pub audits : List String

module _ {L : Type 0} (options : Options L) where
  -- markClosed: onClose gives up the token lock
  unfoldable pub mark_closed : Service L → Service L
  mark_closed s = record s { closed = true; holds_lock = false }

  unfoldable pub latch_says : Bool → Service L → Service L × Result Error Bool
  latch_says true s = (mark_closed s, ok true)
  latch_says false s = (s, ok false)

  -- closed
  unfoldable pub closed_now : Faults → Service L → Service L × Result Error Bool
  closed_now db s = if s.closed then (s, ok true) else elim db.state [
    | some e ↦ (s, err (store_error (database e)))
    | none ↦ latch_says (is_closed s.rows.latch) s
  ]

  -- The loop of activeCA.
  unfoldable pub find_active : List OperatorCa → Option OperatorCa
  find_active [] = none
  find_active (ca ∷ cas) =
      let rest = find_active cas in if ca.state == "active" then some ca else rest

  -- activeCA: an error is logged, and answers that there is none
  unfoldable pub active_ca : Faults → Service L → Option OperatorCa
  active_ca db s = elim db.operator_cas [ some e ↦ none | none ↦ find_active s.rows.operator_cas ]

  unfoldable pub is_some : {A : Type 0} → Option A → Bool
  is_some none = false
  is_some (some a) = true

  unfoldable pub open_or_in_progress : ℕ → Faults → Service L → Result Error State
  open_or_in_progress now db s =
      elim (has_live_bootstrap_session db.live_session now session_idle s.rows) [
        | err e ↦ err (store_error e)
        | ok live ↦ if live || is_some (active_ca db s) then ok in_progress else ok open_state
      ]

  unfoldable pub state_of :
      ℕ → Faults → Service L × Result Error Bool → Service L × Result Error State
  state_of now db (s, err e) = (s, err e)
  state_of now db (s, ok true) = (s, ok closed_state)
  state_of now db (s, ok false) = (s, open_or_in_progress now db s)

  unfoldable pub from_file : Option String → Bool
  from_file none = false
  from_file (some kind) = kind == "file"

  -- state, without its reason code
  unfoldable pub state : ℕ → Faults → Service L → Service L × Result Error State
  state now db s =
      if from_file options.source
      then (s, ok not_applicable)
      else if not options.has_store
      then (s, ok unavailable_state)
      else if options.first_run_disabled
      then (s, ok unavailable_state)
      else state_of now db (closed_now db s)

  unfoldable pub gate_on : Service L × Result Error State → Service L × Result Error (Unit {0})
  gate_on (s, err e) = (s, err e)
  gate_on (s, ok open_state) = (s, ok tt)
  gate_on (s, ok in_progress) = (s, ok tt)
  gate_on (s, ok unavailable_state) = (s, err unavailable)
  gate_on (s, ok not_applicable) = (s, err first_run_closed)
  gate_on (s, ok closed_state) = (s, err first_run_closed)

  -- gate
  unfoldable pub gate : ℕ → Faults → Service L → Service L × Result Error (Unit {0})
  gate now db s = gate_on (state now db s)

  unfoldable pub admit_from :
      ℕ → String → Service L × Result Error (Unit {0}) → Service L × Result Error (Unit {0})
  admit_from now ip (s, err e) = (s, err e)
  admit_from now ip (s, ok u) =
      if blocked options.tokens_at now ip s.per_client then (s, err rate_limited) else (s, ok tt)

  -- admit
  unfoldable pub admit : ℕ → Faults → String → Service L → Service L × Result Error (Unit {0})
  admit now db ip s = admit_from now ip (gate now db s)

  unfoldable pub canonical_of : Option Text → Text
  canonical_of none = []
  canonical_of (some t) = t

  unfoldable pub hash_of_token : Text → String
  hash_of_token token =
      options.hash_secret (canonical_of (canonical_token options.space options.upper token))

  unfoldable pub issued :
      Text → Service L → Rows × Result StoreError (Unit {0}) → Service L × Result Error (Unit {0})
  issued token s (rows, err e) = (record s { rows = rows }, err (store_error e))
  issued token s (rows, ok u) = (record s { rows = rows; printed = token ∷ s.printed }, ok tt)

  -- issue
  unfoldable pub issue : ℕ → Faults → Option Bytes → Service L → Service L × Result Error (Unit {0})
  issue now db entropy s = elim (new_token entropy) [
    | none ↦ (s, err no_randomness)
    | some token ↦ issued token s (
        issue_bootstrap_token db.issue
          (record {
            hash = hash_of_token token;
            created_at = now;
            expires_at = now + token_ttl;
            used_at = 0;
          })
          s.rows)
  ]

  unfoldable pub audit : String → Service L → Service L
  audit kind s = record s { audits = kind ∷ s.audits }

  -- rotateAfterFailures: errors are logged
  unfoldable pub rotate_after_failures : ℕ → Faults → Option Bytes → Service L → Service L
  rotate_after_failures now db entropy s =
      let ended = (end_bootstrap_sessions db.end_all "rate_limited" now s.rows).0 in
      audit "bootstrap-token-rotated" (issue now db entropy (record s { rows = ended })).0

  unfoldable pub after_window : ℕ → Faults → Option Bytes → Service L → Window × Bool → Service L
  after_window now db entropy s (w, false) = record s { global = w }
  after_window now db entropy s (w, true) =
      rotate_after_failures now db entropy (record s { global = w })

  -- fail: the failure is counted for the client and for all
  unfoldable pub fail : ℕ → Faults → Option Bytes → String → Service L → Service L
  fail now db entropy ip s =
      after_window now db entropy
        (record s { per_client = fail_client options.fresh options.spend now ip s.per_client })
        (fail_window now s.global)

  unfoldable pub failed :
      {A : Type 0}
      → ℕ
      → Faults
      → Option Bytes
      → String
      → Error
      → Service L
      → Service L × Result Error A
  failed now db entropy ip e s = (fail now db entropy ip s, err e)

  -- The secret has the prefix and more.
  unfoldable pub is_session_secret : Option Text → Bool
  is_session_secret none = false
  is_session_secret (some []) = false
  is_session_secret (some (c ∷ s)) = true

  unfoldable pub touched :
      String → Service L → Rows × Result StoreError (Unit {0}) → Service L × Result Error String
  touched hash s (rows, err e) = (record s { rows = rows }, err (store_error e))
  touched hash s (rows, ok u) = (record s { rows = rows }, ok hash)

  -- The tests of a stored session.
  unfoldable pub with_session :
      ℕ
      → Faults
      → Option Bytes
      → String
      → String
      → Service L
      → Option BootstrapSession
      → Service L × Result Error String
  with_session now db entropy ip hash s none = failed now db entropy ip session_invalid s
  with_session now db entropy ip hash s (some sess) =
      if not (sess.ended_at == 0)
      then failed now db entropy ip session_invalid s
      else if not (ltb now sess.expires_at) || leb (sess.last_used_at + session_idle) now
      then failed now db entropy ip session_invalid
          (record s { rows = (end_bootstrap_session db.end_one hash "expired" now s.rows).0 })
      else touched hash s (touch_bootstrap_session db.touch hash now s.rows)

  -- session
  unfoldable pub session :
      ℕ → Faults → Option Bytes → String → Text → Service L → Service L × Result Error String
  session now db entropy ip secret s =
      if not (is_session_secret (strip (λ c. c) session_prefix secret))
      then failed now db entropy ip session_invalid s
      else elim (bootstrap_session db.session (options.hash_secret secret) s.rows) [
        | err e ↦ (s, err (store_error e))
        | ok found ↦ with_session now db entropy ip (options.hash_secret secret) s found
      ]

  unfoldable pub new_session : ℕ → Text → BootstrapSession
  new_session now secret = record {
    hash = options.hash_secret secret;
    created_at = now;
    last_used_at = now;
    expires_at = now + session_max;
    ended_at = 0;
    ended_reason = "";
  }

  -- The end of StartBootstrapSession, with the store's answer.
  unfoldable pub session_started :
      ℕ
      → Faults
      → Option Bytes
      → String
      → Text
      → Service L
      → Rows × Result StoreError Bool
      → Service L × Result Error Text
  session_started now db next ip secret s (rows, err e) =
      (record s { rows = rows }, err (store_error e))
  session_started now db next ip secret s (rows, ok false) =
      failed now db next ip token_invalid (record s { rows = rows })
  session_started now db next ip secret s (rows, ok true) = (
    audit "bootstrap-session-started" (issue now db next (record s { rows = rows })).0,
    ok secret,
  )

  unfoldable pub start_with :
      ℕ
      → Faults
      → Option Bytes
      → Option Bytes
      → String
      → Service L
      → Option Text
      → Service L × Result Error Text
  start_with now db entropy next ip s none = failed now db next ip token_invalid s
  start_with now db entropy next ip s (some canon) = elim (new_session_secret entropy) [
    | none ↦ (s, err no_randomness)
    | some secret ↦ session_started now db next ip secret s (
        start_bootstrap_session db.start (options.hash_secret canon) (new_session now secret) now
          s.rows)
  ]

  unfoldable pub start_admitted :
      ℕ
      → Faults
      → Option Bytes
      → Option Bytes
      → String
      → Text
      → Service L × Result Error (Unit {0})
      → Service L × Result Error Text
  start_admitted now db entropy next ip token (s, err e) = (s, err e)
  start_admitted now db entropy next ip token (s, ok u) =
      start_with now db entropy next ip s (canonical_token options.space options.upper token)

  -- StartBootstrapSession: `entropy` is for the secret, `next` for the next token
  unfoldable pub start_session :
      ℕ
      → Faults
      → Option Bytes
      → Option Bytes
      → String
      → Text
      → Service L
      → Service L × Result Error Text
  start_session now db entropy next ip token s =
      start_admitted now db entropy next ip token (admit now db ip s)

  -- holdLock: `acquired` is what TryAdvisoryLock answers
  unfoldable pub hold_lock : Faults → Bool → Service L → Service L × Bool
  hold_lock db acquired s = if s.holds_lock then (s, true) else elim db.lock [
    | some e ↦ (s, false)
    | none ↦ if acquired then (record s { holds_lock = true }, true) else (s, false)
  ]

  -- stop
  unfoldable pub stop : Service L → Service L
  stop s = record s { holds_lock = false }

  unfoldable pub after_issue : Service L × Result Error (Unit {0}) → Service L
  after_issue (s, ok u) = s
  after_issue (s, err (store_error bootstrap_closed)) = stop s
  after_issue (s, err e) = s

  unfoldable pub needs_token : ℕ → Faults → Bool → Service L → Bool
  needs_token now db force s =
      if force then true else elim (live_bootstrap_token db.live_token now s.rows) [
        | err e ↦ false
        | ok found ↦ not (is_some found)
      ]

  unfoldable pub ensure_held : ℕ → Faults → Option Bytes → Bool → Service L × Bool → Service L
  ensure_held now db entropy force (s, false) = s
  ensure_held now db entropy force (s, true) =
      if needs_token now db force s then after_issue (issue now db entropy s) else s

  -- ensure
  unfoldable pub ensure : ℕ → Faults → Option Bytes → Bool → Bool → Service L → Service L
  ensure now db entropy acquired force s =
      ensure_held now db entropy force (hold_lock db acquired s)

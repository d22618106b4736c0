-- ===== src/Bootstrap.antt =====
-- internal/bootstrap: the first run of a manager, over the tables of
-- internal/store/postgres/bootstrap.go. A SQL statement is a function on the lists of rows it names,
-- and a zero time is NULL. `Fault` is what the database answers to a call: nothing, or an error, and
-- the transaction is rolled back.
pub mod Live
pub mod OneLive
pub mod Tokens
pub mod Service
pub mod Latching
pub mod Gates
pub mod Crockford
pub mod Canonical
use manager.Prelude.{
  ℕ, ◌+◌, ◌*◌, Bool, true, false, not, ◌&&◌, Option, none, some, List, [], ◌∷◌, String, map, ltb,
  ◌==◌, nat_eq, string_eq, bytes_eq, if◌then◌else◌, Result, ok, err,
}
use manager.OperatorCa.Base.{minute, hour}
use manager.OperatorCa.Serial.{Text}

abbrev pub token_ttl : ℕ
token_ttl = hour

abbrev pub session_idle : ℕ
session_idle = 15 * minute

abbrev pub session_max : ℕ
session_max = hour

-- store.BootstrapState, the row of bootstrap_state
pub record BootstrapState : Type 0 where
  pub closed_at : ℕ
  pub closed_by_serial : Text
  pub closed_by_cn : String
  pub closed_by_issuer_sha256 : String

-- store.BootstrapToken, with the column used_at
pub record BootstrapToken : Type 0 where
  pub hash : String
  pub created_at : ℕ
  pub expires_at : ℕ
  pub used_at : ℕ

-- store.BootstrapSession
pub record BootstrapSession : Type 0 where
  pub hash : String
  pub created_at : ℕ
  pub last_used_at : ℕ
  pub expires_at : ℕ
  pub ended_at : ℕ
  pub ended_reason : String

-- The columns of operator_cas that first run reads.
pub record OperatorCa : Type 0 where
  pub sha256 : String
  pub state : String
  pub confirmed_session_hash : String
  pub retired_at : ℕ
  pub retired_reason : String

-- The columns of operator_credentials that first run writes, without the name and the leaf's hash.
pub record OperatorCredential : Type 0 where
  pub issuer_sha256 : String
  pub serial_hex : Text
  pub kind : String
  pub email : String
  pub level : String
  pub first_seen_at : ℕ

-- The tables, the newest row first.
pub record Rows : Type 0 where
  pub latch : BootstrapState
  pub tokens : List BootstrapToken
  pub sessions : List BootstrapSession
  pub operator_cas : List OperatorCa
  pub operator_credentials : List OperatorCredential

-- ErrBootstrapClosed, a hash that is stored already (the columns are UNIQUE), or the database's error.
pub data StoreError : Type 0 where
  bootstrap_closed duplicate : StoreError
  database : String → StoreError

abbrev pub Fault : Type 0
Fault = Option String

-- Closed
unfoldable pub is_closed : BootstrapState → Bool
is_closed s = not (s.closed_at == 0)

-- UPDATE bootstrap_sessions SET ended_at, ended_reason WHERE ended_at IS NULL
unfoldable pub end_session : ℕ → String → BootstrapSession → BootstrapSession
end_session at reason s =
    if s.ended_at == 0 then record s { ended_at = at; ended_reason = reason } else s

-- CloseBootstrap
unfoldable pub close_bootstrap : Fault → BootstrapState → Rows → Rows × Result StoreError Bool
close_bootstrap (some e) by rows = (rows, err (database e))
close_bootstrap none by rows = if is_closed rows.latch then (rows, ok false) else (
  record rows {
    latch = by;
    sessions = map (end_session by.closed_at "closed") rows.sessions;
    tokens = [];
  },
  ok true,
)

unfoldable pub has_token : String → List BootstrapToken → Bool
has_token hash [] = false
has_token hash (t ∷ ts) = let rest = has_token hash ts in if t.hash == hash then true else rest

unfoldable pub retire_token : ℕ → BootstrapToken → BootstrapToken
retire_token at t = if t.used_at == 0 then record t { used_at = at } else t

-- IssueBootstrapToken
unfoldable pub issue_bootstrap_token :
    Fault → BootstrapToken → Rows → Rows × Result StoreError (Unit {0})
issue_bootstrap_token (some e) t rows = (rows, err (database e))
issue_bootstrap_token none t rows =
    if is_closed rows.latch
    then (rows, err bootstrap_closed)
    else if has_token t.hash rows.tokens
    then (rows, err duplicate)
    else (
      record rows {
        tokens = record t { used_at = 0 } ∷ map (retire_token t.created_at) rows.tokens;
      },
      ok tt,
    )

unfoldable pub is_live_token : ℕ → BootstrapToken → Bool
is_live_token now t = t.used_at == 0 && ltb now t.expires_at

unfoldable pub first_live : ℕ → List BootstrapToken → Option BootstrapToken
first_live now [] = none
first_live now (t ∷ ts) =
    let rest = first_live now ts in if is_live_token now t then some t else rest

-- LiveBootstrapToken
unfoldable pub live_bootstrap_token : Fault → ℕ → Rows → Result StoreError (Option BootstrapToken)
live_bootstrap_token (some e) now rows = err (database e)
live_bootstrap_token none now rows = ok (first_live now rows.tokens)

-- The rows that the conditional UPDATE of StartBootstrapSession changes, and whether there are any.
unfoldable pub consume : String → ℕ → List BootstrapToken → List BootstrapToken × Bool
consume hash now [] = ([], false)
consume hash now (t ∷ ts) =
    let rest = consume hash now ts in
    if t.hash == hash && is_live_token now t
    then (record t { used_at = now } ∷ rest.0, true)
    else (t ∷ rest.0, rest.1)

unfoldable pub find_session : String → List BootstrapSession → Option BootstrapSession
find_session hash [] = none
find_session hash (s ∷ ss) =
    let rest = find_session hash ss in if s.hash == hash then some s else rest

unfoldable pub new_row : BootstrapSession → BootstrapSession
new_row s = record s { ended_at = 0; ended_reason = "" }

unfoldable pub store_session :
    BootstrapSession → ℕ → Rows → List BootstrapToken × Bool → Rows × Result StoreError Bool
store_session s now rows (tokens, false) = (rows, ok false)
store_session s now rows (tokens, true) = elim (find_session s.hash rows.sessions) [
  | some _ ↦ (rows, err duplicate)
  | none ↦ (
    record rows {
      tokens = tokens;
      sessions = new_row s ∷ map (end_session now "superseded") rows.sessions;
    },
    ok true,
  )
]

-- StartBootstrapSession
unfoldable pub start_bootstrap_session :
    Fault → String → BootstrapSession → ℕ → Rows → Rows × Result StoreError Bool
start_bootstrap_session (some e) token_hash s now rows = (rows, err (database e))
start_bootstrap_session none token_hash s now rows =
    if is_closed rows.latch
    then (rows, ok false)
    else store_session s now rows (consume token_hash now rows.tokens)

-- BootstrapSession
unfoldable pub bootstrap_session :
    Fault → String → Rows → Result StoreError (Option BootstrapSession)
bootstrap_session (some e) hash rows = err (database e)
bootstrap_session none hash rows = ok (find_session hash rows.sessions)

unfoldable pub touch_row : String → ℕ → BootstrapSession → BootstrapSession
touch_row hash at s =
    if s.hash == hash && s.ended_at == 0 then record s { last_used_at = at } else s

-- TouchBootstrapSession
unfoldable pub touch_bootstrap_session :
    Fault → String → ℕ → Rows → Rows × Result StoreError (Unit {0})
touch_bootstrap_session (some e) hash at rows = (rows, err (database e))
touch_bootstrap_session none hash at rows =
    (record rows { sessions = map (touch_row hash at) rows.sessions }, ok tt)

unfoldable pub end_row : String → ℕ → String → BootstrapSession → BootstrapSession
end_row hash at reason s = if s.hash == hash then end_session at reason s else s

-- EndBootstrapSession
unfoldable pub end_bootstrap_session :
    Fault → String → String → ℕ → Rows → Rows × Result StoreError (Unit {0})
end_bootstrap_session (some e) hash reason at rows = (rows, err (database e))
end_bootstrap_session none hash reason at rows =
    (record rows { sessions = map (end_row hash at reason) rows.sessions }, ok tt)

-- EndBootstrapSessions, without the count
unfoldable pub end_bootstrap_sessions :
    Fault → String → ℕ → Rows → Rows × Result StoreError (Unit {0})
end_bootstrap_sessions (some e) reason at rows = (rows, err (database e))
end_bootstrap_sessions none reason at rows =
    (record rows { sessions = map (end_session at reason) rows.sessions }, ok tt)

unfoldable pub is_live_session : ℕ → ℕ → BootstrapSession → Bool
is_live_session now idle s =
    s.ended_at == 0 && ltb now s.expires_at && ltb now (s.last_used_at + idle)

unfoldable pub any_live : ℕ → ℕ → List BootstrapSession → Bool
any_live now idle [] = false
any_live now idle (s ∷ ss) =
    let rest = any_live now idle ss in if is_live_session now idle s then true else rest

-- HasLiveBootstrapSession
unfoldable pub has_live_bootstrap_session : Fault → ℕ → ℕ → Rows → Result StoreError Bool
has_live_bootstrap_session (some e) now idle rows = err (database e)
has_live_bootstrap_session none now idle rows = ok (any_live now idle rows.sessions)

unfoldable pub retire_ca : ℕ → OperatorCa → OperatorCa
retire_ca at ca =
    if ca.state == "retired"
    then ca
    else record ca { state = "retired"; retired_at = at; retired_reason = "reset" }

unfoldable pub open_latch : BootstrapState
open_latch = record {
  closed_at = 0;
  closed_by_serial = [];
  closed_by_cn = "";
  closed_by_issuer_sha256 = "";
}

-- ResetFirstRun, with the latch as it was; the counts that the tool prints are left out
unfoldable pub reset_first_run : Fault → ℕ → Rows → Rows × Result StoreError BootstrapState
reset_first_run (some e) at rows = (rows, err (database e))
reset_first_run none at rows = (
  record {
    latch = open_latch;
    tokens = [];
    sessions = [];
    operator_cas = map (retire_ca at) rows.operator_cas;
    operator_credentials = rows.operator_credentials;
  },
  ok rows.latch,
)

unfoldable pub is_recorded : String → Text → List OperatorCredential → Bool
is_recorded issuer serial [] = false
is_recorded issuer serial (c ∷ cs) =
    let rest = is_recorded issuer serial cs in
    if c.issuer_sha256 == issuer && c.serial_hex == serial then true else rest

-- RecordFirstUse
unfoldable pub record_first_use :
    Fault → OperatorCredential → ℕ → Rows → Rows × Result StoreError Bool
record_first_use (some e) c at rows = (rows, err (database e))
record_first_use none c at rows =
    if is_recorded c.issuer_sha256 c.serial_hex rows.operator_credentials
    then (rows, ok false)
    else (
      record rows {
        operator_credentials =
            record c { kind = "first_admin"; first_seen_at = at } ∷ rows.operator_credentials;
      },
      ok true,
    )

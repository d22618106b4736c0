-- ===== src/Tests/FirstRunRuns.antt =====
-- First run: tokens, a session and the latch.
use Prim.Native.String.{String}
use manager.Prelude.{
  ℕ, ◌+◌, ◌*◌, ◌≤◌, ◌<◌, ◌≡◌, ◌↔◌, refl, true, false, Option, none, some, List, [], ◌∷◌, ◌++◌, map,
  ok, length, arith, All,
}
use manager.OperatorCa.Base.{Bytes, minute}
use manager.OperatorCa.Serial.{Text, is_space}
use manager.RateLimit.{new_window}
use manager.Bootstrap.{BootstrapToken, BootstrapSession, Rows, open_latch, is_closed, touch_row}
use manager.Bootstrap.Tokens.{
  token_prefix, token_body_length, session_prefix, drain, crockford, new_token, canonical_token,
}
use manager.Bootstrap.Service.{Faults, Options, Service, session, start_session}
use manager.Bootstrap.Live.{RowOp, starts, touches, row_run, AtMostOne, unended, unused_of}
use manager.Bootstrap.OneLive.{row_run-AtMostOne, starts_of, token_once}
use manager.Bootstrap.Latching.{latch_of, observe}
use manager.Bootstrap.Gates.{Passes, Refuses, session_iff, observe_closes}
use manager.Bootstrap.Crockford.{InAlphabet, drain-bits}
use manager.Bootstrap.Canonical.{canonical_token-new_token}
use manager.Tests.Data.{leaf}
use manager.Tests.LoginData.{alice}

abbrev first_token : BootstrapToken
first_token = record { hash = "t1"; created_at = minute; expires_at = 61 * minute; used_at = 0 }

abbrev first_session : BootstrapSession
first_session = record {
  hash = "s1";
  created_at = 2 * minute;
  last_used_at = 2 * minute;
  expires_at = 62 * minute;
  ended_at = 0;
  ended_reason = "";
}

abbrev tables : Rows
tables = record {
  latch = open_latch;
  tokens = first_token ∷ [];
  sessions = first_session ∷ [];
  operator_cas = [];
  operator_credentials = [];
}

tables-AtMostOne : AtMostOne tables
unfolding unended unused_of is_closed open_latch
tables-AtMostOne = record {
  one_session = omega arith;
  one_token = omega arith;
  closed_sessions = λ h. absurd (cc);
  closed_tokens = λ h. absurd (cc);
}

abbrev history : List RowOp
history =
    starts none "t1" (record first_session { hash = "s2" }) (3 * minute)
    ∷ starts none "t1" (record first_session { hash = "s3" }) (4 * minute)
    ∷ touches none "s2" minute
    ∷ []

row_run-AtMostOne_example : AtMostOne (row_run history tables)
row_run-AtMostOne_example =
    row_run-AtMostOne history tables (omega arith, (omega arith, (tt, tt))) tables-AtMostOne

token_once_example : starts_of "t1" history tables ≤ 1
token_once_example =
    token_once "t1" history tables (omega arith, (omega arith, (tt, tt))) (tt, (tt, (tt, tt)))
      tables-AtMostOne

abbrev faults : Faults
faults = record {
  state = none;
  live_session = none;
  operator_cas = none;
  session = none;
  start = none;
  touch = none;
  end_one = none;
  end_all = none;
  issue = none;
  live_token = none;
  lock = none;
  close = none;
  first_use = none;
}

-- Every secret has the hash of the one session.
abbrev options : Options ℕ
options = record {
  has_store = true;
  first_run_disabled = false;
  source = some "registered";
  space = is_space;
  upper = λ c. c;
  hash_secret = λ s. "s1";
  lower = λ s. s;
  fresh = 5;
  spend = λ now l. l;
  tokens_at = λ now l. l;
}

abbrev service : Service ℕ
service = record {
  rows = tables;
  closed = false;
  holds_lock = true;
  per_client = [];
  global = new_window 50 (60 * minute);
  printed = [];
  audits = [];
}

abbrev secret : Text
secret = session_prefix ++ (b'A' ∷ [])

session_iff_example :
    (((session options (10 * minute) faults none "10.0.0.1" secret service).1 ≡ ok "s1")
      ↔ Passes options (10 * minute) faults secret service)
    × (Passes options (10 * minute) faults secret service
        → (session options (10 * minute) faults none "10.0.0.1" secret service).0 ≡ record service {
          rows = record tables {
            sessions = map (touch_row "s1" (10 * minute)) (first_session ∷ []);
          };
        })
session_iff_example = session_iff options (10 * minute) faults none "10.0.0.1" secret service

observe_closes_example :
    ((observe options minute faults alice leaf service).rows.latch
      ≡ latch_of options minute alice leaf)
    × (unended (observe options minute faults alice leaf service).rows.sessions ≡ 0)
    × ((observe options minute faults alice leaf service).rows.tokens ≡ [])
    × ((later : ℕ) (db : Faults) (entropy next : Option Bytes) (ip : String) (token : Text)
          (t : Service ℕ)
        → t.rows ≡ (observe options minute faults alice leaf service).rows
        → Refuses options t (start_session options later db entropy next ip token t))
unfolding is_closed open_latch
observe_closes_example =
    observe_closes options minute faults alice leaf service (omega arith) refl refl refl refl refl

abbrev entropy : Bytes
entropy =
    1 ∷ 2 ∷ 3 ∷ 4 ∷ 5 ∷ 6 ∷ 7 ∷ 8 ∷ 1 ∷ 2 ∷ 3 ∷ 4 ∷ 5 ∷ 6 ∷ 7 ∷ 8 ∷ 1 ∷ 2 ∷ 3 ∷ 4 ∷ 5 ∷ 6 ∷ 7 ∷ 8
    ∷ 1 ∷ 2 ∷ 3 ∷ 4 ∷ 5 ∷ 6 ∷ 255 ∷ 8 ∷ []

drain-bits_example :
    (length (drain 12 0xabc 12).0 * 5 + (drain 12 0xabc 12).1 ≡ 12) × ((drain 12 0xabc 12).1 < 5)
drain-bits_example = drain-bits 12 0xabc 12 (omega arith)

space_ascii : (c : ℕ) → 32 < c → c < 127 → is_space c ≡ false
unfolding is_space
space_ascii c lo hi = ground (arith, lo)

printed : (t : Text) × (new_token (some entropy) ≡ some t)
unfolding new_token
printed = (_, refl)

canonical_token-new_token_example :
    (canonical_token is_space (λ c. c) printed.0 ≡ some (token_prefix ++ crockford entropy))
    × (length (crockford entropy) ≡ token_body_length)
    × All InAlphabet (crockford entropy)
canonical_token-new_token_example =
    canonical_token-new_token is_space (λ c. c) space_ascii (λ c h. refl) entropy printed.0 refl
      printed.1

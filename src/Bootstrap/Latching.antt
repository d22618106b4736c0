-- ===== src/Bootstrap/Latching.antt =====
-- internal/bootstrap/latch.go, and the start and the ticks of internal/bootstrap/service.go: first run
-- closes at the first request of an admin with a certificate.
use Prim.Native.String.{String}
use manager.Prelude.{
  ℕ, Bool, true, false, not, ◌||◌, Option, none, some, ◌==◌, string_eq, if◌then◌else◌, Result, ok,
  err,
}
use manager.OperatorCa.Base.{Bytes, Certificate}
use manager.OperatorCa.Serial.{serial_key}
use manager.Authz.{Level, viewer, operator, admin, Identity, token}
use manager.Bootstrap.{
  BootstrapState, OperatorCredential, Rows, StoreError, close_bootstrap, record_first_use,
}
use manager.Bootstrap.Service.{
  Error, Faults, Options, Service, mark_closed, closed_now, audit, ensure,
}

unfoldable pub is_admin : Level → Bool
is_admin viewer = false
is_admin operator = false
is_admin admin = true

module _ {L : Type 0} (options : Options L) where
  unfoldable pub latch_of : ℕ → Identity → Certificate → BootstrapState
  latch_of now id cert = record {
    closed_at = now;
    closed_by_serial = serial_key cert.serial_number;
    closed_by_cn = id.cn;
    closed_by_issuer_sha256 = id.issuer_sha256;
  }

  unfoldable pub first_credential : Identity → Certificate → OperatorCredential
  first_credential id cert = record {
    issuer_sha256 = id.issuer_sha256;
    serial_hex = serial_key cert.serial_number;
    kind = "";
    email = options.lower cert.common_name;
    level = token id.level;
    first_seen_at = 0;
  }

  unfoldable pub after_close :
      ℕ → Faults → Identity → Certificate → Service L → Rows × Result StoreError Bool → Service L
  after_close now db id cert s (rows, err e) = record s { rows = rows }
  after_close now db id cert s (rows, ok false) = mark_closed options (record s { rows = rows })
  after_close now db id cert s (rows, ok true) =
      let used = (record_first_use db.first_use (first_credential id cert) now rows).0 in
      audit options "bootstrap-closed" (mark_closed options (record s { rows = used }))

  -- Observe: errors of the store are logged
  unfoldable pub observe : ℕ → Faults → Identity → Certificate → Service L → Service L
  observe now db id cert s =
      if not options.has_store || not (is_admin id.level) || s.closed
      then s
      else after_close now db id cert s (close_bootstrap db.close (latch_of now id cert) s.rows)

  unfoldable pub is_registered_source : Option String → Bool
  is_registered_source none = false
  is_registered_source (some kind) = kind == "registered"

  -- firstRunApplies
  unfoldable pub first_run_applies : Bool
  first_run_applies =
      if not options.has_store || options.first_run_disabled
      then false
      else is_registered_source options.source

  unfoldable pub tick_open :
      ℕ → Faults → Option Bytes → Bool → Service L × Result Error Bool → Service L
  tick_open now db entropy acquired (s, err e) = s
  tick_open now db entropy acquired (s, ok true) = s
  tick_open now db entropy acquired (s, ok false) = ensure options now db entropy acquired false s

  -- TickTokens
  unfoldable pub tick_tokens : ℕ → Faults → Option Bytes → Bool → Service L → Service L
  tick_tokens now db entropy acquired s =
      if not first_run_applies || s.closed
      then s
      else tick_open now db entropy acquired (closed_now options db s)

  unfoldable pub start_open :
      ℕ
      → Faults
      → Option Bytes
      → Bool
      → Service L × Result Error Bool
      → Service L × Result Error (Unit {0})
  start_open now db entropy acquired (s, err e) = (s, err e)
  start_open now db entropy acquired (s, ok true) = (s, ok tt)
  start_open now db entropy acquired (s, ok false) =
      (ensure options now db entropy acquired true s, ok tt)

  -- Start, without the ticker, which calls tick_tokens
  unfoldable pub start_service :
      ℕ → Faults → Option Bytes → Bool → Service L → Service L × Result Error (Unit {0})
  start_service now db entropy acquired s =
      if not first_run_applies
      then (s, ok tt)
      else start_open now db entropy acquired (closed_now options db s)

-- ===== src/Tests/RevocationRuns.antt =====
-- The decisions of the revocation engine.
use manager.Prelude.{
  ℕ, ◌+◌, ◌*◌, ◌≤◌, ◌≡◌, refl, subst, ◌↔◌, ap, Bool, true, false, ◌&&◌, ◌||◌, Option, none, some,
  List, [], ◌∷◌, String, ◌==◌, string_eq, bytes_eq, ==-self, list_beq, member, lookup, Result, ok,
  err, arith, if◌then◌else◌, keep, map,
}
use manager.OperatorCa.Base.{hour, reject_cert, revoked}
use manager.OperatorCa.Serial.{serial_key, format_serial, normalize_serial}
use manager.OperatorCa.Trust.{DenylistEntry, KeepsEntries, lists}
use manager.OperatorCa.Revocations.{
  Revocations, AnchorState, in_set, in_crl, state_in_crl, revoked_locked, is_revoked, check_web,
  check_mcp,
}
use manager.OperatorCa.Revocations.Engine.{reload_denylist, deny, use_denylist}
use manager.OperatorCa.Revocations.Web.{is_revoked_refused, check_web_iff, WebAllows, fresh_answer}
use manager.OperatorCa.Revocations.Web as Web
use manager.OperatorCa.Revocations.Mcp.{McpAllows, check_mcp_iff, check_mcp_stricter}
use manager.OperatorCa.Revocations.Mcp as Mcp
use manager.OperatorCa.Revocations.Denylist.{deny_enforced}
use manager.OperatorCa.Revocations.Outage.{
  run_web_rows, run_web, run_answers, outages, expiries, Request,
}
use manager.Tests.Data.{leaf, decoders, state, engine, good_response, list_trust}

known : lookup "a1" engine.anchors ≡ some state
unfolding lookup
known = refl

listed : is_revoked engine "a1" (format_serial 66) ≡ true
unfolding is_revoked revoked_locked in_set state_in_crl in_crl member lookup normalize_serial
    format_serial list_beq
listed = refl

is_revoked_refused_example :
    (check_web hour hour good_response "a1" 66 none engine ≡ (engine, err (reject_cert revoked)))
    × (check_mcp hour hour good_response "a1" 66 none engine ≡ (engine, err (reject_cert revoked)))
is_revoked_refused_example =
    is_revoked_refused hour hour good_response "a1" 66 none engine state known listed

check_web_iff_example :
    ((check_web hour hour good_response "a1" 50 (some leaf) engine).1 ≡ ok tt) ↔ (
      (revoked_locked engine "a1" (serial_key 50) ≡ false)
      × WebAllows state "soft"
          (Web.responder hour hour good_response "a1" 50 (some leaf) engine state)
          hour
          (fresh_answer (Web.asked hour hour good_response "a1" 50 (some leaf) engine state).1))
check_web_iff_example = check_web_iff hour hour good_response "a1" 50 (some leaf) engine state known

check_mcp_iff_example :
    ((check_mcp (10 * hour) (10 * hour) good_response "a1" 50 (some leaf) engine).1 ≡ ok tt)
    ↔ McpAllows engine state "a1" 50 (10 * hour) (
        fresh_answer
          (Mcp.asked (10 * hour) (10 * hour) good_response "a1" 50 (some leaf) engine state).1)
check_mcp_iff_example =
    check_mcp_iff (10 * hour) (10 * hour) good_response "a1" 50 (some leaf) engine state known

mcp_passes : (check_mcp (10 * hour) (10 * hour) good_response "a1" 50 (some leaf) engine).1 ≡ ok tt
unfolding check_mcp manager.OperatorCa.Revocations.check_mcp_sets lookup revoked_locked in_set
    state_in_crl in_crl member list_beq serial_key manager.OperatorCa.Revocations.has_crl
    manager.OperatorCa.Revocations.crl_fresh manager.OperatorCa.Crl.is_fresh
    manager.OperatorCa.Revocations.after_ocsp_mcp manager.OperatorCa.Revocations.ask_ocsp
mcp_passes = refl

-- An operator denies the serial 50, as it shows on the page.
entry : DenylistEntry
entry = record { issuer_sha256 = "a1"; serial_hex = format_serial 50; revoked_at = 5 }

list_trust-KeepsEntries : KeepsEntries list_trust
unfolding lists
list_trust-KeepsEntries = record {
  entry_read = λ e s added es h k.
      let same : (e ∷ s) ≡ es = cc in
      subst (λ (x : List DenylistEntry). lists e.issuer_sha256 e.serial_hex x ≡ true) same
        (rw (==-self e.issuer_sha256, ==-self e.serial_hex) refl);
}

after_deny : Revocations
after_deny = (deny list_trust decoders hour entry [] engine).1

denied :
    deny list_trust decoders hour entry [] engine
    ≡ ((deny list_trust decoders hour entry [] engine).0, after_deny, ok tt)
unfolding deny after_deny manager.OperatorCa.Revocations.Engine.after_add reload_denylist
denied = refl

still_known :
    lookup "a1" after_deny.anchors ≡ some (record state { denied = (b'3' ∷ b'2' ∷ []) ∷ [] })
unfolding after_deny deny lookup manager.OperatorCa.Revocations.Engine.after_add reload_denylist
    use_denylist manager.OperatorCa.Revocations.Engine.set_denied
    manager.OperatorCa.Revocations.Engine.set_of manager.OperatorCa.Revocations.Engine.denylist_of
    manager.OperatorCa.Revocations.Engine.deny_serial manager.Prelude.insert
    manager.OperatorCa.Revocations.Engine.normal_entry entry manager.Prelude.add normalize_serial
    format_serial
still_known = refl

deny_enforced_example :
    (check_web hour hour good_response "a1" 50 (some leaf) after_deny
      ≡ (after_deny, err (reject_cert revoked)))
    × (check_mcp hour hour good_response "a1" 50 (some leaf) after_deny
        ≡ (after_deny, err (reject_cert revoked)))
unfolding format_serial entry
deny_enforced_example =
    deny_enforced list_trust decoders list_trust-KeepsEntries hour entry []
      (deny list_trust decoders hour entry [] engine).0 engine after_deny 50 refl denied hour hour
      good_response (some leaf) (record state { denied = (b'3' ∷ b'2' ∷ []) ∷ [] }) still_known

page_load : Request
page_load = record {
  now = 200 * hour;
  later = 200 * hour;
  answer = good_response;
  serial = 50;
  leaf = some leaf;
}

run_web_rows_example :
    (outages (run_web "a1" (page_load ∷ page_load ∷ []) engine).audits
      ≤ outages engine.audits + 1 + run_answers "a1" (page_load ∷ page_load ∷ []) engine)
    × (expiries (run_web "a1" (page_load ∷ page_load ∷ []) engine).audits
        ≤ expiries engine.audits + 1)
run_web_rows_example = run_web_rows "a1" (page_load ∷ page_load ∷ []) engine

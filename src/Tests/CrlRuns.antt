-- ===== src/Tests/CrlRuns.antt =====
-- Serials and CRLs.
use manager.Prelude.{
  ℕ, ◌+◌, ◌*◌, ◌<◌, ◌≡◌, ◌≢◌, refl, Bool, true, false, Option, none, some, List, [], ◌∷◌, member,
  Result, ok, err, arith, list_beq_iff, bytes_eq,
}
use manager.OperatorCa.Base.{hour}
use manager.OperatorCa.Serial.{Text, serial_key, format_serial, normalize_serial}
use manager.OperatorCa.Serial.Forms.{normalize_serial-format_serial}
use manager.OperatorCa.Crl.{VerifiedCrl, OperatorCrl, verify_crl, accept_newer}
use manager.OperatorCa.Crl.Acceptable.{IsAcceptable}
use manager.OperatorCa.Crl.Verified.{listed, verify_crl_sound, verify_crl_complete}
use manager.OperatorCa.Crl.Rollback.{Newer, row_of, accept_newer-Newer, accept_newer_back}
use manager.Tests.Data.{ca, decoders, crl, crl_list}

normalize_serial-format_serial_example : normalize_serial (format_serial 2737) ≡ serial_key 2737
normalize_serial-format_serial_example = normalize_serial-format_serial 2737

verified : verify_crl decoders (9 ∷ []) ca (2 * hour) ≡ ok crl
unfolding verify_crl manager.OperatorCa.Crl.der_of manager.OperatorCa.Crl.parsed
    manager.Prelude.list_beq manager.OperatorCa.Crl.check_list
    manager.OperatorCa.Crl.check_extensions manager.OperatorCa.Crl.collect
    manager.OperatorCa.Crl.check_entry_extensions manager.Prelude.add serial_key
verified = refl

verify_crl_sound_example :
    IsAcceptable decoders (9 ∷ []) ca (2 * hour) crl.der crl.list
    × ((s : Text) → member crl.revoked_serials s ≡ listed s crl.list.entries)
verify_crl_sound_example = verify_crl_sound decoders (9 ∷ []) ca (2 * hour) crl verified

acceptable : IsAcceptable decoders (9 ∷ []) ca (2 * hour) (9 ∷ []) crl_list
acceptable = (verify_crl_sound decoders (9 ∷ []) ca (2 * hour) crl verified).0

verify_crl_complete_example :
    (v : VerifiedCrl) × (verify_crl decoders (9 ∷ []) ca (2 * hour) ≡ ok v)
    × (v.list ≡ crl_list)
    × (v.der ≡ 9 ∷ [])
    × (v.number ≡ some 3)
verify_crl_complete_example =
    verify_crl_complete decoders (9 ∷ []) ca (2 * hour) (9 ∷ []) crl_list acceptable

-- The CRL before, with the number 2.
abbrev old : OperatorCrl
old = record {
  issuer_sha256 = "a1";
  der = some (8 ∷ []);
  number = some 2;
  this_update = 1;
  next_update = 50 * hour;
  fetched_at = 1;
  source = "https://ca/crl";
  last_error = "";
  last_attempt_at = 1;
}

abbrev before : VerifiedCrl
before = record {
  list = record crl_list { number = some 2; this_update = 1 };
  der = 8 ∷ [];
  number = some 2;
  revoked_serials = [];
}

accepted : accept_newer (some old) crl ≡ ok true
unfolding accept_newer manager.OperatorCa.Crl.same_der manager.Prelude.list_beq
    manager.OperatorCa.Crl.newer_number manager.OperatorCa.Crl.accept_if
accepted = refl

other_bytes : old.der ≢ some crl.der
other_bytes p =
    let q : ◌≡◌ {A = List ℕ} (8 ∷ []) (9 ∷ []) = cc in
    let r : ◌≡◌ {A = ℕ} 8 9 = cc in omega (arith, r)

accept_newer-Newer_example : Newer old crl × (old.der ≢ some crl.der)
accept_newer-Newer_example = accept_newer-Newer old crl accepted

accept_newer_back_example : accept_newer (some (row_of crl old)) before ≢ ok true
accept_newer_back_example = accept_newer_back old crl before accepted refl refl

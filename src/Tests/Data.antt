-- ===== src/Tests/Data.antt =====
-- The inputs of the tests.
use manager.Prelude.{
  ◌*◌, true, false, Option, none, some, List, [], ◌∷◌, String, ◌==◌, bytes_eq, if◌then◌else◌, ok,
}
use manager.OperatorCa.Base.{Bytes, Certificate, Extension, hour}
use manager.OperatorCa.Crl.{RevocationList, Decoders, VerifiedCrl}
use manager.OperatorCa.Ocsp.{Answer, OcspResult}
use manager.OperatorCa.Ocsp as Ocsp
use manager.OperatorCa.Revocations.{Anchor, AnchorState, Revocations}
use manager.OperatorCa.Trust.{DenylistEntry, OperatorTrust}

abbrev pub ca : Certificate
ca = record {
  raw = 1 ∷ [];
  common_name = "Operator CA";
  raw_subject = 7 ∷ [];
  subject_key_id = [];
  serial_number = 1;
  extensions = [];
  ocsp_server = [];
  not_before = 0;
  not_after = 1000 * hour;
}

-- The certificate of an administrator.
abbrev pub level_extension : Extension
level_extension = record {
  oid = 1 ∷ 3 ∷ 6 ∷ 1 ∷ 4 ∷ 1 ∷ 59999 ∷ 1 ∷ 1 ∷ [];
  critical = false;
  value = 5 ∷ [];
}

abbrev pub leaf : Certificate
leaf = record {
  raw = 2 ∷ [];
  common_name = "alice";
  raw_subject = 8 ∷ [];
  subject_key_id = [];
  serial_number = 50;
  extensions = level_extension ∷ [];
  ocsp_server = [];
  not_before = 0;
  not_after = 1000 * hour;
}

abbrev pub unmarshal : Bytes → Option String
unmarshal b = some "admin"

abbrev pub crl_list : RevocationList
crl_list = record {
  raw_issuer = 7 ∷ [];
  authority_key_id = [];
  number = some 3;
  this_update = hour;
  next_update = 100 * hour;
  extensions = [];
  entries = record { serial_number = 66; extensions = [] } ∷ [];
}

abbrev pub decoders : Decoders
decoders = record {
  pem_decode = λ b. none;
  parse_list = λ b. if b == 9 ∷ [] then some crl_list else none;
  signed_by = λ l c. l.raw_issuer == c.raw_subject;
  unmarshal_idp = λ b. none;
}

-- The CRL lists the serial 66, which is "42" in hex.
abbrev pub crl : VerifiedCrl
crl = record {
  list = crl_list;
  der = 9 ∷ [];
  number = some 3;
  revoked_serials = (b'4' ∷ b'2' ∷ []) ∷ [];
}

abbrev pub anchor : Anchor
anchor = record {
  cert = ca;
  sha256 = "a1";
  state = "active";
  crl_source = "url";
  crl_location = "https://ca/crl";
  ocsp_mode = "url";
  ocsp_url = "https://ca/ocsp";
  from_config = true;
}

abbrev pub state : AnchorState
state = record {
  anchor = anchor;
  denied = [];
  crl = some crl;
  last_error = "";
  last_stale_log = 0;
  expired_audited = false;
  ocsp_outage = false;
  last_ocsp_log = 0;
}

abbrev pub engine : Revocations
engine = record {
  policy = "soft";
  anchors = ("a1", state) ∷ [];
  denylist = [];
  polled_at = 10 * hour;
  ocsp = none;
  audits = [];
  logs = [];
}

abbrev pub good_result : OcspResult
good_result = record { status = Ocsp.good; next_update = 0 }

abbrev pub good_response : Answer
good_response = ok good_result

-- A store that keeps denylist entries in a list.
abbrev pub list_trust : OperatorTrust (List DenylistEntry)
list_trust = record {
  operator_crls = λ s. ok [];
  put_operator_crl = λ c decide s. (s, ok false);
  operator_denylist = λ s. ok s;
  add_operator_denylist_entry = λ e s. (e ∷ s, ok true);
  operator_trust_version = λ s. ok (record { cas = ""; epoch = 1 });
}

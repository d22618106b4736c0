-- ===== src/Audit.antt =====
-- The audit chain: AuditEvent and HashEvent of internal/store/store.go, AddAuditEvent of
-- internal/store/memory/memory.go and Record of internal/auditlog/auditlog.go. A Go string is a
-- String, whose `len` counts bytes. SHA-256 in hex is the parameter `sha`.
pub mod Fields
pub mod Chain
use Prim.Native.Nat.{Ordering, compare}
use Prim.Native.Char.{Char, char, nul}
use Prim.Native.String.{String, ◌++◌, len, ◌∷◌ as ◌::◌}
use manager.Prelude.{
  ℕ, Bool, Option, none, some, List, [], ◌∷◌, map, ◌≡◌, refl, ltb, ◌==◌, nat_eq, string_eq,
  if◌then◌else◌,
}
use manager.OperatorCa.Serial.{Text, digits, lower_digit}
use manager.Authz.{Identity, actor_kind}

-- store.AuditEvent
pub record AuditEvent : Type 0 where
  pub id : String
  pub at : String
  pub kind : String
  pub summary : String
  pub target_kind : String
  pub target_path : String
  pub actor_kind : String
  pub actor_cn : String
  pub actor_serial : String
  pub key_id : String
  pub via : String
  pub tool : String
  pub request_digest : String
  pub outcome : String
  pub approval_id : String
  pub approver_serial : String
  pub chain_version : ℕ
  pub prev_hash : String
  pub hash : String

abbrev pub audit_chain_version : ℕ
audit_chain_version = 2

char_at_order : (n : ℕ) (o : Ordering) → compare n 55296 ≡ o → Char
char_at_order n Ordering.lt h = char n (rw h tt)
char_at_order n _ h = nul

-- The character with a code below the surrogates.
unfoldable pub char_of : ℕ → Char
unfolding char_at_order
char_of n = char_at_order n (compare n 55296) refl

unfoldable pub string_of : Text → String
unfolding char_of
string_of [] = ""
string_of (c ∷ s) = char_of c :: string_of s

-- strconv.Itoa
unfoldable pub itoa : ℕ → Text
itoa n = if n == 0 then b'0' ∷ [] else map lower_digit (digits 10 n)

-- "\n", the length, ":" and the field
unfoldable pub write_field : String → String → String
unfolding string_of itoa
write_field f rest = "\n" ++ (string_of (itoa (len f)) ++ (":" ++ (f ++ rest)))

unfoldable pub write_fields : List String → String
unfolding write_field
write_fields [] = ""
write_fields (f ∷ fs) = write_field f (write_fields fs)

unfoldable pub hashed_fields : AuditEvent → List String
unfolding string_of itoa
hashed_fields e =
    string_of (itoa e.chain_version)
    ∷ e.id
    ∷ e.at
    ∷ e.kind
    ∷ e.summary
    ∷ e.target_kind
    ∷ e.target_path
    ∷ e.actor_kind
    ∷ e.actor_cn
    ∷ e.actor_serial
    ∷ e.key_id
    ∷ e.via
    ∷ e.tool
    ∷ e.request_digest
    ∷ e.outcome
    ∷ e.approval_id
    ∷ e.approver_serial
    ∷ []

-- The text that HashEvent hashes.
unfoldable pub hashed_text : String → AuditEvent → String
unfolding hashed_fields write_fields
hashed_text prev e =
    if ltb e.chain_version 2
    then prev
      ++ ("\n" ++ (e.id ++ (e.at ++ (e.kind ++ (e.summary ++ (e.target_kind ++ e.target_path))))))
    else prev ++ write_fields (hashed_fields e)

-- HashEvent
unfoldable pub hash_event : (String → String) → String → AuditEvent → String
hash_event sha prev e = sha (hashed_text prev e)

-- The hash of the last event, "" where there is none. The log is newest first.
unfoldable pub last_hash : List AuditEvent → String
last_hash [] = ""
last_hash (e ∷ log) = e.hash

unfoldable pub sealed : (String → String) → String → AuditEvent → AuditEvent
sealed sha prev e =
    let v = record e { chain_version = audit_chain_version; prev_hash = prev } in
    record v { hash = hash_event sha prev v }

-- AddAuditEvent
unfoldable pub add_audit_event :
    (String → String) → AuditEvent → List AuditEvent → List AuditEvent × AuditEvent
add_audit_event sha e log = let stored = sealed sha (last_hash log) e in (stored ∷ log, stored)

-- auditlog.Call
pub record Call : Type 0 where
  pub tool : String
  pub request_digest : String
  pub approval_id : String
  pub approver_serial : String

unfoldable pub or_default : String → String → String
or_default s d = if s == "" then d else s

unfoldable pub with_actor : Option Identity → AuditEvent → AuditEvent
with_actor none e = e
with_actor (some id) e = record e {
  actor_kind = actor_kind id;
  actor_cn = id.cn;
  actor_serial = string_of id.serial;
  key_id = id.key_id;
  via = id.via;
}

unfoldable pub with_call : Option Call → AuditEvent → AuditEvent
with_call none e = e
with_call (some c) e = record e {
  tool = c.tool;
  request_digest = c.request_digest;
  approval_id = or_default e.approval_id c.approval_id;
  approver_serial = or_default e.approver_serial c.approver_serial;
}

-- Record: `new_id` and `now` are what NewID and the clock give
unfoldable pub record_event :
    (String → String)
    → String
    → String
    → Option Identity
    → Option Call
    → AuditEvent
    → List AuditEvent
    → List AuditEvent × AuditEvent
record_event sha new_id now who call e log =
    let e0 = record e {
      id = or_default e.id new_id;
      at = or_default e.at now;
      outcome = or_default e.outcome "ok";
    } in
    add_audit_event sha (with_call call (with_actor who e0)) log

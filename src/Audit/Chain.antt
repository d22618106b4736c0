-- ===== src/Audit/Chain.antt =====
-- The audit log is a hash chain, and a log that was altered does not end in the same hash.
use Prim.Native.String.{String, ◌++◌, len}
use mathlib.Core.Path.{ap₂}
use manager.Prelude.{
  ◌≡◌, ◌≢◌, ◌⊎◌, inl, inr, refl, sym, ap, ◌∙◌, List, [], ◌∷◌, length, Bool-cases, eq_iff, ◌==◌,
  string_eq, arith, false, Option,
}
use manager.Authz.{Identity}
use manager.Audit.{
  Call, record_event, AuditEvent, write_fields, hashed_fields, hashed_text, hash_event, last_hash,
  sealed, add_audit_event, audit_chain_version,
}
use manager.Audit.Fields.{append-injective, write_fields-injective}

-- Every event carries the hash of the one before it and its own.
unfoldable pub Chained : (String → String) → List AuditEvent → Type 0
Chained sha [] = Unit
Chained sha (e ∷ log) = (e ≡ sealed sha (last_hash log) e) × Chained sha log

-- An appended event keeps the log a chain.
pub add_audit_event-Chained :
    (sha : String → String) (e : AuditEvent) (log : List AuditEvent)
    → Chained sha log
    → Chained sha (add_audit_event sha e log).0
unfolding Chained add_audit_event sealed hash_event hashed_text hashed_fields
add_audit_event-Chained sha e log c = (refl, c)

-- Record keeps the log a chain.
pub record_event-Chained :
    (sha : String → String) (new_id now : String) (who : Option Identity) (call : Option Call)
    (e : AuditEvent) (log : List AuditEvent)
    → Chained sha log
    → Chained sha (record_event sha new_id now who call e log).0
unfolding record_event
record_event-Chained sha new_id now who call e log c = add_audit_event-Chained sha _ log c

-- Two events at one place in two logs, whose texts that the hash covers differ and have one hash.
pub data Clash (sha : String → String) : List AuditEvent → List AuditEvent → Type 0 where
  here :
      {e f : AuditEvent} {a b : List AuditEvent}
      → hashed_text (last_hash a) e ≢ hashed_text (last_hash b) f
      → sha (hashed_text (last_hash a) e) ≡ sha (hashed_text (last_hash b) f)
      → Clash sha (e ∷ a) (f ∷ b)
  there : {e f : AuditEvent} {a b : List AuditEvent} → Clash sha a b → Clash sha (e ∷ a) (f ∷ b)

module _ (sha : String → String) where
  -- The fields that a version 2 event's hash covers.
  covered : AuditEvent → List String
  covered e = hashed_fields (record e { chain_version = audit_chain_version })

  -- The event with given covered fields.
  rebuild : AuditEvent → String → List String → AuditEvent
  rebuild d prev
        (v ∷ id ∷ at ∷ kind ∷ summary ∷ target_kind ∷ target_path ∷ actor_kind ∷ actor_cn
          ∷ actor_serial ∷ key_id ∷ via ∷ tool ∷ request_digest ∷ outcome ∷ approval_id
          ∷ approver_serial ∷ rest) =
      record {
        id = id;
        at = at;
        kind = kind;
        summary = summary;
        target_kind = target_kind;
        target_path = target_path;
        actor_kind = actor_kind;
        actor_cn = actor_cn;
        actor_serial = actor_serial;
        key_id = key_id;
        via = via;
        tool = tool;
        request_digest = request_digest;
        outcome = outcome;
        approval_id = approval_id;
        approver_serial = approver_serial;
        chain_version = audit_chain_version;
        prev_hash = prev;
        hash = sha (
            prev
            ++ write_fields (
                v ∷ id ∷ at ∷ kind ∷ summary ∷ target_kind ∷ target_path ∷ actor_kind ∷ actor_cn
                ∷ actor_serial ∷ key_id ∷ via ∷ tool ∷ request_digest ∷ outcome ∷ approval_id
                ∷ approver_serial ∷ rest));
      }
  rebuild d prev _ = d

  sealed-rebuild :
      (d e : AuditEvent) (prev : String) → sealed sha prev e ≡ rebuild d prev (covered e)
  unfolding sealed hash_event hashed_text hashed_fields covered rebuild
  sealed-rebuild d e prev = refl

  sealed-hash :
      (e : AuditEvent) (prev : String)
      → (sealed sha prev e).hash ≡ sha (prev ++ write_fields (covered e))
  unfolding sealed hash_event hashed_text hashed_fields covered
  sealed-hash e prev = refl

  -- A sealed event is of version 2, so its hash covers every field with its length.
  sealed-text :
      (e : AuditEvent) (prev : String)
      → e ≡ sealed sha prev e
      → hashed_text prev e ≡ prev ++ write_fields (covered e)
  unfolding sealed hashed_text covered
  sealed-text e prev c =
      let v : e.chain_version ≡ audit_chain_version = ap (λ (x : AuditEvent). x.chain_version) c in
      ap (λ n. hashed_text prev (record e { chain_version = n })) v

  covered-length : (e f : AuditEvent) → length (covered e) ≡ length (covered f)
  unfolding covered hashed_fields
  covered-length e f = refl

  module _ (hash_length : (s : String) → len (sha s) ≡ 64) where
    last_hash-length :
        (a b : List AuditEvent)
        → Chained sha a
        → Chained sha b
        → length a ≡ length b
        → len (last_hash a) ≡ len (last_hash b)
    unfolding Chained last_hash
    last_hash-length [] [] ca cb l = refl
    last_hash-length [] (f ∷ b) ca cb l = absurd (omega (arith, l))
    last_hash-length (e ∷ a) [] ca cb l = absurd (omega (arith, l))
    last_hash-length (e ∷ a) (f ∷ b) ca cb l = of_chain e a ca.0 ∙ sym (of_chain f b cb.0)
      where
        of_chain :
            (e : AuditEvent) (a : List AuditEvent)
            → e ≡ sealed sha (last_hash a) e
            → len e.hash ≡ 64
        of_chain e a c =
            ap (λ (x : AuditEvent). len x.hash) c
            ∙ ap len (sealed-hash e (last_hash a))
            ∙ hash_length _

    -- With a hash whose texts are all 64 bytes long, two hash chains of events of version 2, as long as each
    -- other and ending in the same hash, are the same log, event for event and field for field; or else
    -- they themselves show two texts with one hash, those of two events at one place in the logs.
    pub tamper_evident :
        (a b : List AuditEvent)
        → Chained sha a
        → Chained sha b
        → length a ≡ length b
        → last_hash a ≡ last_hash b
        → (a ≡ b) ⊎ Clash sha a b
    unfolding Chained last_hash
    tamper_evident [] [] ca cb l h = inl refl
    tamper_evident [] (f ∷ b) ca cb l h = absurd (omega (arith, l))
    tamper_evident (e ∷ a) [] ca cb l h = absurd (omega (arith, l))
    tamper_evident (e ∷ a) (f ∷ b) ca cb l h = elim (Bool-cases (ta == tb)) [
      | inr ne ↦ inr (
          here (λ p. differ ne (sym text_a ∙ p ∙ text_b))
            (ap sha text_a ∙ hashes ∙ ap sha (sym text_b)))
      | inl eq ↦ same (λ p. tamper_evident a b ca.1 cb.1 (omega (arith, l)) p) ((eq_iff ta tb).0 eq)
    ]
      where
        ta : String
        ta = last_hash a ++ write_fields (covered e)

        tb : String
        tb = last_hash b ++ write_fields (covered f)

        text_a : hashed_text (last_hash a) e ≡ ta
        text_a = sealed-text e (last_hash a) ca.0

        text_b : hashed_text (last_hash b) f ≡ tb
        text_b = sealed-text f (last_hash b) cb.0

        differ : (ta == tb) ≡ false → ta ≢ tb
        differ ne p = let q = (eq_iff ta tb).1 p in cc

        hashes : sha ta ≡ sha tb
        hashes =
            sym (ap (λ (x : AuditEvent). x.hash) ca.0 ∙ sealed-hash e (last_hash a))
            ∙ h
            ∙ ap (λ (x : AuditEvent). x.hash) cb.0
            ∙ sealed-hash f (last_hash b)

        same :
            (last_hash a ≡ last_hash b → (a ≡ b) ⊎ Clash sha a b)
            → ta ≡ tb
            → ((e ∷ a) ≡ (f ∷ b)) ⊎ Clash sha (e ∷ a) (f ∷ b)
        same earlier p =
            let shorter : length a ≡ length b = omega (arith, l) in
            let q =
              append-injective (last_hash a) (last_hash b) (write_fields (covered e))
                (write_fields (covered f)) (last_hash-length a b ca.1 cb.1 shorter) p in
            let fields = write_fields-injective (covered e) (covered f) (covered-length e f) q.1 in
            let event =
              ca.0
              ∙ sealed-rebuild e e (last_hash a)
              ∙ ap₂ (rebuild e) q.0 fields
              ∙ sym (sealed-rebuild e f (last_hash b))
              ∙ sym cb.0 in
            elim (earlier q.0) [
              | inl r ↦ inl (ap₂ (λ x xs. x ∷ xs) event r)
              | inr r ↦ inr (there r)
            ]

-- ===== src/OperatorCa/Revocations/Denylist.antt =====
-- The denylist: what the engine enforces is what the store lists, and a denied serial is refused.
use manager.Prelude.{
  ℕ, ◌≡◌, refl, ap, ◌∙◌, inl, inr, Bool, true, false, ◌&&◌, ◌||◌, Option, none, some, List, [], ◌∷◌,
  String, ◌==◌, nat_eq, string_eq, bytes_eq, eq_iff, list_beq_iff, Result, ok, err, Map, lookup,
  lookup-insert, member, member-add, add, arith, Bool-cases, Result-cases,
}
use manager.OperatorCa.Base.{Certificate, Error, reject_cert, revoked}
use manager.OperatorCa.Serial.{Text, serial_key, format_serial, normalize_serial}
use manager.OperatorCa.Serial.Forms.{normalize_serial-format_serial}
use manager.OperatorCa.Serial.Keys.{normalize_serial-serial_key}
use manager.OperatorCa.Crl.{Decoders}
use manager.OperatorCa.Ocsp.{Answer}
use manager.OperatorCa.Trust.{DenylistEntry, OperatorTrust, lists, KeepsEntries}
use manager.OperatorCa.Revocations.{
  AnchorState, Revocations, in_set, revoked_locked, is_revoked, check_web, check_mcp,
}
use manager.OperatorCa.Revocations.Web.{is_revoked_refused}
use manager.OperatorCa.Revocations.Engine.{
  set_of, deny_serial, denylist_of, use_denylist, reload_denylist, normal_entry, after_add, deny,
}

-- Whether an entry names the serial in any form.
pub names : String → Text → List DenylistEntry → Bool
names sha serial [] = false
names sha serial (e ∷ es) =
    (e.issuer_sha256 == sha && normalize_serial e.serial_hex == serial) || names sha serial es

in_set-set_of : (o : Option (List Text)) (s : Text) → in_set o s ≡ member (set_of o) s
unfolding in_set set_of member
in_set-set_of none s = refl
in_set-set_of (some set) s = refl

in_set-deny_serial :
    (sha j : String) (serial s : Text) (next : Map String (List Text))
    → in_set (lookup j (deny_serial sha serial next)) s
      ≡ ((sha == j && serial == s) || in_set (lookup j next) s)
unfolding deny_serial set_of
in_set-deny_serial sha j serial s next =
    rw (lookup-insert sha j (add serial (set_of (lookup sha next))) next)
      (elim (Bool-cases (sha == j)) [
        | inl q ↦
            let same : sha ≡ j = (eq_iff sha j).0 q in
            rw q (
              in_set-set_of (some (add serial (set_of (lookup sha next)))) s
              ∙ member-add serial s (set_of (lookup sha next))
              ∙ rw (in_set-set_of (lookup j next) s, same) refl)
        | inr q ↦ rw q refl
      ])

in_set-denylist_of :
    (es : List DenylistEntry) (next : Map String (List Text)) (sha : String) (s : Text)
    → in_set (lookup sha (denylist_of es next)) s ≡ (names sha s es || in_set (lookup sha next) s)
unfolding denylist_of names
in_set-denylist_of [] next sha s = refl
in_set-denylist_of (e ∷ es) next sha s =
    in_set-denylist_of es (deny_serial e.issuer_sha256 (normalize_serial e.serial_hex) next) sha s
    ∙ rw (in_set-deny_serial e.issuer_sha256 sha (normalize_serial e.serial_hex) s next) (
        swap (names sha s es) (e.issuer_sha256 == sha && normalize_serial e.serial_hex == s)
          (in_set (lookup sha next) s))
  where
    swap : (a b c : Bool) → (a || (b || c)) ≡ ((b || a) || c)
    swap a b c = ground arith

lists-names :
    (sha : String) (n : ℕ) (es : List DenylistEntry)
    → lists sha (serial_key n) es ≡ true
    → names sha (serial_key n) es ≡ true
unfolding lists names
lists-names sha n [] h = h
lists-names sha n (e ∷ es) h = ground (
  arith,
  lists-names sha n es,
  list_beq_iff e.serial_hex (serial_key n),
  list_beq_iff (normalize_serial e.serial_hex) (serial_key n),
  ap normalize_serial {x = e.serial_hex} {y = serial_key n},
  normalize_serial-serial_key n,
)

module _ {S : Type 0} (t : OperatorTrust S) (d : Decoders) where
  -- After a successful reload of the denylist, the engine's denylist holds a key under an operator
  -- CA exactly if the store lists an entry of that CA whose serial, in whatever form, normalises
  -- to the key.
  pub reload_denylist_exact :
      (s : S) (r r' : Revocations) (es : List DenylistEntry)
      → t.operator_denylist s ≡ ok es
      → reload_denylist t d s r ≡ (r', ok tt)
      → (sha : String) (key : Text) → in_set (lookup sha r'.denylist) key ≡ names sha key es
  unfolding reload_denylist use_denylist
  reload_denylist_exact s r r' es read h sha key =
      let done : use_denylist es r ≡ r' =
        ap (λ (p : Revocations × Result Error (Unit {0})). p.0) (rw (read, reload_denylist) at h) in
      rw (← done) (in_set-denylist_of es [] sha key ∙ none_more (names sha key es))
    where
      none_more : (b : Bool) → (b || in_set (lookup sha []) key) ≡ b
      none_more true = refl
      none_more false = unfold lookup in_set in refl

  -- A successful `deny` read the denylist back after it added the entry.
  deny_steps :
      (now : ℕ) (e : DenylistEntry) (s s' : S) (r r' : Revocations)
      → deny t d now e s r ≡ (s', r', ok tt)
      → (added : Bool) × (es : List DenylistEntry) × ((t.add_operator_denylist_entry
            (normal_entry t d now e)
            s).1
          ≡ ok added)
        × (t.operator_denylist (t.add_operator_denylist_entry (normal_entry t d now e) s).0 ≡ ok es)
        × (reload_denylist t d (t.add_operator_denylist_entry (normal_entry t d now e) s).0 r
            ≡ (r', ok tt))
  unfolding deny
  deny_steps now e s s' r r' h = go (t.add_operator_denylist_entry (normal_entry t d now e) s) h
    where
      go :
          (p : S × Result Error Bool)
          → after_add t d r p ≡ (s', r', ok tt)
          → (added : Bool) × (es : List DenylistEntry) × (p.1 ≡ ok added)
            × (t.operator_denylist p.0 ≡ ok es)
            × (reload_denylist t d p.0 r ≡ (r', ok tt))
      go (s₁, err x) h = unfold after_add in cc
      go (s₁, ok b) h = elim (Result-cases (t.operator_denylist s₁)) [
        | inl (es, q) ↦ (b, es, refl, q, unfold after_add in ground arith)
        | inr (x, q) ↦ unfold after_add reload_denylist in absurd (ground arith)
      ]

  -- Once `deny` succeeds, on a store that keeps the entries it takes, for a serial in the form
  -- that identities show and an operator CA that the engine trusts, this replica refuses the
  -- certificate at once, on the web path and to MCP keys, at any time, under any policy and
  -- whatever OCSP would answer.
  pub deny_enforced :
      KeepsEntries t
      → (now : ℕ) (e : DenylistEntry) (s s' : S) (r r' : Revocations) (n : ℕ)
      → e.serial_hex ≡ format_serial n
      → deny t d now e s r ≡ (s', r', ok tt)
      → (at later : ℕ) (answer : Answer) (leaf : Option Certificate) (st : AnchorState)
      → lookup e.issuer_sha256 r'.anchors ≡ some st
      → (check_web at later answer e.issuer_sha256 n leaf r' ≡ (r', err (reject_cert revoked)))
        × (check_mcp at later answer e.issuer_sha256 n leaf r' ≡ (r', err (reject_cert revoked)))
  unfolding is_revoked revoked_locked
  deny_enforced keeps now e s s' r r' n form h at later answer leaf st known =
      let (added, es, stored, read, reloaded) = deny_steps now e s s' r r' h in
      let listed = keeps.entry_read (normal_entry t d now e) s added es stored read in
      let normal = ap normalize_serial form ∙ normalize_serial-format_serial n in
      let named : names e.issuer_sha256 (serial_key n) es ≡ true =
        lists-names e.issuer_sha256 n es (rw (← normal) (unfold normal_entry in listed)) in
      let held : in_set (lookup e.issuer_sha256 r'.denylist) (serial_key n) ≡ true =
        reload_denylist_exact (t.add_operator_denylist_entry (normal_entry t d now e) s).0 r r' es
          read reloaded e.issuer_sha256 (serial_key n)
        ∙ named in
      is_revoked_refused at later answer e.issuer_sha256 n leaf r' st known
        (rw (normalize_serial-format_serial n, held) refl)

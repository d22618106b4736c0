-- ===== src/OperatorCa/Crl/Verified.antt =====
-- Which CRLs `verify_crl` accepts, and what it reads from them.
use manager.Prelude.{
  ℕ, ◌+◌, ◌≤◌, ◌≡◌, ◌≢◌, refl, ◌∙◌, subst, ok_eq, ◌⊎◌, inl, inr, Bool, true, false, not, ◌||◌,
  Option, none, some, List, [], ◌∷◌, String, ltb, ◌==◌, nat_eq, string_eq, bytes_eq, list_beq_iff,
  eq_iff, ok, refuse_if-ok, >>=-ok, length, add, member, member-add, All, arith,
}
use manager.OperatorCa.Base.{Bytes, Certificate}
use manager.OperatorCa.Serial.{Text, serial_key}
use manager.OperatorCa.Crl.{
  max_crl_size, max_clock_skew, key_ids_differ, Entry, RevocationList, Decoders, VerifiedCrl,
  der_of, check_entry_extensions, collect, parsed, check_list, verify_crl, invalid,
}
use manager.OperatorCa.Crl.Acceptable.{
  IsSupported, IsEntrySupported, IsAcceptable, check_extensions_iff, check_entry_extensions_iff,
}

-- Whether some entry lists the serial whose key is `s`.
pub listed : Text → List Entry → Bool
listed s [] = false
listed s (e ∷ es) = serial_key e.serial_number == s || listed s es

Or-comm : (a b c : Bool) → ((a || b) || c) ≡ (b || (a || c))
Or-comm a b c = ground arith

collect_sound :
    (es : List Entry) (acc out : List Text)
    → collect es acc ≡ ok out
    → All (λ (e : Entry). All IsEntrySupported e.extensions) es
      × ((s : Text) → member out s ≡ (listed s es || member acc s))
unfolding collect listed
collect_sound [] acc out h = (tt, λ s. ground arith)
collect_sound (e ∷ es) acc out h =
    let (u, first, rest) =
      >>=-ok (check_entry_extensions e.extensions)
        (λ _. collect es (add (serial_key e.serial_number) acc)) h in
    let (a, c) = collect_sound es (add (serial_key e.serial_number) acc) out rest in
    (
      ((check_entry_extensions_iff e.extensions).0 first, a),
      λ s. ground (arith, c s, member-add (serial_key e.serial_number) s acc),
    )

collect_complete :
    (es : List Entry) (acc : List Text)
    → All (λ (e : Entry). All IsEntrySupported e.extensions) es
    → (out : List Text) × (collect es acc ≡ ok out)
unfolding collect
collect_complete [] acc a = (acc, refl)
collect_complete (e ∷ es) acc a =
    let (out, eq) = collect_complete es (add (serial_key e.serial_number) acc) a.1 in
    (out, rw ((check_entry_extensions_iff e.extensions).1 a.0) eq)

der_of_sound :
    (b der : Bytes) (o : Option (String × Bytes))
    → der_of b o ≡ ok der
    → ((o ≡ none) × (der ≡ b)) ⊎ (o ≡ some ("X509 CRL", der))
unfolding der_of
der_of_sound b der none h = inl (refl, ground arith)
der_of_sound b der (some (t, bytes)) h = inr (ground (arith, eq_iff t "X509 CRL"))

der_of_complete :
    (b der : Bytes) (o : Option (String × Bytes))
    → ((o ≡ none) × (der ≡ b)) ⊎ (o ≡ some ("X509 CRL", der))
    → der_of b o ≡ ok der
unfolding der_of
der_of_complete b der none h = ground arith
der_of_complete b der (some (t, bytes)) h = ground (arith, eq_iff t "X509 CRL")

parsed_sound : (o : Option RevocationList) (l : RevocationList) → parsed o ≡ ok l → o ≡ some l
unfolding parsed
parsed_sound none l h = cc
parsed_sound (some m) l h = ground arith

length_nil : (xs : Bytes) → ltb 0 (length xs) ≡ false → xs ≡ []
length_nil [] h = refl
length_nil (x ∷ xs) h = ground arith

check_list_sound :
    (d : Decoders) (l : RevocationList) (anchor : Certificate) (now : ℕ)
    → check_list d l anchor now ≡ ok tt
    → (d.signed_by l anchor ≡ true)
      × (l.raw_issuer ≡ anchor.raw_subject)
      × ((l.authority_key_id ≡ [])
          ⊎ ((anchor.subject_key_id ≡ []) ⊎ (l.authority_key_id ≡ anchor.subject_key_id)))
      × (l.next_update ≢ 0)
      × (l.this_update ≤ now + max_clock_skew)
      × All (IsSupported d) l.extensions
unfolding check_list
check_list_sound d l anchor now h =
    let (s, h₁) = refuse_if-ok (not (d.signed_by l anchor)) invalid _ h in
    let (i, h₂) = refuse_if-ok (not (l.raw_issuer == anchor.raw_subject)) invalid _ h₁ in
    let (k, h₃) =
      refuse_if-ok (key_ids_differ l.authority_key_id anchor.subject_key_id) invalid _ h₂ in
    let (n, h₄) = refuse_if-ok (l.next_update == 0) invalid _ h₃ in
    let (t, h₅) = refuse_if-ok (ltb (now + max_clock_skew) l.this_update) invalid _ h₄ in
    (
      ground (arith, s),
      ground (arith, i, list_beq_iff l.raw_issuer anchor.raw_subject),
      ground (
        arith,
        k,
        length_nil l.authority_key_id,
        length_nil anchor.subject_key_id,
        list_beq_iff l.authority_key_id anchor.subject_key_id,
      ),
      ground (arith, n),
      ground (arith, t),
      (check_extensions_iff d l.extensions).0 h₅,
    )

check_list_complete :
    (d : Decoders) (b der : Bytes) (l : RevocationList) (anchor : Certificate) (now : ℕ)
    → IsAcceptable d b anchor now der l
    → check_list d l anchor now ≡ ok tt
unfolding check_list
check_list_complete d b der l anchor now a =
    rw (a.signed, (list_beq_iff l.raw_issuer anchor.raw_subject).1 a.issued, same_keys, dated, past)
      ((check_extensions_iff d l.extensions).1 a.extensions)
  where
    same_keys : key_ids_differ l.authority_key_id anchor.subject_key_id ≡ false
    same_keys = ground (arith, a.key_id, list_beq_iff l.authority_key_id anchor.subject_key_id)

    dated : (l.next_update == 0) ≡ false
    dated = ground (arith, a.has_next_update)

    past : ltb (now + max_clock_skew) l.this_update ≡ false
    past = ground (arith, a.not_ahead)

-- A CRL is accepted only if it is acceptable, in size, encoding, signature, issuer, key id, dates,
-- extensions and entries, and then its revoked serials are exactly the keys of those it lists.
pub verify_crl_sound :
    (d : Decoders) (b : Bytes) (anchor : Certificate) (now : ℕ) (v : VerifiedCrl)
    → verify_crl d b anchor now ≡ ok v
    → IsAcceptable d b anchor now v.der v.list
      × ((s : Text) → member v.revoked_serials s ≡ listed s v.list.entries)
unfolding verify_crl member
verify_crl_sound d b anchor now v h =
    let (size, h₁) = refuse_if-ok (ltb max_crl_size (length b)) invalid _ h in
    let (der, encoded, h₂) = >>=-ok (der_of b (d.pem_decode b)) _ h₁ in
    let (list, parses, h₃) = >>=-ok (parsed (d.parse_list der)) _ h₂ in
    let (u, checked, h₄) = >>=-ok (check_list d list anchor now) _ h₃ in
    let (revoked, collected, h₅) = >>=-ok (collect list.entries []) _ h₄ in
    let (signed, issued, key_id, dated, past, extensions) =
      check_list_sound d list anchor now checked in
    let (entries, exact) = collect_sound list.entries [] revoked collected in
    let value : record { list = list; der = der; number = list.number; revoked_serials = revoked }
        ≡ v =
      ok_eq h₅ in
    subst
      (λ (w : VerifiedCrl).
        IsAcceptable d b anchor now w.der w.list
        × ((s : Text) → member w.revoked_serials s ≡ listed s w.list.entries))
      value
      (
        record {
          sized = ground (arith, size);
          encoded = der_of_sound b der (d.pem_decode b) encoded;
          parses = parsed_sound (d.parse_list der) list parses;
          signed = signed;
          issued = issued;
          key_id = key_id;
          has_next_update = dated;
          not_ahead = past;
          extensions = extensions;
          entries = entries;
        },
        λ s. exact s ∙ none_more (listed s list.entries),
      )
  where
    none_more : (b : Bool) → (b || false) ≡ b
    none_more true = refl
    none_more false = refl

-- Every acceptable CRL is accepted, with the list, the bytes and the number that it decodes to.
pub verify_crl_complete :
    (d : Decoders) (b : Bytes) (anchor : Certificate) (now : ℕ) (der : Bytes)
    (list : RevocationList)
    → IsAcceptable d b anchor now der list
    → (v : VerifiedCrl) × (verify_crl d b anchor now ≡ ok v)
      × (v.list ≡ list)
      × (v.der ≡ der)
      × (v.number ≡ list.number)
unfolding verify_crl parsed
verify_crl_complete d b anchor now der list a =
    let (revoked, collected) = collect_complete list.entries [] a.entries in
    (
      record { list = list; der = der; number = list.number; revoked_serials = revoked },
      rw
          (
            sized,
            der_of_complete b der (d.pem_decode b) a.encoded,
            a.parses,
            check_list_complete d b der list anchor now a,
            collected,
          )
          refl,
      refl,
      refl,
      refl,
    )
  where
    sized : ltb max_crl_size (length b) ≡ false
    sized = ground (arith, a.sized)

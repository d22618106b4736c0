-- ===== src/OperatorCa/Crl/Acceptable.antt =====
-- Which CRLs are acceptable, and that the checks of extensions decide it.
use manager.Prelude.{
  ℕ, ◌+◌, ◌≤◌, ◌≡◌, ◌≢◌, refl, ◌⊎◌, inl, inr, ◌↔◌, true, false, not, ◌&&◌, Option, none, some, List,
  [], ◌∷◌, ◌==◌, nat_eq, string_eq, bytes_eq, list_beq_iff, ok, refuse_if-ok, >>=-ok, length, All,
  arith, Bool-cases,
}
use manager.OperatorCa.Base.{Bytes, Extension, Certificate}
use manager.OperatorCa.Crl.{
  max_crl_size, max_clock_skew, oid_authority_key_id, oid_crl_number, oid_delta_crl, oid_idp,
  oid_reason_code, oid_invalidity_date, oid_cert_issuer, Idp, Entry, RevocationList, Decoders,
  check_idp, check_extension, check_extensions, check_entry_extensions, invalid,
}

-- An issuing distribution point for end-entity certificates and every reason.
pub record IsDirect (idp : Idp) : Type 0 where
  pub direct : idp.indirect_crl ≡ false
  pub not_cas : idp.only_ca_certs ≡ false
  pub not_attributes : idp.only_attribute_certs ≡ false
  pub all_reasons : idp.some_reasons_bits ≡ 0

-- An extension of the CRL that the manager supports.
pub record IsSupported (d : Decoders) (ext : Extension) : Type 0 where
  pub complete : ext.oid ≢ oid_delta_crl
  pub scope :
      ext.oid ≡ oid_idp → (idp : Idp) × (d.unmarshal_idp ext.value ≡ some (idp, [])) × IsDirect idp
  pub known :
      ext.critical ≡ true
      → (ext.oid ≡ oid_idp) ⊎ ((ext.oid ≡ oid_authority_key_id) ⊎ (ext.oid ≡ oid_crl_number))

-- An extension of an entry that the manager supports.
pub record IsEntrySupported (ext : Extension) : Type 0 where
  pub same_issuer : ext.oid ≢ oid_cert_issuer
  pub known : ext.critical ≡ true → (ext.oid ≡ oid_reason_code) ⊎ (ext.oid ≡ oid_invalidity_date)

pub record IsAcceptable (d : Decoders) (b : Bytes) (anchor : Certificate) (now : ℕ) (der : Bytes)
    (list : RevocationList) : Type 0 where
  pub sized : length b ≤ max_crl_size
  pub encoded : ((d.pem_decode b ≡ none) × (der ≡ b)) ⊎ (d.pem_decode b ≡ some ("X509 CRL", der))
  pub parses : d.parse_list der ≡ some list
  pub signed : d.signed_by list anchor ≡ true
  pub issued : list.raw_issuer ≡ anchor.raw_subject
  pub key_id :
      (list.authority_key_id ≡ [])
      ⊎ ((anchor.subject_key_id ≡ []) ⊎ (list.authority_key_id ≡ anchor.subject_key_id))
  pub has_next_update : list.next_update ≢ 0
  pub not_ahead : list.this_update ≤ now + max_clock_skew
  pub extensions : All (IsSupported d) list.extensions
  pub entries : All (λ (e : Entry). All IsEntrySupported e.extensions) list.entries

check_idp_lem :
    (o : Option (Idp × Bytes))
    → check_idp o ≡ ok tt
    → (idp : Idp) × (o ≡ some (idp, [])) × IsDirect idp
unfolding check_idp
check_idp_lem none h = cc
check_idp_lem (some (idp, [])) h = (idp, refl, ground arith)
check_idp_lem (some (idp, x ∷ r)) h = ground arith

check_idp_direct : (idp : Idp) → IsDirect idp → check_idp (some (idp, [])) ≡ ok tt
unfolding check_idp
check_idp_direct idp i = ground arith

check_extension_sound :
    (d : Decoders) (ext : Extension) → check_extension d ext ≡ ok tt → IsSupported d ext
unfolding check_extension
check_extension_sound d ext h = record {
  complete = λ e. ground (arith, list_beq_iff ext.oid oid_delta_crl);
  scope = λ e.
      check_idp_lem (d.unmarshal_idp ext.value)
        (ground (arith, list_beq_iff ext.oid oid_delta_crl, list_beq_iff ext.oid oid_idp));
  known = λ c. ground (
    arith,
    list_beq_iff ext.oid oid_idp,
    list_beq_iff ext.oid oid_authority_key_id,
    list_beq_iff ext.oid oid_crl_number,
  );
}

check_extension_complete :
    (d : Decoders) (ext : Extension) → IsSupported d ext → check_extension d ext ≡ ok tt
unfolding check_extension
check_extension_complete d ext s = elim (Bool-cases (ext.oid == oid_idp)) [
  | inl e ↦
      let (idp, decoded, direct) = s.scope ((list_beq_iff ext.oid oid_idp).0 e) in
      ground (
        arith,
        e,
        s.complete,
        decoded,
        check_idp_direct idp direct,
        list_beq_iff ext.oid oid_delta_crl,
      )
  | inr e ↦ ground (
    arith,
    e,
    s.complete,
    s.known,
    list_beq_iff ext.oid oid_delta_crl,
    list_beq_iff ext.oid oid_idp,
    list_beq_iff ext.oid oid_authority_key_id,
    list_beq_iff ext.oid oid_crl_number,
  )
]

pub check_extensions_iff :
    (d : Decoders) (exts : List Extension)
    → (check_extensions d exts ≡ ok tt) ↔ All (IsSupported d) exts
unfolding check_extensions
check_extensions_iff d [] = (λ h. tt, λ h. refl)
check_extensions_iff d (ext ∷ exts) = (
  λ h.
      let (u, first, rest) = >>=-ok (check_extension d ext) (λ _. check_extensions d exts) h in
      (check_extension_sound d ext first, (check_extensions_iff d exts).0 rest),
  λ a. rw (check_extension_complete d ext a.0) ((check_extensions_iff d exts).1 a.1),
)

entry_extension_iff :
    (ext : Extension)
    → ((ext.oid == oid_cert_issuer ≡ false)
        × ((ext.critical
              && not (ext.oid == oid_reason_code)
              && not (ext.oid == oid_invalidity_date))
            ≡ false))
      ↔ IsEntrySupported ext
entry_extension_iff ext = (
  λ h. record {
    same_issuer = λ e. ground (arith, h.0, list_beq_iff ext.oid oid_cert_issuer);
    known = λ c. ground (
      arith,
      h.1,
      list_beq_iff ext.oid oid_reason_code,
      list_beq_iff ext.oid oid_invalidity_date,
    );
  },
  λ s. (
    ground (arith, s.same_issuer, list_beq_iff ext.oid oid_cert_issuer),
    ground (
      arith,
      s.known,
      list_beq_iff ext.oid oid_reason_code,
      list_beq_iff ext.oid oid_invalidity_date,
    ),
  ),
)

pub check_entry_extensions_iff :
    (exts : List Extension) → (check_entry_extensions exts ≡ ok tt) ↔ All IsEntrySupported exts
unfolding check_entry_extensions
check_entry_extensions_iff [] = (λ h. tt, λ h. refl)
check_entry_extensions_iff (ext ∷ exts) = (
  λ h.
      let (a, h') = refuse_if-ok (ext.oid == oid_cert_issuer) invalid _ h in
      let (b, h'') = refuse_if-ok _ invalid _ h' in
      ((entry_extension_iff ext).0 (a, b), (check_entry_extensions_iff exts).0 h''),
  λ a.
      let (p, q) = (entry_extension_iff ext).1 a.0 in
      rw (p, q) ((check_entry_extensions_iff exts).1 a.1),
)

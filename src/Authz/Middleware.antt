-- ===== src/Authz/Middleware.antt =====
-- clientCert of internal/authz/middleware.go: which requests reach the handlers, and as whom. The
-- PeerAuthorizer, where there is one, is a parameter.
use manager.Prelude.{
  ◌≡◌, ◌↔◌, refl, sym, ap, ◌∙◌, ℕ, Option, none, some, List, [], ◌∷◌, String, Result, ok, err,
  Result-cases, inl, inr,
}
use manager.OperatorCa.Base.{Bytes, Certificate}
use manager.OperatorCa.Base as Base
use manager.OperatorCa.Serial.{format_serial}
use manager.Authz.{Identity, Level, level_from_certificate, identity_at, identity_from_certificate}

-- What the middleware answers: an HTTP status, or the handler's turn under an identity. The status
-- 401 also closes the connection.
pub data Outcome : Type 0 where
  refused : ℕ → Outcome
  served : Identity → Outcome

abbrev pub Authorizer : Type 0
Authorizer = Certificate → List Certificate → Result Base.Error String

unfoldable pub authorized : Identity → Result Base.Error String → Outcome
authorized id (err e) = refused 403
authorized id (ok issuer) = served (record id { issuer_sha256 = issuer; via = "web" })

unfoldable pub authorize : Option Authorizer → Certificate → List Certificate → Identity → Outcome
authorize none cert rest id = served (record id { via = "web" })
authorize (some auth) cert rest id = authorized id (auth cert rest)

-- clientCert, on the peer certificates of the connection
unfoldable pub client_cert :
    (Bytes → Option String) → Option Authorizer → List Certificate → Outcome
client_cert unmarshal auth [] = refused 401
client_cert unmarshal auth (cert ∷ rest) = elim (identity_from_certificate unmarshal cert) [
  | err e ↦ refused 403
  | ok id ↦ authorize auth cert rest id
]

-- What the connection shows of the caller that a handler is run for.
pub record Admitted (unmarshal : Bytes → Option String) (auth : Authorizer)
    (peers : List Certificate) (who : Identity) : Type 0 where
  pub cert : Certificate
  pub rest : List Certificate
  pub is_peer : peers ≡ (cert ∷ rest)
  pub is_accepted : auth cert rest ≡ ok who.issuer_sha256
  pub is_level : level_from_certificate unmarshal cert ≡ ok who.level
  pub is_cn : who.cn ≡ cert.common_name
  pub is_serial : who.serial ≡ format_serial cert.serial_number
  pub is_web : who.via ≡ "web"
  pub is_no_key : who.key_id ≡ ""

-- The identity of a certificate.
abbrev plain : Certificate → Level → Identity
plain cert level = record {
  cn = cert.common_name;
  serial = format_serial cert.serial_number;
  level = level;
  via = "";
  key_id = "";
  issuer_sha256 = "";
}

-- The identity that the middleware hands on.
abbrev seen : Certificate → Level → String → Identity
seen cert level issuer = record (plain cert level) { issuer_sha256 = issuer; via = "web" }

client_cert-seen :
    (unmarshal : Bytes → Option String) (auth : Authorizer) (cert : Certificate)
    (rest : List Certificate) (level : Level) (issuer : String)
    → level_from_certificate unmarshal cert ≡ ok level
    → auth cert rest ≡ ok issuer
    → client_cert unmarshal (some auth) (cert ∷ rest) ≡ served (seen cert level issuer)
unfolding client_cert identity_from_certificate identity_at authorize authorized
client_cert-seen unmarshal auth cert rest level issuer l a =
    rw (ap (identity_at cert) l, client_cert) (ap (authorized (plain cert level)) a)

client_cert-Admitted :
    (unmarshal : Bytes → Option String) (auth : Authorizer) (peers : List Certificate)
    (who : Identity)
    → client_cert unmarshal (some auth) peers ≡ served who
    → Admitted unmarshal auth peers who
unfolding client_cert identity_from_certificate identity_at authorize authorized
client_cert-Admitted unmarshal auth [] who h = absurd (cc)
client_cert-Admitted unmarshal auth (cert ∷ rest) who h =
    elim (Result-cases (level_from_certificate unmarshal cert)) [
      | inr (e, q) ↦ absurd (let k = rw (ap (identity_at cert) q, client_cert) at h in cc)
      | inl (level, q) ↦ elim (Result-cases (auth cert rest)) [
        | inr (e, a) ↦ absurd (let k = rw (ap (identity_at cert) q, client_cert, a) at h in cc)
        | inl (issuer, a) ↦
            let k = sym (client_cert-seen unmarshal auth cert rest level issuer q a) ∙ h in
            let same : seen cert level issuer ≡ who = cc in
            record {
              cert = cert;
              rest = rest;
              is_peer = refl;
              is_accepted = a ∙ ap (λ (w : Identity). ok w.issuer_sha256) same;
              is_level = q ∙ ap (λ (w : Identity). ok w.level) same;
              is_cn = ap (λ (w : Identity). w.cn) (sym same);
              is_serial = ap (λ (w : Identity). w.serial) (sym same);
              is_web = ap (λ (w : Identity). w.via) (sym same);
              is_no_key = ap (λ (w : Identity). w.key_id) (sym same);
            }
      ]
    ]

Admitted-client_cert :
    (unmarshal : Bytes → Option String) (auth : Authorizer) (peers : List Certificate)
    (who : Identity)
    → Admitted unmarshal auth peers who
    → client_cert unmarshal (some auth) peers ≡ served who
Admitted-client_cert unmarshal auth peers who a =
    let made : seen a.cert who.level who.issuer_sha256 ≡ who =
      rw (← a.is_cn, ← a.is_serial, ← a.is_web, ← a.is_no_key) refl in
    ap (client_cert unmarshal (some auth)) a.is_peer
    ∙ client_cert-seen unmarshal auth a.cert a.rest who.level who.issuer_sha256 a.is_level
        a.is_accepted
    ∙ ap served made

-- Where the middleware has a PeerAuthorizer, a handler runs under an identity exactly when the connection
-- has a certificate that the authorizer accepts and that carries an access level, and the identity has
-- that certificate's common name, serial and level, the operator CA that the authorizer named, the web
-- as its way in, and no key.
pub client_cert_iff :
    (unmarshal : Bytes → Option String) (auth : Authorizer) (peers : List Certificate)
    (who : Identity)
    → (client_cert unmarshal (some auth) peers ≡ served who) ↔ Admitted unmarshal auth peers who
client_cert_iff unmarshal auth peers who =
    (client_cert-Admitted unmarshal auth peers who, Admitted-client_cert unmarshal auth peers who)

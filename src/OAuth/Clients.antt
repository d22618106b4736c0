-- ===== src/OAuth/Clients.antt =====
-- A registration needs no storage: the client id that it answers is read back as the client.
use Prim.Native.String.{String, ◌++◌, len, slice}
use text.Mathlib.TextPositions.{slice-append_middle, starts_with-append, len-append}
use text.Mathlib.TextLemmas.{append-nil}
use manager.Prelude.{
  ◌≤◌, ◌<◌, ◌⊎◌, ◌≡◌, refl, sym, ap, subst, ◌∙◌, take, take-all, utf8, inl, inr, false, ◌||◌, some,
  ltb, ◌==◌, nat_eq, string_eq, all, length, Bool-cases, arith,
}
use manager.OperatorCa.Base.{Bytes}
use manager.OAuth.{
  Client, Registered, Server, registered, max_client_name, client_id_prefix, max_redirect_uris,
  is_loopback, encode_client_id, checked_client, unmarshal_client, decode_client_id, truncated,
  register,
}

slice-prefix : (s t : String) → slice (s ++ t) (len s) (len (s ++ t)) ≡ t
slice-prefix s t =
    ap (λ u. slice (s ++ u) (len s) (len (s ++ t))) (sym (append-nil t))
    ∙ ap (λ k. slice (s ++ (t ++ "")) (len s) k) (len-append s t)
    ∙ slice-append_middle s t ""

module _ {U : Type 0} (server : Server U) where
  -- What JSON reads of a client that it wrote, when `text` is what it makes of the bytes of a string.
  abbrev pub read_back : (Bytes → String) → Registered → Client
  read_back text c = record { name = text c.name; redirect_uris = c.redirect_uris }

  encoded :
      (text : Bytes → String) (c : Registered)
      → server.decode (server.codecs.encode (server.marshal c)) ≡ some (server.marshal c)
      → server.unmarshal (server.marshal c) ≡ some (read_back text c)
      → decode_client_id server (encode_client_id server c)
        ≡ checked_client server (read_back text c)
  unfolding decode_client_id encode_client_id unmarshal_client
  encoded text c base json =
      rw
        (
          starts_with-append client_id_prefix (server.codecs.encode (server.marshal c)),
          slice-prefix client_id_prefix (server.codecs.encode (server.marshal c)),
          base,
          unmarshal_client,
          json,
        )
        refl

  truncated-take : (name : Bytes) → truncated server name ≡ take max_client_name name
  unfolding truncated
  truncated-take name = elim (Bool-cases (ltb max_client_name (length name))) [
    | inl e ↦ rw e refl
    | inr e ↦ rw e (sym (take-all max_client_name name (ground arith)))
  ]

  register-checked :
      (text : Bytes → String) (meta : Client) (c : Registered) (id : String)
      → register server (some meta) ≡ registered id c
      → (id ≡ encode_client_id server c)
        × (c.name ≡ take max_client_name (utf8 meta.name))
        × (c.redirect_uris ≡ meta.redirect_uris)
        × (checked_client server (read_back text c) ≡ some (read_back text c))
        × (length c.redirect_uris ≤ max_redirect_uris)
  unfolding register checked_client
  register-checked text meta c id h =
      let count = length meta.redirect_uris in
      let made : Registered = record {
        name = truncated server (utf8 meta.name);
        redirect_uris = meta.redirect_uris;
      } in
      elim (Bool-cases (count == 0 || ltb max_redirect_uris count)) [
        | inl b ↦ absurd (let k = rw b at h in cc)
        | inr b ↦ elim (Bool-cases (all (is_loopback server) meta.redirect_uris)) [
          | inr a ↦ absurd (let k = rw (b, a) at h in cc)
          | inl a ↦
              let k = rw (b, a) at h in
              let id_eq : encode_client_id server made ≡ id = cc in
              let same : made ≡ c = cc in
              let some_uri : (count == 0) ≡ false = ground arith in
              rw (← same) (
                sym id_eq,
                truncated-take (utf8 meta.name),
                refl,
                rw (some_uri, a) refl,
                ground arith,
              )
        ]
      ]

  -- Where base64 reads back the client that it wrote, JSON reads back the redirect URIs and, as the text of its
  -- bytes, the name, and the whole name that was sent is the text of its bytes: the client id that a registration answers is decoded, by any replica, to a client with
  -- the redirect URIs that were sent, at most ten of them, and the text of the first 200 bytes of the name
  -- that was sent, which is that name unless it was longer.
  pub register-decode_client_id :
      (text : Bytes → String) (meta : Client) (c : Registered) (id : String)
      → text (utf8 meta.name) ≡ meta.name
      → server.decode (server.codecs.encode (server.marshal c)) ≡ some (server.marshal c)
      → server.unmarshal (server.marshal c) ≡ some (read_back text c)
      → register server (some meta) ≡ registered id c
      → (decode_client_id server id
          ≡ some (record {
            name = text (take max_client_name (utf8 meta.name));
            redirect_uris = meta.redirect_uris;
          }))
        × (length meta.redirect_uris ≤ max_redirect_uris)
        × ((max_client_name < length (utf8 meta.name))
            ⊎ (text (take max_client_name (utf8 meta.name)) ≡ meta.name))
  register-decode_client_id text meta c id reads base json h =
      let (same, name, uris, checked, few) = register-checked text meta c id h in
      let made : read_back text c ≡ record {
        name = text (take max_client_name (utf8 meta.name));
        redirect_uris = meta.redirect_uris;
      } =
        rw (name, uris) refl in
      (
        rw same (encoded text c base json ∙ checked ∙ ap some made),
        subst (λ u. length u ≤ max_redirect_uris) uris few,
        elim (Bool-cases (ltb max_client_name (length (utf8 meta.name)))) [
          | inl long ↦ inl (ground arith)
          | inr short ↦
              inr (ap text (take-all max_client_name (utf8 meta.name) (ground arith)) ∙ reads)
        ],
      )

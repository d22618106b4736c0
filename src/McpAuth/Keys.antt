-- ===== src/McpAuth/Keys.antt =====
-- What happens to a key stays true: a revoked key is refused for good, and refusals are logged.
use Prim.Native.String.{String}
use manager.Prelude.{
  ℕ, ◌≡◌, ◌≢◌, refl, sym, ap, ◌∙◌, true, false, some, List, [], ◌∷◌, nat_eq, string_eq, ◌==◌,
  eq_iff, err, Map, lookup, insert, lookup-insert, lookup-insert_self, subst, arith, Bool-cases,
  inl, inr, Option-cases,
}
use manager.McpAuth.{McpKey, key_revoked, Config, revoke_mcp_key, touch_mcp_key, validate}

-- What handlers do to the stored keys.
pub data KeyOp : Type 0 where
  revokes : String → ℕ → KeyOp
  touches : String → ℕ → KeyOp

unfoldable pub key_step : KeyOp → Map String McpKey → Map String McpKey
key_step (revokes id at) keys = (revoke_mcp_key id at keys).0
key_step (touches id at) keys = (touch_mcp_key id at keys).0

unfoldable pub key_run : List KeyOp → Map String McpKey → Map String McpKey
key_run [] keys = keys
key_run (op ∷ ops) keys = key_run ops (key_step op keys)

-- The key is stored and was revoked at the time `at`.
abbrev pub RevokedAt : String → ℕ → Map String McpKey → Type 0
RevokedAt id at keys = (k : McpKey) × (lookup id keys ≡ some k) × (k.revoked_at ≡ at)

insert-RevokedAt :
    (j id : String) (v : McpKey) (at : ℕ) (keys : Map String McpKey)
    → (j ≡ id → v.revoked_at ≡ at)
    → RevokedAt id at keys
    → RevokedAt id at (insert j v keys)
insert-RevokedAt j id v at keys h (k, q, r) = elim (Bool-cases (j == id)) [
  | inl e ↦ (v, (lookup-insert j id v keys ∙ rw e), h ((eq_iff j id).0 e))
  | inr e ↦ (k, (lookup-insert j id v keys ∙ rw e q), r)
]

-- A stored key and the key that was found under the same id are one.
found-revoked_at :
    (j id : String) (i : McpKey) (at : ℕ) (keys : Map String McpKey)
    → lookup j keys ≡ some i
    → RevokedAt id at keys
    → j ≡ id
    → i.revoked_at ≡ at
found-revoked_at j id i at keys n (k, q, r) p =
    let same : some i ≡ some k = sym n ∙ ap (λ x. lookup x keys) p ∙ q in
    let one : i ≡ k = cc in ap (λ (x : McpKey). x.revoked_at) one ∙ r

key_step-RevokedAt :
    (op : KeyOp) (id : String) (at : ℕ) (keys : Map String McpKey)
    → at ≢ 0
    → RevokedAt id at keys
    → RevokedAt id at (key_step op keys)
unfolding key_step revoke_mcp_key touch_mcp_key
key_step-RevokedAt (revokes j t) id at keys nz v = elim (Option-cases (lookup j keys)) [
  | inl n ↦
      let same : key_step (revokes j t) keys ≡ keys = rw (n, key_step, revoke_mcp_key) refl in
      subst (RevokedAt id at) (sym same) v
  | inr (i, n) ↦ elim (Bool-cases (i.revoked_at == 0)) [
    | inr e ↦
        let same : key_step (revokes j t) keys ≡ keys = rw (n, key_step, revoke_mcp_key, e) refl in
        subst (RevokedAt id at) (sym same) v
    | inl e ↦
        let i' : McpKey = record i { revoked_at = t } in
        let same : key_step (revokes j t) keys ≡ insert j i' keys =
          rw (n, key_step, revoke_mcp_key, e) refl in
        subst (RevokedAt id at) (sym same) (
          insert-RevokedAt j id i' at keys
            (λ p.
              let z = found-revoked_at j id i at keys n v p in absurd (nz (sym z ∙ ground arith)))
            v)
  ]
]
key_step-RevokedAt (touches j t) id at keys nz v = elim (Option-cases (lookup j keys)) [
  | inl n ↦
      let same : key_step (touches j t) keys ≡ keys = rw (n, key_step, touch_mcp_key) refl in
      subst (RevokedAt id at) (sym same) v
  | inr (i, n) ↦
      let i' : McpKey = record i { last_used_at = t } in
      let same : key_step (touches j t) keys ≡ insert j i' keys =
        rw (n, key_step, touch_mcp_key) refl in
      subst (RevokedAt id at) (sym same)
        (insert-RevokedAt j id i' at keys (λ p. found-revoked_at j id i at keys n v p) v)
]

key_run-RevokedAt :
    (ops : List KeyOp) (id : String) (at : ℕ) (keys : Map String McpKey)
    → at ≢ 0
    → RevokedAt id at keys
    → RevokedAt id at (key_run ops keys)
unfolding key_run
key_run-RevokedAt [] id at keys nz v = v
key_run-RevokedAt (op ∷ ops) id at keys nz v =
    key_run-RevokedAt ops id at (key_step op keys) nz (key_step-RevokedAt op id at keys nz v)

-- A stored key that was not revoked has its revocation time after RevokeMcpKey.
revoke_mcp_key-RevokedAt :
    (id : String) (at : ℕ) (k : McpKey) (keys : Map String McpKey)
    → lookup id keys ≡ some k
    → k.revoked_at ≡ 0
    → RevokedAt id at (revoke_mcp_key id at keys).0
unfolding revoke_mcp_key
revoke_mcp_key-RevokedAt id at k keys q z =
    let unset : (k.revoked_at == 0) ≡ true = ground (arith, z) in
    let k' : McpKey = record k { revoked_at = at } in
    let same : (revoke_mcp_key id at keys).0 ≡ insert id k' keys =
      rw (q, revoke_mcp_key, unset) refl in
    subst (RevokedAt id at) (sym same) (k', lookup-insert_self id k' keys, refl)

validate-revoked :
    {S : Type 0} (config : Config S) (key : McpKey) (now : ℕ) (s : S)
    → key.revoked_at ≢ 0
    → (validate config key now s).1 ≡ err key_revoked
unfolding validate
validate-revoked config key now s nz =
    let e : (key.revoked_at == 0) ≡ false = ground (arith, nz) in rw (e, validate) refl

-- Once a stored key is revoked, at a time other than the zero time, it is refused as revoked at every later
-- request, whatever uses and revocations of keys come between, and whatever the time, the certificate and
-- the revocation data of its operator CA.
pub revoked_for_good :
    {S : Type 0} (config : Config S) (ops : List KeyOp) (id : String) (at : ℕ) (k : McpKey)
    (keys : Map String McpKey) (now : ℕ) (s : S)
    → at ≢ 0
    → lookup id keys ≡ some k
    → k.revoked_at ≡ 0
    → (k' : McpKey) × (lookup id (key_run ops (revoke_mcp_key id at keys).0) ≡ some k')
      × ((validate config k' now s).1 ≡ err key_revoked)
revoked_for_good config ops id at k keys now s nz q z =
    let (k', found, time) =
      key_run-RevokedAt ops id at (revoke_mcp_key id at keys).0 nz
        (revoke_mcp_key-RevokedAt id at k keys q z) in
    (k', found, validate-revoked config k' now s (λ e. nz (sym time ∙ e)))

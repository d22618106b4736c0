-- ===== src/McpAuth/Minted.antt =====
-- What a minted key is: bound to its operator, and never above the operator's level.
use Prim.Native.String.{String}
use manager.Prelude.{
  ◌≡◌, refl, inl, inr, false, ◌==◌, string_eq, eq_iff, ok, ◌>>=◌, >>=-ok, Result-cases, Bool-cases,
  arith,
}
use manager.OperatorCa.Base.{Bytes}
use manager.Authz.{Level, Identity, level_from_token, below}
use manager.McpAuth.Minting.{Codecs, Draw, Admission, check_ceiling, admit, new_key, mint_checks}

-- The ceiling is absent, or a level that is not above the operator's.
pub data Within (ceiling : String) (level : Level) : Type 0 where
  full : ceiling ≡ "" → Within ceiling level
  capped :
      (l : Level) → level_from_token ceiling ≡ ok l → below level l ≡ false → Within ceiling level

check_ceiling-Within :
    (ceiling : String) (level : Level) → check_ceiling ceiling level ≡ ok tt → Within ceiling level
unfolding check_ceiling
check_ceiling-Within ceiling level h = elim (Bool-cases (ceiling == "")) [
  | inl e ↦ full ((eq_iff ceiling "").0 e)
  | inr e ↦ elim (Result-cases (level_from_token ceiling)) [
    | inr (x, q) ↦ absurd (let k = rw (e, q) at h in cc)
    | inl (l, q) ↦ elim (Bool-cases (below level l)) [
      | inl b ↦ absurd (let k = rw (e, q, b) at h in cc)
      | inr b ↦ capped l q b
    ]
  ]
]

Within-check_ceiling :
    (ceiling : String) (level : Level) → Within ceiling level → check_ceiling ceiling level ≡ ok tt
unfolding check_ceiling
Within-check_ceiling ceiling level (full e) = ground (arith, eq_iff ceiling "")
Within-check_ceiling ceiling level (capped l q b) = rw (q, b) (ground arith)

module _ (codecs : Codecs) where
  -- What the tests of Mint ask for, with the plain key they give.
  pub record Mints (admission : Admission) (owner : Identity) (der : Bytes) (ceiling : String)
      (draw : Draw) (plain : String) : Type 0 where
    pub within : Within ceiling owner.level
    pub is_admitted : admit admission der ≡ ok tt
    pub is_plain : new_key codecs.encode draw.key_entropy ≡ ok plain

  pub mint_checks-Mints :
      (admission : Admission) (owner : Identity) (der : Bytes) (ceiling : String) (draw : Draw)
      (plain : String)
      → mint_checks codecs admission owner der ceiling draw ≡ ok plain
      → Mints admission owner der ceiling draw plain
  unfolding mint_checks
  mint_checks-Mints admission owner der ceiling draw plain h =
      let (u, c, h₁) =
        >>=-ok (check_ceiling ceiling owner.level)
          (λ _. admit admission der >>= λ _. new_key codecs.encode draw.key_entropy) h in
      let (v, a, p) =
        >>=-ok (admit admission der) (λ _. new_key codecs.encode draw.key_entropy) h₁ in
      record { within = check_ceiling-Within ceiling owner.level c; is_admitted = a; is_plain = p }

  pub Mints-mint_checks :
      (admission : Admission) (owner : Identity) (der : Bytes) (ceiling : String) (draw : Draw)
      (plain : String)
      → Mints admission owner der ceiling draw plain
      → mint_checks codecs admission owner der ceiling draw ≡ ok plain
  unfolding mint_checks
  Mints-mint_checks admission owner der ceiling draw plain m =
      rw (Within-check_ceiling ceiling owner.level m.within, m.is_admitted, m.is_plain) refl

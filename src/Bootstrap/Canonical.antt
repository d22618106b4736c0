-- ===== src/Bootstrap/Canonical.antt =====
-- Tokens have one canonical form, and the manager's own tokens have it.
use manager.Prelude.{
  ℕ, zero, suc, ◌*◌, ◌≤◌, ◌<◌, ◌≡◌, refl, sym, ap, ◌∙◌, inl, inr, Bool, true, false, ◌&&◌, Option,
  none, some, List, [], ◌∷◌, ◌++◌, map, leb, ◌==◌, nat_eq, length, member, all, Bool-cases, arith,
  All,
}
use manager.OperatorCa.Base.{Bytes}
use manager.OperatorCa.Serial.{Text, to_lower, trim_left, trim_right, keep_last}
use manager.Bootstrap.Tokens.{
  token_prefix, token_body_length, crockford_alphabet, crockford, groups, join_dash, new_token,
  strip, Round, skips, refuses, writes, canonical_char, canonical_step, canonical_body, of_length,
  canonical_rest, canonical_token,
}
use manager.Bootstrap.Crockford.{InAlphabet, length-crockford, crockford-InAlphabet, All-append}

-- Digits, capital letters and the dash: what ToUpper leaves.
abbrev Plain : ℕ → Type 0
Plain c = (32 < c) × (c < 97)

member-all : (p : ℕ → Bool) (c : ℕ) (xs : Text) → all p xs ≡ true → member xs c ≡ true → p c ≡ true
unfolding all member
member-all p c [] h k = absurd (cc)
member-all p c (x ∷ xs) h k = elim (Bool-cases (p x)) [
  | inr e ↦ absurd (let q = rw e at h in cc)
  | inl e ↦ elim (Bool-cases (x == c)) [
    | inl q ↦ let same : x ≡ c = ground (arith, q) in rw (← same) e
    | inr q ↦ member-all p c xs (rw e at h) (rw q at k)
  ]
]

in_range : all (λ x. leb 48 x && leb x 90) crockford_alphabet ≡ true
unfolding all
in_range = refl

InAlphabet-range : (c : ℕ) → InAlphabet c → (48 ≤ c) × (c ≤ 90)
InAlphabet-range c h =
    let r = member-all (λ x. leb 48 x && leb x 90) c crockford_alphabet in_range h in
    (ground (arith, r), ground (arith, r))

excluded : (c k : ℕ) → member crockford_alphabet k ≡ false → InAlphabet c → (c == k) ≡ false
excluded c k n h = elim (Bool-cases (c == k)) [
  | inr e ↦ e
  | inl e ↦
      let same : c ≡ k = ground (arith, e) in
      absurd (let q = sym n ∙ ap (λ x. member crockford_alphabet x) (sym same) ∙ h in cc)
]

canonical_char-InAlphabet : (c : ℕ) → InAlphabet c → canonical_char c ≡ writes c
unfolding canonical_char member
canonical_char-InAlphabet c h =
    rw
      (
        excluded c b'-' refl h,
        excluded c b'O' refl h,
        excluded c b'I' refl h,
        excluded c b'L' refl h,
      )
      (rw h refl)

canonical_body-append :
    (s t r : Text)
    → All InAlphabet s
    → canonical_body t ≡ some r
    → canonical_body (s ++ t) ≡ some (s ++ r)
unfolding canonical_body canonical_step
canonical_body-append [] t r a h = h
canonical_body-append (c ∷ s) t r a h =
    rw (canonical_char-InAlphabet c a.0, canonical_body-append s t r a.1 h) refl

canonical_char-writes : (c d : ℕ) → canonical_char c ≡ writes d → InAlphabet d
unfolding canonical_char member
canonical_char-writes c d h = elim (Bool-cases (c == b'-')) [
  | inl e ↦ absurd (let k = rw e at h in cc)
  | inr e ↦ elim (Bool-cases (c == b'O')) [
    | inl f ↦ written b'0' d refl (rw (e, f) at h)
    | inr f ↦ elim (Bool-cases (c == b'I')) [
      | inl g ↦ written b'1' d refl (rw (e, f, g) at h)
      | inr g ↦ elim (Bool-cases (c == b'L')) [
        | inl i ↦ written b'1' d refl (rw (e, f, g, i) at h)
        | inr i ↦ elim (Bool-cases (member crockford_alphabet c)) [
          | inr m ↦ absurd (let k = rw (e, f, g, i, m) at h in cc)
          | inl m ↦ written c d m (rw (e, f, g, i, m) at h)
        ]
      ]
    ]
  ]
]
  where
    written : (a b : ℕ) → InAlphabet a → writes a ≡ writes b → InAlphabet b
    written a b m q = let same : a ≡ b = cc in rw (← same) m

canonical_step-InAlphabet :
    (k : Round) (o : Option Text) (r : Text)
    → ((d : ℕ) → k ≡ writes d → InAlphabet d)
    → ((b : Text) → o ≡ some b → All InAlphabet b)
    → canonical_step k o ≡ some r
    → All InAlphabet r
unfolding canonical_step
canonical_step-InAlphabet skips o r f g h = g r h
canonical_step-InAlphabet refuses o r f g h = absurd (cc)
canonical_step-InAlphabet (writes d) none r f g h = absurd (cc)
canonical_step-InAlphabet (writes d) (some b) r f g h =
    let same : d ∷ b ≡ r = cc in rw (← same) (f d refl, g b refl)

-- What the loop writes is in the alphabet.
canonical_body-InAlphabet : (s r : Text) → canonical_body s ≡ some r → All InAlphabet r
unfolding canonical_body
canonical_body-InAlphabet [] r h = let same : [] ≡ r = cc in rw (← same) tt
canonical_body-InAlphabet (c ∷ s) r h =
    canonical_step-InAlphabet (canonical_char c) (canonical_body s) r (canonical_char-writes c)
      (canonical_body-InAlphabet s) h

trim_right-same :
    (space : ℕ → Bool) (s : Text) → All (λ c. space c ≡ false) s → trim_right space s ≡ s
unfolding trim_right keep_last
trim_right-same space [] h = refl
trim_right-same space (c ∷ []) h = rw h.0 refl
trim_right-same space (c ∷ d ∷ s) h = rw (trim_right-same space (d ∷ s) h.1, keep_last) refl

trim_left-same :
    (space : ℕ → Bool) (s : Text) → All (λ c. space c ≡ false) s → trim_left space s ≡ s
unfolding trim_left
trim_left-same space [] h = refl
trim_left-same space (c ∷ s) h = rw h.0 refl

map-same : (f : ℕ → ℕ) (s : Text) → All (λ c. f c ≡ c) s → map f s ≡ s
map-same f [] h = refl
map-same f (c ∷ s) h = rw (h.0, map-same f s h.1) refl

All-weaken : (P Q : ℕ → Type 0) (s : Text) → ((c : ℕ) → P c → Q c) → All P s → All Q s
All-weaken P Q [] f a = tt
All-weaken P Q (c ∷ s) f a = (f c a.0, All-weaken P Q s f a.1)

all-All :
    (p : ℕ → Bool) (P : ℕ → Type 0) (s : Text)
    → ((c : ℕ) → p c ≡ true → P c)
    → all p s ≡ true
    → All P s
unfolding all
all-All p P [] f h = tt
all-All p P (c ∷ s) f h = elim (Bool-cases (p c)) [
  | inr e ↦ absurd (let q = rw e at h in cc)
  | inl e ↦ (f c e, all-All p P s f (rw e at h))
]

in_view : all (λ c. leb 33 c && leb c 126) token_prefix ≡ true
unfolding all
in_view = refl

InAlphabet-Plain : (c : ℕ) → InAlphabet c → Plain c
InAlphabet-Plain c h = let r = InAlphabet-range c h in (omega (arith, r.0), omega (arith, r.1))

append-nil : (s : Text) → s ++ [] ≡ s
append-nil [] = refl
append-nil (c ∷ s) = ap (λ t. c ∷ t) (append-nil s)

-- The groups of a body with a multiple of four characters are the body.
body_of : List Text → Text
body_of [] = []
body_of (g ∷ gs) = g ++ body_of gs

body_of-groups : (n : ℕ) (s : Text) → length s ≡ n * 4 → body_of (groups s) ≡ s
unfolding body_of groups
body_of-groups n [] h = refl
body_of-groups n (a ∷ []) h = absurd (omega (arith, h))
body_of-groups n (a ∷ b ∷ []) h = absurd (omega (arith, h))
body_of-groups n (a ∷ b ∷ c ∷ []) h = absurd (omega (arith, h))
body_of-groups zero (a ∷ b ∷ c ∷ d ∷ s) h = absurd (omega (arith, h))
body_of-groups (suc n) (a ∷ b ∷ c ∷ d ∷ s) h =
    ap (λ t. a ∷ b ∷ c ∷ d ∷ t) (body_of-groups n s (omega (arith, h)))

groups-All : (P : ℕ → Type 0) (s : Text) → All P s → All (All P) (groups s)
unfolding groups
groups-All P [] h = tt
groups-All P (a ∷ []) h = tt
groups-All P (a ∷ b ∷ []) h = tt
groups-All P (a ∷ b ∷ c ∷ []) h = tt
groups-All P (a ∷ b ∷ c ∷ d ∷ s) h =
    ((h.0, (h.1.0, (h.1.1.0, (h.1.1.1.0, tt)))), groups-All P s h.1.1.1.1)

dash-skipped : canonical_char b'-' ≡ skips
unfolding canonical_char
dash-skipped = refl

canonical_body-alone : (s : Text) → All InAlphabet s → canonical_body s ≡ some (s ++ [])
unfolding canonical_body
canonical_body-alone s h =
    ap canonical_body (sym (append-nil s)) ∙ canonical_body-append s [] [] h refl

canonical_body-join_dash :
    (gs : List Text) → All (All InAlphabet) gs → canonical_body (join_dash gs) ≡ some (body_of gs)
unfolding canonical_body join_dash body_of canonical_step
canonical_body-join_dash [] h = refl
canonical_body-join_dash (g ∷ []) h = canonical_body-alone g h.0
canonical_body-join_dash (g ∷ k ∷ gs) h = canonical_body-append g _ _ h.0 (
    ap (λ r. canonical_step r (canonical_body (join_dash (k ∷ gs)))) dash-skipped
    ∙ canonical_body-join_dash (k ∷ gs) h.1)

join_dash-Plain : (gs : List Text) → All (All InAlphabet) gs → All Plain (join_dash gs)
unfolding join_dash
join_dash-Plain [] h = tt
join_dash-Plain (g ∷ []) h = All-weaken InAlphabet Plain g InAlphabet-Plain h.0
join_dash-Plain (g ∷ k ∷ gs) h =
    All-append Plain g _ (All-weaken InAlphabet Plain g InAlphabet-Plain h.0)
      ((omega arith, omega arith), join_dash-Plain (k ∷ gs) h.1)

module _ (space : ℕ → Bool) (upper : ℕ → ℕ)
    (space_ascii : (c : ℕ) → 32 < c → c < 127 → space c ≡ false)
    (upper_ascii : (c : ℕ) → c < 97 → upper c ≡ c) where
  prefix-visible : All (λ c. space c ≡ false) token_prefix
  prefix-visible =
      all-All (λ c. leb 33 c && leb c 126) (λ c. space c ≡ false) token_prefix
        (λ c h. space_ascii c (ground (arith, h)) (ground (arith, h))) in_view

  spelled :
      (s body : Text)
      → All Plain s
      → canonical_body s ≡ some body
      → length body ≡ token_body_length
      → canonical_token space upper (token_prefix ++ s) ≡ some (token_prefix ++ body)
  unfolding canonical_token canonical_rest of_length strip to_lower
  spelled s body plain h n =
      let visible : All (λ c. space c ≡ false) (token_prefix ++ s) =
        All-append (λ c. space c ≡ false) token_prefix s prefix-visible
          (All-weaken Plain (λ c. space c ≡ false) s (λ c p. space_ascii c p.0 (omega (arith, p.1)))
            plain) in
      rw
        (
          trim_right-same space (token_prefix ++ s) visible,
          trim_left-same space (token_prefix ++ s) visible,
          map-same upper s (All-weaken Plain (λ c. upper c ≡ c) s (λ c p. upper_ascii c p.1) plain),
          h,
          n,
        )
        refl

  -- Where ToUpper leaves ASCII characters that are not small letters and IsSpace takes no visible one, the
  -- token that the manager prints for 32 random bytes is taken, as the prefix and 52 characters of the
  -- alphabet without dashes.
  pub canonical_token-new_token :
      (b : Bytes) (t : Text)
      → length b ≡ 32
      → new_token (some b) ≡ some t
      → (canonical_token space upper t ≡ some (token_prefix ++ crockford b))
        × (length (crockford b) ≡ token_body_length)
        × All InAlphabet (crockford b)
  unfolding new_token
  canonical_token-new_token b t n h =
      let body = crockford b in
      let size = length-crockford b n in
      let letters = groups-All InAlphabet body (crockford-InAlphabet b) in
      let same : token_prefix ++ join_dash (groups body) ≡ t = cc in
      (
        rw (← same) (
            spelled (join_dash (groups body)) body (join_dash-Plain (groups body) letters)
              (canonical_body-join_dash (groups body) letters
                ∙ ap some (body_of-groups 13 body (omega (arith, size))))
              size),
        size,
        crockford-InAlphabet b,
      )

  of_length-spelled :
      (o : Option Text) (t : Text)
      → ((body : Text) → o ≡ some body → All InAlphabet body)
      → of_length o ≡ some t
      → canonical_token space upper t ≡ some t
  unfolding of_length
  of_length-spelled none t f h = absurd (cc)
  of_length-spelled (some body) t f h = elim (Bool-cases (length body == token_body_length)) [
    | inr e ↦ absurd (let k = rw e at h in cc)
    | inl e ↦
        let letters = f body refl in
        let k = rw e at h in
        let same : token_prefix ++ body ≡ t = cc in
        rw (← same) (
          spelled body body (All-weaken InAlphabet Plain body InAlphabet-Plain letters)
            (canonical_body-alone body letters ∙ ap some (append-nil body)) (ground (arith, e)))
  ]

  canonical_rest-spelled :
      (o : Option Text) (t : Text)
      → canonical_rest upper o ≡ some t
      → canonical_token space upper t ≡ some t
  unfolding canonical_rest
  canonical_rest-spelled none t h = absurd (cc)
  canonical_rest-spelled (some s) t h =
      of_length-spelled (canonical_body (map upper s)) t
        (λ body q. canonical_body-InAlphabet (map upper s) body q) h

  -- Where ToUpper leaves ASCII characters that are not small letters and IsSpace takes no visible one, the
  -- canonical form of a token is its own canonical form.
  pub canonical_token_idempotent :
      (s t : Text) → canonical_token space upper s ≡ some t → canonical_token space upper t ≡ some t
  unfolding canonical_token
  canonical_token_idempotent s t h =
      canonical_rest-spelled (strip to_lower token_prefix (trim_left space (trim_right space s))) t
        h

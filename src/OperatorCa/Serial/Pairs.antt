-- ===== src/OperatorCa/Serial/Pairs.antt =====
-- The digits of the bytes of a number and of the number itself, leading zeros left out.
use mathlib.Core.List.{append_assoc}
use manager.Prelude.{
  ℕ, zero, suc, ◌/◌, ◌%◌, ◌<◌, ◌≡◌, refl, sym, ap, ◌∙◌, inl, inr, false, List, [], ◌∷◌, ◌++◌, map,
  arith, nat_eq, ◌==◌, Bool-cases, ◌≢◌,
}
use manager.OperatorCa.Serial.{Text, lower_digit, digits, trim_left}
use manager.OperatorCa.Serial.Digits.{digits-suc, append-ne, map-append_one, digits-zero}

-- Lower-case pairs of digits, one for each byte, with no separator.
unfoldable pub pairs : List ℕ → Text
pairs [] = []
pairs (b ∷ bs) = lower_digit (b / 16) ∷ lower_digit (b % 16) ∷ pairs bs

pub pairs-append : (bs ds : List ℕ) → pairs (bs ++ ds) ≡ pairs bs ++ pairs ds
unfolding pairs
pairs-append [] ds = refl
pairs-append (b ∷ bs) ds = rw (pairs-append bs ds)

abbrev pub strip : Text → Text
strip = trim_left (λ c. c == b'0')

strip-append_nil : (s t : Text) → strip s ≡ [] → strip (s ++ t) ≡ strip t
unfolding trim_left
strip-append_nil [] t h = refl
strip-append_nil (c ∷ s) t h = ground (arith, strip-append_nil s t)

strip-append : (s t : Text) → strip s ≢ [] → strip (s ++ t) ≡ strip s ++ t
unfolding trim_left
strip-append [] t h = absurd (h refl)
strip-append (c ∷ s) t h = ground (arith, strip-append s t)

lower_digit-zero : lower_digit 0 ≡ b'0'
unfolding lower_digit
lower_digit-zero = refl

lower_digit-ne : (d : ℕ) → d ≢ 0 → d < 16 → (lower_digit d == b'0') ≡ false
unfolding lower_digit
lower_digit-ne d h k = ground arith

-- "%x" of a number, without its leading zeros: nothing for 0.
abbrev pub hex : ℕ → Text
hex n = map lower_digit (digits 16 n)

pub hex-suc : (n : ℕ) → n ≢ 0 → hex n ≡ hex (n / 16) ++ lower_digit (n % 16) ∷ []
hex-suc n h =
    ap (map lower_digit) (digits-suc 14 n h) ∙ map-append_one lower_digit (digits 16 (n / 16)) _

pub hex-ne : (n : ℕ) → n ≢ 0 → hex n ≢ []
hex-ne n h e = append-ne (hex (n / 16)) _ (sym (hex-suc n h) ∙ e)

-- One byte.
strip_pair : (n : ℕ) → n ≢ 0 → n < 256 → strip (pairs (n ∷ [])) ≡ hex n
unfolding pairs trim_left
strip_pair n h lt = elim (Bool-cases (n / 16 == 0)) [
  | inl e ↦
      let low : n / 16 ≡ 0 = ground arith in
      rw (hex-suc n h, low, digits-zero 16, lower_digit-zero)
        (rw (lower_digit-ne (n % 16) (omega arith) (omega arith)) refl)
  | inr e ↦
      let high : n / 16 ≢ 0 = λ z. ground arith in
      rw (hex-suc n h, hex-suc (n / 16) high, lower_digit-ne (n / 16) high (omega arith))
        (rw (out n lt, digits-zero 16, small n lt) refl)
]
  where
    out : (n : ℕ) → n < 256 → n / 16 / 16 ≡ 0
    out n lt = omega arith

    small : (n : ℕ) → n < 256 → n / 16 % 16 ≡ n / 16
    small n lt = omega arith

-- Dropping the leading zeros of the bytes' digits leaves the digits of the number.
pub strip-pairs : (k n : ℕ) → n < k → strip (pairs (digits 256 n)) ≡ hex n
unfolding pairs trim_left
strip-pairs zero n h = elim h [ ]
strip-pairs (suc k) n h = elim (Bool-cases (n == 0)) [
  | inl e ↦ let z : n ≡ 0 = ground arith in rw (z, digits-zero 256, digits-zero 16) refl
  | inr e ↦ step n (λ z. ground arith) (strip-pairs k (n / 256) (smaller n k (λ z. ground arith) h))
]
  where
    smaller : (n k : ℕ) → n ≢ 0 → n < suc k → n / 256 < k
    smaller n k nz h = omega arith

    quotient : (n : ℕ) → n / 256 ≡ n / 16 / 16
    quotient n = omega arith

    high : (n : ℕ) → n % 256 / 16 ≡ n / 16 % 16
    high n = omega arith

    low : (n : ℕ) → n % 256 % 16 ≡ n % 16
    low n = omega arith

    step :
        (n : ℕ)
        → n ≢ 0
        → strip (pairs (digits 256 (n / 256))) ≡ hex (n / 256)
        → strip (pairs (digits 256 n)) ≡ hex n
    step n nz ih = elim (Bool-cases (n / 256 == 0)) [
      | inl e ↦
          let z : n / 256 ≡ 0 = ground arith in
          rw (digits-suc 254 n nz, z, digits-zero 256)
            (let small : n % 256 ≡ n = omega arith in rw small (strip_pair n nz (omega arith)))
      | inr e ↦
          let q : n / 256 ≢ 0 = λ z. ground arith in
          let some_left =
            λ (p : strip (pairs (digits 256 (n / 256))) ≡ []). hex-ne (n / 256) q (sym ih ∙ p) in
          rw (digits-suc 254 n nz, pairs-append (digits 256 (n / 256)) (n % 256 ∷ []))
            (strip-append (pairs (digits 256 (n / 256))) _ some_left
              ∙ rw
                  (
                    ih,
                    hex-suc n nz,
                    hex-suc (n / 16) (λ z. omega arith),
                    ← quotient n,
                    high n,
                    low n,
                  )
                  (sym (append_assoc (hex (n / 256)) _ _)))
    ]

-- ===== src/OperatorCa/Serial/Digits.antt =====
-- Lemmas on the digits of a number in a base.
use mathlib.Core.List.{append_assoc}
use manager.Prelude.{
  ℕ, zero, suc, ◌+◌, ◌*◌, ◌/◌, ◌%◌, ◌≤◌, ◌<◌, ◌≡◌, refl, sym, ap, ◌∙◌, inl, inr, true, false, List,
  [], ◌∷◌, ◌++◌, map, arith, nat_eq, ◌==◌, Bool-cases, ◌≢◌,
}
use manager.OperatorCa.Serial.{digits_fuel, digits}

module _ (c : ℕ) where
  -- The digits of `n` in the base `c + 2`, without an accumulator.
  digits_fuel-acc :
      (fuel n : ℕ) (acc : List ℕ)
      → digits_fuel fuel (c + 2) n acc ≡ digits_fuel fuel (c + 2) n [] ++ acc
  unfolding digits_fuel
  digits_fuel-acc zero n acc = refl
  digits_fuel-acc (suc fuel) n acc = elim (Bool-cases (n == 0)) [
    | inl e ↦ rw e refl
    | inr e ↦ rw e (
        digits_fuel-acc fuel (n / (c + 2)) ((n % (c + 2)) ∷ acc)
        ∙ sym (
            rw (digits_fuel-acc fuel (n / (c + 2)) ((n % (c + 2)) ∷ []))
              (append_assoc (digits_fuel fuel (c + 2) (n / (c + 2)) []) _ acc)))
  ]

  pub div-lt : (n : ℕ) → n ≢ 0 → n / (c + 2) < n
  div-lt n h = grind arith

  -- Any fuel of at least `n` gives the same digits.
  digits_fuel-enough :
      (f g n : ℕ) → n ≤ f → n ≤ g → digits_fuel f (c + 2) n [] ≡ digits_fuel g (c + 2) n []
  unfolding digits_fuel
  digits_fuel-enough zero zero n hf hg = refl
  digits_fuel-enough zero (suc g) n hf hg = rw (none_left n hf) refl
    where
      none_left : (n : ℕ) → n ≤ 0 → (n == 0) ≡ true
      none_left n h = ground arith
  digits_fuel-enough (suc f) zero n hf hg = rw (none_left n hg) refl
    where
      none_left : (n : ℕ) → n ≤ 0 → (n == 0) ≡ true
      none_left n h = ground arith
  digits_fuel-enough (suc f) (suc g) n hf hg = elim (Bool-cases (n == 0)) [
    | inl e ↦ rw e refl
    | inr e ↦
        let less = div-lt n (λ z. ground arith) in
        rw e (
          digits_fuel-acc f (n / (c + 2)) _
          ∙ ap (λ ds. ds ++ (n % (c + 2)) ∷ [])
              (digits_fuel-enough f g (n / (c + 2)) (omega arith) (omega arith))
          ∙ sym (digits_fuel-acc g (n / (c + 2)) _))
  ]

  nonzero : (m : ℕ) → (suc m == 0) ≡ false
  nonzero m = ground arith

  pub digits-suc :
      (n : ℕ) → n ≢ 0 → digits (c + 2) n ≡ digits (c + 2) (n / (c + 2)) ++ (n % (c + 2)) ∷ []
  unfolding digits digits_fuel
  digits-suc zero h = absurd (h refl)
  digits-suc (suc m) h =
      let less = div-lt (suc m) h in
      rw (nonzero m) (
        digits_fuel-acc m (suc m / (c + 2)) _
        ∙ ap (λ ds. ds ++ (suc m % (c + 2)) ∷ [])
            (digits_fuel-enough m (suc m / (c + 2)) (suc m / (c + 2)) (omega arith) (omega arith)))

pub append-ne {ℓ} : {A : Type ℓ} (xs : List A) (x : A) → xs ++ x ∷ [] ≢ []
append-ne [] x h = cc
append-ne (y ∷ xs) x h = cc

pub map-append_one : (f : ℕ → ℕ) (xs : List ℕ) (x : ℕ) → map f (xs ++ x ∷ []) ≡ map f xs ++ f x ∷ []
map-append_one f [] x = refl
map-append_one f (y ∷ xs) x = rw (map-append_one f xs x)

pub digits-zero : (b : ℕ) → digits b 0 ≡ []
unfolding digits digits_fuel
digits-zero b = refl

abbrev pub Below : ℕ → List ℕ → Type 0
Below b [] = Unit
Below b (x ∷ xs) = (x < b) × Below b xs

Below-append_one : (b : ℕ) (xs : List ℕ) (x : ℕ) → Below b xs → x < b → Below b (xs ++ x ∷ [])
Below-append_one b [] x h k = (k, tt)
Below-append_one b (y ∷ xs) x h k = (h.0, Below-append_one b xs x h.1 k)

pub digits-Below : (c k n : ℕ) → n < k → Below (c + 2) (digits (c + 2) n)
digits-Below c zero n h = elim h [ ]
digits-Below c (suc k) n h = elim (Bool-cases (n == 0)) [
  | inl e ↦ let z : n ≡ 0 = ground arith in rw (z, digits-zero (c + 2)) tt
  | inr e ↦
      let nz : n ≢ 0 = λ z. ground arith in
      let less = div-lt c n nz in
      rw (digits-suc c n nz) (
        Below-append_one (c + 2) (digits (c + 2) (n / (c + 2))) (n % (c + 2))
          (digits-Below c k (n / (c + 2)) (omega arith)) (omega arith))
]

-- The number that digits in the base `b` stand for.
unfoldable pub from_digits : ℕ → ℕ → List ℕ → ℕ
from_digits b acc [] = acc
from_digits b acc (d ∷ ds) = from_digits b (acc * b + d) ds

from_digits-append_one :
    (b acc : ℕ) (ds : List ℕ) (d : ℕ)
    → from_digits b acc (ds ++ d ∷ []) ≡ from_digits b acc ds * b + d
unfolding from_digits
from_digits-append_one b acc [] d = refl
from_digits-append_one b acc (e ∷ ds) d = from_digits-append_one b (acc * b + e) ds d

pub from_digits-digits : (c k n : ℕ) → n < k → from_digits (c + 2) 0 (digits (c + 2) n) ≡ n
from_digits-digits c zero n h = elim h [ ]
from_digits-digits c (suc k) n h = elim (Bool-cases (n == 0)) [
  | inl e ↦ let z : n ≡ 0 = ground arith in rw (z, digits-zero (c + 2)) (unfold from_digits in refl)
  | inr e ↦
      let nz : n ≢ 0 = λ z. ground arith in
      let less = div-lt c n nz in
      rw
        (
          digits-suc c n nz,
          from_digits-append_one (c + 2) 0 (digits (c + 2) (n / (c + 2))) (n % (c + 2)),
          from_digits-digits c k (n / (c + 2)) (omega arith),
        )
        (joined c n)
]
  where
    joined : (c n : ℕ) → n / (c + 2) * (c + 2) + n % (c + 2) ≡ n
    joined c n = grind arith

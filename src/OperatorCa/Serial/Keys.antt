-- ===== src/OperatorCa/Serial/Keys.antt =====
-- A key reads back as its serial and is its own normal form.
use manager.Prelude.{
  ℕ, ◌+◌, ◌-◌, ◌<◌, ◌≡◌, refl, sym, ap, ◌∙◌, inl, inr, List, [], ◌∷◌, map, arith, nat_eq, ltb, ◌==◌,
  if◌then◌else◌, keep, Bool-cases, ◌≢◌,
}
use manager.OperatorCa.Serial.{
  Text, lower_digit, digits, serial_key, trim_left, drop_colons, normalize_serial,
}
use manager.OperatorCa.Serial.Digits.{Below, digits-Below, from_digits, from_digits-digits}
use manager.OperatorCa.Serial.Pairs.{pairs, strip, strip-pairs, hex}
use manager.OperatorCa.Serial.Forms.{
  canon, to_lower-lower_digit, lower_digit-colon, lower_digit-space, NoSpace, trim_space-NoSpace,
  or_zero_text-hex,
}

-- Lower-case digits, without a separator.
hex-NoSpace : (ds : List ℕ) → Below 16 ds → NoSpace (map lower_digit ds)
hex-NoSpace [] h = tt
hex-NoSpace (d ∷ ds) h = (lower_digit-space d h.0, hex-NoSpace ds h.1)

canon-hex : (ds : List ℕ) → Below 16 ds → canon (map lower_digit ds) ≡ map lower_digit ds
unfolding drop_colons keep
canon-hex [] h = refl
canon-hex (d ∷ ds) h =
    rw (to_lower-lower_digit d h.0, lower_digit-colon d h.0, canon-hex ds h.1) refl

strip-strip : (s : Text) → strip (strip s) ≡ strip s
unfolding trim_left
strip-strip [] = refl
strip-strip (c ∷ s) = elim (Bool-cases (c == b'0')) [
  | inl e ↦ rw e (strip-strip s)
  | inr e ↦ rw e (rw e refl)
]

strip-hex : (n : ℕ) → strip (hex n) ≡ hex n
strip-hex n =
    let p = strip-pairs (n + 1) n (omega arith) in
    ap strip (sym p) ∙ strip-strip (pairs (digits 256 n)) ∙ p

serial_key-zero : serial_key 0 ≡ b'0' ∷ []
unfolding serial_key
serial_key-zero = refl

normalize_serial-zero : normalize_serial (b'0' ∷ []) ≡ b'0' ∷ []
unfolding normalize_serial
normalize_serial-zero = refl

serial_key-nonzero : (n : ℕ) → n ≢ 0 → serial_key n ≡ hex n
unfolding serial_key
serial_key-nonzero n h = elim (Bool-cases (n == 0)) [
  | inl e ↦ absurd (h (ground arith))
  | inr e ↦ rw e
]

-- A key is its own normal form, so an entry stored under a key is found under it.
pub normalize_serial-serial_key : (n : ℕ) → normalize_serial (serial_key n) ≡ serial_key n
normalize_serial-serial_key n = elim (Bool-cases (n == 0)) [
  | inl e ↦ let z : n ≡ 0 = ground arith in rw (z, serial_key-zero) (normalize_serial-zero)
  | inr e ↦
      let nz : n ≢ 0 = λ z. ground arith in
      rw (serial_key-nonzero n nz) (whole n ∙ serial_key-nonzero n nz)
]
  where
    whole : (n : ℕ) → normalize_serial (hex n) ≡ serial_key n
    whole n =
        let below = digits-Below 14 (n + 1) n (omega arith) in
        unfold normalize_serial in
        rw
          (
            trim_space-NoSpace _ (hex-NoSpace (digits 16 n) below),
            canon-hex (digits 16 n) below,
            strip-hex n,
          )
          (or_zero_text-hex n)

digit_of : ℕ → ℕ
digit_of c = if ltb c b'a' then c - b'0' else c - b'a' + 10

digit_of-lower_digit : (ds : List ℕ) → Below 16 ds → map digit_of (map lower_digit ds) ≡ ds
digit_of-lower_digit [] h = refl
digit_of-lower_digit (d ∷ ds) h = rw (one d h.0, digit_of-lower_digit ds h.1) refl
  where
    one : (d : ℕ) → d < 16 → digit_of (lower_digit d) ≡ d
    one d h = unfold digit_of lower_digit in ground arith

-- "0" and the digits both read back as the number.
from_digits-serial_key : (n : ℕ) → from_digits 16 0 (map digit_of (serial_key n)) ≡ n
from_digits-serial_key n = elim (Bool-cases (n == 0)) [
  | inl e ↦
      let z : n ≡ 0 = ground arith in rw (z, serial_key-zero) (unfold from_digits digit_of in refl)
  | inr e ↦
      rw
        (
          serial_key-nonzero n (λ z. ground arith),
          digit_of-lower_digit (digits 16 n) (digits-Below 14 (n + 1) n (omega arith)),
        )
        (from_digits-digits 14 (n + 1) n (omega arith))
]

-- Different serials have different keys, so no revocation reaches another certificate.
pub serial_key-injective : (m n : ℕ) → serial_key m ≡ serial_key n → m ≡ n
serial_key-injective m n e =
    sym (from_digits-serial_key m)
    ∙ ap (λ s. from_digits 16 0 (map digit_of s)) e
    ∙ from_digits-serial_key n

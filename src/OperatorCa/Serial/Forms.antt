-- ===== src/OperatorCa/Serial/Forms.antt =====
-- The forms in which a serial is written agree with the key under which it is looked up.
use manager.Prelude.{
  ℕ, ◌+◌, ◌/◌, ◌%◌, ◌<◌, ◌≡◌, refl, ap, ◌∙◌, inl, inr, false, List, [], ◌∷◌, ◌++◌, map, arith,
  nat_eq, ◌==◌, keep, Bool-cases, ◌≢◌,
}
use manager.OperatorCa.Serial.{
  Text, upper_digit, lower_digit, serial_key, big_bytes, hex_pair, join_colon, or_zero,
  format_serial, to_lower, is_space, trim_left, keep_last, trim_right, trim_space, drop_colons,
  or_zero_text, normalize_serial,
}
use manager.OperatorCa.Serial.Digits.{digits-zero, Below, digits-Below}
use manager.OperatorCa.Serial.Pairs.{pairs, strip, strip-pairs, hex, hex-ne}

abbrev pub canon : Text → Text
canon s = drop_colons (map to_lower s)

canon-append : (s t : Text) → canon (s ++ t) ≡ canon s ++ canon t
unfolding drop_colons keep
canon-append [] t = refl
canon-append (c ∷ s) t = ground (arith, canon-append s t)

-- What lower case makes of a digit, and that a digit is neither a colon nor a space.
to_lower-upper_digit : (d : ℕ) → d < 16 → to_lower (upper_digit d) ≡ lower_digit d
unfolding to_lower upper_digit lower_digit
to_lower-upper_digit d h = ground arith

pub to_lower-lower_digit : (d : ℕ) → d < 16 → to_lower (lower_digit d) ≡ lower_digit d
unfolding to_lower lower_digit
to_lower-lower_digit d h = ground arith

pub lower_digit-colon : (d : ℕ) → d < 16 → (lower_digit d == b':') ≡ false
unfolding lower_digit
lower_digit-colon d h = ground arith

pub lower_digit-space : (d : ℕ) → d < 16 → is_space (lower_digit d) ≡ false
unfolding lower_digit is_space
lower_digit-space d h = ground arith

upper_digit-space : (d : ℕ) → d < 16 → is_space (upper_digit d) ≡ false
unfolding upper_digit is_space
upper_digit-space d h = ground arith

canon-hex_pair :
    (b : ℕ) → b < 256 → canon (hex_pair b) ≡ lower_digit (b / 16) ∷ lower_digit (b % 16) ∷ []
unfolding hex_pair drop_colons keep
canon-hex_pair b h =
    rw (to_lower-upper_digit (b / 16) (omega arith), to_lower-upper_digit (b % 16) (omega arith))
      (rw (lower_digit-colon (b / 16) (omega arith), lower_digit-colon (b % 16) (omega arith)) refl)

canon-colon : (s : Text) → canon (b':' ∷ s) ≡ canon s
unfolding drop_colons keep to_lower
canon-colon s = refl

canon-join_colon : (bs : List ℕ) → Below 256 bs → canon (join_colon (map hex_pair bs)) ≡ pairs bs
unfolding join_colon pairs
canon-join_colon [] h = unfold drop_colons keep in refl
canon-join_colon (b ∷ []) h = canon-hex_pair b h.0
canon-join_colon (b ∷ d ∷ bs) h =
    canon-append (hex_pair b) _
    ∙ rw
        (
          canon-hex_pair b h.0,
          canon-colon (join_colon (map hex_pair (d ∷ bs))),
          canon-join_colon (d ∷ bs) h.1,
        )
        refl

abbrev pub NoSpace : Text → Type 0
NoSpace [] = Unit
NoSpace (c ∷ s) = (is_space c ≡ false) × NoSpace s

NoSpace-append : (s t : Text) → NoSpace s → NoSpace t → NoSpace (s ++ t)
NoSpace-append [] t hs ht = ht
NoSpace-append (c ∷ s) t hs ht = (hs.0, NoSpace-append s t hs.1 ht)

trim_right-NoSpace : (s : Text) → NoSpace s → trim_right is_space s ≡ s
unfolding trim_right
trim_right-NoSpace [] h = refl
trim_right-NoSpace (c ∷ []) h = rw h.0
trim_right-NoSpace (c ∷ d ∷ s) h = rw (trim_right-NoSpace (d ∷ s) h.1, keep_last) refl

trim_left-NoSpace : (s : Text) → NoSpace s → trim_left is_space s ≡ s
unfolding trim_left
trim_left-NoSpace [] h = refl
trim_left-NoSpace (c ∷ s) h = rw h.0

pub trim_space-NoSpace : (s : Text) → NoSpace s → trim_space s ≡ s
unfolding trim_space
trim_space-NoSpace s h = rw (trim_right-NoSpace s h) (trim_left-NoSpace s h)

hex_pair-NoSpace : (b : ℕ) → b < 256 → NoSpace (hex_pair b)
unfolding hex_pair
hex_pair-NoSpace b h =
    (upper_digit-space (b / 16) (omega arith), (upper_digit-space (b % 16) (omega arith), tt))

colon-space : is_space b':' ≡ false
unfolding is_space
colon-space = refl

join_colon-NoSpace : (bs : List ℕ) → Below 256 bs → NoSpace (join_colon (map hex_pair bs))
unfolding join_colon
join_colon-NoSpace [] h = tt
join_colon-NoSpace (b ∷ []) h = hex_pair-NoSpace b h.0
join_colon-NoSpace (b ∷ d ∷ bs) h =
    NoSpace-append (hex_pair b) _ (hex_pair-NoSpace b h.0)
      (colon-space, join_colon-NoSpace (d ∷ bs) h.1)

or_zero-Below : (bs : List ℕ) → Below 256 bs → Below 256 (or_zero bs)
unfolding or_zero
or_zero-Below [] h = (omega arith, tt)
or_zero-Below (b ∷ bs) h = h

strip-or_zero : (bs : List ℕ) → strip (pairs (or_zero bs)) ≡ strip (pairs bs)
unfolding or_zero pairs trim_left lower_digit
strip-or_zero [] = refl
strip-or_zero (b ∷ bs) = refl

pub or_zero_text-hex : (n : ℕ) → or_zero_text (hex n) ≡ serial_key n
unfolding or_zero_text serial_key
or_zero_text-hex n = elim (Bool-cases (n == 0)) [
  | inl e ↦ let z : n ≡ 0 = ground arith in rw (z, digits-zero 16) refl
  | inr e ↦ rw e (nonempty (hex n) (hex-ne n (λ z. ground arith)))
]
  where
    nonempty : (s : Text) → s ≢ [] → or_zero_text s ≡ s
    nonempty [] h = absurd (h refl)
    nonempty (c ∷ s) h = refl

-- The serial of an identity, as the manager shows and stores it (bytes in upper-case hex, joined by
-- colons), normalises to the key under which the denylist and the CRLs are searched.
pub normalize_serial-format_serial : (n : ℕ) → normalize_serial (format_serial n) ≡ serial_key n
unfolding normalize_serial format_serial
normalize_serial-format_serial n =
    let below = or_zero-Below (big_bytes n) (digits-Below 254 (n + 1) n (omega arith)) in
    rw
      (
        trim_space-NoSpace _ (join_colon-NoSpace (or_zero (big_bytes n)) below),
        canon-join_colon (or_zero (big_bytes n)) below,
        strip-or_zero (big_bytes n),
      )
      (ap or_zero_text (strip-pairs (n + 1) n (omega arith)) ∙ or_zero_text-hex n)

-- ===== src/Audit/Fields.antt =====
-- The text that an event's hash covers determines the event's fields.
use Prim.Native.Nat.{Ordering, compare}
use Prim.Native.Char.{Char, code}
use Prim.Native.String.{String, ◌++◌, len, slice, ◌∷◌ as ◌::◌}
use Prim.Native.String.append
use text.Mathlib.TextPositions.{slice-append_left}
use text.Mathlib.TextLemmas.{append_cancel_left, head-eq_of_cons-eq, tail-eq_of_cons-eq}
use text.Mathlib.TextEquality.{Char-path}
use mathlib.Core.Path.{ap₂}
use manager.Prelude.{
  ℕ, ◌+◌, ◌-◌, ◌<◌, ◌≡◌, ◌≢◌, refl, sym, ap, ◌∙◌, List, [], ◌∷◌, map, length, ◌==◌, nat_eq, arith,
  Bool-cases, inl, inr,
}
use manager.OperatorCa.Serial.{Text, digits, lower_digit}
use manager.OperatorCa.Serial.Digits.{Below, digits-Below, from_digits, from_digits-digits}
use manager.Audit.{char_at_order, char_of, string_of, itoa, write_field, write_fields}

-- Characters with different codes differ.
code-char_at_order :
    (n : ℕ) (o : Ordering) (h : compare n 55296 ≡ o)
    → o ≡ Ordering.lt
    → code (char_at_order n o h) ≡ n
unfolding char_at_order
code-char_at_order n Ordering.lt h e = refl
code-char_at_order n Ordering.eq h e = cc
code-char_at_order n Ordering.gt h e = cc

code-char_of : (n : ℕ) → n < 55296 → code (char_of n) ≡ n
unfolding char_of
code-char_of n h = code-char_at_order n (compare n 55296) refl (ground arith)

colon : Char
colon = char_of b':'

colon-ne : (d : ℕ) → d < b':' → colon ≢ char_of d
unfolding colon
colon-ne d h p =
    omega (arith, code-char_of b':' (omega arith), code-char_of d (omega arith), ap code p)

char_of-injective : (d e : ℕ) → d < 55296 → e < 55296 → char_of d ≡ char_of e → d ≡ e
char_of-injective d e hd he p = sym (code-char_of d hd) ∙ ap code p ∙ code-char_of e he

-- A run of digits ends at the first colon.
digits-colon :
    (ds es : Text) (x y : String)
    → Below b':' ds
    → Below b':' es
    → string_of ds ++ (colon :: x) ≡ string_of es ++ (colon :: y)
    → (ds ≡ es) × (x ≡ y)
unfolding string_of
digits-colon [] [] x y hd he h =
    let k = sym (append.nil (colon :: x)) ∙ h ∙ append.nil (colon :: y) in
    (refl, tail-eq_of_cons-eq k)
digits-colon [] (e ∷ es) x y hd he h =
    let k =
      sym (append.nil (colon :: x)) ∙ h ∙ append.cons (char_of e) (string_of es) (colon :: y) in
    absurd (colon-ne e he.0 (head-eq_of_cons-eq k))
digits-colon (d ∷ ds) [] x y hd he h =
    let k =
      sym (append.cons (char_of d) (string_of ds) (colon :: x)) ∙ h ∙ append.nil (colon :: y) in
    absurd (colon-ne d hd.0 (sym (head-eq_of_cons-eq k)))
digits-colon (d ∷ ds) (e ∷ es) x y hd he h =
    let k =
      sym (append.cons (char_of d) (string_of ds) (colon :: x))
      ∙ h
      ∙ append.cons (char_of e) (string_of es) (colon :: y) in
    let rest = digits-colon ds es x y hd.1 he.1 (tail-eq_of_cons-eq k) in
    (
      ap₂ (λ c s. c ∷ s)
          (char_of-injective d e (omega (arith, hd.0)) (omega (arith, he.0)) (head-eq_of_cons-eq k))
          rest.0,
      rest.1,
    )

-- Itoa writes digits only, and different numbers differently.
itoa-Below : (n : ℕ) → Below b':' (itoa n)
unfolding itoa
itoa-Below n = elim (Bool-cases (n == 0)) [
  | inl e ↦ rw e (omega arith, tt)
  | inr e ↦ rw e (digits-only (digits 10 n) (digits-Below 8 (n + 1) n (omega arith)))
]
  where
    digits-only : (ds : List ℕ) → Below 10 ds → Below b':' (map lower_digit ds)
    digits-only [] h = tt
    digits-only (d ∷ ds) h = (unfold lower_digit in ground (arith, h.0), digits-only ds h.1)

value : Text → ℕ
value s = from_digits 10 0 (map (λ c. c - b'0') s)

value-itoa : (n : ℕ) → value (itoa n) ≡ n
unfolding itoa value
value-itoa n = elim (Bool-cases (n == 0)) [
  | inl e ↦ let z : n ≡ 0 = ground arith in rw z (unfold from_digits in refl)
  | inr e ↦
      rw (e, back (digits 10 n) (digits-Below 8 (n + 1) n (omega arith)))
        (from_digits-digits 8 (n + 1) n (omega arith))
]
  where
    back : (ds : List ℕ) → Below 10 ds → map (λ c. c - b'0') (map lower_digit ds) ≡ ds
    back [] h = refl
    back (d ∷ ds) h = rw (back ds h.1, one d h.0) refl
      where
        one : (d : ℕ) → d < 10 → lower_digit d - b'0' ≡ d
        one d h = unfold lower_digit in ground arith

itoa-injective : (m n : ℕ) → itoa m ≡ itoa n → m ≡ n
itoa-injective m n h = sym (value-itoa m) ∙ ap value h ∙ value-itoa n

-- Texts of one length that begin two equal texts are equal, and so are the rests.
pub append-injective : (s t x y : String) → len s ≡ len t → s ++ x ≡ t ++ y → (s ≡ t) × (x ≡ y)
append-injective s t x y l h =
    let p : s ≡ t =
      sym (slice-append_left s x) ∙ ap₂ (λ u k. slice u 0 k) h l ∙ slice-append_left t y in
    (p, append_cancel_left t x y (ap (λ u. u ++ x) (sym p) ∙ h))

-- A field can be read back, whatever it holds.
write_field-injective : (f g x y : String) → write_field f x ≡ write_field g y → (f ≡ g) × (x ≡ y)
unfolding write_field
write_field-injective f g x y h =
    let k = append_cancel_left "\n" _ _ h in
    let q =
      digits-colon (itoa (len f)) (itoa (len g)) (f ++ x) (g ++ y) (itoa-Below (len f))
        (itoa-Below (len g))
        (ap (λ u. string_of (itoa (len f)) ++ u) (sym (colon_text (f ++ x)))
          ∙ k
          ∙ ap (λ u. string_of (itoa (len g)) ++ u) (colon_text (g ++ y))) in
    append-injective f g x y (itoa-injective (len f) (len g) q.0) q.1
  where
    colon_text : (s : String) → ":" ++ s ≡ colon :: s
    colon_text s =
        ap (λ (c : Char). (c :: "") ++ s)
          (Char-path ":" colon (sym (unfold colon in code-char_of b':' (omega arith))))
        ∙ append.cons colon "" s
        ∙ ap (λ u. colon :: u) (append.nil s)

pub write_fields-injective :
    (fs gs : List String) → length fs ≡ length gs → write_fields fs ≡ write_fields gs → fs ≡ gs
unfolding write_fields
write_fields-injective [] [] l h = refl
write_fields-injective [] (g ∷ gs) l h = absurd (omega (arith, l))
write_fields-injective (f ∷ fs) [] l h = absurd (omega (arith, l))
write_fields-injective (f ∷ fs) (g ∷ gs) l h =
    let q = write_field-injective f g (write_fields fs) (write_fields gs) h in
    ap₂ (λ u us. u ∷ us) q.0 (write_fields-injective fs gs (omega (arith, l)) q.1)

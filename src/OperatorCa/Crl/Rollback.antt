-- ===== src/OperatorCa/Crl/Rollback.antt =====
-- A stored CRL is only ever replaced by a newer one.
use manager.Prelude.{
  ℕ, ◌<◌, ◌≡◌, ◌≢◌, refl, ◌∙◌, ◌⊎◌, inl, inr, true, false, Option, none, some, [], ◌∷◌, ltb, nat_eq,
  bytes_eq, list_beq, list_beq_iff, ok, arith, Bool-cases,
}
use manager.OperatorCa.Base.{Bytes}
use manager.OperatorCa.Crl.{
  VerifiedCrl, OperatorCrl, newer_number, same_der, accept_if, accept_newer,
}

-- What stands in the store after `next` is put with `accept_newer` as the rule.
abbrev pub row_of : VerifiedCrl → OperatorCrl → OperatorCrl
row_of next r = record r {
  der = some next.der;
  number = next.number;
  this_update = next.list.this_update;
  next_update = next.list.next_update;
}

-- The order by which one CRL is newer: by number where both have one, else by thisUpdate.
pub data Newer (old : OperatorCrl) (next : VerifiedCrl) : Type 0 where
  by_number : (m n : ℕ) → old.number ≡ some m → next.number ≡ some n → m < n → Newer old next
  by_date :
      (old.number ≡ none) ⊎ (next.number ≡ none)
      → old.this_update < next.list.this_update
      → Newer old next

Newer-number_cases :
    (old : OperatorCrl) (next : VerifiedCrl) (o n : Option ℕ)
    → old.number ≡ o
    → next.number ≡ n
    → same_der old.der next.der ≡ false
    → accept_newer (some old) next ≡ ok true
    → Newer old next
unfolding accept_newer newer_number accept_if
Newer-number_cases old next none n ho hn d h = by_date (inl ho) (ground arith)
Newer-number_cases old next (some a) none ho hn d h = by_date (inr hn) (ground arith)
Newer-number_cases old next (some a) (some b) ho hn d h = by_number a b ho hn (ground arith)

-- A CRL is accepted over a stored one only if it is newer, by number where both have one and else
-- by date, and not the same bytes.
pub accept_newer-Newer :
    (old : OperatorCrl) (next : VerifiedCrl)
    → accept_newer (some old) next ≡ ok true
    → Newer old next × (old.der ≢ some next.der)
unfolding accept_newer same_der
accept_newer-Newer old next h = elim (Bool-cases (same_der old.der next.der)) [
  | inl e ↦ let stuck : ok false ≡ ok true = rw (e, accept_newer) at h in cc
  | inr e ↦ (Newer-number_cases old next old.number next.number refl refl e h, differ old.der e)
]
  where
    differ : (o : Option Bytes) → same_der o next.der ≡ false → o ≢ some next.der
    differ none e k = cc
    differ (some b) e k = ground (arith, list_beq_iff b next.der)

accept_number :
    (old : OperatorCrl) (next : VerifiedCrl) (m n : ℕ)
    → same_der old.der next.der ≡ false
    → old.number ≡ some m
    → next.number ≡ some n
    → accept_newer (some old) next ≡ accept_if (ltb m n)
unfolding accept_newer newer_number
accept_number old next m n d ho hn = rw (d, accept_newer, ho, hn, newer_number) refl

same_der_sound :
    (o : Option Bytes) (next : Bytes) → o ≢ some next → next ≢ [] → same_der o next ≡ false
unfolding same_der
same_der_sound none [] h k = absurd (k refl)
same_der_sound none (x ∷ xs) h k = unfold list_beq in refl
same_der_sound (some b) next h k = ground (arith, h, list_beq_iff b next)

-- A newer CRL, by number where both have one and else by date, with other bytes than the stored
-- ones and some bytes at all, is accepted.
pub Newer-accept_newer :
    (old : OperatorCrl) (next : VerifiedCrl)
    → Newer old next
    → old.der ≢ some next.der
    → next.der ≢ []
    → accept_newer (some old) next ≡ ok true
unfolding accept_newer accept_if
Newer-accept_newer old next (by_number m n ho hn lt) d k =
    accept_number old next m n (same_der_sound old.der next.der d k) ho hn ∙ ground arith
Newer-accept_newer old next (by_date missing lt) d k =
    rw (same_der_sound old.der next.der d k, accept_newer, undecided old.number next.number missing)
      (ground arith)
  where
    undecided : (o n : Option ℕ) → (o ≡ none) ⊎ (n ≡ none) → newer_number o n ≡ none
    undecided none n h = unfold newer_number in refl
    undecided (some a) none h = unfold newer_number in refl
    undecided (some a) (some b) h = ground arith

-- Once a CRL was accepted over a stored one and replaced it, a CRL with the number and the date of
-- the replaced one is not accepted over it.
pub accept_newer_back :
    (old : OperatorCrl) (next back : VerifiedCrl)
    → accept_newer (some old) next ≡ ok true
    → back.number ≡ old.number
    → back.list.this_update ≡ old.this_update
    → accept_newer (some (row_of next old)) back ≢ ok true
accept_newer_back old next back h hn ht k =
    clash (accept_newer-Newer old next h).0 (accept_newer-Newer (row_of next old) back k).0
  where
    clash : Newer old next → Newer (row_of next old) back → ⊥
    clash (by_number m n a b lt) (by_number p q c d gt) = ground (arith, a, b, c, d, hn)
    clash (by_number m n a b lt) (by_date c gt) = ground (arith, a, b, c, hn)
    clash (by_date a lt) (by_number p q c d gt) = ground (arith, a, c, d, hn)
    clash (by_date a lt) (by_date c gt) = ground (arith, ht)

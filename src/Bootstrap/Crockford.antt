-- ===== src/Bootstrap/Crockford.antt =====
-- Crockford base32: its loops end, 32 bytes take 52 characters, and all of them are of the alphabet.
use manager.Prelude.{
  ℕ, zero, suc, ◌+◌, ◌-◌, ◌*◌, ◌/◌, ◌%◌, ◌^◌, ◌≤◌, ◌<◌, ◌≡◌, inl, inr, true, List, [], ◌∷◌, ◌++◌,
  ltb, leb, nat_eq, length, length-append, member, Bool-cases, arith, All,
}
use manager.OperatorCa.Base.{Bytes}
use manager.OperatorCa.Serial.{Text}
use manager.Bootstrap.Tokens.{
  token_body_length, crockford_alphabet, nth, crockford_char, drain, crockford_from, crockford,
}

-- As many rounds as there are bits are enough for the inner loop of crockford: it ends with fewer than five
-- bits, and what it wrote took the others, five for each character.
pub drain-bits :
    (fuel acc bits : ℕ)
    → bits ≤ fuel
    → (length (drain fuel acc bits).0 * 5 + (drain fuel acc bits).1 ≡ bits)
      × ((drain fuel acc bits).1 < 5)
unfolding drain
drain-bits zero acc bits h = (omega arith, omega arith)
drain-bits (suc fuel) acc bits h = elim (Bool-cases (leb 5 bits)) [
  | inl e ↦
      let (sum, few) = drain-bits fuel acc (bits - 5) (ground (arith, e)) in
      rw e (ground (arith, e, sum), few)
  | inr e ↦ rw e (omega arith, ground (arith, e))
]

-- Each character takes five bits of what there is, and the last one what is left.
crockford_from-length :
    (acc bits : ℕ) (b : Bytes)
    → bits < 5
    → (bits + length b * 8 ≤ length (crockford_from acc bits b) * 5)
      × (length (crockford_from acc bits b) * 5 < bits + length b * 8 + 5)
unfolding crockford_from
crockford_from-length acc bits [] h = (ground (arith, h), ground (arith, h))
crockford_from-length acc bits (c ∷ cs) h =
    let word = (acc * 256 + c) % 2 ^ 64 in
    let d = drain (bits + 8) word (bits + 8) in
    let (sum, few) = drain-bits (bits + 8) word (bits + 8) (omega arith) in
    let (lo, hi) = crockford_from-length word d.1 cs few in
    let both = length-append d.0 (crockford_from word d.1 cs) in
    (omega (arith, sum, lo, both), omega (arith, sum, hi, both))

pub length-crockford : (b : Bytes) → length b ≡ 32 → length (crockford b) ≡ token_body_length
unfolding crockford
length-crockford b h =
    let (lo, hi) = crockford_from-length 0 0 b (omega arith) in omega (arith, lo, hi, h)

-- A character of the alphabet.
abbrev pub InAlphabet : ℕ → Type 0
InAlphabet c = member crockford_alphabet c ≡ true

nth-member : (s : Text) (i : ℕ) → i < length s → member s (nth s i) ≡ true
unfolding nth member
nth-member [] i h = absurd (omega (arith, h))
nth-member (c ∷ s) zero h = ground arith
nth-member (c ∷ s) (suc i) h = ground (arith, nth-member s i (omega (arith, h)))

pub crockford_char-InAlphabet : (i : ℕ) → InAlphabet (crockford_char i)
unfolding crockford_char
crockford_char-InAlphabet i = nth-member crockford_alphabet (i % 32) (omega arith)

drain-InAlphabet : (fuel acc bits : ℕ) → All InAlphabet (drain fuel acc bits).0
unfolding drain
drain-InAlphabet zero acc bits = tt
drain-InAlphabet (suc fuel) acc bits = elim (Bool-cases (leb 5 bits)) [
  | inl e ↦
      rw e (crockford_char-InAlphabet (acc / 2 ^ (bits - 5)), drain-InAlphabet fuel acc (bits - 5))
  | inr e ↦ rw e tt
]

pub All-append {ℓ κ} :
    {A : Type ℓ} (P : A → Type κ) (xs ys : List A) → All P xs → All P ys → All P (xs ++ ys)
All-append P [] ys a b = b
All-append P (x ∷ xs) ys a b = (a.0, All-append P xs ys a.1 b)

crockford_from-InAlphabet : (acc bits : ℕ) (b : Bytes) → All InAlphabet (crockford_from acc bits b)
unfolding crockford_from
crockford_from-InAlphabet acc bits [] = elim (Bool-cases (ltb 0 bits)) [
  | inl e ↦ rw e (crockford_char-InAlphabet (acc * 2 ^ (5 - bits)), tt)
  | inr e ↦ rw e tt
]
crockford_from-InAlphabet acc bits (c ∷ cs) =
    let word = (acc * 256 + c) % 2 ^ 64 in
    let d = drain (bits + 8) word (bits + 8) in
    All-append InAlphabet d.0 (crockford_from word d.1 cs)
      (drain-InAlphabet (bits + 8) word (bits + 8)) (crockford_from-InAlphabet word d.1 cs)

pub crockford-InAlphabet : (b : Bytes) → All InAlphabet (crockford b)
unfolding crockford
crockford-InAlphabet b = crockford_from-InAlphabet 0 0 b

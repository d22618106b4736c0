-- ===== src/Bootstrap/Tokens.antt =====
-- internal/bootstrap/token.go: the form of bootstrap tokens and session secrets. A text is the list of
-- its runes. unicode.IsSpace and unicode.ToUpper are parameters; EqualFold with the prefix is
-- comparison of ASCII letters, since a rune of several bytes makes the cut prefix too short.
use manager.Prelude.{
  ℕ, zero, suc, ◌+◌, ◌-◌, ◌*◌, ◌/◌, ◌%◌, ◌^◌, Bool, Option, none, some, List, [], ◌∷◌, ◌++◌, map,
  ltb, leb, ◌==◌, nat_eq, if◌then◌else◌, length, member,
}
use manager.OperatorCa.Base.{Bytes}
use manager.OperatorCa.Serial.{Text, to_lower, trim_left, trim_right}

-- "fos_boot_"
abbrev pub token_prefix : Text
token_prefix = b'f' ∷ b'o' ∷ b's' ∷ b'_' ∷ b'b' ∷ b'o' ∷ b'o' ∷ b't' ∷ b'_' ∷ []

-- "fos_bsess_"
abbrev pub session_prefix : Text
session_prefix = b'f' ∷ b'o' ∷ b's' ∷ b'_' ∷ b'b' ∷ b's' ∷ b'e' ∷ b's' ∷ b's' ∷ b'_' ∷ []

abbrev pub token_body_length : ℕ
token_body_length = 52

-- "0123456789ABCDEFGHJKMNPQRSTVWXYZ"
abbrev pub crockford_alphabet : Text
crockford_alphabet =
    b'0' ∷ b'1' ∷ b'2' ∷ b'3' ∷ b'4' ∷ b'5' ∷ b'6' ∷ b'7' ∷ b'8' ∷ b'9' ∷ b'A' ∷ b'B' ∷ b'C' ∷ b'D'
    ∷ b'E' ∷ b'F' ∷ b'G' ∷ b'H' ∷ b'J' ∷ b'K' ∷ b'M' ∷ b'N' ∷ b'P' ∷ b'Q' ∷ b'R' ∷ b'S' ∷ b'T'
    ∷ b'V' ∷ b'W' ∷ b'X' ∷ b'Y' ∷ b'Z' ∷ []

unfoldable pub nth : Text → ℕ → ℕ
nth [] i = 0
nth (c ∷ s) zero = c
nth (c ∷ s) (suc i) = nth s i

unfoldable pub crockford_char : ℕ → ℕ
unfolding nth
crockford_char i = nth crockford_alphabet (i % 32)

-- The inner loop of crockford: the characters of the whole groups of five bits, and the bits left.
-- As many rounds as there are bits are enough.
unfoldable pub drain : ℕ → ℕ → ℕ → Text × ℕ
unfolding crockford_char
drain zero acc bits = ([], bits)
drain (suc fuel) acc bits =
    let rest = drain fuel acc (bits - 5) in
    if leb 5 bits then (crockford_char (acc / 2 ^ (bits - 5)) ∷ rest.0, rest.1) else ([], bits)

-- The loops of crockford from the state `acc` and `bits`. The accumulator is a 64-bit word.
unfoldable pub crockford_from : ℕ → ℕ → Bytes → Text
unfolding drain crockford_char
crockford_from acc bits [] = if ltb 0 bits then crockford_char (acc * 2 ^ (5 - bits)) ∷ [] else []
crockford_from acc bits (c ∷ cs) =
    let word = (acc * 256 + c) % 2 ^ 64 in
    let d = drain (bits + 8) word (bits + 8) in d.0 ++ crockford_from word d.1 cs

-- crockford
unfoldable pub crockford : Bytes → Text
unfolding crockford_from
crockford b = crockford_from 0 0 b

-- The groups of four; a body has a multiple of four characters.
unfoldable pub groups : Text → List Text
groups (a ∷ b ∷ c ∷ d ∷ s) = (a ∷ b ∷ c ∷ d ∷ []) ∷ groups s
groups _ = []

-- strings.Join(groups, "-")
unfoldable pub join_dash : List Text → Text
join_dash [] = []
join_dash (p ∷ []) = p
join_dash (p ∷ q ∷ ps) = p ++ (b'-' ∷ join_dash (q ∷ ps))

-- NewToken, on the 32 bytes that the random source gave, or its failure
unfoldable pub new_token : Option Bytes → Option Text
unfolding crockford groups join_dash
new_token none = none
new_token (some b) = some (token_prefix ++ join_dash (groups (crockford b)))

-- newSessionSecret
unfoldable pub new_session_secret : Option Bytes → Option Text
unfolding crockford
new_session_secret none = none
new_session_secret (some b) = some (session_prefix ++ crockford b)

-- What is left of a text after a prefix, where letters are the same if `f` takes them to one.
unfoldable pub strip : (ℕ → ℕ) → Text → Text → Option Text
strip f [] s = some s
strip f (p ∷ ps) [] = none
strip f (p ∷ ps) (c ∷ s) = let rest = strip f ps s in if f p == f c then rest else none

-- What a round of the loop of CanonicalToken does with a rune.
pub data Round : Type 0 where
  skips refuses : Round
  writes : ℕ → Round

unfoldable pub canonical_char : ℕ → Round
unfolding member
canonical_char c =
    if c == b'-'
    then skips
    else if c == b'O'
    then writes b'0'
    else if c == b'I'
    then writes b'1'
    else if c == b'L'
    then writes b'1'
    else if member crockford_alphabet c
    then writes c
    else refuses

unfoldable pub canonical_step : Round → Option Text → Option Text
canonical_step skips rest = rest
canonical_step refuses rest = none
canonical_step (writes c) none = none
canonical_step (writes c) (some body) = some (c ∷ body)

unfoldable pub canonical_body : Text → Option Text
unfolding canonical_char canonical_step
canonical_body [] = some []
canonical_body (c ∷ s) = canonical_step (canonical_char c) (canonical_body s)

unfoldable pub of_length : Option Text → Option Text
of_length none = none
of_length (some body) =
    if length body == token_body_length then some (token_prefix ++ body) else none

unfoldable pub canonical_rest : (ℕ → ℕ) → Option Text → Option Text
unfolding canonical_body of_length
canonical_rest upper none = none
canonical_rest upper (some s) = of_length (canonical_body (map upper s))

-- CanonicalToken
unfoldable pub canonical_token : (ℕ → Bool) → (ℕ → ℕ) → Text → Option Text
unfolding trim_left trim_right strip to_lower canonical_rest
canonical_token space upper s =
    canonical_rest upper (strip to_lower token_prefix (trim_left space (trim_right space s)))

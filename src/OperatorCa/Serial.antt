-- ===== src/OperatorCa/Serial.antt =====
-- Certificate serials as text: SerialKey and NormalizeSerial of internal/operatorca/certcheck.go and
-- formatSerial of internal/authz/middleware.go. A text is the list of its characters' codes.
pub mod Digits
pub mod Pairs
pub mod Forms
pub mod Keys
use manager.Prelude.{
  ℕ, zero, suc, ◌+◌, ◌-◌, ◌/◌, ◌%◌, Bool, true, false, not, ◌&&◌, ◌||◌, List, [], ◌∷◌, ◌++◌, map,
  ◌≡◌, refl, nat_eq, ltb, leb, ◌==◌, if◌then◌else◌, keep,
}

abbrev pub Text : Type 0
Text = List ℕ

-- hexdigits[d], and the digits of "%x"
unfoldable pub upper_digit : ℕ → ℕ
upper_digit d = if ltb d 10 then b'0' + d else b'A' + (d - 10)

unfoldable pub lower_digit : ℕ → ℕ
lower_digit d = if ltb d 10 then b'0' + d else b'a' + (d - 10)

-- The digits of `n` in the base `b`, most significant first, none for 0.
-- As many rounds as `n` are enough for b > 1.
unfoldable pub digits_fuel : ℕ → ℕ → ℕ → List ℕ → List ℕ
digits_fuel zero b n acc = acc
digits_fuel (suc fuel) b n acc =
    let rest = digits_fuel fuel b (n / b) ((n % b) ∷ acc) in if n == 0 then acc else rest

unfoldable pub digits : ℕ → ℕ → List ℕ
unfolding digits_fuel
digits b n = digits_fuel n b n []

-- fmt.Sprintf("%x", n)
unfoldable pub serial_key : ℕ → Text
unfolding digits lower_digit
serial_key n = if n == 0 then b'0' ∷ [] else map lower_digit (digits 16 n)

-- n.Bytes()
unfoldable pub big_bytes : ℕ → List ℕ
unfolding digits
big_bytes n = digits 256 n

unfoldable pub hex_pair : ℕ → Text
unfolding upper_digit
hex_pair by = upper_digit (by / 16) ∷ upper_digit (by % 16) ∷ []

-- strings.Join(parts, ":")
unfoldable pub join_colon : List Text → Text
join_colon [] = []
join_colon (p ∷ []) = p
join_colon (p ∷ q ∷ ps) = p ++ (b':' ∷ join_colon (q ∷ ps))

unfoldable pub or_zero : List ℕ → List ℕ
or_zero [] = 0 ∷ []
or_zero (b ∷ bs) = b ∷ bs

unfoldable pub format_serial : ℕ → Text
unfolding big_bytes hex_pair join_colon or_zero
format_serial n = join_colon (map hex_pair (or_zero (big_bytes n)))

-- strings.ToLower on ASCII
unfoldable pub to_lower : ℕ → ℕ
to_lower c = if leb b'A' c && leb c b'Z' then c + 32 else c

unfoldable pub is_space : ℕ → Bool
is_space c = (leb 9 c && leb c 13) || c == 32

unfoldable pub trim_left : (ℕ → Bool) → Text → Text
trim_left p [] = []
trim_left p (c ∷ s) = let rest = trim_left p s in if p c then rest else c ∷ s

unfoldable pub keep_last : (ℕ → Bool) → ℕ → Text → Text
keep_last p c [] = if p c then [] else c ∷ []
keep_last p c (d ∷ t) = c ∷ d ∷ t

unfoldable pub trim_right : (ℕ → Bool) → Text → Text
unfolding keep_last
trim_right p [] = []
trim_right p (c ∷ s) = keep_last p c (trim_right p s)

unfoldable pub trim_space : Text → Text
unfolding is_space trim_left trim_right
trim_space s = trim_left is_space (trim_right is_space s)

unfoldable pub drop_colons : Text → Text
drop_colons = keep (λ c. not (c == b':'))

unfoldable pub or_zero_text : Text → Text
or_zero_text [] = b'0' ∷ []
or_zero_text (c ∷ s) = c ∷ s

unfoldable pub normalize_serial : Text → Text
unfolding to_lower trim_space drop_colons trim_left or_zero_text keep
normalize_serial s =
    or_zero_text (trim_left (λ c. c == b'0') (drop_colons (map to_lower (trim_space s))))

serial_forms : normalize_serial (b' ' ∷ b'0' ∷ b'A' ∷ b':' ∷ b'b' ∷ b'1' ∷ []) ≡ serial_key 0xab1
unfolding normalize_serial serial_key
serial_forms = refl

format_forms : format_serial 0xab1 ≡ b'0' ∷ b'A' ∷ b':' ∷ b'B' ∷ b'1' ∷ []
unfolding format_serial
format_forms = refl

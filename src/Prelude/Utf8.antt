-- ===== src/Prelude/Utf8.antt =====
-- The bytes of a text: UTF-8, as Go keeps strings.
use Prim.Native.Nat.{ℕ, ◌+◌, ◌/◌, ◌%◌}
use Prim.Native.Char.{code}
use Prim.Native.String.{String}
use Prim.Native.String as Str
use mathlib.Core.List.{List, [], ◌∷◌, ◌++◌}
use manager.Prelude.Tests.{ltb, if◌then◌else◌}

-- The bytes of a character.
utf8_char : ℕ → List ℕ
utf8_char c =
    if ltb c 128
    then c ∷ []
    else if ltb c 2048
    then (192 + c / 64) ∷ (128 + c % 64) ∷ []
    else if ltb c 65_536
    then (224 + c / 4096) ∷ (128 + c / 64 % 64) ∷ (128 + c % 64) ∷ []
    else (240 + c / 262_144) ∷ (128 + c / 4096 % 64) ∷ (128 + c / 64 % 64) ∷ (128 + c % 64) ∷ []

unfoldable pub utf8 : String → List ℕ
unfolding utf8_char
utf8 Str.[] = []
utf8 (Str.◌∷◌ c s) = utf8_char (code c) ++ utf8 s

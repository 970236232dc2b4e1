-- ===== src/Prelude/Texts.antt =====
-- Texts: searching in them, and numbers in hexadecimal.
use Prim.Native.Char.{code}
use Prim.Native.String.{String, ◌++◌}
use Prim.Native.Nat.{ℕ, zero, suc, ◌/◌, ◌%◌}
use mathlib.Core.Bool.{Bool, true, false, ◌&&◌, ◌||◌}
use mathlib.Core.List.{List}
use dexmoney.Prelude.Tests.{◌==◌}

-- `text.starts_with(pattern)`
abbrev pub starts_with : String → String → Bool
starts_with text String.[] = true
starts_with String.[] (String.◌∷◌ p pattern) = false
starts_with (String.◌∷◌ c text) (String.◌∷◌ p pattern) =
    code c == code p && starts_with text pattern

-- `text.contains(pattern)`
abbrev pub text_contains : String → String → Bool
text_contains String.[] pattern = starts_with String.[] pattern
text_contains (String.◌∷◌ c text) pattern =
    starts_with (String.◌∷◌ c text) pattern || text_contains text pattern

-- the text of one character of a text
abbrev pub letter : String → ℕ → String
letter String.[] n = String.[]
letter (String.◌∷◌ c text) zero = String.◌∷◌ c String.[]
letter (String.◌∷◌ c text) (suc n) = letter text n

-- the last digits of a number in base 16
abbrev pub hex_digits : ℕ → ℕ → String
hex_digits zero v = String.[]
hex_digits (suc n) v = hex_digits n (v / 16) ++ letter "0123456789abcdef" (v % 16)

-- `parts.join(separator)`
abbrev pub join : String → List String → String
join separator List.[] = String.[]
join separator (List.◌∷◌ part List.[]) = part
join separator (List.◌∷◌ part (List.◌∷◌ next parts)) =
    part ++ separator ++ join separator (List.◌∷◌ next parts)

-- ===== src/MarketData/Decode/RoundTrip.antt =====
-- A tick that is written as a word of 32 bytes and read again.
use dexmoney.Prelude.{
  ℕ, zero, suc, ◌+◌, ◌-◌, ◌*◌, ◌/◌, ◌%◌, ◌^◌, ◌≤◌, ◌<◌, false, some, ok, List, [], ◌∷◌, ◌++◌, ◌==◌,
  ◌≡◌, refl, ap, ◌∙◌, length, length-append, drop, arith,
}
use dexmoney.Prelude.Int.{ℤ, pos, negsuc, ◌≤ℤ◌}
use dexmoney.MarketData.Decode.{
  Text, hex_digit, hex_value, parse_u32_hex, signed_i24, decode_i24_word, hex_char, hex_text,
  repeat, encode_i24_word,
}

hex_digit-hex_char : (d : ℕ) → d < 16 → hex_digit (hex_char d) ≡ some d
unfolding hex_digit hex_char
hex_digit-hex_char d h = ground arith

hex_char-ne-plus : (d : ℕ) → d < 16 → (hex_char d == b'+') ≡ false
unfolding hex_char
hex_char-ne-plus d h = ground arith

length-hex_text : (n v : ℕ) → length (hex_text n v) ≡ n
unfolding hex_text
length-hex_text zero v = refl
length-hex_text (suc n) v = omega (
  arith,
  length-append (hex_text n (v / 16)) (hex_char (v % 16) ∷ []),
  length-hex_text n (v / 16),
)

drop-append {ℓ} :
    {A : Type ℓ} (k : ℕ) (xs ys : List A) → k ≤ length xs → drop k (xs ++ ys) ≡ drop k xs ++ ys
drop-append zero xs ys h = refl
drop-append (suc k) [] ys h = absurd (omega arith)
drop-append (suc k) (x ∷ xs) ys h = drop-append k xs ys (omega arith)

drop-all {ℓ} : {A : Type ℓ} (k : ℕ) (xs : List A) → length xs ≡ k → drop k xs ≡ []
drop-all zero [] h = refl
drop-all zero (x ∷ xs) h = absurd (omega arith)
drop-all (suc k) [] h = absurd (omega arith)
drop-all (suc k) (x ∷ xs) h = drop-all k xs (omega arith)

-- The last digits are those of the shorter text.
drop-hex_text : (n k m v : ℕ) → m ≡ k + n → drop k (hex_text m v) ≡ hex_text n v
unfolding hex_text
drop-hex_text zero k m v h = drop-all k (hex_text m v) (omega (arith, length-hex_text m v))
drop-hex_text (suc n) k zero v h = absurd (omega arith)
drop-hex_text (suc n) k (suc m) v h =
    drop-append k (hex_text m (v / 16)) _ (omega (arith, length-hex_text m (v / 16)))
    ∙ rw (drop-hex_text n k m (v / 16) (omega arith))

-- One more digit is read.
hex_value-hex_char :
    (value d : ℕ) (rest : Text)
    → d < 16
    → value * 16 + d < 2 ^ 32
    → hex_value value (hex_char d ∷ rest) ≡ hex_value (value * 16 + d) rest
unfolding hex_value
hex_value-hex_char value d rest h k = rw (hex_digit-hex_char d h) (ground arith)

parse_u32_hex-digit :
    (c : ℕ) (rest : Text) → (c == b'+') ≡ false → parse_u32_hex (c ∷ rest) ≡ hex_value 0 (c ∷ rest)
unfolding parse_u32_hex
parse_u32_hex-digit c rest h = rw h

hex_value-nil : {a b : ℕ} → a ≡ b → hex_value a [] ≡ some b
unfolding hex_value
hex_value-nil h = ap some h

-- The number that six digits stand for.
hex_number : ℕ → ℕ → ℕ → ℕ → ℕ → ℕ → ℕ
hex_number a b c d e f = ((((a * 16 + b) * 16 + c) * 16 + d) * 16 + e) * 16 + f

hex_value-six :
    (a b c d e f : ℕ)
    → a < 16
    → b < 16
    → c < 16
    → d < 16
    → e < 16
    → f < 16
    → hex_value 0 (hex_char a ∷ hex_char b ∷ hex_char c ∷ hex_char d ∷ hex_char e ∷ hex_char f ∷ [])
      ≡ some (hex_number a b c d e f)
unfolding hex_number
hex_value-six a b c d e f ha hb hc hd he hf =
    hex_value-hex_char 0 a _ ha (omega arith)
    ∙ hex_value-hex_char (0 * 16 + a) b _ hb (omega arith)
    ∙ hex_value-hex_char ((0 * 16 + a) * 16 + b) c _ hc (omega arith)
    ∙ hex_value-hex_char (((0 * 16 + a) * 16 + b) * 16 + c) d _ hd (omega arith)
    ∙ hex_value-hex_char ((((0 * 16 + a) * 16 + b) * 16 + c) * 16 + d) e _ he (omega arith)
    ∙ hex_value-hex_char (((((0 * 16 + a) * 16 + b) * 16 + c) * 16 + d) * 16 + e) f _ hf
        (omega arith)
    ∙ hex_value-nil (omega arith)

hex_text-six :
    (v : ℕ)
    → hex_text 6 v
      ≡ hex_char (v / 16 / 16 / 16 / 16 / 16 % 16)
        ∷ hex_char (v / 16 / 16 / 16 / 16 % 16)
        ∷ hex_char (v / 16 / 16 / 16 % 16)
        ∷ hex_char (v / 16 / 16 % 16)
        ∷ hex_char (v / 16 % 16)
        ∷ hex_char (v % 16)
        ∷ []
unfolding hex_text
hex_text-six v = refl

six_digits :
    (v : ℕ)
    → v < 2 ^ 24
    → hex_number
        (v / 16 / 16 / 16 / 16 / 16 % 16)
        (v / 16 / 16 / 16 / 16 % 16)
        (v / 16 / 16 / 16 % 16)
        (v / 16 / 16 % 16)
        (v / 16 % 16)
        (v % 16)
      ≡ v
unfolding hex_number
six_digits v h = omega arith

signed-low : (v : ℕ) → v < 2 ^ 23 → signed_i24 v ≡ pos v
unfolding signed_i24
signed-low v h = ground arith

signed-high : (n : ℕ) → n < 2 ^ 23 → signed_i24 (2 ^ 24 - (n + 1)) ≡ negsuc n
unfolding signed_i24
signed-high n h = ground arith

parse-hex_text : (v : ℕ) → v < 2 ^ 24 → parse_u32_hex (hex_text 6 v) ≡ some v
parse-hex_text v h = rw (
  hex_text-six v,
  parse_u32_hex-digit (hex_char (v / 16 / 16 / 16 / 16 / 16 % 16)) _
      (hex_char-ne-plus (v / 16 / 16 / 16 / 16 / 16 % 16) (omega arith)),
  hex_value-six (v / 16 / 16 / 16 / 16 / 16 % 16) (v / 16 / 16 / 16 / 16 % 16)
      (v / 16 / 16 / 16 % 16) (v / 16 / 16 % 16) (v / 16 % 16) (v % 16) (omega arith) (omega arith)
      (omega arith) (omega arith) (omega arith) (omega arith),
  six_digits v h,
)

decode-word :
    (word : Text) (v : ℕ)
    → length word ≡ 64
    → drop 58 word ≡ hex_text 6 v
    → v < 2 ^ 24
    → decode_i24_word word ≡ ok (signed_i24 v)
unfolding decode_i24_word
decode-word word v count last h = rw (count, last, parse-hex_text v h) refl

-- A tick of 24 bits, written as a word and read again, is the tick.
pub decode_i24_word-encode_i24_word :
    (tick : ℤ)
    → negsuc 8_388_607 ≤ℤ tick
    → tick ≤ℤ pos 8_388_607
    → decode_i24_word (encode_i24_word tick) ≡ ok tick
unfolding encode_i24_word signed_i24
decode_i24_word-encode_i24_word (pos v) low high =
    decode-word (hex_text 64 v) v (length-hex_text 64 v) (drop-hex_text 6 58 64 v refl)
      (omega arith)
    ∙ ap ok (signed-low v (omega arith))
decode_i24_word-encode_i24_word (negsuc n) low high =
    decode-word (repeat 58 b'f' ++ hex_text 6 (2 ^ 24 - (n + 1))) (2 ^ 24 - (n + 1)) (omega arith)
      refl (omega arith)
    ∙ ap ok (signed-high n (omega arith))

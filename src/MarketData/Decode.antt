-- ===== src/MarketData/Decode.antt =====
-- crates/market-data/src/state_updater.rs: decoding the words of events, with the encoder of a tick in
-- crates/chain/src/provider.rs. A text is the list of its characters, all of them ASCII.
pub mod RoundTrip
use Prim.Native.String
use Prim.Native.String.{String}
use Prim.Native.Char.{code}
use dexmoney.Prelude.{
  ℕ, zero, suc, ◌+◌, ◌-◌, ◌*◌, ◌/◌, ◌%◌, ◌^◌, Bool, true, false, ◌&&◌, Option, none, some, Result,
  ok, err, ◌>>=◌, ok_or, List, [], ◌∷◌, ◌++◌, ltb, leb, ◌==◌, if◌then◌else◌, and_then, length, take,
  drop,
}
use dexmoney.Prelude.Int.{ℤ, pos, negsuc}
use dexmoney.Common.Pool.{Address}

abbrev pub Text : Type 0
Text = List ℕ

-- The characters of a literal.
abbrev pub codes : String → Text
codes String.[] = []
codes (String.◌∷◌ c s) = code c ∷ codes s

abbrev pub text_eq : Text → Text → Bool
text_eq [] [] = true
text_eq [] (d ∷ ds) = false
text_eq (c ∷ cs) [] = false
text_eq (c ∷ cs) (d ∷ ds) = c == d && text_eq cs ds

abbrev pub Decoded {ℓ} : Type ℓ → Type ℓ
Decoded A = Result String A

-- `trim_start_matches("0x")`
unfoldable pub trim_0x : Text → Text
trim_0x (c ∷ d ∷ rest) =
    let trimmed = trim_0x rest in if c == b'0' && d == b'x' then trimmed else c ∷ d ∷ rest
trim_0x text = text

-- `&text[first..last]`
abbrev pub slice : ℕ → ℕ → Text → Text
slice first last text = take (last - first) (drop first text)

unfoldable pub hex_digit : ℕ → Option ℕ
hex_digit c =
    if leb b'0' c && leb c b'9'
    then some (c - b'0')
    else if leb b'a' c && leb c b'f'
    then some (c - b'a' + 10)
    else if leb b'A' c && leb c b'F'
    then some (c - b'A' + 10)
    else none

-- The digits of a u32 in base 16, from the value of those before.
unfoldable pub hex_value : ℕ → Text → Option ℕ
unfolding hex_digit
hex_value value [] = some value
hex_value value (c ∷ rest) = and_then (hex_digit c) (λ digit.
    let next = hex_value (value * 16 + digit) rest in
    if ltb (value * 16 + digit) (2 ^ 32) then next else none)

-- `u32::from_str_radix(text, 16)`: a plus sign may stand before the digits, of which there is one at least.
unfoldable pub parse_u32_hex : Text → Option ℕ
unfolding hex_value
parse_u32_hex [] = none
parse_u32_hex (c ∷ rest) =
    if c == b'+'
    then elim rest [ [] ↦ none | d ∷ ds ↦ hex_value 0 (d ∷ ds) ]
    else hex_value 0 (c ∷ rest)

-- The low 24 bits of a word as a signed number.
unfoldable pub signed_i24 : ℕ → ℤ
signed_i24 low =
    if low / 2 ^ 23 % 2 == 0
    then pos low
    else if ltb low (2 ^ 24)
    then negsuc (2 ^ 24 - low - 1)
    else pos (low - 2 ^ 24)

unfoldable pub decode_i24_word : Text → Decoded ℤ
unfolding parse_u32_hex signed_i24
decode_i24_word word =
    if length word == 64
    then (do
      low ← ok_or (parse_u32_hex (drop (length word - 6) word)) "invalid digit"
      ok (signed_i24 low))
    else err "int24 ABI word must be 32 bytes"

-- A topic that is no text is none.
unfoldable pub decode_i24_topic : Option Text → Decoded ℤ
decode_i24_topic topic = do
  value ← ok_or topic "V3 indexed tick topic is not a string"
  decode_i24_word (trim_0x value)

-- `U256::from_str_radix(text, 16)` and the parser of an address are alloy's.
module _ (u256_from_hex : Text → Decoded ℕ) (parse_address : Text → Decoded Address) where
  unfoldable pub decode_balancer_swap : Text → Decoded (ℕ × ℕ × ℕ)
  decode_balancer_swap text =
      let clean = trim_0x text in
      if ltb (length clean) 192 then err "Balancer V3 Swap data too short" else (do
        amount_in ← u256_from_hex (slice 0 64 clean)
        amount_out ← u256_from_hex (slice 64 128 clean)
        swap_fee_percentage ← u256_from_hex (slice 128 192 clean)
        ok (amount_in, amount_out, swap_fee_percentage))

  unfoldable pub decode_address_topic : Option Text → Decoded Address
  decode_address_topic topic = do
    raw ← ok_or topic "indexed address topic is not a string"
    let clean = trim_0x raw
    if ltb (length clean) 40
        then err "indexed address topic too short"
        else parse_address (b'0' ∷ b'x' ∷ drop (length clean - 40) clean)

  unfoldable pub decode_sync_reserves : Text → Decoded (ℕ × ℕ)
  decode_sync_reserves text =
      let clean = trim_0x text in
      if ltb (length clean) 128 then err "Sync data too short" else (do
        reserve0 ← u256_from_hex (slice 0 64 clean)
        reserve1 ← u256_from_hex (slice 64 128 clean)
        ok (reserve0, reserve1))

  unfoldable pub decode_v3_swap_state : Text → Decoded (ℕ × ℕ × ℤ)
  decode_v3_swap_state text =
      let clean = trim_0x text in
      if ltb (length clean) 320 then err "V3 Swap data too short" else (do
        sqrt_price_x96 ← u256_from_hex (slice 128 192 clean)
        liquidity ← u256_from_hex (slice 192 256 clean)
        tick ← decode_i24_word (slice 256 320 clean)
        ok (sqrt_price_x96, liquidity, tick))

  unfoldable pub decode_v3_liquidity_amount : Text → Bool → Decoded ℕ
  decode_v3_liquidity_amount text is_mint =
      let clean = trim_0x text in
      let amount_start : ℕ = if is_mint then 64 else 0 in
      if ltb (length clean) (amount_start + 64)
      then err "V3 Mint/Burn data too short"
      else u256_from_hex (slice amount_start (amount_start + 64) clean)

-- crates/chain/src/provider.rs
unfoldable pub hex_char : ℕ → ℕ
hex_char digit = if ltb digit 10 then b'0' + digit else b'a' + (digit - 10)

-- `format!("{value:0nx}")` of a number with at most n digits
unfoldable pub hex_text : ℕ → ℕ → Text
unfolding hex_char
hex_text zero value = []
hex_text (suc n) value = hex_text n (value / 16) ++ hex_char (value % 16) ∷ []

abbrev pub repeat : ℕ → ℕ → Text
repeat zero c = []
repeat (suc n) c = c ∷ repeat n c

unfoldable pub encode_i24_word : ℤ → Text
unfolding hex_text
encode_i24_word (pos value) = hex_text 64 value
encode_i24_word (negsuc n) = repeat 58 b'f' ++ hex_text 6 (2 ^ 24 - (n + 1))

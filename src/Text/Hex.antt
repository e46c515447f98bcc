-- ===== src/Text/Hex.antt =====
-- What is printed with four hexadecimal digits is read back by `stoul`.
use tcp_1553_bus_analyzer.Prelude.{ℕ, ◌+◌, ◌*◌, ◌/◌, ◌%◌, ◌<◌, ◌≡◌, ap, ◌∙◌, ◌∷◌, [], some, arith}
use tcp_1553_bus_analyzer.Text.{hex_digit, hex4, hex_value, stoul_hex}

hex_value-hex_digit : (d : ℕ) → d < 16 → hex_value (hex_digit d) ≡ some d
unfolding hex_value hex_digit
hex_value-hex_digit d h = ground arith

-- No digit is a space, a sign or the `x` of a prefix.
hex_digit_range : (d : ℕ) → d < 16 → (47 < hex_digit d) × (hex_digit d < 71)
unfolding hex_digit
hex_digit_range d h = ground arith

abbrev IsDigit : ℕ → ℕ → Type 0
IsDigit c v = (hex_value c ≡ some v) × (v < 16) × (47 < c) × (c < 71)

hex_digit-IsDigit : (n : ℕ) → IsDigit (hex_digit (n % 16)) (n % 16)
hex_digit-IsDigit n =
    let small : n % 16 < 16 = omega arith in
    let range = hex_digit_range (n % 16) small in
    (hex_value-hex_digit (n % 16) small, small, range.0, range.1)

stoul_hex-IsDigit :
    (a b c d p q r s : ℕ)
    → IsDigit a p
    → IsDigit b q
    → IsDigit c r
    → IsDigit d s
    → stoul_hex (a ∷ b ∷ c ∷ d ∷ []) ≡ some (((p * 16 + q) * 16 + r) * 16 + s)
unfolding stoul_hex
stoul_hex-IsDigit a b c d p q r s ha hb hc hd = ground arith

-- A 16-bit value survives printing and reading.
pub stoul_hex-hex4 : (w : ℕ) → w < 65536 → stoul_hex (hex4 w) ≡ some w
unfolding hex4
stoul_hex-hex4 w h =
    stoul_hex-IsDigit _ _ _ _ _ _ _ _ (hex_digit-IsDigit (w / 4096)) (hex_digit-IsDigit (w / 256))
      (hex_digit-IsDigit (w / 16)) (hex_digit-IsDigit w)
    ∙ ap some (omega arith)

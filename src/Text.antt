-- ===== src/Text.antt =====
-- Texts of the program as lists of character codes, and the conversions of numbers to text that
-- the code asks of the standard library (`std::to_string`, `operator<<` with `std::dec` or with
-- `std::hex << std::uppercase << std::setw(4) << std::setfill('0')`, `std::stoul` in base 16).
pub mod Hex
use Prim.Native.Char.{code}
use Prim.Native.String.{String}
use tcp_1553_bus_analyzer.Prelude.{
  ℕ, zero, suc, ◌+◌, ◌-◌, ◌*◌, ◌/◌, ◌%◌, ◌^◌, ◌≤◌, ◌<◌, Bool, true, false, ◌&&◌, ◌||◌, List, [],
  ◌∷◌, ◌++◌, Option, none, some, ltb, leb, ◌==◌, if◌then◌else◌,
}
use tcp_1553_bus_analyzer.Prelude.Int.{ℤ, pos, negsuc}

abbrev pub Text : Type 0
Text = List ℕ

-- Every literal of the model is ASCII, so these are its bytes.
abbrev pub codes : String → Text
codes String.[] = []
codes (String.◌∷◌ c s) = code c ∷ codes s

-- The fuel is the number itself plus one: each round divides it by ten.
decimal_onto : ℕ → ℕ → Text → Text
decimal_onto zero n out = out
decimal_onto (suc fuel) n out =
    let shown = (b'0' + n % 10) ∷ out in
    let rest = decimal_onto fuel (n / 10) shown in if ltb n 10 then shown else rest

unfoldable pub decimal : ℕ → Text
unfolding decimal_onto
decimal n = decimal_onto (suc n) n []

unfoldable pub decimal_int : ℤ → Text
unfolding decimal
decimal_int (pos n) = decimal n
decimal_int (negsuc n) = b'-' ∷ decimal (suc n)

-- `"0123456789ABCDEF"[d]`, for d below 16.
unfoldable pub hex_digit : ℕ → ℕ
hex_digit d = if ltb d 10 then b'0' + d else b'A' + (d - 10)

-- A 16-bit value in four upper-case digits.
unfoldable pub hex4 : ℕ → Text
hex4 w =
    hex_digit (w / 4096 % 16)
    ∷ hex_digit (w / 256 % 16)
    ∷ hex_digit (w / 16 % 16)
    ∷ hex_digit (w % 16)
    ∷ []

-- The two digits of a byte, as the log lines write them: `[b >> 4]` and `[b & 0x0F]`.
unfoldable pub hex2 : ℕ → Text
unfolding hex_digit
hex2 b = hex_digit (b / 16) ∷ hex_digit (b % 16) ∷ []

unfoldable pub hex_value : ℕ → Option ℕ
hex_value c =
    if leb b'0' c && leb c b'9'
    then some (c - b'0')
    else if leb b'A' c && leb c b'F'
    then some (c - b'A' + 10)
    else if leb b'a' c && leb c b'f'
    then some (c - b'a' + 10)
    else none

abbrev is_space : ℕ → Bool
is_space c = c == 32 || (leb 9 c && leb c 13)

skip_spaces : Text → Text
skip_spaces [] = []
skip_spaces (c ∷ s) = if is_space c then skip_spaces s else c ∷ s

-- The digits up to the first character that is none.
read_hex : ℕ → Text → ℕ
read_hex acc [] = acc
read_hex acc (c ∷ s) = elim (hex_value c) [ none ↦ acc | some d ↦ read_hex (acc * 16 + d) s ]

-- `0x` counts as a prefix only where a digit follows it.
skip_prefix : Text → Text
skip_prefix (z ∷ x ∷ d ∷ s) =
    if z == b'0' && (x == b'x' || x == b'X')
    then elim (hex_value d) [ none ↦ z ∷ x ∷ d ∷ s | some v ↦ d ∷ s ]
    else z ∷ x ∷ d ∷ s
skip_prefix s = s

-- `none` for no digit at all (std::invalid_argument).
unsigned_hex : Text → Option ℕ
unsigned_hex [] = none
unsigned_hex (c ∷ s) = elim (hex_value c) [ none ↦ none | some d ↦ some (read_hex d s) ]

abbrev ulong_mod : ℕ
ulong_mod = 2 ^ 64

-- `none` for a value that `unsigned long` cannot hold (std::out_of_range).
in_range : Option ℕ → Option ℕ
in_range none = none
in_range (some v) = if ltb v ulong_mod then some v else none

negate : Option ℕ → Option ℕ
negate none = none
negate (some v) = some ((ulong_mod - v) % ulong_mod)

after_sign : Text → Option ℕ
after_sign s = in_range (unsigned_hex (skip_prefix s))

signed_hex : Text → Option ℕ
signed_hex [] = none
signed_hex (c ∷ s) =
    if c == b'+'
    then after_sign s
    else if c == b'-'
    then negate (after_sign s)
    else after_sign (c ∷ s)

-- `std::stoul(s, nullptr, 16)`; `none` where it throws.
unfoldable pub stoul_hex : Text → Option ℕ
unfolding skip_spaces read_hex skip_prefix unsigned_hex in_range negate after_sign signed_hex
stoul_hex s = signed_hex (skip_spaces s)

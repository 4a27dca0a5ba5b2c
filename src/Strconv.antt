-- ===== src/Strconv.antt =====
-- What plugin/state.go uses of Go's strconv: `strconv.FormatInt(gen, 36)` writes a lock id and
-- `strconv.ParseInt(id, 36, 64)` reads it. The digits are ASCII; an int64 is an integer within
-- the bounds that `parse_int` tests.
pub mod Roundtrip
mod Tests
use Prim.Native.Char.{Char, code}
use Prim.Native.String.{[], ◌∷◌, char_at}
use cli_plugin_gcp.Common.Int.{ℤ, pos, negsuc}
use cli_plugin_gcp.Common.{
  ℕ, zero, suc, ◌+◌, ◌-◌, ◌*◌, ◌/◌, ◌%◌, ◌^◌, String, Option, none, some, Bool, true, false, ◌&&◌,
  ltb, leb, nat_beq, if◌then◌else◌,
}

abbrev pub base : ℕ
base = 36

unfoldable pub digit : ℕ → Char
digit d = char_at "0123456789abcdefghijklmnopqrstuvwxyz" d

-- The digits of n in front of a text; the fuel is a bound on their number.
unfoldable pub format_digits : ℕ → ℕ → String → String
format_digits zero n s = s
format_digits (suc f) n s =
    let rest = format_digits f (n / base) (digit (n % base) ∷ s) in
    if ltb n base then digit n ∷ s else rest

-- An int64 has at most 13 digits in base 36.
abbrev pub max_digits : ℕ
max_digits = 13

unfoldable pub format_uint : ℕ → String
unfolding format_digits digit
format_uint n = format_digits max_digits n []

unfoldable pub format_int : ℤ → String
format_int (pos n) = format_uint n
format_int (negsuc n) = "-" ∷ format_uint (suc n)

-- The value of a digit; letters count in either case.
unfoldable pub digit_value : ℕ → Option ℕ
digit_value c =
    if leb b'0' c && leb c b'9'
    then some (c - b'0')
    else if leb b'a' c && leb c b'z'
    then some (c - b'a' + 10)
    else if leb b'A' c && leb c b'Z'
    then some (c - b'A' + 10)
    else none

unfoldable pub parse_digits : ℕ → String → Option ℕ
parse_digits n [] = some n
parse_digits n (c ∷ s) = elim (digit_value (code c)) [
  | none ↦ none
  | some d ↦ parse_digits (n * base + d) s
]

-- ParseUint: no digit at all is an error.
unfoldable pub parse_uint : String → Option ℕ
parse_uint [] = none
parse_uint (c ∷ s) = parse_digits 0 (c ∷ s)

-- A magnitude with its sign, if it fits 64 bits.
unfoldable pub to_int64 : Bool → Option ℕ → Option ℤ
to_int64 negative none = none
to_int64 true (some zero) = some (pos 0)
to_int64 true (some (suc n)) = if ltb n (2 ^ 63) then some (negsuc n) else none
to_int64 false (some n) = if ltb n (2 ^ 63) then some (pos n) else none

unfoldable pub parse_int : String → Option ℤ
parse_int [] = none
parse_int (c ∷ s) =
    if nat_beq (code c) b'-'
    then to_int64 true (parse_uint s)
    else if nat_beq (code c) b'+'
    then to_int64 false (parse_uint s)
    else to_int64 false (parse_uint (c ∷ s))

-- ===== src/Strconv/Tests.antt =====
-- Numbers in base 36.
use cli_plugin_gcp.Common.{◌≡◌, refl, none}
use cli_plugin_gcp.Common.Int.{pos}
use cli_plugin_gcp.Strconv.{
  digit, format_digits, format_uint, format_int, digit_value, parse_digits, parse_uint, to_int64,
  parse_int,
}

generation_text : format_int (pos 1700000000123456) ≡ "gqll7vdgzk"
unfolding format_int format_uint format_digits digit
generation_text = refl

overflow : parse_int "1y2p0ij32e8e8" ≡ none
unfolding parse_int parse_uint parse_digits digit_value to_int64
overflow = refl

-- ===== src/Strconv/Roundtrip.antt =====
-- A lock id is read back as the generation that it was written from.
use Prim.Native.Char.{code}
use Prim.Native.String.{[], ◌∷◌}
use native.Mathlib.Nat.{pow-suc}
use cli_plugin_gcp.Common.{
  ℕ, zero, suc, ◌+◌, ◌*◌, ◌/◌, ◌%◌, ◌^◌, ◌<◌, ◌≤◌, ◌≡◌, refl, String, none, some, Bool, true, false,
  ◌&&◌, ltb, nat_beq, if◌then◌else◌, arith, inl, inr, Bool-cases, ap, ◌∙◌,
}
use cli_plugin_gcp.Common.Int.{ℤ, pos, negsuc}
use cli_plugin_gcp.Strconv.{
  ℤ, pos, negsuc, digit, format_digits, max_digits, format_uint, format_int, digit_value,
  parse_digits, parse_uint, to_int64, parse_int,
}

-- A test that passes at every number under a bound.
passes : (ℕ → Bool) → ℕ → Bool
passes test zero = true
passes test (suc bound) = passes test bound && test bound

passes-lt :
    (test : ℕ → Bool) (bound at : ℕ) → passes test bound ≡ true → at < bound → test at ≡ true
unfolding passes
passes-lt test zero at all small = absurd (omega arith)
passes-lt test (suc bound) at all small = ground (arith, passes-lt test bound at)

-- Whether the value of the digit d is d, and the digit is no sign.
abbrev digit_ok : ℕ → ℕ → Bool
digit_ok c d =
    if nat_beq c b'-'
    then false
    else if nat_beq c b'+'
    then false
    else elim (digit_value c) [ none ↦ false | some e ↦ nat_beq e d ]

digits_ok : passes (λ d. digit_ok (code (digit d)) d) 36 ≡ true
unfolding passes digit digit_value
digits_ok = refl

digit_ok-digit : (d : ℕ) → d < 36 → digit_ok (code (digit d)) d ≡ true
digit_ok-digit d h = passes-lt (λ e. digit_ok (code (digit e)) e) 36 d digits_ok h

digit_value_of_digit_ok : (c d : ℕ) → digit_ok c d ≡ true → digit_value c ≡ some d
digit_value_of_digit_ok c d h = ground arith

digit_ok_ne_sign :
    (c d : ℕ) → digit_ok c d ≡ true → (nat_beq c b'-' ≡ false) × (nat_beq c b'+' ≡ false)
digit_ok_ne_sign c d h = ground arith

parse_digits-digit :
    (n d : ℕ) (s : String) → d < 36 → parse_digits n (digit d ∷ s) ≡ parse_digits (n * 36 + d) s
unfolding parse_digits
parse_digits-digit n d s h =
    rw (digit_value_of_digit_ok (code (digit d)) d (digit_ok-digit d h), parse_digits) refl

div_bound : (f n : ℕ) → n < 36 ^ suc f → n / 36 < 36 ^ f
div_bound f n h = let e : 36 ^ suc f ≡ 36 ^ f * 36 = pow-suc 36 f in omega arith

parse_digits-format_digits :
    (f n : ℕ) (s : String) → n < 36 ^ f → parse_digits 0 (format_digits f n s) ≡ parse_digits n s
unfolding format_digits
parse_digits-format_digits zero n s h = ap (λ k. parse_digits k s) (omega arith)
parse_digits-format_digits (suc f) n s h = elim (Bool-cases (ltb n 36)) [
  | inl small ↦
      rw small (parse_digits-digit 0 n s (ground arith) ∙ ap (λ k. parse_digits k s) (omega arith))
  | inr large ↦ rw large (
      parse_digits-format_digits f (n / 36) (digit (n % 36) ∷ s) (div_bound f n h)
      ∙ parse_digits-digit (n / 36) (n % 36) s (omega arith)
      ∙ ap (λ k. parse_digits k s) (omega arith))
]

-- A text that begins with a digit, no sign.
abbrev StartsWithDigit : String → Type 0
StartsWithDigit [] = ⊥
StartsWithDigit (c ∷ s) = (nat_beq (code c) b'-' ≡ false) × (nat_beq (code c) b'+' ≡ false)

digit-StartsWithDigit : (d : ℕ) (s : String) → d < 36 → StartsWithDigit (digit d ∷ s)
digit-StartsWithDigit d s h = digit_ok_ne_sign (code (digit d)) d (digit_ok-digit d h)

format_digits-StartsWithDigit :
    (f n : ℕ) (s : String) → StartsWithDigit s → StartsWithDigit (format_digits f n s)
unfolding format_digits
format_digits-StartsWithDigit zero n s h = h
format_digits-StartsWithDigit (suc f) n s h = elim (Bool-cases (ltb n 36)) [
  | inl small ↦ rw small (digit-StartsWithDigit n s (ground arith))
  | inr large ↦ rw large (
      format_digits-StartsWithDigit f (n / 36) (digit (n % 36) ∷ s)
        (digit-StartsWithDigit (n % 36) s (omega arith)))
]

format_digits_nonempty : (f n : ℕ) → StartsWithDigit (format_digits (suc f) n [])
unfolding format_digits
format_digits_nonempty f n = elim (Bool-cases (ltb n 36)) [
  | inl small ↦ rw small (digit-StartsWithDigit n [] (ground arith))
  | inr large ↦ rw large (
      format_digits-StartsWithDigit f (n / 36) (digit (n % 36) ∷ [])
        (digit-StartsWithDigit (n % 36) [] (omega arith)))
]

parse_uint-eq : (s : String) → StartsWithDigit s → parse_uint s ≡ parse_digits 0 s
unfolding parse_uint
parse_uint-eq [] h = absurd h
parse_uint-eq (c ∷ s) h = refl

parse_int-unsigned :
    (s : String) → StartsWithDigit s → parse_int s ≡ to_int64 false (parse_digits 0 s)
unfolding parse_int parse_digits parse_uint
parse_int-unsigned [] h = absurd h
parse_int-unsigned (c ∷ s) h = rw (h.0, h.1) refl

parse_digits-nil : (n : ℕ) → parse_digits n [] ≡ some n
unfolding parse_digits
parse_digits-nil n = refl

format_uint-StartsWithDigit : (n : ℕ) → StartsWithDigit (format_uint n)
unfolding format_uint
format_uint-StartsWithDigit n = format_digits_nonempty 12 n

parse_digits-format_uint : (n : ℕ) → n ≤ 2 ^ 63 → parse_digits 0 (format_uint n) ≡ some n
unfolding format_uint
parse_digits-format_uint n h =
    parse_digits-format_digits max_digits n [] (omega arith) ∙ parse_digits-nil n

-- The bounds of an int64.
abbrev pub IsInt64 : ℤ → Type 0
IsInt64 (pos n) = n < 2 ^ 63
IsInt64 (negsuc n) = n < 2 ^ 63

to_int64-pos : (n : ℕ) → n < 2 ^ 63 → to_int64 false (some n) ≡ some (pos n)
unfolding to_int64
to_int64-pos n h = ground arith

to_int64-negsuc : (n : ℕ) → n < 2 ^ 63 → to_int64 true (some (suc n)) ≡ some (negsuc n)
unfolding to_int64
to_int64-negsuc n h = ground arith

parse_int-negative : (s : String) → parse_int ("-" ∷ s) ≡ to_int64 true (parse_uint s)
unfolding parse_int
parse_int-negative s = refl

-- Every int64 that `strconv.FormatInt` writes in base 36 is what `strconv.ParseInt` reads back.
pub parse_int-format_int : (x : ℤ) → IsInt64 x → parse_int (format_int x) ≡ some x
unfolding format_int
parse_int-format_int (pos n) h =
    parse_int-unsigned _ (format_uint-StartsWithDigit n)
    ∙ ap (to_int64 false) (parse_digits-format_uint n (omega arith))
    ∙ to_int64-pos n h
parse_int-format_int (negsuc n) h =
    parse_int-negative (format_uint (suc n))
    ∙ ap (to_int64 true) (parse_uint-eq _ (format_uint-StartsWithDigit (suc n)))
    ∙ ap (to_int64 true) (parse_digits-format_uint (suc n) h)
    ∙ to_int64-negsuc n h

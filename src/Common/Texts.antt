-- ===== src/Common/Texts.antt =====
-- The functions of Go's `strings` that the code uses, on texts as lists of characters.
use Prim.Native.String.{String, [], ◌∷◌, ◌++◌}
use mathlib.Core.List.{List, [] as nil, ◌∷◌ as cons}
use Prim.Native.Char.{code}
use Prim.Native.Nat.{ℕ, zero, suc}
use mathlib.Core.Bool.{Bool, true, false}
use mathlib.Core.Option.{Option, none, some}
use cli_plugin_gcp.Common.Tests.{nat_beq, if◌then◌else◌, ◌==◌, string_eq}

-- strings.HasPrefix
unfoldable pub has_prefix : String → String → Bool
has_prefix s [] = true
has_prefix [] (p ∷ ps) = false
has_prefix (c ∷ s) (p ∷ ps) = if nat_beq (code c) (code p) then has_prefix s ps else false

-- strings.SplitN(s, "/", n + 1)[n], for a text with so many parts
unfoldable pub after_slashes : ℕ → String → Option String
after_slashes zero s = some s
after_slashes (suc n) [] = none
after_slashes (suc n) (c ∷ s) =
    if nat_beq (code c) b'/' then after_slashes n s else after_slashes (suc n) s

-- s[len(p):], for a text that begins with p
unfoldable pub strip : String → String → String
strip s [] = s
strip [] (p ∷ ps) = []
strip (c ∷ s) (p ∷ ps) = strip s ps

-- strings.HasSuffix
unfoldable pub has_suffix : String → String → Bool
has_suffix [] t = t == ""
has_suffix (c ∷ s) t = let rest = has_suffix s t in if (c ∷ s) == t then true else rest

-- strings.TrimSuffix
unfoldable pub trim_suffix : String → String → String
trim_suffix [] t = []
trim_suffix (c ∷ s) t = let rest = trim_suffix s t in if (c ∷ s) == t then [] else c ∷ rest

-- What stands behind the first `sep` of a text, and what stands before it.
unfoldable pub after_first : String → String → Option String
unfolding has_prefix strip
after_first sep [] = none
after_first sep (c ∷ s) =
    let later = after_first sep s in
    if has_prefix (c ∷ s) sep then some (strip (c ∷ s) sep) else later

unfoldable pub before_first : String → String → String
unfolding has_prefix
before_first sep [] = []
before_first sep (c ∷ s) =
    let rest = before_first sep s in if has_prefix (c ∷ s) sep then [] else c ∷ rest

-- strings.Split(s, sep)[1]: none where there is no such part
unfoldable pub split_second : String → String → Option String
split_second sep s = elim (after_first sep s) [ none ↦ none | some t ↦ some (before_first sep t) ]

-- strings.Join
abbrev pub join_rest : String → List String → String
join_rest sep nil = ""
join_rest sep (cons t ts) = sep ++ t ++ join_rest sep ts

abbrev pub join : String → List String → String
join sep nil = ""
join sep (cons t ts) = t ++ join_rest sep ts

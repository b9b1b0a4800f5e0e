-- ===== src/Base/Text.antt =====
-- Python's text operations that the program uses: `strip`, `str(int)`.
use Prim.Native.Nat.{ℕ, zero, suc, ◌+◌, ◌-◌, ◌/◌, ◌%◌}
use Prim.Native.Char.{Char, code}
use Prim.Native.String.{String, char_at, ◌++◌ as append}
use mathlib.Core.List.{List, [], ◌∷◌}
use mathlib.Core.Bool.{Bool, true, false, ◌&&◌, ◌||◌}
use mathlib.Core.Path.{◌≡◌, refl}
use skon_biztrip_web.Base.Tests.{leb, ◌==◌, if◌then◌else◌}

-- The characters for which `str.isspace` holds, which `strip` removes.
unfoldable pub is_space : Char → Bool
is_space ch =
    let c = code ch in
    leb 9 c && leb c 13
    || (leb 28 c && leb c 32)
    || c == 133
    || c == 160
    || c == 5760
    || (leb 8192 c && leb c 8202)
    || c == 8232
    || c == 8233
    || c == 8239
    || c == 8287
    || c == 12288

abbrev pub is_empty : String → Bool
is_empty String.[] = true
is_empty (String.◌∷◌ c s) = false

unfoldable pub lstrip : String → String
lstrip String.[] = ""
lstrip (String.◌∷◌ c s) = let rest = lstrip s in if is_space c then rest else String.◌∷◌ c s

unfoldable pub rstrip : String → String
rstrip String.[] = ""
rstrip (String.◌∷◌ c s) =
    let rest = rstrip s in if is_empty rest && is_space c then "" else String.◌∷◌ c rest

-- `str.strip`
unfoldable pub strip : String → String
unfolding lstrip rstrip is_space
strip s = rstrip (lstrip s)

strip_test : strip "  a b " ≡ "a b"
unfolding strip
strip_test = refl

unfoldable pub digit : ℕ → Char
digit zero = "0"
digit (suc zero) = "1"
digit (suc (suc zero)) = "2"
digit (suc (suc (suc zero))) = "3"
digit (suc (suc (suc (suc zero)))) = "4"
digit (suc (suc (suc (suc (suc zero))))) = "5"
digit (suc (suc (suc (suc (suc (suc zero)))))) = "6"
digit (suc (suc (suc (suc (suc (suc (suc zero))))))) = "7"
digit (suc (suc (suc (suc (suc (suc (suc (suc zero)))))))) = "8"
digit _ = "9"

-- The digits of `n` before `out`, on fuel; `n` rounds are enough, since `n / 10` is below `n`.
unfoldable pub emit : ℕ → ℕ → String → String
emit zero n out = out
emit (suc fuel) n out =
    let rest = emit fuel (n / 10) (String.◌∷◌ (digit (n % 10)) out) in if n == 0 then out else rest

-- `str(n)` of a number that is not negative.
unfoldable pub decimal : ℕ → String
unfolding emit digit
decimal n = if n == 0 then "0" else emit n n ""

decimal_test : decimal 1204 ≡ "1204"
unfolding decimal
decimal_test = refl

-- The parts of an f-string, joined.
unfoldable pub join : List String → String
join [] = ""
join (s ∷ rest) = append s (join rest)

-- `str.upper` and `str.lower` of an ASCII text.
abbrev to_upper : Char → Char
to_upper ch =
    if leb 97 (code ch) && leb (code ch) 122
    then char_at "ABCDEFGHIJKLMNOPQRSTUVWXYZ" (code ch - 97)
    else ch

abbrev to_lower : Char → Char
to_lower ch =
    if leb 65 (code ch) && leb (code ch) 90
    then char_at "abcdefghijklmnopqrstuvwxyz" (code ch - 65)
    else ch

unfoldable pub upper : String → String
upper String.[] = ""
upper (String.◌∷◌ c s) = String.◌∷◌ (to_upper c) (upper s)

unfoldable pub lower : String → String
lower String.[] = ""
lower (String.◌∷◌ c s) = String.◌∷◌ (to_lower c) (lower s)

-- `text.startswith(prefix)`
abbrev pub starts_with : String → String → Bool
starts_with String.[] s = true
starts_with (String.◌∷◌ p ps) String.[] = false
starts_with (String.◌∷◌ p ps) (String.◌∷◌ c s) = code p == code c && starts_with ps s

-- `text[:n]`
abbrev pub take_text : ℕ → String → String
take_text zero s = ""
take_text (suc n) String.[] = ""
take_text (suc n) (String.◌∷◌ c s) = String.◌∷◌ c (take_text n s)

-- `len(text)`
abbrev pub text_length : String → ℕ
text_length String.[] = 0
text_length (String.◌∷◌ c s) = text_length s + 1

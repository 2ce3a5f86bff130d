-- ===== src/Base/Text.antt =====
-- Texts of C as lists of bytes, and what the C library does with them: strcmp, strtok and atoi.
use Prim.Native.Nat.{ℕ, ◌+◌, ◌-◌, ◌*◌, ◌%◌, ◌^◌, min}
use Prim.Native.Char.{code}
use Prim.Native.String.{String}
use mathlib.Core.Bool.{Bool, true, false, ◌&&◌, ◌||◌}
use mathlib.Core.List.{List, [], ◌∷◌, ◌++◌}
use capstone_monitor.Base.Tests.{◌==◌, leb, if◌then◌else◌}

-- the bytes of a literal
abbrev pub codes : String → List ℕ
codes String.[] = []
codes (String.◌∷◌ c s) = code c ∷ codes s

-- the bytes of an array before its first NUL
abbrev pub c_text : List ℕ → List ℕ
c_text [] = []
c_text (c ∷ s) = if c == 0 then [] else c ∷ c_text s

-- `strcmp(a, b) == 0`
unfoldable pub same_text : List ℕ → List ℕ → Bool
same_text [] [] = true
same_text [] (d ∷ ds) = false
same_text (c ∷ cs) [] = false
same_text (c ∷ cs) (d ∷ ds) = c == d && same_text cs ds

-- a token, unless it is empty
abbrev pub token : List ℕ → List (List ℕ) → List (List ℕ)
token [] rest = rest
token (c ∷ cs) rest = (c ∷ cs) ∷ rest

-- the tokens of the rest of a text, with the bytes read since the last separator
unfoldable pub tokens_from : ℕ → List ℕ → List ℕ → List (List ℕ)
tokens_from sep read [] = token read []
tokens_from sep read (c ∷ s) =
    if c == sep then token read (tokens_from sep [] s) else tokens_from sep (read ++ c ∷ []) s

-- what strtok returns until it returns NULL, for one separator
unfoldable pub tokens : ℕ → List ℕ → List (List ℕ)
unfolding tokens_from
tokens sep s = tokens_from sep [] s

abbrev pub is_digit : ℕ → Bool
is_digit c = leb b'0' c && leb c b'9'

-- digits only
abbrev pub all_digits : List ℕ → Bool
all_digits [] = true
all_digits (c ∷ s) = is_digit c && all_digits s

-- isspace in the C locale
abbrev pub is_space : ℕ → Bool
is_space c = c == 32 || leb 9 c && leb c 13

-- the number that the leading digits stand for, behind the value so far
unfoldable pub leading : ℕ → List ℕ → ℕ
leading n [] = n
leading n (c ∷ s) = let more = leading (n * 10 + (c - b'0')) s in if is_digit c then more else n

-- the 32-bit pattern of the `int` that strtol's result is cast to: strtol stops at LONG_MAX and
-- LONG_MIN
unfoldable pub positive_int : ℕ → ℕ
positive_int n = min n (2 ^ 63 - 1) % 2 ^ 32

unfoldable pub negative_int : ℕ → ℕ
negative_int n = (2 ^ 32 - min n (2 ^ 63) % 2 ^ 32) % 2 ^ 32

-- behind the spaces: an optional sign, and digits
unfoldable pub signed : List ℕ → ℕ
unfolding leading positive_int negative_int
signed [] = 0
signed (c ∷ s) =
    if c == b'-'
    then negative_int (leading 0 s)
    else if c == b'+'
    then positive_int (leading 0 s)
    else positive_int (leading 0 (c ∷ s))

-- `atoi`
unfoldable pub atoi : List ℕ → ℕ
unfolding signed
atoi [] = 0
atoi (c ∷ s) = let skipped = atoi s in if is_space c then skipped else signed (c ∷ s)

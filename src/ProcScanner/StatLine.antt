-- ===== src/ProcScanner/StatLine.antt =====
-- `skip_fields` and `read_proc_stat` of final/src/proc_scanner.c: what is read of /proc/PID/stat. A text
-- is the list of its bytes before the NUL. The kernel writes the name between the first `(` and the
-- last `)`, and a space behind it: for a line without them the source would read and write out of
-- bounds, where the model takes a name of length 0 and an empty rest.
pub mod RoundTrip
use capstone_monitor.Base.{
  ℕ, zero, suc, ◌-◌, ◌%◌, ◌^◌, min, Bool, Option, none, some, List, [], ◌∷◌, length, take, ◌==◌,
  if◌then◌else◌, is_digit, is_space, leading,
}
use capstone_monitor.ProcScanner.{Stat}

-- the bytes up to the first newline, with it
unfoldable pub first_line : List ℕ → List ℕ
first_line [] = []
first_line (c ∷ s) = let rest = first_line s in if c == 10 then c ∷ [] else c ∷ rest

-- fgets into an array of the given size; `none` for NULL
unfoldable pub fgets : ℕ → List ℕ → Option (List ℕ)
unfolding first_line
fgets size [] = none
fgets size (c ∷ s) = some (take (size - 1) (first_line (c ∷ s)))

-- strchr: what stands before and behind the first occurrence
unfoldable pub split_first : ℕ → List ℕ → Option (List ℕ × List ℕ)
split_first b [] = none
split_first b (c ∷ s) =
    let later : Option (List ℕ × List ℕ) = elim (split_first b s) [
      | none ↦ none
      | some r ↦ some (c ∷ r.0, r.1)
    ] in
    if c == b then some ([], s) else later

-- strrchr: what stands before and behind the last occurrence
unfoldable pub split_last : ℕ → List ℕ → Option (List ℕ × List ℕ)
split_last b [] = none
split_last b (c ∷ s) = elim (split_last b s) [
  | some r ↦ some (c ∷ r.0, r.1)
  | none ↦ if c == b then some ([], s) else none
]

-- `while (*p && *p != ' ') p++;` and `while (*p && *p == ' ') p++;`
unfoldable pub skip_word : List ℕ → List ℕ
skip_word [] = []
skip_word (c ∷ s) = let rest = skip_word s in if c == b' ' then c ∷ s else rest

unfoldable pub skip_spaces : List ℕ → List ℕ
skip_spaces [] = []
skip_spaces (c ∷ s) = let rest = skip_spaces s in if c == b' ' then rest else c ∷ s

unfoldable pub skip_fields : ℕ → List ℕ → List ℕ
unfolding skip_word skip_spaces
skip_fields zero p = p
skip_fields (suc count) p = skip_fields count (skip_spaces (skip_word p))

-- what strtoul leaves behind the digits
unfoldable pub skip_digits : List ℕ → List ℕ
skip_digits [] = []
skip_digits (c ∷ s) = let rest = skip_digits s in if is_digit c then rest else c ∷ s

-- the value of digits, with which strtoul stops at ULONG_MAX, and what is behind them
unfoldable pub unsigned : List ℕ → ℕ × List ℕ
unfolding leading skip_digits
unsigned s = (min (leading 0 s) (2 ^ 64 - 1), skip_digits s)

-- behind the spaces: a minus negates the value
unfoldable pub signed_value : List ℕ → ℕ × List ℕ
unfolding unsigned
signed_value [] = (0, [])
signed_value (c ∷ s) =
    let r = unsigned s in
    if c == b'-' then ((2 ^ 64 - r.0) % 2 ^ 64, r.1) else if c == b'+' then r else unsigned (c ∷ s)

-- `strtoul(s, &next, 10)`: the value, and the text at `next`
unfoldable pub strtoul : List ℕ → ℕ × List ℕ
unfolding signed_value
strtoul [] = (0, [])
strtoul (c ∷ s) = let rest = strtoul s in if is_space c then rest else signed_value (c ∷ s)

-- `comm_end + 2`, from what is behind the `)`
abbrev pub behind_space : List ℕ → List ℕ
behind_space [] = []
behind_space (c ∷ s) = s

-- the two numbers, and the name between the parentheses
unfoldable pub stat_of : List ℕ × List ℕ → List ℕ × List ℕ → Stat
unfolding skip_fields strtoul
stat_of start end =
    let utime = strtoul (skip_fields 11 (behind_space end.1)) in
    record {
      comm = take (min ((length end.0 - length start.0) - 1) 15) start.1;
      utime = utime.0;
      stime = (strtoul utime.1).0;
    }

-- what is done with a line
unfoldable pub parse_stat : List ℕ → Option Stat
unfolding split_first split_last stat_of
parse_stat line = elim (split_first b'(' line) [
  | none ↦ none
  | some start ↦ elim (split_last b')' line) [ none ↦ none | some end ↦ some (stat_of start end) ]
]

-- `none` as the text stands for a file that cannot be opened
unfoldable pub read_proc_stat : Option (List ℕ) → Option Stat
unfolding fgets parse_stat
read_proc_stat none = none
read_proc_stat (some text) = elim (fgets 512 text) [ none ↦ none | some line ↦ parse_stat line ]

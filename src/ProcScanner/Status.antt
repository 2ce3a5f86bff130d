-- ===== src/ProcScanner/Status.antt =====
-- `read_proc_uid` of final/src/proc_scanner.c: what is read of /proc/PID/status. A text is the list of
-- its bytes before the NUL.
pub mod Found
use capstone_monitor.Base.{
  ℕ, zero, suc, ◌^◌, Option, none, some, List, [], ◌∷◌, length, ◌==◌, ltb, if◌then◌else◌, codes,
  is_space, atoi,
}
use capstone_monitor.ProcScanner.StatLine.{fgets}

-- `strncmp(line, prefix, strlen(prefix)) == 0`, and `line + strlen(prefix)` then
unfoldable pub after_prefix : List ℕ → List ℕ → Option (List ℕ)
after_prefix [] s = some s
after_prefix (b ∷ bs) [] = none
after_prefix (b ∷ bs) (c ∷ s) = let rest = after_prefix bs s in if c == b then rest else none

-- `while (*p && isspace(*p)) p++;`
unfoldable pub skip_blank : List ℕ → List ℕ
skip_blank [] = []
skip_blank (c ∷ s) = let rest = skip_blank s in if is_space c then rest else c ∷ s

-- what the next fgets starts with
unfoldable pub behind : ℕ → List ℕ → List ℕ
behind zero s = s
behind (suc n) [] = []
behind (suc n) (c ∷ s) = behind n s

-- The loop over the lines, for at most `fuel` of them: the 32-bit pattern of the user, `none` at the
-- end of the file.
unfoldable pub find_uid : ℕ → List ℕ → Option ℕ
unfolding fgets after_prefix skip_blank behind
find_uid zero text = none
find_uid (suc fuel) text = elim (fgets 128 text) [
  | none ↦ none
  | some line ↦ elim (after_prefix (codes "Uid:") line) [
    | some p ↦ some (atoi (skip_blank p))
    | none ↦ find_uid fuel (behind (length line) text)
  ]
]

-- the user, if its `int` is not negative
unfoldable pub as_uid : Option ℕ → Option ℕ
as_uid none = none
as_uid (some u) = if ltb u (2 ^ 31) then some u else none

-- `none` as the text stands for a file that cannot be opened. A line has a byte at least.
unfoldable pub read_proc_uid : Option (List ℕ) → Option ℕ
unfolding find_uid as_uid
read_proc_uid none = none
read_proc_uid (some text) = as_uid (find_uid (length text) text)

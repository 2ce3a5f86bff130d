-- ===== src/Tests/StatLines.antt =====
-- A line of /proc/PID/stat.
use capstone_monitor.Base.{ℕ, ◌≡◌, refl, some, List, [], ◌∷◌, ◌++◌, codes, leading, arith}
use capstone_monitor.ProcScanner.StatLine.{parse_stat}
use capstone_monitor.ProcScanner.StatLine.RoundTrip.{spaced, parse_stat-line}

-- the fields between the name and utime
abbrev fields : List (List ℕ)
fields =
    codes "S"
    ∷ codes "1"
    ∷ codes "42"
    ∷ codes "42"
    ∷ codes "0"
    ∷ codes "-1"
    ∷ codes "4194560"
    ∷ codes "99"
    ∷ codes "0"
    ∷ codes "1"
    ∷ codes "0"
    ∷ []

abbrev line : List ℕ
line =
    codes "42 "
    ++ b'('
      ∷ (codes "a (b) c"
          ++ b')'
            ∷ b' '
            ∷ spaced fields (codes "700" ++ b' ' ∷ (codes "12" ++ b' ' ∷ codes "0 20")))

as_text : line ≡ codes "42 (a (b) c) S 1 42 42 0 -1 4194560 99 0 1 0 700 12 0 20"
as_text = refl

parse_stat-line_example :
    parse_stat line
    ≡ some (record {
      comm = codes "a (b) c";
      utime = leading 0 (codes "700");
      stime = leading 0 (codes "12");
    })
unfolding leading
parse_stat-line_example =
    parse_stat-line (codes "42 ") (codes "a (b) c") fields b'7' (codes "00") b'1' (codes "2")
      (codes "0 20") refl refl refl refl (omega arith) refl (omega arith) refl

-- ===== src/ProcScanner/StatLine/RoundTrip.antt =====
-- The lines of /proc/PID/stat as the kernel prints them are read back by final/src/proc_scanner.c.
use capstone_monitor.Base.{
  ℕ, zero, suc, ◌+◌, ◌-◌, ◌*◌, ◌^◌, ◌<◌, ◌≡◌, refl, sym, ap, ap₂, ◌∙◌, Bool, true, false, ◌&&◌, not,
  min, none, some, List, [], ◌∷◌, ◌++◌, length, length-append, append_assoc, take, elem, ◌==◌,
  is_digit, all_digits, is_space, leading, arith,
}
use capstone_monitor.ProcScanner.StatLine.{
  split_first, split_last, skip_word, skip_spaces, skip_fields, skip_digits, unsigned, signed_value,
  strtoul, stat_of, parse_stat,
}

-- whether a text is a word: it starts with a byte that is no space
abbrev pub starts_word : List ℕ → Bool
starts_word [] = false
starts_word (c ∷ s) = not (c == b' ')

-- words, not empty and without spaces
abbrev pub all_words : List (List ℕ) → Bool
all_words [] = true
all_words (w ∷ ws) = (starts_word w && not (elem b' ' w)) && all_words ws

-- the words, with a space behind each, before the rest of a line
abbrev pub spaced : List (List ℕ) → List ℕ → List ℕ
spaced [] rest = rest
spaced (w ∷ ws) rest = w ++ b' ' ∷ spaced ws rest

split_first-append :
    (b : ℕ) (xs ys : List ℕ) → elem b xs ≡ false → split_first b (xs ++ b ∷ ys) ≡ some (xs, ys)
unfolding split_first
split_first-append b [] ys h = let same : (b == b) ≡ true = ground arith in rw same refl
split_first-append b (x ∷ xs) ys h =
    let other : (x == b) ≡ false = ground (arith, h) in
    let more : elem b xs ≡ false = ground (arith, h) in
    rw (other, split_first-append b xs ys more) refl

split_last-none : (b : ℕ) (ys : List ℕ) → elem b ys ≡ false → split_last b ys ≡ none
unfolding split_last
split_last-none b [] h = refl
split_last-none b (y ∷ ys) h =
    let other : (y == b) ≡ false = ground (arith, h) in
    let more : elem b ys ≡ false = ground (arith, h) in rw (split_last-none b ys more, other) refl

split_last-append :
    (b : ℕ) (xs ys : List ℕ) → elem b ys ≡ false → split_last b (xs ++ b ∷ ys) ≡ some (xs, ys)
unfolding split_last
split_last-append b [] ys h =
    let same : (b == b) ≡ true = ground arith in rw (split_last-none b ys h, same) refl
split_last-append b (x ∷ xs) ys h = rw (split_last-append b xs ys h) refl

skip_word-append : (w s : List ℕ) → elem b' ' w ≡ false → skip_word (w ++ b' ' ∷ s) ≡ b' ' ∷ s
unfolding skip_word
skip_word-append [] s h = refl
skip_word-append (c ∷ w) s h =
    let other : (c == b' ') ≡ false = ground (arith, h) in
    let more : elem b' ' w ≡ false = ground (arith, h) in rw other (skip_word-append w s more)

skip_spaces-word : (s : List ℕ) → starts_word s ≡ true → skip_spaces (b' ' ∷ s) ≡ s
unfolding skip_spaces
skip_spaces-word [] h = absurd (ground (arith, h))
skip_spaces-word (c ∷ s) h = let other : (c == b' ') ≡ false = ground (arith, h) in rw other refl

starts_word-append : (w s : List ℕ) → starts_word w ≡ true → starts_word (w ++ s) ≡ true
starts_word-append [] s h = absurd (ground (arith, h))
starts_word-append (c ∷ w) s h = h

starts_word-spaced :
    (ws : List (List ℕ)) (rest : List ℕ)
    → all_words ws ≡ true
    → starts_word rest ≡ true
    → starts_word (spaced ws rest) ≡ true
starts_word-spaced [] rest h r = r
starts_word-spaced (w ∷ ws) rest h r =
    starts_word-append w (b' ' ∷ spaced ws rest) (ground (arith, h))

skip_fields-spaced :
    (ws : List (List ℕ)) (rest : List ℕ)
    → all_words ws ≡ true
    → starts_word rest ≡ true
    → skip_fields (length ws) (spaced ws rest) ≡ rest
unfolding skip_fields
skip_fields-spaced [] rest h r = refl
skip_fields-spaced (w ∷ ws) rest h r =
    let plain : elem b' ' w ≡ false = ground (arith, h) in
    let more : all_words ws ≡ true = ground (arith, h) in
    ap (λ s. skip_fields (length ws) (skip_spaces s)) (skip_word-append w (spaced ws rest) plain)
    ∙ ap (skip_fields (length ws))
        (skip_spaces-word (spaced ws rest) (starts_word-spaced ws rest more r))
    ∙ skip_fields-spaced ws rest more r

leading-append :
    (n : ℕ) (u s : List ℕ) → all_digits u ≡ true → leading n (u ++ b' ' ∷ s) ≡ leading n u
unfolding leading
leading-append n [] s h = refl
leading-append n (c ∷ u) s h =
    let digit : is_digit c ≡ true = ground (arith, h) in
    let more : all_digits u ≡ true = ground (arith, h) in
    rw digit (leading-append (n * 10 + (c - b'0')) u s more)

skip_digits-append : (u s : List ℕ) → all_digits u ≡ true → skip_digits (u ++ b' ' ∷ s) ≡ b' ' ∷ s
unfolding skip_digits
skip_digits-append [] s h = refl
skip_digits-append (c ∷ u) s h =
    let digit : is_digit c ≡ true = ground (arith, h) in
    let more : all_digits u ≡ true = ground (arith, h) in rw digit (skip_digits-append u s more)

strtoul-digits :
    (c : ℕ) (u s : List ℕ)
    → all_digits (c ∷ u) ≡ true
    → leading 0 (c ∷ u) < 2 ^ 64
    → strtoul ((c ∷ u) ++ b' ' ∷ s) ≡ (leading 0 (c ∷ u), b' ' ∷ s)
unfolding strtoul signed_value unsigned
strtoul-digits c u s h lt =
    let digit : is_digit c ≡ true = ground (arith, h) in
    let no_space : is_space c ≡ false = ground (arith, digit) in
    let no_minus : (c == b'-') ≡ false = ground (arith, digit) in
    let no_plus : (c == b'+') ≡ false = ground (arith, digit) in
    let fits : min (leading 0 (c ∷ u)) (2 ^ 64 - 1) ≡ leading 0 (c ∷ u) = omega (arith, lt) in
    rw (no_space, no_minus, no_plus)
      (ap₂ (λ (n : ℕ) (t : List ℕ). (min n (2 ^ 64 - 1), t)) (leading-append 0 (c ∷ u) s h)
          (skip_digits-append (c ∷ u) s h)
        ∙ ap (λ (n : ℕ). (n, b' ' ∷ s)) fits)

strtoul-space : (s : List ℕ) → strtoul (b' ' ∷ s) ≡ strtoul s
unfolding strtoul
strtoul-space s = refl

take-append : (m n : ℕ) (xs ys : List ℕ) → m ≡ min (length xs) n → take m (xs ++ ys) ≡ take n xs
take-append zero zero xs ys h = refl
take-append zero (suc n) [] ys h = refl
take-append zero (suc n) (x ∷ xs) ys h = absurd (omega (arith, h))
take-append (suc m) zero xs ys h = absurd (omega (arith, h))
take-append (suc m) (suc n) [] ys h = absurd (omega (arith, h))
take-append (suc m) (suc n) (x ∷ xs) ys h = ap (◌∷◌ x) (take-append m n xs ys (omega (arith, h)))

-- the numbers, behind eleven words
stat_of-spaced :
    (pre name rest : List ℕ) (ws : List (List ℕ)) (c : ℕ) (u : List ℕ) (e : ℕ) (v : List ℕ)
    (more : List ℕ)
    → all_words ws ≡ true
    → length ws ≡ 11
    → all_digits (c ∷ u) ≡ true
    → leading 0 (c ∷ u) < 2 ^ 64
    → all_digits (e ∷ v) ≡ true
    → leading 0 (e ∷ v) < 2 ^ 64
    → let numbers = (c ∷ u) ++ b' ' ∷ ((e ∷ v) ++ b' ' ∷ more) in
      stat_of (pre, name ++ rest) (pre ++ b'(' ∷ name, b' ' ∷ spaced ws numbers)
      ≡ record { comm = take 15 name; utime = leading 0 (c ∷ u); stime = leading 0 (e ∷ v) }
unfolding stat_of
stat_of-spaced pre name rest ws c u e v more hw n hu lu hv lv =
    let system = (e ∷ v) ++ b' ' ∷ more in
    let numbers = (c ∷ u) ++ b' ' ∷ system in
    let digit : is_digit c ≡ true = ground (arith, hu) in
    let word : starts_word numbers ≡ true = ground (arith, digit) in
    let skipped : skip_fields 11 (spaced ws numbers) ≡ numbers =
      ap (λ k. skip_fields k (spaced ws numbers)) (sym n) ∙ skip_fields-spaced ws numbers hw word in
    let user : strtoul (skip_fields 11 (spaced ws numbers)) ≡ (leading 0 (c ∷ u), b' ' ∷ system) =
      ap strtoul skipped ∙ strtoul-digits c u system hu lu in
    let next : strtoul (b' ' ∷ system) ≡ (leading 0 (e ∷ v), b' ' ∷ more) =
      strtoul-space system ∙ strtoul-digits e v more hv lv in
    let size : length (pre ++ b'(' ∷ name) ≡ length pre + suc (length name) =
      length-append pre (b'(' ∷ name) in
    let short =
      take-append (min ((length (pre ++ b'(' ∷ name) - length pre) - 1) 15) 15 name rest
        (omega (arith, size)) in
    ap₂
      (λ (comm : List ℕ) (r : ℕ × List ℕ). record {
        comm = comm;
        utime = r.0;
        stime = (strtoul r.1).0;
      })
      short user
    ∙ ap
        (λ (r : ℕ × List ℕ). record { comm = take 15 name; utime = leading 0 (c ∷ u); stime = r.0 })
        next

parse_stat-split :
    (line : List ℕ) (start end : List ℕ × List ℕ)
    → split_first b'(' line ≡ some start
    → split_last b')' line ≡ some end
    → parse_stat line ≡ some (stat_of start end)
unfolding parse_stat
parse_stat-split line start end p q = rw (parse_stat, p, q) refl

-- A line of /proc/PID/stat with a text without `(` before the name, any name in parentheses, also
-- one with parentheses and spaces in it, eleven words, two numbers below 2^64, and no `)` behind the
-- name's: the first 15 bytes of the name and the two numbers are read.
pub parse_stat-line :
    (pre name : List ℕ) (ws : List (List ℕ)) (c : ℕ) (u : List ℕ) (e : ℕ) (v : List ℕ)
    (more : List ℕ)
    → elem b'(' pre ≡ false
    → all_words ws ≡ true
    → length ws ≡ 11
    → all_digits (c ∷ u) ≡ true
    → leading 0 (c ∷ u) < 2 ^ 64
    → all_digits (e ∷ v) ≡ true
    → leading 0 (e ∷ v) < 2 ^ 64
    → elem b')' (spaced ws ((c ∷ u) ++ b' ' ∷ ((e ∷ v) ++ b' ' ∷ more))) ≡ false
    → let numbers = (c ∷ u) ++ b' ' ∷ ((e ∷ v) ++ b' ' ∷ more) in
      parse_stat (pre ++ b'(' ∷ (name ++ b')' ∷ b' ' ∷ spaced ws numbers))
      ≡ some (record { comm = take 15 name; utime = leading 0 (c ∷ u); stime = leading 0 (e ∷ v) })
parse_stat-line pre name ws c u e v more hp hw n hu lu hv lv plain =
    let numbers = (c ∷ u) ++ b' ' ∷ ((e ∷ v) ++ b' ' ∷ more) in
    let behind = b' ' ∷ spaced ws numbers in
    let line = pre ++ b'(' ∷ (name ++ b')' ∷ behind) in
    let first : split_first b'(' line ≡ some (pre, name ++ b')' ∷ behind) =
      split_first-append b'(' pre (name ++ b')' ∷ behind) hp in
    let last : split_last b')' line ≡ some (pre ++ b'(' ∷ name, behind) =
      ap (split_last b')') (sym (append_assoc pre (b'(' ∷ name) (b')' ∷ behind)))
      ∙ split_last-append b')' (pre ++ b'(' ∷ name) behind plain in
    parse_stat-split line (pre, name ++ b')' ∷ behind) (pre ++ b'(' ∷ name, behind) first last
    ∙ ap some (stat_of-spaced pre name (b')' ∷ behind) ws c u e v more hw n hu lu hv lv)

-- ===== src/ProcScanner/Status/Found.antt =====
-- The user in /proc/PID/status, as the kernel prints it, is found by final/src/proc_scanner.c.
use capstone_monitor.Base.{
  ℕ, zero, suc, ◌+◌, ◌-◌, ◌*◌, ◌^◌, ◌≤◌, ◌<◌, ◌≡◌, refl, sym, ap, ◌∙◌, inl, inr, true, false, none,
  some, List, [], ◌∷◌, ◌++◌, length, length-append, take, take_all, elem, ◌==◌, is_digit,
  all_digits, is_space, leading, positive_int, signed, atoi, codes, ltb, Bool-cases, Option-cases,
  arith,
}
use capstone_monitor.ProcScanner.StatLine.{first_line, fgets}
use capstone_monitor.ProcScanner.Status.{
  after_prefix, skip_blank, behind, find_uid, as_uid, read_proc_uid,
}

first_line-line : (l t : List ℕ) → elem 10 l ≡ false → first_line (l ++ 10 ∷ t) ≡ l ++ 10 ∷ []
unfolding first_line
first_line-line [] t h = refl
first_line-line (c ∷ l) t h =
    let other : (c == 10) ≡ false = ground (arith, h) in
    let more : elem 10 l ≡ false = ground (arith, h) in rw (other, first_line-line l t more) refl

fgets-cons :
    (size : ℕ) (l : List ℕ) (c : ℕ) (t : List ℕ)
    → fgets size (l ++ c ∷ t) ≡ some (take (size - 1) (first_line (l ++ c ∷ t)))
unfolding fgets
fgets-cons size [] c t = refl
fgets-cons size (d ∷ l) c t = refl

fgets-line :
    (l t : List ℕ)
    → elem 10 l ≡ false
    → length l < 127
    → fgets 128 (l ++ 10 ∷ t) ≡ some (l ++ 10 ∷ [])
fgets-line l t h short =
    fgets-cons 128 l 10 t
    ∙ ap (λ s. some (take 127 s)) (first_line-line l t h)
    ∙ ap some (take_all 127 (l ++ 10 ∷ []) (omega (arith, length-append l (10 ∷ []))))

behind-line : (l t : List ℕ) → behind (length (l ++ 10 ∷ [])) (l ++ 10 ∷ t) ≡ t
unfolding behind
behind-line [] t = refl
behind-line (c ∷ l) t = behind-line l t

first_line-prefix :
    (l : List ℕ) (x : ℕ) (t : List ℕ)
    → elem 10 l ≡ false
    → (m : List ℕ) × (first_line (l ++ x ∷ t) ≡ l ++ x ∷ m)
unfolding first_line
first_line-prefix [] x t h = elim (Bool-cases (x == 10)) [
  | inl e ↦ ([], rw e refl)
  | inr e ↦ (first_line t, rw e refl)
]
first_line-prefix (c ∷ l) x t h =
    let other : (c == 10) ≡ false = ground (arith, h) in
    let more : elem 10 l ≡ false = ground (arith, h) in
    let r = first_line-prefix l x t more in (r.0, rw (other, r.1) refl)

take-prefix :
    (n : ℕ) (l : List ℕ) (x : ℕ) (t : List ℕ)
    → length l < n
    → (m : List ℕ) × (take n (l ++ x ∷ t) ≡ l ++ x ∷ m)
take-prefix zero l x t h = absurd (omega arith)
take-prefix (suc n) [] x t h = (take n t, refl)
take-prefix (suc n) (c ∷ l) x t h =
    let r = take-prefix n l x t (omega arith) in (r.0, ap (◌∷◌ c) r.1)

fgets-prefix :
    (l : List ℕ) (x : ℕ) (t : List ℕ)
    → elem 10 l ≡ false
    → length l < 127
    → (m : List ℕ) × (fgets 128 (l ++ x ∷ t) ≡ some (l ++ x ∷ m))
fgets-prefix l x t h short =
    let f = first_line-prefix l x t h in
    let r = take-prefix 127 l x f.0 short in
    (r.0, fgets-cons 128 l x t ∙ ap (λ s. some (take 127 s)) f.1 ∙ ap some r.1)

leading-stop :
    (n : ℕ) (u : List ℕ) (x : ℕ) (s : List ℕ)
    → all_digits u ≡ true
    → is_digit x ≡ false
    → leading n (u ++ x ∷ s) ≡ leading n u
unfolding leading
leading-stop n [] x s h e = rw e refl
leading-stop n (c ∷ u) x s h e =
    let digit : is_digit c ≡ true = ground (arith, h) in
    let more : all_digits u ≡ true = ground (arith, h) in
    rw digit (leading-stop (n * 10 + (c - b'0')) u x s more e)

skip_blank-tab : (c : ℕ) (s : List ℕ) → is_space c ≡ false → skip_blank (9 ∷ c ∷ s) ≡ c ∷ s
unfolding skip_blank
skip_blank-tab c s h = rw h refl

atoi-stop :
    (c : ℕ) (u : List ℕ) (x : ℕ) (s : List ℕ)
    → all_digits (c ∷ u) ≡ true
    → is_digit x ≡ false
    → leading 0 (c ∷ u) < 2 ^ 31
    → atoi ((c ∷ u) ++ x ∷ s) ≡ leading 0 (c ∷ u)
unfolding atoi signed positive_int
atoi-stop c u x s h e lt =
    let digit : is_digit c ≡ true = ground (arith, h) in
    let no_space : is_space c ≡ false = ground (arith, digit) in
    let no_minus : (c == b'-') ≡ false = ground (arith, digit) in
    let no_plus : (c == b'+') ≡ false = ground (arith, digit) in
    rw (no_space, no_minus, no_plus)
      (ap positive_int (leading-stop 0 (c ∷ u) x s h e) ∙ omega (arith, lt))

-- a line that the loop passes by
pub record IsOther (l : List ℕ) : Type 0 where
  pub one_line : elem 10 l ≡ false
  pub short : length l < 127
  pub other : after_prefix (codes "Uid:") (l ++ 10 ∷ []) ≡ none

pub data Others : List (List ℕ) → Type 0 where
  no_more : Others []
  and_other : (l : List ℕ) (ls : List (List ℕ)) → IsOther l → Others ls → Others (l ∷ ls)

-- the lines, with a newline behind each, before the rest of a text
abbrev pub lines : List (List ℕ) → List ℕ → List ℕ
lines [] t = t
lines (l ∷ ls) t = l ++ 10 ∷ lines ls t

-- the line of the user, up to the byte behind the digits
abbrev pub uid_line : List ℕ → ℕ → List ℕ → List ℕ
uid_line d x t = (codes "Uid:" ++ 9 ∷ d) ++ x ∷ t

find_uid-found :
    (n : ℕ) (text line p : List ℕ)
    → fgets 128 text ≡ some line
    → after_prefix (codes "Uid:") line ≡ some p
    → find_uid (suc n) text ≡ some (atoi (skip_blank p))
unfolding find_uid
find_uid-found n text line p h e = rw (find_uid, h, e) refl

find_uid-next :
    (n : ℕ) (text line : List ℕ)
    → fgets 128 text ≡ some line
    → after_prefix (codes "Uid:") line ≡ none
    → find_uid (suc n) text ≡ find_uid n (behind (length line) text)
unfolding find_uid
find_uid-next n text line h e = rw (find_uid, h, e) refl

-- The loop takes a byte at least with every line.
length-behind : (n : ℕ) (s : List ℕ) → length (behind n s) ≤ length s
unfolding behind
length-behind zero s = omega arith
length-behind (suc n) [] = omega arith
length-behind (suc n) (c ∷ s) = omega (arith, length-behind n s)

fgets-some : (c : ℕ) (s : List ℕ) → (m : List ℕ) × (fgets 128 (c ∷ s) ≡ some (c ∷ m))
unfolding fgets first_line
fgets-some c s = elim (Bool-cases (c == 10)) [
  | inl e ↦ ([], rw e refl)
  | inr e ↦ (take 126 (first_line s), rw e refl)
]

-- More fuel than the text has bytes changes nothing.
find_uid-enough :
    (n m : ℕ) (text : List ℕ)
    → length text ≤ n
    → length text ≤ m
    → find_uid n text ≡ find_uid m text
unfolding find_uid fgets behind
find_uid-enough zero zero text hn hm = refl
find_uid-enough zero (suc m) [] hn hm = refl
find_uid-enough (suc n) zero [] hn hm = refl
find_uid-enough (suc n) (suc m) [] hn hm = refl
find_uid-enough zero m (c ∷ s) hn hm = absurd (omega (arith, hn))
find_uid-enough n zero (c ∷ s) hn hm = absurd (omega (arith, hm))
find_uid-enough (suc n) (suc m) (c ∷ s) hn hm =
    let r = fgets-some c s in
    elim (Option-cases (after_prefix (codes "Uid:") (c ∷ r.0))) [
      | inl e ↦
          find_uid-next n (c ∷ s) (c ∷ r.0) r.1 e
          ∙ find_uid-enough n m (behind (length r.0) s)
              (omega (arith, hn, length-behind (length r.0) s))
              (omega (arith, hm, length-behind (length r.0) s))
          ∙ sym (find_uid-next m (c ∷ s) (c ∷ r.0) r.1 e)
      | inr (p, e) ↦
          find_uid-found n (c ∷ s) (c ∷ r.0) p r.1 e
          ∙ sym (find_uid-found m (c ∷ s) (c ∷ r.0) p r.1 e)
    ]

no_newline : (u : List ℕ) → all_digits u ≡ true → elem 10 u ≡ false
no_newline [] h = refl
no_newline (c ∷ u) h =
    let other : (c == 10) ≡ false = ground (arith, h) in
    let more : all_digits u ≡ true = ground (arith, h) in rw other (no_newline u more)

find_uid-here :
    (n c : ℕ) (u : List ℕ) (x : ℕ) (t : List ℕ)
    → all_digits (c ∷ u) ≡ true
    → length u < 100
    → is_digit x ≡ false
    → leading 0 (c ∷ u) < 2 ^ 31
    → find_uid (suc n) (uid_line (c ∷ u) x t) ≡ some (leading 0 (c ∷ u))
unfolding after_prefix
find_uid-here n c u x t h short e lt =
    let r =
      fgets-prefix (codes "Uid:" ++ 9 ∷ c ∷ u) x t (no_newline (c ∷ u) h) (omega (arith, short)) in
    let digit : is_digit c ≡ true = ground (arith, h) in
    let no_space : is_space c ≡ false = ground (arith, digit) in
    find_uid-found n (uid_line (c ∷ u) x t) _ (9 ∷ c ∷ (u ++ x ∷ r.0)) r.1 refl
    ∙ ap (λ s. some (atoi s)) (skip_blank-tab c (u ++ x ∷ r.0) no_space)
    ∙ ap some (atoi-stop c u x r.0 h e lt)

find_uid-there : (n : ℕ) (l t : List ℕ) → IsOther l → find_uid (suc n) (l ++ 10 ∷ t) ≡ find_uid n t
find_uid-there n l t o =
    find_uid-next n (l ++ 10 ∷ t) (l ++ 10 ∷ []) (fgets-line l t o.one_line o.short) o.other
    ∙ ap (find_uid n) (behind-line l t)

find_uid-lines :
    (n : ℕ) (ls : List (List ℕ)) (c : ℕ) (u : List ℕ) (x : ℕ) (t : List ℕ)
    → Others ls
    → length (lines ls (uid_line (c ∷ u) x t)) ≤ n
    → all_digits (c ∷ u) ≡ true
    → length u < 100
    → is_digit x ≡ false
    → leading 0 (c ∷ u) < 2 ^ 31
    → find_uid n (lines ls (uid_line (c ∷ u) x t)) ≡ some (leading 0 (c ∷ u))
find_uid-lines zero [] c u x t o le h short e lt = absurd (omega (arith, le))
find_uid-lines (suc n) [] c u x t o le h short e lt = find_uid-here n c u x t h short e lt
find_uid-lines zero (l ∷ ls) c u x t o le h short e lt =
    absurd (omega (arith, le, length-append l (10 ∷ lines ls (uid_line (c ∷ u) x t))))
find_uid-lines (suc n) (l ∷ ls) c u x t (and_other _ _ here more) le h short e lt =
    find_uid-there n l (lines ls (uid_line (c ∷ u) x t)) here
    ∙ find_uid-lines n ls c u x t more
        (omega (arith, le, length-append l (10 ∷ lines ls (uid_line (c ∷ u) x t)))) h short e lt

-- /proc/PID/status with any lines of less than 127 bytes, none of which starts with `Uid:`, then
-- `Uid:`, a tab, digits of a value below 2^31, at most 100 of them, a byte that is no digit, and any
-- rest: the value of the digits is read.
pub read_proc_uid-lines :
    (ls : List (List ℕ)) (c : ℕ) (u : List ℕ) (x : ℕ) (t : List ℕ)
    → Others ls
    → all_digits (c ∷ u) ≡ true
    → length u < 100
    → is_digit x ≡ false
    → leading 0 (c ∷ u) < 2 ^ 31
    → read_proc_uid (some (lines ls (uid_line (c ∷ u) x t))) ≡ some (leading 0 (c ∷ u))
unfolding read_proc_uid as_uid
read_proc_uid-lines ls c u x t o h short e lt =
    let text = lines ls (uid_line (c ∷ u) x t) in
    let small : ltb (leading 0 (c ∷ u)) (2 ^ 31) ≡ true = ground (arith, lt) in
    ap as_uid (find_uid-lines (length text) ls c u x t o (omega arith) h short e lt) ∙ rw small refl

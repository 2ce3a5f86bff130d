-- ===== src/Monitor/Args/Pids/Printed.antt =====
-- The command line `--pids` with a list of pids in decimal, for final/src/monitor_final.c.
use mathlib.Core.Path.{subst}
use capstone_monitor.Base.{
  ℕ, zero, suc, ◌+◌, ◌-◌, ◌*◌, ◌/◌, ◌%◌, ◌^◌, ◌≤◌, ◌<◌, ◌≡◌, refl, sym, ap, ap₂, ◌∙◌, inl, inr,
  Bool, true, false, ◌&&◌, Option, none, some, List, [], ◌∷◌, ◌++◌, map, length, take, ◌==◌, ltb,
  if◌then◌else◌, Bool-cases, tokens, is_digit, all_digits, leading, atoi, same_text, codes, arith,
}
use capstone_monitor.Monitor.{max_pids}
use capstone_monitor.Monitor.Args.{
  DaemonConfig, defaults, flag_of, apply_flag, parse_loop, choose_mode, parse_args, take_pids,
}
use capstone_monitor.Monitor.Args.Pids.{
  join, Numerals, none_left, numeral, tokens-join, take_pids-take, atoi-digits,
}

-- A number in decimal, with a digit for each unit of fuel at most.
abbrev decimal_from : ℕ → ℕ → List ℕ
decimal_from zero n = (b'0' + n % 10) ∷ []
decimal_from (suc fuel) n =
    if ltb n 10 then (b'0' + n) ∷ [] else decimal_from fuel (n / 10) ++ (b'0' + n % 10) ∷ []

abbrev pub decimal : ℕ → List ℕ
decimal n = decimal_from n n

-- a list of 32-bit patterns that are positive or 0
abbrev pub all_ints : List ℕ → Bool
all_ints [] = true
all_ints (p ∷ ps) = ltb p (2 ^ 31) && all_ints ps

-- what a text of digits is: not empty, digits, and of the value
record IsNumber (n : ℕ) (t : List ℕ) : Type 0 where
  first : ℕ
  others : List ℕ
  text : t ≡ first ∷ others
  digits : all_digits t ≡ true
  value : leading 0 t ≡ n

leading-snoc :
    (n d : ℕ) (s : List ℕ)
    → all_digits s ≡ true
    → d < 10
    → leading n (s ++ (b'0' + d) ∷ []) ≡ leading n s * 10 + d
unfolding leading
leading-snoc n d [] h lt = ground (arith, lt)
leading-snoc n d (c ∷ s) h lt =
    let digit : is_digit c ≡ true = ground (arith, h) in
    let more : all_digits s ≡ true = ground (arith, h) in
    rw digit (leading-snoc (n * 10 + (c - b'0')) d s more lt)

all_digits-snoc :
    (d : ℕ) (s : List ℕ) → all_digits s ≡ true → d < 10 → all_digits (s ++ (b'0' + d) ∷ []) ≡ true
all_digits-snoc d [] h lt = ground (arith, lt)
all_digits-snoc d (c ∷ s) h lt =
    let digit : is_digit c ≡ true = ground (arith, h) in
    let more : all_digits s ≡ true = ground (arith, h) in rw digit (all_digits-snoc d s more lt)

digit-IsNumber : (n : ℕ) → n < 10 → IsNumber n ((b'0' + n) ∷ [])
unfolding leading
digit-IsNumber n h = record {
  first = b'0' + n;
  others = [];
  text = refl;
  digits = ground (arith, h);
  value = ground (arith, h);
}

snoc-IsNumber :
    (n d : ℕ) (t : List ℕ) → d < 10 → IsNumber n t → IsNumber (n * 10 + d) (t ++ (b'0' + d) ∷ [])
snoc-IsNumber n d t lt r = record {
  first = r.first;
  others = r.others ++ (b'0' + d) ∷ [];
  text = ap (λ s. s ++ (b'0' + d) ∷ []) r.text;
  digits = all_digits-snoc d t r.digits lt;
  value = leading-snoc 0 d t r.digits lt ∙ ap (λ m. m * 10 + d) r.value;
}

decimal_from-IsNumber : (fuel n : ℕ) → n ≤ fuel → IsNumber n (decimal_from fuel n)
decimal_from-IsNumber zero n h =
    subst (λ m. IsNumber m ((b'0' + n % 10) ∷ [])) (omega (arith, h))
      (digit-IsNumber (n % 10) (omega arith))
decimal_from-IsNumber (suc fuel) n h = elim (Bool-cases (ltb n 10)) [
  | inl small ↦ rw small (digit-IsNumber n (ground (arith, small)))
  | inr large ↦ rw large (
      subst (λ m. IsNumber m (decimal_from fuel (n / 10) ++ (b'0' + n % 10) ∷ [])) (omega arith)
        (snoc-IsNumber (n / 10) (n % 10) (decimal_from fuel (n / 10)) (omega arith)
          (decimal_from-IsNumber fuel (n / 10) (ground (arith, large, h)))))
]

decimal-IsNumber : (n : ℕ) → IsNumber n (decimal n)
decimal-IsNumber n = decimal_from-IsNumber n n (omega arith)

pub atoi-decimal : (n : ℕ) → n < 2 ^ 31 → atoi (decimal n) ≡ n
atoi-decimal n h =
    let r = decimal-IsNumber n in
    let value : leading 0 (r.first ∷ r.others) ≡ n = ap (leading 0) (sym r.text) ∙ r.value in
    ap atoi r.text
    ∙ atoi-digits r.first r.others (ap all_digits (sym r.text) ∙ r.digits) (omega (arith, value, h))
    ∙ value

Numerals-decimal : (ps : List ℕ) → Numerals (map decimal ps)
Numerals-decimal [] = none_left
Numerals-decimal (p ∷ ps) =
    let r = decimal-IsNumber p in
    subst (λ t. Numerals (t ∷ map decimal ps)) (sym r.text)
      (numeral r.first r.others (map decimal ps) (ap all_digits (sym r.text) ∙ r.digits)
        (Numerals-decimal ps))

map-atoi : (ps : List ℕ) → all_ints ps ≡ true → map atoi (map decimal ps) ≡ ps
map-atoi [] h = refl
map-atoi (p ∷ ps) h =
    let small : p < 2 ^ 31 = ground (arith, h) in
    let more : all_ints ps ≡ true = ground (arith, h) in
    ap₂ ◌∷◌ (atoi-decimal p small) (map-atoi ps more)

parse_loop-pids :
    (value : List ℕ) (cfg : DaemonConfig)
    → parse_loop (codes "--pids" ∷ value ∷ []) cfg
      ≡ some (record cfg { pids = take_pids (tokens b',' value) cfg.pids })
unfolding parse_loop apply_flag flag_of same_text
parse_loop-pids value cfg = refl

choose_mode-pids :
    (q : ℕ) (qs : List ℕ)
    → choose_mode (record defaults { pids = q ∷ qs }) ≡ record defaults { pids = q ∷ qs }
unfolding choose_mode
choose_mode-pids q qs =
    let some_pids : (suc (length qs) == 0) ≡ false = ground arith in rw some_pids refl

-- The options `--pids` and at least one pid, each an `int` that is not negative, in decimal with commas
-- between them: the configuration holds the first MAX_PIDS of them, and is the default otherwise.
pub parse_args-pids :
    (p : ℕ) (ps : List ℕ)
    → all_ints (p ∷ ps) ≡ true
    → parse_args (codes "--pids" ∷ join b',' (map decimal (p ∷ ps)) ∷ [])
      ≡ some (record defaults { pids = take max_pids (p ∷ ps) })
unfolding parse_args choose_mode
parse_args-pids p ps h =
    let value = join b',' (map decimal (p ∷ ps)) in
    let finish = λ (o : Option DaemonConfig). elim o as (λ _. Option DaemonConfig) [
      | none ↦ none
      | some cfg ↦ some (choose_mode cfg)
    ] in
    let read : take_pids (tokens b',' value) [] ≡ take max_pids (p ∷ ps) =
      ap (λ ts. take_pids ts []) (tokens-join (map decimal (p ∷ ps)) (Numerals-decimal (p ∷ ps)))
      ∙ take_pids-take (map decimal (p ∷ ps)) [] (omega arith)
      ∙ ap (take max_pids) (map-atoi (p ∷ ps) h) in
    ap finish (parse_loop-pids value defaults)
    ∙ ap (λ qs. some (choose_mode (record defaults { pids = qs }))) read
    ∙ ap some (choose_mode-pids p (take 255 ps))

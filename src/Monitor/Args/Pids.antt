-- ===== src/Monitor/Args/Pids.antt =====
-- The round trip of `--pids` of final/src/monitor_final.c: a list of pids printed in decimal, with
-- commas, is read back.
pub mod Printed
use mathlib.Core.Path.{subst}
use capstone_monitor.Base.{
  ℕ, zero, suc, ◌+◌, ◌-◌, ◌*◌, ◌/◌, ◌%◌, ◌^◌, ◌≤◌, ◌<◌, ◌≡◌, ◌≢◌, refl, sym, ap, ◌∙◌, inl, inr,
  Bool, true, false, ◌&&◌, ◌||◌, not, List, [], ◌∷◌, ◌++◌, map, length, length-append, append_assoc,
  take, ◌==◌, ltb, leb, if◌then◌else◌, Bool-cases, token, tokens, tokens_from, is_digit, all_digits,
  is_space, leading, positive_int, signed, atoi, arith,
}
use capstone_monitor.Monitor.{max_pids}
use capstone_monitor.Monitor.Args.{take_pids}

-- the texts one behind the other, with a separator between them
abbrev pub join : ℕ → List (List ℕ) → List ℕ
join sep [] = []
join sep (t ∷ []) = t
join sep (t ∷ u ∷ ts) = t ++ sep ∷ join sep (u ∷ ts)

-- every text is a number: digits only, and at least one
pub data Numerals : List (List ℕ) → Type 0 where
  none_left : Numerals []
  numeral :
      (c : ℕ) (s : List ℕ) (ts : List (List ℕ))
      → all_digits (c ∷ s) ≡ true
      → Numerals ts
      → Numerals ((c ∷ s) ∷ ts)

append_nil : (xs : List ℕ) → xs ++ [] ≡ xs
append_nil [] = refl
append_nil (x ∷ xs) = ap (◌∷◌ x) (append_nil xs)

and_left : (a b : Bool) → (a && b) ≡ true → a ≡ true
and_left true b h = refl
and_left false b h = h

and_right : (a b : Bool) → (a && b) ≡ true → b ≡ true
and_right true b h = h
and_right false b h = absurd (ground (arith, h))

not_comma : (c : ℕ) → is_digit c ≡ true → (c == b',') ≡ false
not_comma c h = ground (arith, h)

tokens_from-end :
    (read s : List ℕ) → all_digits s ≡ true → tokens_from b',' read s ≡ token (read ++ s) []
unfolding tokens_from
tokens_from-end read [] h = ap (λ r. token r []) (sym (append_nil read))
tokens_from-end read (c ∷ s) h = rw (not_comma c (and_left (is_digit c) (all_digits s) h)) (
    tokens_from-end (read ++ c ∷ []) s (and_right (is_digit c) (all_digits s) h)
    ∙ ap (λ r. token r []) (append_assoc read (c ∷ []) s))

tokens_from-comma :
    (read s rest : List ℕ)
    → all_digits s ≡ true
    → tokens_from b',' read (s ++ b',' ∷ rest) ≡ token (read ++ s) (tokens_from b',' [] rest)
unfolding tokens_from
tokens_from-comma read [] rest h =
    ap (λ r. token r (tokens_from b',' [] rest)) (sym (append_nil read))
tokens_from-comma read (c ∷ s) rest h = rw (not_comma c (and_left (is_digit c) (all_digits s) h)) (
    tokens_from-comma (read ++ c ∷ []) s rest (and_right (is_digit c) (all_digits s) h)
    ∙ ap (λ r. token r (tokens_from b',' [] rest)) (append_assoc read (c ∷ []) s))

pub tokens-join : (ts : List (List ℕ)) → Numerals ts → tokens b',' (join b',' ts) ≡ ts
unfolding tokens
tokens-join _ none_left = refl
tokens-join _ (numeral c s [] h n) = tokens_from-end [] (c ∷ s) h
tokens-join _ (numeral c s (u ∷ ts) h n) =
    tokens_from-comma [] (c ∷ s) (join b',' (u ∷ ts)) h ∙ ap (◌∷◌ (c ∷ s)) (tokens-join (u ∷ ts) n)

take_nothing : (n : ℕ) → take {A = ℕ} n [] ≡ []
take_nothing zero = refl
take_nothing (suc n) = refl

-- The loop over the tokens takes as many as the array has room for.
pub take_pids-take :
    (toks : List (List ℕ)) (ps : List ℕ)
    → length ps ≤ max_pids
    → take_pids toks ps ≡ ps ++ take (max_pids - length ps) (map atoi toks)
unfolding take_pids
take_pids-take [] ps h =
    sym (append_nil ps) ∙ ap (λ r. ps ++ r) (sym (take_nothing (max_pids - length ps)))
take_pids-take (tok ∷ toks) ps h = elim (Bool-cases (ltb (length ps) max_pids)) [
  | inl room ↦
      let qs = ps ++ atoi tok ∷ [] in
      let size = length-append ps (atoi tok ∷ []) in
      let left : max_pids - length ps ≡ suc (max_pids - length qs) = ground (arith, room, size) in
      rw room (
        take_pids-take toks qs (ground (arith, room, size))
        ∙ append_assoc ps (atoi tok ∷ []) (take (max_pids - length qs) (map atoi toks))
        ∙ ap (λ n. ps ++ take n (atoi tok ∷ map atoi toks)) (sym left))
  | inr full ↦
      let left : max_pids - length ps ≡ 0 = ground (arith, full, h) in
      rw (full, left) (sym (append_nil ps))
]

-- atoi on digits
pub atoi-digits :
    (c : ℕ) (s : List ℕ)
    → all_digits (c ∷ s) ≡ true
    → leading 0 (c ∷ s) < 2 ^ 31
    → atoi (c ∷ s) ≡ leading 0 (c ∷ s)
unfolding atoi signed positive_int
atoi-digits c s h lt =
    let digit = and_left (is_digit c) (all_digits s) h in
    let no_space : is_space c ≡ false = ground (arith, digit) in
    let no_minus : (c == b'-') ≡ false = ground (arith, digit) in
    let no_plus : (c == b'+') ≡ false = ground (arith, digit) in
    rw (no_space, no_minus, no_plus) (omega (arith, lt))

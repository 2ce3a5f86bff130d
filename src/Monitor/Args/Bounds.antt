-- ===== src/Monitor/Args/Bounds.antt =====
-- The ranges of what `parse_args` of final/src/monitor_final.c returns.
use capstone_monitor.Base.{
  ℕ, ◌+◌, ◌^◌, ◌≤◌, ◌<◌, ◌≡◌, inl, inr, true, false, ◌&&◌, Option, none, some, List, [], ◌∷◌, ◌++◌,
  length, length-append, ◌==◌, ltb, Bool-cases, if_both, tokens, atoi, bit_or_lt, arith,
}
use mathlib.Core.Path.{subst}
use capstone_monitor.Monitor.{max_pids, max_cores}
use capstone_monitor.Monitor.Args.{
  DaemonConfig, Flag, pids, top, interval, csv, min_uid, all, per_core, cores, quiet, terminal,
  daemon, version, other, flag_of, take_pids, take_top, take_interval, take_core, take_cores,
  apply_flag, takes_value, is_version, parse_loop, choose_mode, parse_args, defaults,
}

-- the ranges of the fields
pub record IsBounded (pids : List ℕ) (top_n interval_ms per_core_mask : ℕ) : Type 0 where
  pub few : length pids ≤ max_pids
  pub few_top : top_n ≤ max_pids
  pub positive : 0 < interval_ms
  pub in_int : interval_ms < 2 ^ 31
  pub mask : per_core_mask < 2 ^ 64

abbrev pub IsInRange : DaemonConfig → Type 0
IsInRange cfg = IsBounded cfg.pids cfg.top_n cfg.interval_ms cfg.per_core_mask

length-take_pids :
    (toks : List (List ℕ)) (ps : List ℕ)
    → length ps ≤ max_pids
    → length (take_pids toks ps) ≤ max_pids
unfolding take_pids
length-take_pids [] ps h = h
length-take_pids (tok ∷ toks) ps h = elim (Bool-cases (ltb (length ps) max_pids)) [
  | inl room ↦ rw room (
      length-take_pids toks (ps ++ atoi tok ∷ [])
        (ground (arith, room, length-append ps (atoi tok ∷ []))))
  | inr full ↦ rw full h
]

take_top_le : (n : ℕ) → take_top n ≤ max_pids
unfolding take_top
take_top_le n = ground arith

take_interval_lt : (n : ℕ) → (0 < take_interval n) × (take_interval n < 2 ^ 31)
unfolding take_interval
take_interval_lt n = ground arith

take_core_lt : (c mask : ℕ) → mask < 2 ^ 64 → take_core c mask < 2 ^ 64
unfolding take_core
take_core_lt c mask h = elim (Bool-cases (ltb c (2 ^ 31) && ltb c max_cores)) [
  | inl e ↦ rw e (bit_or_lt 64 c mask (ground arith) h)
  | inr e ↦ rw e h
]

take_cores_lt : (toks : List (List ℕ)) (mask : ℕ) → mask < 2 ^ 64 → take_cores toks mask < 2 ^ 64
unfolding take_cores
take_cores_lt [] mask h = h
take_cores_lt (tok ∷ toks) mask h =
    take_cores_lt toks (take_core (atoi tok) mask) (take_core_lt (atoi tok) mask h)

apply_flag-IsInRange :
    (f : Flag) (value : List ℕ) (cfg : DaemonConfig)
    → IsInRange cfg
    → IsInRange (apply_flag f value cfg)
unfolding apply_flag
apply_flag-IsInRange pids value cfg r = record {
  few = length-take_pids (tokens b',' value) cfg.pids r.few;
  few_top = r.few_top;
  positive = r.positive;
  in_int = r.in_int;
  mask = r.mask;
}
apply_flag-IsInRange top value cfg r = record {
  few = r.few;
  few_top = take_top_le (atoi value);
  positive = r.positive;
  in_int = r.in_int;
  mask = r.mask;
}
apply_flag-IsInRange interval value cfg r = record {
  few = r.few;
  few_top = r.few_top;
  positive = (take_interval_lt (atoi value)).0;
  in_int = (take_interval_lt (atoi value)).1;
  mask = r.mask;
}
apply_flag-IsInRange cores value cfg r = record {
  few = r.few;
  few_top = r.few_top;
  positive = r.positive;
  in_int = r.in_int;
  mask = take_cores_lt (tokens b',' value) cfg.per_core_mask r.mask;
}
apply_flag-IsInRange all value cfg r = record {
  few = r.few;
  few_top = omega arith;
  positive = r.positive;
  in_int = r.in_int;
  mask = r.mask;
}
apply_flag-IsInRange csv value cfg r = r
apply_flag-IsInRange min_uid value cfg r = r
apply_flag-IsInRange per_core value cfg r = r
apply_flag-IsInRange quiet value cfg r = r
apply_flag-IsInRange terminal value cfg r = r
apply_flag-IsInRange daemon value cfg r = r
apply_flag-IsInRange version value cfg r = r
apply_flag-IsInRange other value cfg r = r

-- what a result has, if there is one
abbrev Each : (DaemonConfig → Type 0) → Option DaemonConfig → Type 0
Each P none = Unit {0}
Each P (some cfg) = P cfg

parse_loop-IsInRange :
    (argv : List (List ℕ)) (cfg : DaemonConfig)
    → IsInRange cfg
    → Each IsInRange (parse_loop argv cfg)
unfolding parse_loop
parse_loop-IsInRange [] cfg r = r
parse_loop-IsInRange (arg ∷ []) cfg r =
    let flag = flag_of arg false in
    if_both (Each IsInRange) (is_version flag) tt (apply_flag-IsInRange flag [] cfg r)
parse_loop-IsInRange (arg ∷ value ∷ rest) cfg r =
    let flag = flag_of arg true in
    let cfg' = apply_flag flag value cfg in
    let r' = apply_flag-IsInRange flag value cfg r in
    if_both (Each IsInRange) (is_version flag) tt (
      if_both (Each IsInRange) (takes_value flag) (parse_loop-IsInRange rest cfg' r')
        (parse_loop-IsInRange (value ∷ rest) cfg' r'))

choose_mode-IsInRange : (cfg : DaemonConfig) → IsInRange cfg → IsInRange (choose_mode cfg)
unfolding choose_mode
choose_mode-IsInRange cfg r =
    if_both IsInRange (length cfg.pids == 0 && cfg.top_n == 0)
      (record {
        few = r.few;
        few_top = omega arith;
        positive = r.positive;
        in_int = r.in_int;
        mask = r.mask;
      })
      r

-- one of the two modes of `sync_pids` is chosen
mode_chosen : (cfg : DaemonConfig) → 0 < length (choose_mode cfg).pids + (choose_mode cfg).top_n
unfolding choose_mode
mode_chosen cfg = elim (Bool-cases (length cfg.pids == 0 && cfg.top_n == 0)) [
  | inl e ↦ rw e (omega arith)
  | inr e ↦ rw e (ground (arith, e))
]

-- Whatever the command line is, if `parse_args` returns then a mode is chosen, `pids` is not
-- overrun, 0 <= top_n <= 256, the interval is a positive `int`, and the mask is a `uint64_t`.
pub parse_args-IsInRange :
    (argv : List (List ℕ)) (cfg : DaemonConfig)
    → parse_args argv ≡ some cfg
    → IsInRange cfg × (0 < length cfg.pids + cfg.top_n)
unfolding parse_args
parse_args-IsInRange argv cfg e =
    let start : IsInRange defaults = record {
      few = omega arith;
      few_top = omega arith;
      positive = omega arith;
      in_int = omega arith;
      mask = omega arith;
    } in
    subst (Each (λ c. IsInRange c × (0 < length c.pids + c.top_n))) e
      (chosen (parse_loop argv defaults) (parse_loop-IsInRange argv defaults start))
  where
    chosen :
        (o : Option DaemonConfig)
        → Each IsInRange o
        → Each
            (λ c. IsInRange c × (0 < length c.pids + c.top_n))
            (elim o [ none ↦ none | some c ↦ some (choose_mode c) ])
    chosen none r = tt
    chosen (some c) r = (choose_mode-IsInRange c r, mode_chosen c)

-- ===== src/Monitor/Args.antt =====
-- `parse_args` of final/src/monitor_final.c: the configuration from the command line behind its first
-- argument, the path of the eBPF object. An `int` is its
-- 32-bit pattern, and a text is the list of its bytes.
pub mod Bounds
pub mod Cores
pub mod Pids
use Prim.Native.Nat.{bit_or}
use capstone_monitor.Base.{
  ℕ, ◌^◌, Bool, true, false, ◌&&◌, ◌||◌, Option, none, some, List, [], ◌∷◌, ◌++◌, length, ◌==◌, leb,
  ltb, if◌then◌else◌, codes, same_text, tokens, atoi,
}
use capstone_monitor.Monitor.{max_pids, max_cores}

-- `DEFAULT_INTERVAL`, `DEFAULT_TOP_N` and `MIN_UID`
abbrev pub default_interval : ℕ
default_interval = 50

abbrev pub default_top_n : ℕ
default_top_n = 50

abbrev pub default_min_uid : ℕ
default_min_uid = 1000

-- `DaemonConfig`, but for `running`: the `n_pids` first entries of `pids` are a list.
pub record DaemonConfig : Type 0 where
  pub pids : List ℕ
  pub top_n : ℕ
  pub min_uid : ℕ
  pub interval_ms : ℕ
  pub csv_path : Option (List ℕ)
  pub terminal_mode : Bool
  pub per_core : Bool
  pub quiet_mode : Bool
  pub per_core_mask : ℕ

-- what is set before the loop
abbrev pub defaults : DaemonConfig
defaults = record {
  pids = [];
  top_n = 0;
  min_uid = default_min_uid;
  interval_ms = default_interval;
  csv_path = none;
  terminal_mode = false;
  per_core = false;
  quiet_mode = false;
  per_core_mask = 0;
}

-- the branches of the loop over `argv`
pub data Flag : Type 0 where
  pids top interval csv min_uid all per_core cores quiet terminal daemon version other : Flag

-- which branch an argument takes, by whether another one follows
unfoldable pub flag_of : List ℕ → Bool → Flag
unfolding same_text
flag_of arg next =
    if same_text arg (codes "--pids") && next
    then pids
    else if same_text arg (codes "--top") && next
    then top
    else if same_text arg (codes "--interval") && next
    then interval
    else if same_text arg (codes "--csv") && next
    then csv
    else if same_text arg (codes "--min-uid") && next
    then min_uid
    else if same_text arg (codes "--all")
    then all
    else if same_text arg (codes "--per-core")
    then per_core
    else if same_text arg (codes "--cores") && next
    then cores
    else if same_text arg (codes "--quiet")
    then quiet
    else if same_text arg (codes "--terminal")
    then terminal
    else if same_text arg (codes "--daemon")
    then daemon
    else if same_text arg (codes "--version")
    then version
    else other

-- the tests of an `int`: `x <= 0` and `x > n`
abbrev pub not_positive : ℕ → Bool
not_positive x = x == 0 || leb (2 ^ 31) x

abbrev pub above : ℕ → ℕ → Bool
above x n = ltb x (2 ^ 31) && ltb n x

-- the loop over the tokens of `--pids`
unfoldable pub take_pids : List (List ℕ) → List ℕ → List ℕ
unfolding atoi
take_pids [] ps = ps
take_pids (tok ∷ toks) ps =
    let more = take_pids toks (ps ++ atoi tok ∷ []) in if ltb (length ps) max_pids then more else ps

unfoldable pub take_top : ℕ → ℕ
take_top n = if not_positive n || above n max_pids then default_top_n else n

unfoldable pub take_interval : ℕ → ℕ
take_interval n = if not_positive n then default_interval else n

-- `if (c >= 0 && c < MAX_CORES) g_cfg.per_core_mask |= (1ULL << c);`
unfoldable pub take_core : ℕ → ℕ → ℕ
take_core c mask = if ltb c (2 ^ 31) && ltb c max_cores then bit_or mask (2 ^ c) else mask

-- the loop over the tokens of `--cores`
unfoldable pub take_cores : List (List ℕ) → ℕ → ℕ
unfolding take_core atoi
take_cores [] mask = mask
take_cores (tok ∷ toks) mask = take_cores toks (take_core (atoi tok) mask)

-- the body of a branch, with the argument behind it
unfoldable pub apply_flag : Flag → List ℕ → DaemonConfig → DaemonConfig
unfolding take_pids take_top take_interval take_cores tokens
apply_flag pids value cfg = record cfg { pids = take_pids (tokens b',' value) cfg.pids }
apply_flag top value cfg = record cfg { top_n = take_top (atoi value) }
apply_flag interval value cfg = record cfg { interval_ms = take_interval (atoi value) }
apply_flag csv value cfg = record cfg { csv_path = some value }
apply_flag min_uid value cfg = record cfg { min_uid = atoi value }
apply_flag all value cfg = record cfg { top_n = max_pids }
apply_flag per_core value cfg = record cfg { per_core = true }
apply_flag cores value cfg = record cfg {
  per_core = true;
  per_core_mask = take_cores (tokens b',' value) cfg.per_core_mask;
}
apply_flag quiet value cfg = record cfg { quiet_mode = true }
apply_flag terminal value cfg = record cfg { terminal_mode = true }
apply_flag daemon value cfg = record cfg { terminal_mode = false }
apply_flag version value cfg = cfg
apply_flag other value cfg = cfg

-- whether a branch reads the argument behind it (`i++`)
abbrev pub takes_value : Flag → Bool
takes_value pids = true
takes_value top = true
takes_value interval = true
takes_value csv = true
takes_value min_uid = true
takes_value cores = true
takes_value _ = false

abbrev pub is_version : Flag → Bool
is_version version = true
is_version _ = false

-- The loop over `argv`; `none` is the exit of `--version`.
unfoldable pub parse_loop : List (List ℕ) → DaemonConfig → Option DaemonConfig
unfolding flag_of apply_flag
parse_loop [] cfg = some cfg
parse_loop (arg ∷ []) cfg =
    let flag = flag_of arg false in if is_version flag then none else some (apply_flag flag [] cfg)
parse_loop (arg ∷ value ∷ rest) cfg =
    let flag = flag_of arg true in
    let cfg' = apply_flag flag value cfg in
    let behind = parse_loop rest cfg' in
    let next = parse_loop (value ∷ rest) cfg' in
    if is_version flag then none else if takes_value flag then behind else next

-- the default of the mode, if neither was chosen
unfoldable pub choose_mode : DaemonConfig → DaemonConfig
choose_mode cfg =
    if length cfg.pids == 0 && cfg.top_n == 0 then record cfg { top_n = default_top_n } else cfg

unfoldable pub parse_args : List (List ℕ) → Option DaemonConfig
unfolding parse_loop choose_mode
parse_args argv = elim (parse_loop argv defaults) [
  | none ↦ none
  | some cfg ↦ some (choose_mode cfg)
]

-- ===== src/Tests/Options.antt =====
-- Command lines of the daemon.
use capstone_monitor.Base.{
  ℕ, ◌+◌, ◌<◌, ◌≡◌, refl, true, not, ◌||◌, some, List, [], ◌∷◌, length, map, elem, codes, same_text,
  tokens, tokens_from, atoi, leading, positive_int, signed, arith,
}
use capstone_monitor.Monitor.FastPath.{is_selected}
use capstone_monitor.Monitor.Args.{
  DaemonConfig, defaults, flag_of, take_pids, take_top, take_interval, take_core, take_cores,
  apply_flag, parse_loop, choose_mode, parse_args,
}
use capstone_monitor.Monitor.Args.Bounds.{IsInRange, parse_args-IsInRange}
use capstone_monitor.Monitor.Args.Cores.{names_core, is_selected-take_cores}
use capstone_monitor.Monitor.Args.Pids.{join}
use capstone_monitor.Monitor.Args.Pids.Printed.{decimal, parse_args-pids}

abbrev line : List (List ℕ)
line = codes "--top" ∷ codes "999" ∷ codes "--cores" ∷ codes "1,70" ∷ codes "--quiet" ∷ []

abbrev parsed : DaemonConfig
parsed = record defaults { top_n = 50; per_core = true; per_core_mask = 2; quiet_mode = true }

run_of_line : parse_args line ≡ some parsed
unfolding parse_args parse_loop flag_of same_text apply_flag take_pids take_top take_interval
    take_core take_cores tokens tokens_from atoi signed positive_int leading choose_mode
run_of_line = refl

parse_args-IsInRange_example : IsInRange parsed × (0 < length parsed.pids + parsed.top_n)
parse_args-IsInRange_example = parse_args-IsInRange line parsed run_of_line

-- `--cores 1,70`
is_selected-take_cores_example : is_selected (take_cores (codes "1" ∷ codes "70" ∷ []) 0) 1 ≡ (
    not (names_core (map atoi (codes "1" ∷ codes "70" ∷ [])))
    || elem 1 (map atoi (codes "1" ∷ codes "70" ∷ [])))
is_selected-take_cores_example =
    is_selected-take_cores (codes "1" ∷ codes "70" ∷ []) 1 (omega arith)

-- `--cores 70` selects every core.
no_core : is_selected (take_cores (codes "70" ∷ []) 0) 3 ≡ true
unfolding is_selected take_cores take_core atoi signed positive_int leading
no_core = refl

parse_args-pids_example :
    parse_args (codes "--pids" ∷ join b',' (map decimal (12 ∷ 3400 ∷ [])) ∷ [])
    ≡ some (record defaults { pids = 12 ∷ 3400 ∷ [] })
parse_args-pids_example = parse_args-pids 12 (3400 ∷ []) refl

printed : join b',' (map decimal (12 ∷ 3400 ∷ [])) ≡ codes "12,3400"
printed = refl

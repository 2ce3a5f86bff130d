-- ===== src/ProcScanner.antt =====
-- final/src/proc_scanner.c and proc_scanner.h: the processes that are ranked by their CPU ticks. The
-- array of entries is the list of those in use. What is read of /proc is an interface: `stat` is
-- the name, utime and stime of /proc/PID/stat, `uid` the user of /proc/PID/status, both `none` for
-- -1 (a user whose `int` is negative is as good as -1 in every test). A pid is the `uint32_t` that the caller passes.
pub mod Entries
pub mod Bounds
pub mod Ranking
pub mod StatLine
pub mod Status
use capstone_monitor.Base.{
  ℕ, ◌+◌, ◌-◌, ◌%◌, ◌^◌, Bool, true, false, ◌&&◌, ◌||◌, not, Option, none, some, List, [], ◌∷◌,
  ◌++◌, map, length, take, ◌==◌, leb, ltb, if◌then◌else◌,
}

-- `PROC_MAX_TRACKED`
abbrev pub proc_max_tracked : ℕ
proc_max_tracked = 1024

-- what `read_proc_stat` fills
pub record Stat : Type 0 where
  pub comm : List ℕ
  pub utime : ℕ
  pub stime : ℕ

pub record ProcFs : Type 0 where
  pub stat : ℕ → Option Stat
  pub uid : ℕ → Option ℕ

pub record ProcEntry : Type 0 where
  pub pid : ℕ
  pub comm : List ℕ
  pub uid : Option ℕ
  pub utime : ℕ
  pub stime : ℕ
  pub total_ticks : ℕ
  pub prev_ticks : ℕ
  pub delta_ticks : ℕ
  pub active : Bool

pub record ProcScanner : Type 0 where
  pub entries : List ProcEntry
  pub scan_count : ℕ

abbrev pub proc_scanner_init : ProcScanner
proc_scanner_init = record { entries = []; scan_count = 0 }

-- a zeroed entry with its pid
abbrev pub blank : ℕ → ProcEntry
blank pid = record {
  pid = pid;
  comm = [];
  uid = some 0;
  utime = 0;
  stime = 0;
  total_ticks = 0;
  prev_ticks = 0;
  delta_ticks = 0;
  active = false;
}

-- whether an entry has the pid
unfoldable pub has : ℕ → List ProcEntry → Bool
has pid [] = false
has pid (e ∷ es) = e.pid == pid || has pid es

-- `none` for NULL; else `is_new`, and the entries, among which is one of the pid
unfoldable pub find_or_alloc : ℕ → List ProcEntry → Option (Bool × List ProcEntry)
unfolding has
find_or_alloc pid es =
    if has pid es
    then some (false, es)
    else if leb proc_max_tracked (length es)
    then none
    else some (true, es ++ blank pid ∷ [])

-- a change of the entry that `find_or_alloc` returns
unfoldable pub update_entry : ℕ → (ProcEntry → ProcEntry) → List ProcEntry → List ProcEntry
update_entry pid f [] = []
update_entry pid f (e ∷ es) =
    let rest = update_entry pid f es in if e.pid == pid then f e ∷ es else e ∷ rest

-- `e->uid == 0`
abbrev pub is_root : Option ℕ → Bool
is_root none = false
is_root (some u) = u == 0

-- what the loop over the pids writes into an entry
unfoldable pub fill : Bool → Stat → Option ℕ → ProcEntry → ProcEntry
fill is_new st uid e =
    let total = (st.utime + st.stime) % 2 ^ 64 in
    let prev = if is_new then total else e.total_ticks in
    record {
      pid = e.pid;
      comm = if is_new then st.comm else e.comm;
      uid = if is_root e.uid && is_new then uid else e.uid;
      utime = st.utime;
      stime = st.stime;
      total_ticks = total;
      prev_ticks = prev;
      delta_ticks = if ltb prev total then total - prev else 0;
      active = true;
    }

-- `e->active = 0`
abbrev pub deactivate : ProcEntry → ProcEntry
deactivate e = record e { active = false }

-- the compaction: the entries that pass a test, in order
unfoldable pub keep {ℓ} : {A : Type ℓ} → (A → Bool) → List A → List A
keep test [] = []
keep test (x ∷ xs) = let rest = keep test xs in if test x then x ∷ rest else rest

-- `(int)pid > 1`
abbrev pub is_process : ℕ → Bool
is_process pid = not (leb pid 1) && ltb pid (2 ^ 31)

module _ (fs : ProcFs) where
  -- behind `find_or_alloc`, by what `read_proc_stat` returns: an entry that is new stays if it fails
  unfoldable pub scan_found : ℕ → Option Stat → Bool × List ProcEntry → List ProcEntry
  unfolding update_entry fill
  scan_found pid none (is_new, es) = es
  scan_found pid (some st) (is_new, es) = update_entry pid (fill is_new st (fs.uid pid)) es

  unfoldable pub scan_alloc : ℕ → Option (Bool × List ProcEntry) → List ProcEntry → List ProcEntry
  unfolding scan_found
  scan_alloc pid none es = es
  scan_alloc pid (some r) es = scan_found pid (fs.stat pid) r

  -- the body of the loop over the pids
  unfoldable pub scan_pid : ℕ → List ProcEntry → List ProcEntry
  unfolding find_or_alloc scan_alloc
  scan_pid pid es = if is_process pid then scan_alloc pid (find_or_alloc pid es) es else es

  unfoldable pub scan_all : List ℕ → List ProcEntry → List ProcEntry
  unfolding scan_pid
  scan_all [] es = es
  scan_all (pid ∷ pids) es = scan_all pids (scan_pid pid es)

  unfoldable pub proc_scanner_scan_pids : ProcScanner → List ℕ → ProcScanner
  unfolding keep scan_all
  proc_scanner_scan_pids ps pids = record {
    entries = keep (λ e. e.active) (scan_all pids (map deactivate ps.entries));
    scan_count = ps.scan_count + 1;
  }

  -- The scan of a directory: the numbers of the names in it that start with a digit, in order, or
  -- `none` if it cannot be opened. The loop is that of `proc_scanner_scan_pids`.
  unfoldable pub proc_scanner_scan : Option (List ℕ) → ProcScanner → ProcScanner
  unfolding proc_scanner_scan_pids
  proc_scanner_scan none ps = record ps { entries = map deactivate ps.entries }
  proc_scanner_scan (some pids) ps = proc_scanner_scan_pids ps pids

-- whether an entry is ranked; `min_uid` is the 32-bit pattern of an `int`, and no user is below a
-- negative one
abbrev pub is_eligible : ℕ → ProcEntry → Bool
is_eligible min_uid e =
    e.active && not (elim e.uid [ none ↦ false | some u ↦ ltb min_uid (2 ^ 31) && ltb u min_uid ])

-- the result of a comparison: negative, 0 or positive
pub data Sign : Type 0 where
  negative equal positive : Sign

unfoldable pub cmp_delta_desc : ProcEntry → ProcEntry → Sign
cmp_delta_desc pa pb =
    if ltb pa.delta_ticks pb.delta_ticks
    then positive
    else if ltb pb.delta_ticks pa.delta_ticks
    then negative
    else equal

-- `qsort` is a parameter: the list in the order that a comparison gives.
unfoldable pub proc_scanner_top_n :
    ((ProcEntry → ProcEntry → Sign) → List ProcEntry → List ProcEntry)
    → ProcScanner
    → ℕ
    → ℕ
    → List ℕ
unfolding keep
proc_scanner_top_n qsort ps n min_uid =
    if length ps.entries == 0
    then []
    else map (λ e. e.pid) (take n (qsort cmp_delta_desc (keep (is_eligible min_uid) ps.entries)))

-- ===== src/ProcScanner/Bounds.antt =====
-- The entries of final/src/proc_scanner.c behind a scan.
use capstone_monitor.Base.{
  ℕ, ◌≤◌, ◌≡◌, ◌≢◌, refl, ap, ◌∙◌, inl, inr, Bool, true, false, Option, none, some, List, [], ◌∷◌,
  ◌++◌, map, length, length-append, leb, arith, eq_cases, Bool-cases, if_both,
}
use capstone_monitor.ProcScanner.{
  proc_max_tracked, Stat, ProcFs, ProcEntry, ProcScanner, blank, has, find_or_alloc, fill,
  deactivate, is_process, scan_found, scan_alloc, scan_pid, scan_all, proc_scanner_scan_pids,
  proc_scanner_scan,
}
use capstone_monitor.ProcScanner.Entries.{
  occurs, Unlisted, AllActive, occurs-append, occurs-has, occurs-update_entry, length-update_entry,
  occurs-keep, length-keep, keep-AllActive, occurs-deactivate, length-deactivate, live, live-append,
  live-deactivate, occurs-active, live-update_entry,
}

-- No pid has two entries, and the entries fit into the array.
pub record IsTracked (es : List ProcEntry) : Type 0 where
  pub once : (p : ℕ) → occurs p es ≤ 1
  pub few : length es ≤ proc_max_tracked

alloc-IsTracked :
    (pid : ℕ) (es : List ProcEntry)
    → IsTracked es
    → has pid es ≡ false
    → leb proc_max_tracked (length es) ≡ false
    → IsTracked (es ++ blank pid ∷ [])
alloc-IsTracked pid es t new room = record {
  once = λ p.
      let z = occurs-has pid es new in
      let o = t.once p in
      elim (eq_cases pid p) [
        | inl e ↦ ground (arith, occurs-append p es (blank pid ∷ []), ap (λ x. occurs x es) e)
        | inr ne ↦ ground (arith, occurs-append p es (blank pid ∷ []))
      ];
  few = ground (arith, length-append es (blank pid ∷ []));
}

fill-pid :
    (new : Bool) (st : Stat) (uid : Option ℕ) (e : ProcEntry) → (fill new st uid e).pid ≡ e.pid
unfolding fill
fill-pid new st uid e = refl

-- The entries may change behind `es` to a state that is tracked too and in which every other pid is
-- as live as before.
Scanned : ℕ → List ProcEntry → List ProcEntry → Type 0
Scanned pid es es' = IsTracked es' × ((p : ℕ) → pid ≢ p → live p es' ≡ live p es)

module _ (fs : ProcFs) where
  scan_found-Scanned :
      (pid : ℕ) (o : Option Stat) (new : Bool) (es : List ProcEntry)
      → IsTracked es
      → Scanned pid es (scan_found fs pid o (new, es))
  unfolding scan_found Scanned
  scan_found-Scanned pid none new es t = (t, λ p ne. refl)
  scan_found-Scanned pid (some st) new es t =
      let f = fill new st (fs.uid pid) in
      let keeps = fill-pid new st (fs.uid pid) in
      (
        record {
          once = λ p. omega (arith, occurs-update_entry p pid f es keeps, t.once p);
          few = omega (arith, length-update_entry pid f es, t.few);
        },
        λ p ne. live-update_entry p pid f es keeps ne,
      )

  scan_pid-Scanned :
      (pid : ℕ) (es : List ProcEntry) → IsTracked es → Scanned pid es (scan_pid fs pid es)
  unfolding scan_pid find_or_alloc scan_alloc Scanned
  scan_pid-Scanned pid es t =
      if_both (λ (l : List ProcEntry). Scanned pid es l) (is_process pid)
        (elim (Bool-cases (has pid es)) [
          | inl y ↦ rw y (scan_found-Scanned pid (fs.stat pid) false es t)
          | inr n ↦ elim (Bool-cases (leb proc_max_tracked (length es))) [
            | inl full ↦ rw (n, full) (t, λ p ne. refl)
            | inr room ↦
                let a = alloc-IsTracked pid es t n room in
                let s = scan_found-Scanned pid (fs.stat pid) true (es ++ blank pid ∷ []) a in
                rw (n, room)
                  (s.0, λ p ne. s.1 p ne ∙ ground (arith, live-append p es (blank pid ∷ [])))
          ]
        ])
        (t, λ p ne. refl)

  scan_all-IsTracked :
      (pids : List ℕ) (es : List ProcEntry) → IsTracked es → IsTracked (scan_all fs pids es)
  unfolding scan_all Scanned
  scan_all-IsTracked [] es t = t
  scan_all-IsTracked (pid ∷ pids) es t =
      scan_all-IsTracked pids (scan_pid fs pid es) (scan_pid-Scanned pid es t).0

  scan_all-live :
      (p : ℕ) (pids : List ℕ) (es : List ProcEntry)
      → IsTracked es
      → Unlisted p pids
      → live p (scan_all fs pids es) ≡ live p es
  unfolding scan_all Scanned
  scan_all-live p [] es t u = refl
  scan_all-live p (pid ∷ pids) es t u =
      let s = scan_pid-Scanned pid es t in
      scan_all-live p pids (scan_pid fs pid es) s.0 u.1 ∙ s.1 p u.0

  deactivated : (ps : ProcScanner) → IsTracked ps.entries → IsTracked (map deactivate ps.entries)
  deactivated ps t = record {
    once = λ p. omega (arith, occurs-deactivate p ps.entries, t.once p);
    few = omega (arith, length-deactivate ps.entries, t.few);
  }

  -- From entries that fit into the array and of which no two have the same pid, a scan of a list of
  -- pids leaves such entries again, and all of them are active.
  pub proc_scanner_scan_pids-IsTracked :
      (ps : ProcScanner) (pids : List ℕ)
      → IsTracked ps.entries
      → let es = (proc_scanner_scan_pids fs ps pids).entries in IsTracked es × AllActive es
  unfolding proc_scanner_scan_pids
  proc_scanner_scan_pids-IsTracked ps pids t =
      let all = scan_all fs pids (map deactivate ps.entries) in
      let t1 = scan_all-IsTracked pids (map deactivate ps.entries) (deactivated ps t) in
      (
        record {
          once = λ p. omega (arith, occurs-keep p (λ e. e.active) all, t1.once p);
          few = omega (arith, length-keep (λ e. e.active) all, t1.few);
        },
        keep-AllActive all,
      )

  -- From such entries, a scan leaves no entry of a pid that is not in its list.
  pub occurs-proc_scanner_scan_pids :
      (ps : ProcScanner) (pids : List ℕ) (p : ℕ)
      → IsTracked ps.entries
      → Unlisted p pids
      → occurs p (proc_scanner_scan_pids fs ps pids).entries ≡ 0
  unfolding proc_scanner_scan_pids
  occurs-proc_scanner_scan_pids ps pids p t u =
      occurs-active p (scan_all fs pids (map deactivate ps.entries))
      ∙ scan_all-live p pids (map deactivate ps.entries) (deactivated ps t) u
      ∙ live-deactivate p ps.entries

  -- From entries that fit into the array and of which no two have the same pid, the scan of the
  -- directory leaves such entries, also if it cannot be opened.
  pub proc_scanner_scan-IsTracked :
      (dir : Option (List ℕ)) (ps : ProcScanner)
      → IsTracked ps.entries
      → IsTracked (proc_scanner_scan fs dir ps).entries
  unfolding proc_scanner_scan
  proc_scanner_scan-IsTracked none ps t = deactivated ps t
  proc_scanner_scan-IsTracked (some pids) ps t = (proc_scanner_scan_pids-IsTracked ps pids t).0

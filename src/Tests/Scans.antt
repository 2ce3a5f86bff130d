-- ===== src/Tests/Scans.antt =====
-- Scans of a small /proc, and the ranking with an insertion sort.
use capstone_monitor.Base.{
  ℕ, ◌+◌, ◌≤◌, ◌≡◌, ◌≢◌, refl, inl, inr, Bool, true, false, none, some, List, [], ◌∷◌, map, ◌==◌,
  ltb, if◌then◌else◌, arith, Bool-cases,
}
use capstone_monitor.ProcScanner.{
  ProcFs, ProcEntry, ProcScanner, Sign, positive, proc_scanner_scan_pids, scan_all, scan_pid,
  find_or_alloc, has, scan_alloc, scan_found, update_entry, fill, keep, cmp_delta_desc,
  proc_scanner_top_n,
}
use capstone_monitor.ProcScanner.Bounds.{IsTracked}
use capstone_monitor.ProcScanner.Ranking.{
  count, NoneBefore, IsOrdered, IsSort, IsTop, proc_scanner_top_n_lem,
}

-- processes 10, 11 and 12 of user 1000, with 100, 200 and 300 ticks
abbrev proc : ProcFs
proc = record {
  stat = λ pid.
      if ltb 9 pid
      then if ltb pid 13
        then some (record { comm = []; utime = (pid + pid) + pid; stime = 4 })
        else none
      else none;
  uid = λ _. some 1000;
}

abbrev entry : ℕ → ℕ → ProcEntry
entry pid total = record {
  pid = pid;
  comm = [];
  uid = some 1000;
  utime = total;
  stime = 0;
  total_ticks = total;
  prev_ticks = total;
  delta_ticks = total;
  active = true;
}

abbrev scanner : ProcScanner
scanner = record { entries = entry 10 30 ∷ entry 7 50 ∷ entry 12 35 ∷ []; scan_count = 1 }

-- 7 is gone, 11 is new, and 10 and 12 have used 4 and 5 ticks.
scanned :
    map (λ e. e.delta_ticks) (proc_scanner_scan_pids proc scanner (7 ∷ 12 ∷ 11 ∷ 10 ∷ [])).entries
    ≡ 4 ∷ 5 ∷ 0 ∷ []
unfolding proc_scanner_scan_pids scan_all scan_pid find_or_alloc has scan_alloc scan_found
    update_entry fill keep
scanned = refl

scanner-IsTracked : IsTracked scanner.entries
scanner-IsTracked = record { once = λ p. ground arith; few = omega arith }

differ : {a b : ℕ} → (a == b) ≡ false → a ≢ b
differ {a} {b} h = λ e. grind arith

abbrev is_after : Sign → Bool
is_after positive = true
is_after _ = false

module _ (cmp : ProcEntry → ProcEntry → Sign) where
  abbrev insert : ProcEntry → List ProcEntry → List ProcEntry
  insert x [] = x ∷ []
  insert x (y ∷ ys) = let rest = insert x ys in if is_after (cmp x y) then y ∷ rest else x ∷ y ∷ ys

  abbrev sort : List ProcEntry → List ProcEntry
  sort [] = []
  sort (x ∷ xs) = insert x (sort xs)

  count-insert :
      (test : ProcEntry → Bool) (x : ProcEntry) (ys : List ProcEntry)
      → count test (insert x ys) ≡ (if test x then 1 else 0) + count test ys
  count-insert test x [] = refl
  count-insert test x (y ∷ ys) = ground (arith, count-insert test x ys)

  count-sort :
      (test : ProcEntry → Bool) (xs : List ProcEntry) → count test (sort xs) ≡ count test xs
  count-sort test [] = refl
  count-sort test (x ∷ xs) = omega (arith, count-insert test x (sort xs), count-sort test xs)

  insert-NoneBefore :
      (z x : ProcEntry) (ys : List ProcEntry)
      → cmp z x ≢ positive
      → NoneBefore cmp z ys
      → NoneBefore cmp z (insert x ys)
  insert-NoneBefore z x [] h b = (h, tt)
  insert-NoneBefore z x (y ∷ ys) h b = elim (Bool-cases (is_after (cmp x y))) [
    | inl e ↦ rw e (b.0, insert-NoneBefore z x ys h b.1)
    | inr e ↦ rw e (h, b)
  ]

cmp_le : (x y : ProcEntry) → cmp_delta_desc x y ≢ positive → y.delta_ticks ≤ x.delta_ticks
unfolding cmp_delta_desc
cmp_le x y h = elim (Bool-cases (ltb x.delta_ticks y.delta_ticks)) [
  | inl less ↦ absurd (h (rw less refl))
  | inr more ↦ ground arith
]

le_cmp : (x y : ProcEntry) → y.delta_ticks ≤ x.delta_ticks → cmp_delta_desc x y ≢ positive
unfolding cmp_delta_desc
le_cmp x y h = λ e. grind arith

trans-NoneBefore :
    (x y : ProcEntry) (ys : List ProcEntry)
    → y.delta_ticks ≤ x.delta_ticks
    → NoneBefore cmp_delta_desc y ys
    → NoneBefore cmp_delta_desc x ys
trans-NoneBefore x y [] h b = tt
trans-NoneBefore x y (z ∷ zs) h b =
    (le_cmp x z (omega (arith, cmp_le y z b.0)), trans-NoneBefore x y zs h b.1)

after_le : (x y : ProcEntry) → is_after (cmp_delta_desc x y) ≡ true → x.delta_ticks ≤ y.delta_ticks
unfolding cmp_delta_desc
after_le x y h = ground arith

before_le :
    (x y : ProcEntry) → is_after (cmp_delta_desc x y) ≡ false → y.delta_ticks ≤ x.delta_ticks
unfolding cmp_delta_desc
before_le x y h = ground arith

insert-IsOrdered :
    (x : ProcEntry) (ys : List ProcEntry)
    → IsOrdered cmp_delta_desc ys
    → IsOrdered cmp_delta_desc (insert cmp_delta_desc x ys)
insert-IsOrdered x [] o = (tt, tt)
insert-IsOrdered x (y ∷ ys) o = elim (Bool-cases (is_after (cmp_delta_desc x y))) [
  | inl e ↦ rw e (
    insert-NoneBefore cmp_delta_desc y x ys (le_cmp y x (after_le x y e)) o.0,
    insert-IsOrdered x ys o.1,
  )
  | inr e ↦ let le = before_le x y e in rw e ((le_cmp x y le, trans-NoneBefore x y ys le o.0), o)
]

sort-IsSort : IsSort cmp_delta_desc (sort cmp_delta_desc)
sort-IsSort = record { same = count-sort cmp_delta_desc; ordered = ordered }
  where
    ordered : (xs : List ProcEntry) → IsOrdered cmp_delta_desc (sort cmp_delta_desc xs)
    ordered [] = tt
    ordered (x ∷ xs) = insert-IsOrdered x (sort cmp_delta_desc xs) (ordered xs)

proc_scanner_top_n_lem_example :
    (chosen : List ProcEntry) × (proc_scanner_top_n sort scanner 2 1000 ≡ map (λ e. e.pid) chosen)
    × IsTop 1000 2 scanner.entries chosen
proc_scanner_top_n_lem_example = proc_scanner_top_n_lem sort scanner 2 1000 sort-IsSort

ranked : proc_scanner_top_n sort scanner 2 1000 ≡ 7 ∷ 12 ∷ []
unfolding proc_scanner_top_n keep cmp_delta_desc
ranked = refl

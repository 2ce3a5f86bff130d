-- ===== src/ProcScanner/Ranking.antt =====
-- Which processes `proc_scanner_top_n` of final/src/proc_scanner.c chooses.
use capstone_monitor.Base.{
  ℕ, zero, suc, ◌+◌, ◌≤◌, ◌<◌, ◌≡◌, ◌≢◌, refl, ap, ◌∙◌, inl, inr, Bool, ◌&&◌, List, [], ◌∷◌, map,
  length, take, min, ltb, leb, if◌then◌else◌, arith, Bool-cases, ◌==◌, ==→eq,
}
use capstone_monitor.ProcScanner.{
  ProcEntry, ProcScanner, Sign, positive, keep, is_eligible, cmp_delta_desc, proc_scanner_top_n,
}

-- how many entries pass a test
abbrev pub count : (ProcEntry → Bool) → List ProcEntry → ℕ
count test [] = 0
count test (e ∷ es) = (if test e then 1 else 0) + count test es

-- No entry of the list comes before the given one.
abbrev pub NoneBefore : (ProcEntry → ProcEntry → Sign) → ProcEntry → List ProcEntry → Type 0
NoneBefore cmp x [] = Unit {0}
NoneBefore cmp x (y ∷ ys) = (cmp x y ≢ positive) × NoneBefore cmp x ys

abbrev pub IsOrdered : (ProcEntry → ProcEntry → Sign) → List ProcEntry → Type 0
IsOrdered cmp [] = Unit {0}
IsOrdered cmp (x ∷ xs) = NoneBefore cmp x xs × IsOrdered cmp xs

-- What qsort(3) promises for a comparison: the same entries, in order.
pub record IsSort (cmp : ProcEntry → ProcEntry → Sign) (sort : List ProcEntry → List ProcEntry)
    : Type 0 where
  pub same : (test : ProcEntry → Bool) (es : List ProcEntry) → count test (sort es) ≡ count test es
  pub ordered : (es : List ProcEntry) → IsOrdered cmp (sort es)

cmp_delta_desc-ordered :
    (x y : ProcEntry) → cmp_delta_desc x y ≢ positive → y.delta_ticks ≤ x.delta_ticks
unfolding cmp_delta_desc
cmp_delta_desc-ordered x y h = elim (Bool-cases (ltb x.delta_ticks y.delta_ticks)) [
  | inl less ↦ absurd (h (rw less refl))
  | inr more ↦ ground arith
]

-- whether an entry has at least `k` ticks
abbrev pub at_least : ℕ → ProcEntry → Bool
at_least k e = leb k e.delta_ticks

count-NoneBefore :
    (k : ℕ) (x : ProcEntry) (xs : List ProcEntry)
    → NoneBefore cmp_delta_desc x xs
    → x.delta_ticks < k
    → count (at_least k) xs ≡ 0
count-NoneBefore k x [] b lt = refl
count-NoneBefore k x (y ∷ ys) b lt =
    ground (arith, cmp_delta_desc-ordered x y b.0, count-NoneBefore k x ys b.1 lt)

count-take :
    (test : ProcEntry → Bool) (n : ℕ) (xs : List ProcEntry) → count test (take n xs) ≤ count test xs
count-take test zero xs = omega arith
count-take test (suc n) [] = omega arith
count-take test (suc n) (x ∷ xs) = omega (arith, count-take test n xs)

-- Of an ordered list, the first `n` hold as many entries of at least `k` ticks as they can.
count-take_ordered :
    (k n : ℕ) (xs : List ProcEntry)
    → IsOrdered cmp_delta_desc xs
    → count (at_least k) (take n xs) ≡ min n (count (at_least k) xs)
count-take_ordered k zero xs o = omega arith
count-take_ordered k (suc n) [] o = omega arith
count-take_ordered k (suc n) (x ∷ xs) o = elim (Bool-cases (at_least k x)) [
  | inl y ↦ rw y (omega (arith, count-take_ordered k n xs o.1))
  | inr less ↦
      let lt : x.delta_ticks < k = ground arith in
      let z = count-NoneBefore k x xs o.0 lt in
      rw less (omega (arith, count-take (at_least k) n xs, z))
]

count-keep :
    (test pass : ProcEntry → Bool) (es : List ProcEntry)
    → count test (keep pass es) ≡ count (λ e. pass e && test e) es
unfolding keep
count-keep test pass [] = refl
count-keep test pass (e ∷ es) = ground (arith, count-keep test pass es)

-- The chosen entries are eligible ones of `es`, none of them taken more often than it stands there,
-- and for every number of ticks as many of them have at least that delta as there are such eligible
-- entries, up to `n`.
pub record IsTop (min_uid n : ℕ) (es chosen : List ProcEntry) : Type 0 where
  pub taken :
      (test : ProcEntry → Bool)
      → count test chosen ≤ count (λ e. is_eligible min_uid e && test e) es
  pub most :
      (k : ℕ)
      → count (at_least k) chosen ≡ min n (count (λ e. is_eligible min_uid e && at_least k e) es)

count-nil : (test : ProcEntry → Bool) (es : List ProcEntry) → length es ≡ 0 → count test es ≡ 0
count-nil test [] h = refl
count-nil test (e ∷ es) h = absurd (omega (arith, h))

chosen-IsTop :
    (qsort : (ProcEntry → ProcEntry → Sign) → List ProcEntry → List ProcEntry) (ps : ProcScanner)
    (n min_uid : ℕ)
    → IsSort cmp_delta_desc (qsort cmp_delta_desc)
    → IsTop min_uid n ps.entries
        (take n (qsort cmp_delta_desc (keep (is_eligible min_uid) ps.entries)))
chosen-IsTop qsort ps n min_uid sorts =
    let es = keep (is_eligible min_uid) ps.entries in
    let sorted = qsort cmp_delta_desc es in
    record {
      taken = λ test. omega (
        arith,
        count-take test n sorted,
        sorts.same test es,
        count-keep test (is_eligible min_uid) ps.entries,
      );
      most = λ k.
          count-take_ordered k n sorted (sorts.ordered es)
          ∙ ap (min n) (
              sorts.same (at_least k) es
              ∙ count-keep (at_least k) (is_eligible min_uid) ps.entries);
    }

-- With a qsort that sorts by `cmp_delta_desc`, the pids returned are those of entries of the scan:
-- every test of an entry passes for at most as many of them as for eligible entries of the scan, and
-- for every number of ticks as many of them have at least that delta as there are eligible entries
-- with it, up to `n`: the `n` with the most ticks, or all if they are fewer.
pub proc_scanner_top_n_lem :
    (qsort : (ProcEntry → ProcEntry → Sign) → List ProcEntry → List ProcEntry) (ps : ProcScanner)
    (n min_uid : ℕ)
    → IsSort cmp_delta_desc (qsort cmp_delta_desc)
    → (chosen : List ProcEntry) × (proc_scanner_top_n qsort ps n min_uid ≡ map (λ e. e.pid) chosen)
      × IsTop min_uid n ps.entries chosen
unfolding proc_scanner_top_n
proc_scanner_top_n_lem qsort ps n min_uid sorts = elim (Bool-cases (length ps.entries == 0)) [
  | inl z ↦ rw z (
    [],
    refl,
    record {
      taken = λ test. omega arith;
      most = λ k.
          omega (
            arith,
            count-nil (λ e. is_eligible min_uid e && at_least k e) ps.entries (==→eq _ 0 z),
          );
    },
  )
  | inr more ↦ rw more (
    take n (qsort cmp_delta_desc (keep (is_eligible min_uid) ps.entries)),
    refl,
    chosen-IsTop qsort ps n min_uid sorts,
  )
]

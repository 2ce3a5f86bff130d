-- ===== src/ProcScanner/Entries.antt =====
-- How the steps of a scan of final/src/proc_scanner.c change the number of entries of a pid.
use capstone_monitor.Base.{
  ℕ, suc, ◌+◌, ◌≤◌, ◌≡◌, ◌≢◌, refl, ap, inl, inr, Bool, true, false, ◌&&◌, List, [], ◌∷◌, ◌++◌, map,
  length, ◌==◌, if◌then◌else◌, arith, Bool-cases, if_both,
}
use capstone_monitor.ProcScanner.{ProcEntry, has, update_entry, deactivate, keep}

-- how many entries have a pid
abbrev pub occurs : ℕ → List ProcEntry → ℕ
occurs p [] = 0
occurs p (e ∷ es) = (if e.pid == p then 1 else 0) + occurs p es

-- The pid is not in the list.
abbrev pub Unlisted : ℕ → List ℕ → Type 0
Unlisted p [] = Unit {0}
Unlisted p (q ∷ qs) = (q ≢ p) × Unlisted p qs

-- Every entry is active.
abbrev pub AllActive : List ProcEntry → Type 0
AllActive [] = Unit {0}
AllActive (e ∷ es) = (e.active ≡ true) × AllActive es

pub occurs-append :
    (p : ℕ) (es fs : List ProcEntry) → occurs p (es ++ fs) ≡ occurs p es + occurs p fs
occurs-append p [] fs = omega arith
occurs-append p (e ∷ es) fs = omega (arith, occurs-append p es fs)

pub occurs-has : (p : ℕ) (es : List ProcEntry) → has p es ≡ false → occurs p es ≡ 0
unfolding has
occurs-has p [] h = refl
occurs-has p (e ∷ es) h = ground (arith, occurs-has p es)

pub occurs-update_entry :
    (p q : ℕ) (f : ProcEntry → ProcEntry) (es : List ProcEntry)
    → ((e : ProcEntry) → (f e).pid ≡ e.pid)
    → occurs p (update_entry q f es) ≡ occurs p es
unfolding update_entry
occurs-update_entry p q f [] h = refl
occurs-update_entry p q f (e ∷ es) h =
    if_both (λ (l : List ProcEntry). occurs p l ≡ occurs p (e ∷ es)) (e.pid == q)
      (ap (λ k. (if k == p then 1 else 0) + occurs p es) (h e))
      (ap (λ k. (if e.pid == p then 1 else 0) + k) (occurs-update_entry p q f es h))

pub length-update_entry :
    (q : ℕ) (f : ProcEntry → ProcEntry) (es : List ProcEntry)
    → length (update_entry q f es) ≡ length es
unfolding update_entry
length-update_entry q f [] = refl
length-update_entry q f (e ∷ es) =
    if_both (λ (l : List ProcEntry). length l ≡ length (e ∷ es)) (e.pid == q) refl
      (ap suc (length-update_entry q f es))

pub occurs-keep :
    (p : ℕ) (test : ProcEntry → Bool) (es : List ProcEntry) → occurs p (keep test es) ≤ occurs p es
unfolding keep
occurs-keep p test [] = omega arith
occurs-keep p test (e ∷ es) =
    let rest = occurs-keep p test es in
    if_both (λ (l : List ProcEntry). occurs p l ≤ occurs p (e ∷ es)) (test e) (omega (arith, rest))
      (omega (arith, rest))

pub length-keep :
    (test : ProcEntry → Bool) (es : List ProcEntry) → length (keep test es) ≤ length es
unfolding keep
length-keep test [] = omega arith
length-keep test (e ∷ es) =
    let rest = length-keep test es in
    if_both (λ (l : List ProcEntry). length l ≤ length (e ∷ es)) (test e) (omega (arith, rest))
      (omega (arith, rest))

pub keep-AllActive : (es : List ProcEntry) → AllActive (keep (λ e. e.active) es)
unfolding keep
keep-AllActive [] = tt
keep-AllActive (e ∷ es) = elim (Bool-cases e.active) [
  | inl y ↦ rw y (refl, keep-AllActive es)
  | inr n ↦ rw n (keep-AllActive es)
]

pub occurs-deactivate : (p : ℕ) (es : List ProcEntry) → occurs p (map deactivate es) ≡ occurs p es
occurs-deactivate p [] = refl
occurs-deactivate p (e ∷ es) = ap (λ k. (if e.pid == p then 1 else 0) + k) (occurs-deactivate p es)

pub length-deactivate : (es : List ProcEntry) → length (map deactivate es) ≡ length es
length-deactivate [] = refl
length-deactivate (e ∷ es) = ap suc (length-deactivate es)

-- how many active entries have a pid
abbrev pub live : ℕ → List ProcEntry → ℕ
live p [] = 0
live p (e ∷ es) = (if e.pid == p && e.active then 1 else 0) + live p es

pub live-append : (p : ℕ) (es fs : List ProcEntry) → live p (es ++ fs) ≡ live p es + live p fs
live-append p [] fs = omega arith
live-append p (e ∷ es) fs = omega (arith, live-append p es fs)

pub live-deactivate : (p : ℕ) (es : List ProcEntry) → live p (map deactivate es) ≡ 0
live-deactivate p [] = refl
live-deactivate p (e ∷ es) = ground (arith, live-deactivate p es)

pub occurs-active : (p : ℕ) (es : List ProcEntry) → occurs p (keep (λ e. e.active) es) ≡ live p es
unfolding keep
occurs-active p [] = refl
occurs-active p (e ∷ es) = ground (arith, occurs-active p es)

pub live-update_entry :
    (p q : ℕ) (f : ProcEntry → ProcEntry) (es : List ProcEntry)
    → ((e : ProcEntry) → (f e).pid ≡ e.pid)
    → q ≢ p
    → live p (update_entry q f es) ≡ live p es
unfolding update_entry
live-update_entry p q f [] h ne = refl
live-update_entry p q f (e ∷ es) h ne = ground (arith, h e, live-update_entry p q f es h ne)

-- ===== src/Bpf/Keys.antt =====
-- A key of the maps of final/bpf/ctx_switch.bpf.c through the calls of the handlers.
use capstone_monitor.Base.{
  ℕ, ◌+◌, ◌%◌, ◌^◌, ◌<◌, ◌≡◌, ◌≢◌, ap, ◌∙◌, inl, inr, Bool, false, ◌&&◌, Option, none, some, List,
  [], ◌∷◌, ◌==◌, arith, eq_cases,
}
use capstone_monitor.BpfMap.{BpfMap, IsHashMap, any, noexist}
use capstone_monitor.Bpf.{Call, sched_process_exit, increment}

-- whether a call is the end of the process
abbrev pub ends : ℕ → Call → Bool
ends p (sched_process_exit pid dead) = pid == p && dead
ends p _ = false

abbrev pub total : (Call → ℕ) → List Call → ℕ
total f [] = 0
total f (e ∷ es) = f e + total f es

-- No call of the list is the end of the process.
abbrev pub Alive : ℕ → List Call → Type 0
Alive p [] = Unit {0}
Alive p (e ∷ es) = (ends p e ≡ false) × Alive p es

module _ (counts : BpfMap ℕ) (names : BpfMap (List ℕ)) (laws : IsHashMap counts) where
  -- A counter after some more events.
  pub increment_other :
      (o : Option ℕ) (k j : ℕ) (s : counts.State)
      → k ≢ j
      → counts.lookup j (increment counts names o k s) ≡ counts.lookup j s
  unfolding increment
  increment_other none k j s h = laws.update_other any k j 1 s h
  increment_other (some n) k j s h = laws.store_other k j ((n + 1) % 2 ^ 64) s h

  pub increment_self :
      (k n : ℕ) (s : counts.State)
      → counts.lookup k s ≡ some n
      → counts.lookup k (increment counts names (counts.lookup k s) k s) ≡ some ((n + 1) % 2 ^ 64)
  unfolding increment
  increment_self k n s h = rw h (laws.store_self k n ((n + 1) % 2 ^ 64) s h)

  -- A key that is there stays with its value when another or the same is added with BPF_NOEXIST.
  pub noexist_keeps :
      (p k n v : ℕ) (s : counts.State)
      → counts.lookup p s ≡ some n
      → counts.lookup p (counts.update noexist k v s) ≡ some n
  noexist_keeps p k n v s h = elim (eq_cases k p) [
    | inl e ↦ rw e (laws.update_noexist p n v s h)
    | inr ne ↦ laws.update_other noexist k p v s ne ∙ h
  ]

  pub delete_keeps :
      (p k n : ℕ) (s : counts.State)
      → k ≢ p
      → counts.lookup p s ≡ some n
      → counts.lookup p (counts.delete k s) ≡ some n
  delete_keeps p k n s ne h = laws.delete_other k p s ne ∙ h

  pub unchanged : (n : ℕ) → n < 2 ^ 64 → some n ≡ some ((n + 0) % 2 ^ 64)
  unchanged n h = ap some (omega arith)

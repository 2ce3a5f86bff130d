-- ===== src/Bpf/Blocks.antt =====
-- What the counters of block completions of final/bpf/ctx_switch.bpf.c count.
use capstone_monitor.Base.{
  ℕ, ◌+◌, ◌%◌, ◌^◌, ◌<◌, ◌≡◌, ◌≢◌, refl, ◌∙◌, inl, inr, Bool, true, false, Option, none, some, List,
  [], ◌∷◌, ◌==◌, leb, if◌then◌else◌, arith, eq_cases, if_both, eq→==, ne→==,
}
use mathlib.Core.Path.{subst}
use capstone_monitor.BpfMap.{BpfMap, IsHashMap, any}
use capstone_monitor.Bpf.{
  Call, sched_switch, sched_process_fork, sched_process_exit, block_rq_complete, sched_process_exec,
  Maps, count_tracked, handle_sched_switch, handle_fork, handle_exit, handle_block_rq_complete,
  handle_exec, handle, handle_all,
}
use capstone_monitor.Bpf.Keys
use capstone_monitor.Bpf.Keys.{ends, total, Alive}

-- the completions of a call
abbrev pub blocks_of : ℕ → Call → ℕ
blocks_of p (block_rq_complete tgid) = if tgid == p then 1 else 0
blocks_of p _ = 0

module _ (counts : BpfMap ℕ) (names : BpfMap (List ℕ)) (laws : IsHashMap counts) (p : ℕ) where
  -- A process that is registered and whose count of completions is `n`.
  pub record Tracked (n : ℕ) (m : Maps counts names) : Type 0 where
    pub flag : ℕ
    pub active : counts.lookup p m.active_pids ≡ some flag
    pub count : counts.lookup p m.io_counts ≡ some n

  handle_sched_switch-Tracked :
      (q state n : ℕ) (m : Maps counts names)
      → Tracked n m
      → Tracked n (handle_sched_switch counts names q state m)
  unfolding handle_sched_switch
  handle_sched_switch-Tracked q state n m t = if_both (Tracked n) (q == 0) t (
      if_both (Tracked n) (state == 0) t
        (record { flag = t.flag; active = t.active; count = t.count }))

  handle_fork-Tracked :
      (q n : ℕ) (m : Maps counts names) → Tracked n m → Tracked n (handle_fork counts names q m)
  unfolding handle_fork
  handle_fork-Tracked q n m t = if_both (Tracked n) (leb q 1) t (elim (eq_cases q p) [
    | inl e ↦ record {
      flag = 1;
      active = rw e (laws.update_any p t.flag 1 m.active_pids t.active);
      count = Keys.noexist_keeps counts names laws p q n 0 m.io_counts t.count;
    }
    | inr ne ↦ record {
      flag = t.flag;
      active = laws.update_other any q p 1 m.active_pids ne ∙ t.active;
      count = Keys.noexist_keeps counts names laws p q n 0 m.io_counts t.count;
    }
  ])

  handle_exit-Tracked :
      (q n : ℕ) (dead : Bool) (m : Maps counts names)
      → ends p (sched_process_exit q dead) ≡ false
      → Tracked n m
      → Tracked n (handle_exit counts names q dead m)
  unfolding handle_exit
  handle_exit-Tracked q n false m a t = if_both (Tracked n) (leb q 1) t t
  handle_exit-Tracked q n true m a t =
      let ne : q ≢ p = ground arith in
      if_both (Tracked n) (leb q 1) t (record {
        flag = t.flag;
        active = Keys.delete_keeps counts names laws p q t.flag m.active_pids ne t.active;
        count = Keys.delete_keeps counts names laws p q n m.io_counts ne t.count;
      })

  handle_exec-Tracked :
      (q n : ℕ) (comm : List ℕ) (m : Maps counts names)
      → Tracked n m
      → Tracked n (handle_exec counts names q comm m)
  unfolding handle_exec
  handle_exec-Tracked q n comm m t = if_both (Tracked n) (leb q 1) t (record {
    flag = t.flag;
    active = Keys.noexist_keeps counts names laws p q t.flag 1 m.active_pids t.active;
    count = t.count;
  })

  count_other-Tracked :
      (o : Option ℕ) (q n : ℕ) (m : Maps counts names)
      → q ≢ p
      → Tracked n m
      → Tracked n (count_tracked counts names o q m)
  unfolding count_tracked
  count_other-Tracked none q n m ne t = t
  count_other-Tracked (some _) q n m ne t = record {
    flag = t.flag;
    active = t.active;
    count =
        Keys.increment_other counts names laws (counts.lookup q m.io_counts) q p m.io_counts ne
        ∙ t.count;
  }

  count_own-Tracked :
      (n : ℕ) (m : Maps counts names)
      → Tracked n m
      → Tracked ((n + 1) % 2 ^ 64) (count_tracked counts names (counts.lookup p m.active_pids) p m)
  unfolding count_tracked
  count_own-Tracked n m t = rw t.active (record {
    flag = t.flag;
    active = t.active;
    count = Keys.increment_self counts names laws p n m.io_counts t.count;
  })

  same_count :
      (n : ℕ) (m : Maps counts names) → n < 2 ^ 64 → Tracked n m → Tracked ((n + 0) % 2 ^ 64) m
  same_count n m b t = record {
    flag = t.flag;
    active = t.active;
    count = t.count ∙ Keys.unchanged counts names laws n b;
  }

  module _ (user : 1 < p) where
    handle_block_rq_complete-Tracked :
        (q n : ℕ) (m : Maps counts names)
        → n < 2 ^ 64
        → Tracked n m
        → Tracked
            ((n + blocks_of p (block_rq_complete q)) % 2 ^ 64)
            (handle_block_rq_complete counts names q m)
    unfolding handle_block_rq_complete
    handle_block_rq_complete-Tracked q n m b t = elim (eq_cases q p) [
      | inl e ↦ rw (e, le_false p user, eq→== p p refl) (count_own-Tracked n m t)
      | inr ne ↦ rw (ne→== q p ne) (
          if_both (Tracked ((n + 0) % 2 ^ 64)) (leb q 1) (same_count n m b t)
            (same_count n _ b (count_other-Tracked (counts.lookup q m.active_pids) q n m ne t)))
    ]
      where
        le_false : (a : ℕ) → 1 < a → leb a 1 ≡ false
        le_false a h = ground arith

    handle-Tracked :
        (e : Call) (n : ℕ) (m : Maps counts names)
        → n < 2 ^ 64
        → ends p e ≡ false
        → Tracked n m
        → Tracked ((n + blocks_of p e) % 2 ^ 64) (handle counts names e m)
    unfolding handle
    handle-Tracked (sched_switch q state) n m b a t =
        same_count n _ b (handle_sched_switch-Tracked q state n m t)
    handle-Tracked (sched_process_fork q) n m b a t = same_count n _ b (handle_fork-Tracked q n m t)
    handle-Tracked (sched_process_exit q dead) n m b a t =
        same_count n _ b (handle_exit-Tracked q n dead m a t)
    handle-Tracked (block_rq_complete q) n m b a t = handle_block_rq_complete-Tracked q n m b t
    handle-Tracked (sched_process_exec q comm) n m b a t =
        same_count n _ b (handle_exec-Tracked q n comm m t)

    -- From a state in which a process other than 0 and 1 is registered in active_pids and has a count
    -- of completions, and through any calls of the handlers that do not include its end, it stays
    -- registered and the count goes up by the completions in its context, modulo 2^64.
    pub handle_all-Tracked :
        (es : List Call) (n : ℕ) (m : Maps counts names)
        → n < 2 ^ 64
        → Alive p es
        → Tracked n m
        → Tracked ((n + total (blocks_of p) es) % 2 ^ 64) (handle_all counts names es m)
    unfolding handle_all
    handle_all-Tracked [] n m b a t = same_count n m b t
    handle_all-Tracked (e ∷ es) n m b a t =
        let k : ℕ = (n + blocks_of p e) % 2 ^ 64 in
        subst (λ c. Tracked c (handle_all counts names es (handle counts names e m)))
          (sum_mod n (blocks_of p e) (total (blocks_of p) es))
          (handle_all-Tracked es k (handle counts names e m) (omega arith) a.1
            (handle-Tracked e n m b a.0 t))
      where
        sum_mod : (a b c : ℕ) → ((a + b) % 2 ^ 64 + c) % 2 ^ 64 ≡ (a + (b + c)) % 2 ^ 64
        sum_mod a b c = omega arith

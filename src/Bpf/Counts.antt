-- ===== src/Bpf/Counts.antt =====
-- What the counters of voluntary switches of final/bpf/ctx_switch.bpf.c count.
use capstone_monitor.Base.{
  ℕ, ◌+◌, ◌%◌, ◌^◌, ◌<◌, ◌≡◌, ◌≢◌, refl, ap, ◌∙◌, inl, inr, Bool, true, false, ◌&&◌, not, Option,
  none, some, List, [], ◌∷◌, ◌==◌, leb, if◌then◌else◌, arith, eq_cases, Bool-cases, if_both, eq→==,
  ne→==,
}
use capstone_monitor.BpfMap.{BpfMap, IsHashMap}
use capstone_monitor.Bpf.{
  Call, sched_switch, sched_process_fork, sched_process_exit, block_rq_complete, sched_process_exec,
  Maps, count_tracked, handle_sched_switch, handle_fork, handle_exit, handle_block_rq_complete,
  handle_exec, handle, handle_all,
}
use capstone_monitor.Bpf.Keys
use capstone_monitor.Bpf.Keys.{ends, total, Alive}

-- the voluntary switches of a call: those of the task itself that leave it not runnable
abbrev pub switches_of : ℕ → Call → ℕ
switches_of p (sched_switch pid state) = if pid == p && not (state == 0) then 1 else 0
switches_of p _ = 0

module _ (counts : BpfMap ℕ) (names : BpfMap (List ℕ)) (laws : IsHashMap counts) where
  module _ (p : ℕ) (user : p ≢ 0) where
    handle_sched_switch-count :
        (q state n : ℕ) (m : Maps counts names)
        → n < 2 ^ 64
        → counts.lookup p m.vol_ctx_switches ≡ some n
        → counts.lookup p (handle_sched_switch counts names q state m).vol_ctx_switches
          ≡ some ((n + switches_of p (sched_switch q state)) % 2 ^ 64)
    unfolding handle_sched_switch
    handle_sched_switch-count q state n m b h = elim (eq_cases q p) [
      | inl e ↦ elim (Bool-cases (state == 0)) [
        | inl z ↦
            rw (e, ne→== p 0 user, eq→== p p refl, z) (h ∙ Keys.unchanged counts names laws n b)
        | inr z ↦
            rw (e, ne→== p 0 user, eq→== p p refl, z)
              (Keys.increment_self counts names laws p n m.vol_ctx_switches h)
      ]
      | inr ne ↦ rw (ne→== q p ne) (
          if_both
            (λ (m' : Maps counts names).
              counts.lookup p m'.vol_ctx_switches ≡ some ((n + 0) % 2 ^ 64))
            (q == 0) (h ∙ Keys.unchanged counts names laws n b)
            (if_both
              (λ (m' : Maps counts names).
                counts.lookup p m'.vol_ctx_switches ≡ some ((n + 0) % 2 ^ 64))
              (state == 0) (h ∙ Keys.unchanged counts names laws n b)
              (Keys.increment_other counts names laws (counts.lookup q m.vol_ctx_switches) q p
                  m.vol_ctx_switches ne
                ∙ h
                ∙ Keys.unchanged counts names laws n b)))
    ]

    -- The other handlers leave the count of switches of a live process alone.
    handle_fork-count :
        (q n : ℕ) (m : Maps counts names)
        → counts.lookup p m.vol_ctx_switches ≡ some n
        → counts.lookup p (handle_fork counts names q m).vol_ctx_switches ≡ some n
    unfolding handle_fork
    handle_fork-count q n m h =
        if_both (λ (m' : Maps counts names). counts.lookup p m'.vol_ctx_switches ≡ some n) (leb q 1)
          h (Keys.noexist_keeps counts names laws p q n 0 m.vol_ctx_switches h)

    handle_exit-count :
        (q n : ℕ) (dead : Bool) (m : Maps counts names)
        → ends p (sched_process_exit q dead) ≡ false
        → counts.lookup p m.vol_ctx_switches ≡ some n
        → counts.lookup p (handle_exit counts names q dead m).vol_ctx_switches ≡ some n
    unfolding handle_exit
    handle_exit-count q n false m a h =
        if_both (λ (m' : Maps counts names). counts.lookup p m'.vol_ctx_switches ≡ some n) (leb q 1)
          h h
    handle_exit-count q n true m a h =
        if_both (λ (m' : Maps counts names). counts.lookup p m'.vol_ctx_switches ≡ some n) (leb q 1)
          h (Keys.delete_keeps counts names laws p q n m.vol_ctx_switches (ground arith) h)

    count_tracked-count :
        (o : Option ℕ) (q : ℕ) (m : Maps counts names)
        → (count_tracked counts names o q m).vol_ctx_switches ≡ m.vol_ctx_switches
    unfolding count_tracked
    count_tracked-count none q m = refl
    count_tracked-count (some _) q m = refl

    handle_block_rq_complete-count :
        (q : ℕ) (m : Maps counts names)
        → (handle_block_rq_complete counts names q m).vol_ctx_switches ≡ m.vol_ctx_switches
    unfolding handle_block_rq_complete
    handle_block_rq_complete-count q m =
        if_both (λ (m' : Maps counts names). m'.vol_ctx_switches ≡ m.vol_ctx_switches) (leb q 1)
          refl (count_tracked-count (counts.lookup q m.active_pids) q m)

    handle_exec-count :
        (q : ℕ) (comm : List ℕ) (m : Maps counts names)
        → (handle_exec counts names q comm m).vol_ctx_switches ≡ m.vol_ctx_switches
    unfolding handle_exec
    handle_exec-count q comm m =
        if_both (λ (m' : Maps counts names). m'.vol_ctx_switches ≡ m.vol_ctx_switches) (leb q 1)
          refl refl

    handle-count :
        (e : Call) (n : ℕ) (m : Maps counts names)
        → n < 2 ^ 64
        → ends p e ≡ false
        → counts.lookup p m.vol_ctx_switches ≡ some n
        → counts.lookup p (handle counts names e m).vol_ctx_switches
          ≡ some ((n + switches_of p e) % 2 ^ 64)
    unfolding handle
    handle-count (sched_switch q state) n m b a h = handle_sched_switch-count q state n m b h
    handle-count (sched_process_fork q) n m b a h =
        handle_fork-count q n m h ∙ Keys.unchanged counts names laws n b
    handle-count (sched_process_exit q dead) n m b a h =
        handle_exit-count q n dead m a h ∙ Keys.unchanged counts names laws n b
    handle-count (block_rq_complete q) n m b a h =
        ap (counts.lookup p) (handle_block_rq_complete-count q m)
        ∙ h
        ∙ Keys.unchanged counts names laws n b
    handle-count (sched_process_exec q comm) n m b a h =
        ap (counts.lookup p) (handle_exec-count q comm m) ∙ h ∙ Keys.unchanged counts names laws n b

    -- From a state in which a task other than 0 has a count of switches, and through any calls of the
    -- handlers that do not include its end, the count goes up by its voluntary switches, modulo 2^64,
    -- whatever other tasks do.
    pub vol_ctx_switches-handle_all :
        (es : List Call) (n : ℕ) (m : Maps counts names)
        → n < 2 ^ 64
        → Alive p es
        → counts.lookup p m.vol_ctx_switches ≡ some n
        → counts.lookup p (handle_all counts names es m).vol_ctx_switches
          ≡ some ((n + total (switches_of p) es) % 2 ^ 64)
    unfolding handle_all
    vol_ctx_switches-handle_all [] n m b a h = h ∙ Keys.unchanged counts names laws n b
    vol_ctx_switches-handle_all (e ∷ es) n m b a h =
        vol_ctx_switches-handle_all es ((n + switches_of p e) % 2 ^ 64) (handle counts names e m)
          (omega arith) a.1 (handle-count e n m b a.0 h)
        ∙ ap some (omega arith)

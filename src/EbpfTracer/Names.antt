-- ===== src/EbpfTracer/Names.antt =====
-- The name that a process takes at exec, from final/bpf to the daemon, and the end of a process.
use capstone_monitor.Base.{
  ℕ, ◌<◌, ◌≡◌, ◌≢◌, refl, ap, inl, inr, true, false, Option, none, some, List, [], ◌∷◌, ◌==◌, zero,
  suc, arith, leb, take, c_text, Bool-cases, Option-cases, if_both, not, if◌then◌else◌,
}
use capstone_monitor.BpfMap.{BpfMap, IsHashMap, any}
use capstone_monitor.Bpf.{Maps, handle_exec, handle_exit}
use capstone_monitor.EbpfTracer.{
  EbpfTracer, found, copy_name, take_comm, ebpf_tracer_pop_exec_comm, ebpf_tracer_read_switches,
  ebpf_tracer_read_io,
}

le_false : (a : ℕ) → 1 < a → leb a 1 ≡ false
le_false a h = ground arith

copy_name_lem : (n : ℕ) (comm : List ℕ) → copy_name n comm ≡ take n (c_text comm)
unfolding copy_name
copy_name_lem zero comm = refl
copy_name_lem (suc n) [] = refl
copy_name_lem (suc n) (c ∷ comm) = elim (Bool-cases (c == 0)) [
  | inl e ↦ rw e refl
  | inr e ↦ rw e (ap (◌∷◌ c) (copy_name_lem n comm))
]

module _ (counts : BpfMap ℕ) (names : BpfMap (List ℕ)) (et : EbpfTracer) where
  module _ (naming : IsHashMap names) where
    update_any_there :
        (k : ℕ) (v : List ℕ) (s : names.State)
        → names.is_full s ≡ false
        → names.lookup k (names.update any k v s) ≡ some v
    update_any_there k v s room = elim (Option-cases (names.lookup k s)) [
      | inl e ↦ naming.update_new any k v s e room
      | inr (u, e) ↦ naming.update_any k u v s e
    ]

    -- With exec_comms there and not full, the first call for a process other than 0 and 1 behind its
    -- exec, into an array of 17 characters, returns the name that the process had at the exec, up to
    -- its first NUL and of at most 16 characters, whatever the name holds; a second call returns 0.
    pub ebpf_tracer_pop_exec_comm-handle_exec :
        (p : ℕ) (comm : List ℕ) (m : Maps counts names)
        → et.has_exec ≡ true
        → 1 < p
        → names.is_full m.exec_comms ≡ false
        → let r =
            ebpf_tracer_pop_exec_comm counts names et p 17 (handle_exec counts names p comm m) in
          (r.0 ≡ some (take 16 (c_text comm)))
          × ((ebpf_tracer_pop_exec_comm counts names et p 17 r.1).0 ≡ none)
    unfolding ebpf_tracer_pop_exec_comm handle_exec take_comm
    ebpf_tracer_pop_exec_comm-handle_exec p comm m x user room =
        rw (x, le_false p user, update_any_there p comm m.exec_comms room, naming.delete_self p)
          (ap some (copy_name_lem 16 comm), refl)

  -- When the last thread of a process other than 0 and 1 exits with the process's pid, every map
  -- forgets it: both counts read 0 and no name is left. The entries of other processes stay.
  pub handle_exit_lem :
      (counting : IsHashMap counts) (naming : IsHashMap names) (p q : ℕ) (m : Maps counts names)
      → 1 < p
      → p ≢ q
      → let m' = handle_exit counts names p true m in
        ((ebpf_tracer_read_switches counts names et p m' ≡ 0)
          × (ebpf_tracer_read_io counts names et p m' ≡ 0)
          × ((ebpf_tracer_pop_exec_comm counts names et p 17 m').0 ≡ none)
          × (counts.lookup p m'.active_pids ≡ none))
        × (ebpf_tracer_read_switches counts names et q m'
            ≡ ebpf_tracer_read_switches counts names et q m)
        × (ebpf_tracer_read_io counts names et q m' ≡ ebpf_tracer_read_io counts names et q m)
        × (counts.lookup q m'.active_pids ≡ counts.lookup q m.active_pids)
        × (names.lookup q m'.exec_comms ≡ names.lookup q m.exec_comms)
  unfolding ebpf_tracer_read_switches ebpf_tracer_read_io ebpf_tracer_pop_exec_comm handle_exit
      take_comm
  handle_exit_lem counting naming p q m user ne = rw (le_false p user) (
    (
      if_both (λ n. n ≡ 0) (not et.has_switches) refl
          (ap found (counting.delete_self p m.vol_ctx_switches)),
      if_both (λ n. n ≡ 0) (not et.has_io) refl (ap found (counting.delete_self p m.io_counts)),
      if_both (λ (r : Option (List ℕ) × Maps counts names). r.0 ≡ none) (not et.has_exec) refl
          (rw (naming.delete_self p m.exec_comms)),
      counting.delete_self p m.active_pids,
    ),
    ap (λ o. if not et.has_switches then 0 else found o)
        (counting.delete_other p q m.vol_ctx_switches ne),
    ap (λ o. if not et.has_io then 0 else found o) (counting.delete_other p q m.io_counts ne),
    counting.delete_other p q m.active_pids ne,
    naming.delete_other p q m.exec_comms ne,
  )

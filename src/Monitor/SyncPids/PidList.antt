-- ===== src/Monitor/SyncPids/PidList.antt =====
-- The list of pids that `sync_pids` of final/src/monitor_final.c passes to the scanner.
use capstone_monitor.Base.{
  ℕ, zero, suc, ◌+◌, ◌*◌, ◌≤◌, ◌≡◌, refl, inl, inr, Bool, true, false, List, [], ◌∷◌, length,
  length-append, ltb, ◌==◌, Array, min, Bool-cases, elem, elem-append, ==→eq, ◌||◌, ◌&&◌, not, ap,
  ◌∙◌, arith,
}
use mathlib.Core.Path.{subst}
use capstone_monitor.Monitor.{max_pids, PidState, Tables}
use capstone_monitor.Monitor.SyncPids.{tracked_from, is_tracked, untracked, pid_list}

length-tracked_from : (states : Array PidState) (i n : ℕ) → length (tracked_from states i n) ≡ n
unfolding tracked_from
length-tracked_from states i zero = refl
length-tracked_from states i (suc n) = omega (arith, length-tracked_from states (i + 1) n)

length-untracked :
    (states : Array PidState) (n_active n_pids : ℕ) (epids : List ℕ)
    → n_pids ≤ max_pids * 2
    → n_pids + length (untracked states n_active n_pids epids) ≤ max_pids * 2
unfolding untracked
length-untracked states n_active n_pids [] h = omega (arith, h)
length-untracked states n_active n_pids (epid ∷ epids) h =
    let skipped = length-untracked states n_active n_pids epids h in
    let added = length-untracked states n_active (n_pids + 1) epids in
    elim (Bool-cases (ltb n_pids (max_pids * 2))) [
      | inr full ↦ rw full (omega (arith, h))
      | inl room ↦ elim (Bool-cases (is_tracked states epid 0 n_active)) [
        | inl old ↦ rw (room, old) skipped
        | inr new ↦ rw (room, new) (omega (arith, added (ground arith)))
      ]
    ]

length-pid_list :
    {D : Type 0} (t : Tables D) (ebpf_pids : List ℕ) → length (pid_list t ebpf_pids) ≤ max_pids * 2
unfolding pid_list
length-pid_list t ebpf_pids =
    let tracked = tracked_from t.states 0 (min t.n_active max_pids) in
    let few = length-tracked_from t.states 0 (min t.n_active max_pids) in
    omega (
      arith,
      few,
      length-append tracked (untracked t.states t.n_active (length tracked) ebpf_pids),
      length-untracked t.states t.n_active (length tracked) ebpf_pids (omega (arith, few)),
    )

elem-tracked_from :
    (states : Array PidState) (p i n : ℕ)
    → elem p (tracked_from states i n) ≡ is_tracked states p i n
unfolding tracked_from is_tracked
elem-tracked_from states p i zero = refl
elem-tracked_from states p i (suc n) = elim (Bool-cases ((states i).pid == p)) [
  | inl e ↦ rw e refl
  | inr ne ↦ rw ne (elem-tracked_from states p (i + 1) n)
]

elem-untracked :
    (states : Array PidState) (p n_active n_pids : ℕ) (epids : List ℕ)
    → n_pids + length epids ≤ max_pids * 2
    → elem p (untracked states n_active n_pids epids)
      ≡ (not (is_tracked states p 0 n_active) && elem p epids)
unfolding untracked
elem-untracked states p n_active n_pids [] h = elim (Bool-cases (is_tracked states p 0 n_active)) [
  | inl e ↦ rw e refl
  | inr e ↦ rw e refl
]
elem-untracked states p n_active n_pids (epid ∷ epids) h =
    let skipped = elem-untracked states p n_active n_pids epids (omega (arith, h)) in
    let added = elem-untracked states p n_active (n_pids + 1) epids (omega (arith, h)) in
    let room : ltb n_pids (max_pids * 2) ≡ true = ground (arith, h) in
    elim (Bool-cases (is_tracked states epid 0 n_active)) [
      | inl old ↦
          rw (room, old)
            (elim (Bool-cases (epid == p)) [
              | inl e ↦
                  let tracked : is_tracked states p 0 n_active ≡ true =
                    subst (λ k. is_tracked states k 0 n_active ≡ true) (==→eq epid p e) old in
                  skipped ∙ rw tracked refl
              | inr ne ↦ rw ne skipped
            ])
      | inr new ↦
          rw (room, new)
            (elim (Bool-cases (epid == p)) [
              | inl e ↦
                  let fresh : is_tracked states p 0 n_active ≡ false =
                    subst (λ k. is_tracked states k 0 n_active ≡ false) (==→eq epid p e) new in
                  rw (e, fresh) refl
              | inr ne ↦ rw ne added
            ])
    ]

elem-pid_list :
    {D : Type 0} (p : ℕ) (t : Tables D) (ebpf_pids : List ℕ)
    → t.n_active ≤ max_pids
    → length ebpf_pids ≤ max_pids
    → elem p (pid_list t ebpf_pids) ≡ (is_tracked t.states p 0 t.n_active || elem p ebpf_pids)
unfolding pid_list
elem-pid_list p t ebpf_pids few h =
    let n = min t.n_active max_pids in
    let all : n ≡ t.n_active = omega (arith, few) in
    let tracked = tracked_from t.states 0 n in
    let size = length-tracked_from t.states 0 n in
    elem-append p tracked (untracked t.states t.n_active (length tracked) ebpf_pids)
    ∙ ap (λ b. elem p tracked || b)
        (elem-untracked t.states p t.n_active (length tracked) ebpf_pids
          (omega (arith, size, few, h)))
    ∙ ap (λ b. b || (not (is_tracked t.states p 0 t.n_active) && elem p ebpf_pids))
        (elem-tracked_from t.states p 0 n ∙ ap (is_tracked t.states p 0) all)
    ∙ or-not_and (is_tracked t.states p 0 t.n_active) (elem p ebpf_pids)
  where
    or-not_and : (a b : Bool) → (a || (not a && b)) ≡ (a || b)
    or-not_and true b = refl
    or-not_and false b = refl

-- With at most MAX_PIDS slots in use, and at most MAX_PIDS pids from the tracer, the entries that are
-- written fit into `pid_list`, and a pid is among them just if a slot is for it or the tracer gave it.
pub pid_list_lem :
    {D : Type 0} (t : Tables D) (ebpf_pids : List ℕ)
    → t.n_active ≤ max_pids
    → length ebpf_pids ≤ max_pids
    → (length (pid_list t ebpf_pids) ≤ max_pids * 2)
      × ((p : ℕ)
          → elem p (pid_list t ebpf_pids)
            ≡ (is_tracked t.states p 0 t.n_active || elem p ebpf_pids))
pid_list_lem t ebpf_pids few h =
    (length-pid_list t ebpf_pids, λ p. elem-pid_list p t ebpf_pids few h)

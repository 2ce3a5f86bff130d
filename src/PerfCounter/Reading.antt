-- ===== src/PerfCounter/Reading.antt =====
-- What `perf_counter_read` makes of a group, and why the software fallback reads nothing.
use capstone_monitor.Base.{
  ℕ, ◌≤◌, ◌≡◌, ◌≢◌, refl, ap, ◌∙◌, ◌⊎◌, inl, inr, Bool, true, false, Option, none, some, List, [],
  ◌∷◌, length, take_all, arith, Option-cases,
}
use capstone_monitor.Os.{Os, IsKernel, Sample, cpu_cycles, cpu_clock, reset, enable}
use capstone_monitor.PerfCounter.{
  PerfCounter, RawCounters, zero_counters, no_fds, counter_attr, decode, perf_counter_read,
  perf_counter_open, open_software, open_instr, open_llc,
}

-- No sample of the list carries the id.
abbrev pub Absent : ℕ → List Sample → Type 0
Absent id [] = Unit {0}
Absent id (s ∷ ss) = (s.id ≢ id) × Absent id ss

-- Exactly one sample of the list carries the id, and it has the value.
abbrev pub Has : ℕ → ℕ → List Sample → Type 0
Has id v [] = ⊥
Has id v (s ∷ ss) = ((s.id ≡ id) × (s.value ≡ v) × Absent id ss) ⊎ ((s.id ≢ id) × Has id v ss)

-- The three ids differ.
pub record IsGroup (pc : PerfCounter) : Type 0 where
  pub cycles_instr : pc.id_cycles ≢ pc.id_instr
  pub cycles_llc : pc.id_cycles ≢ pc.id_llc
  pub instr_llc : pc.id_instr ≢ pc.id_llc

decode-cycles-Absent :
    (pc : PerfCounter) (ss : List Sample) (out : RawCounters)
    → Absent pc.id_cycles ss
    → (decode pc ss out).cycles ≡ out.cycles
unfolding decode
decode-cycles-Absent pc [] out a = refl
decode-cycles-Absent pc (s ∷ ss) out a = decode-cycles-Absent pc ss _ a.1 ∙ ground arith

decode-cycles :
    (pc : PerfCounter) (ss : List Sample) (out : RawCounters) (v : ℕ)
    → Has pc.id_cycles v ss
    → (decode pc ss out).cycles ≡ v
unfolding decode
decode-cycles pc [] out v h = absurd h
decode-cycles pc (s ∷ ss) out v (inl (e, p, a)) = decode-cycles-Absent pc ss _ a ∙ ground arith
decode-cycles pc (s ∷ ss) out v (inr (ne, h)) = decode-cycles pc ss _ v h

decode-instr-Absent :
    (pc : PerfCounter) (ss : List Sample) (out : RawCounters)
    → Absent pc.id_instr ss
    → (decode pc ss out).instructions ≡ out.instructions
unfolding decode
decode-instr-Absent pc [] out a = refl
decode-instr-Absent pc (s ∷ ss) out a = decode-instr-Absent pc ss _ a.1 ∙ ground arith

decode-instr :
    (pc : PerfCounter) (ss : List Sample) (out : RawCounters) (v : ℕ)
    → IsGroup pc
    → Has pc.id_instr v ss
    → (decode pc ss out).instructions ≡ v
unfolding decode
decode-instr pc [] out v g h = absurd h
decode-instr pc (s ∷ ss) out v g (inl (e, p, a)) =
    let ne = g.cycles_instr in decode-instr-Absent pc ss _ a ∙ ground arith
decode-instr pc (s ∷ ss) out v g (inr (ne, h)) = decode-instr pc ss _ v g h

decode-llc-Absent :
    (pc : PerfCounter) (ss : List Sample) (out : RawCounters)
    → Absent pc.id_llc ss
    → (decode pc ss out).llc_misses ≡ out.llc_misses
unfolding decode
decode-llc-Absent pc [] out a = refl
decode-llc-Absent pc (s ∷ ss) out a = decode-llc-Absent pc ss _ a.1 ∙ ground arith

decode-llc :
    (pc : PerfCounter) (ss : List Sample) (out : RawCounters) (v : ℕ)
    → IsGroup pc
    → Has pc.id_llc v ss
    → (decode pc ss out).llc_misses ≡ v
unfolding decode
decode-llc pc [] out v g h = absurd h
decode-llc pc (s ∷ ss) out v g (inl (e, p, a)) =
    let ne = g.cycles_llc in let ne' = g.instr_llc in decode-llc-Absent pc ss _ a ∙ ground arith
decode-llc pc (s ∷ ss) out v g (inr (ne, h)) = decode-llc pc ss _ v g h

clash : {b : Bool} → b ≡ true → b ≡ false → ⊥
clash p q = cc

module _ (os : Os) where
  open os use {World, read_group, read_word, perf_event_open, is_grouped}

  -- On a counter whose three ids differ, a group of at most three samples that has one for each id
  -- is read into the three fields by id, in whatever order the samples come.
  pub perf_counter_read-group :
      (pc : PerfCounter) (w : World) (fd c i l : ℕ) (ss : List Sample)
      → pc.hw_available ≡ true
      → pc.fd_cycles ≡ some fd
      → IsGroup pc
      → read_group fd w ≡ some ss
      → length ss ≤ 3
      → Has pc.id_cycles c ss
      → Has pc.id_instr i ss
      → Has pc.id_llc l ss
      → perf_counter_read os pc w ≡ some (record { cycles = c; instructions = i; llc_misses = l })
  unfolding perf_counter_read decode
  perf_counter_read-group pc w fd c i l ss hw f g e short hc hi hl =
      rw (f, perf_counter_read) (rw (hw, e, take_all 3 ss short) (ap some fields))
    where
      fields : decode pc ss zero_counters ≡ record { cycles = c; instructions = i; llc_misses = l }
      fields = λ j. record {
        cycles = decode-cycles pc ss zero_counters c hc j;
        instructions = decode-instr pc ss zero_counters i g hi j;
        llc_misses = decode-llc pc ss zero_counters l g hl j;
      }

  open_llc-hw :
      (pc : PerfCounter) (leader fi : ℕ) (w : World)
      → pc.hw_available ≡ true
      → (open_llc os pc leader fi w).0 ≡ true
      → (open_llc os pc leader fi w).1.hw_available ≡ true
  unfolding open_llc
  open_llc-hw pc leader fi w hw h = ground arith

  open_instr-hw :
      (pc : PerfCounter) (leader : ℕ) (w : World)
      → pc.hw_available ≡ true
      → (open_instr os pc leader w).0 ≡ true
      → (open_instr os pc leader w).1.hw_available ≡ true
  unfolding open_instr
  open_instr-hw pc leader w hw h = ground arith

  module _ (kernel : IsKernel os) where
    open_software-read :
        (pc : PerfCounter) (w : World)
        → (open_software os pc w).0 ≡ true
        → let r = open_software os pc w in perf_counter_read os r.1 r.2 ≡ none
    unfolding open_software perf_counter_read
    open_software-read pc w h =
        let a = counter_attr cpu_clock pc.pid pc.cpu_id none in
        elim (Option-cases (perf_event_open a w).0) [
          | inl e ↦ let bad : false ≡ true = rw (e, open_software) at h in absurd (cc)
          | inr (fd, e) ↦
              rw (e, open_software)
                (rw (
                  kernel.read_small fd _ (
                    kernel.ioctl_format enable false fd _ fd
                    ∙ kernel.ioctl_format reset false fd _ fd
                    ∙ kernel.open_format a w fd e)))
        ]

    -- A counter that `perf_counter_open` could open only as a software clock cannot be read: its
    -- descriptor has the group format, and the read of one word fails.
    pub fallback_unreadable :
        (pid : ℕ) (cpu_id : Option ℕ) (w : World)
        → (perf_counter_open os pid cpu_id w).0 ≡ true
        → (perf_counter_open os pid cpu_id w).1.hw_available ≡ false
        → let r = perf_counter_open os pid cpu_id w in perf_counter_read os r.1 r.2 ≡ none
    unfolding perf_counter_open
    fallback_unreadable pid cpu_id w h sw =
        let a = counter_attr cpu_cycles pid cpu_id none in
        let pc : PerfCounter = record no_fds { pid = pid; cpu_id = cpu_id; hw_available = true } in
        elim (Option-cases (perf_event_open a w).0) [
          | inl e ↦
              let h' : (open_software os pc (perf_event_open a w).1).0 ≡ true =
                rw (e, perf_counter_open) at h in
              rw (e, perf_counter_open) (open_software-read pc (perf_event_open a w).1 h')
          | inr (fd, e) ↦
              let pc' : PerfCounter = record pc { fd_cycles = some fd } in
              let h' : (open_instr os pc' fd (perf_event_open a w).1).0 ≡ true =
                rw (e, perf_counter_open) at h in
              let sw' : (open_instr os pc' fd (perf_event_open a w).1).1.hw_available ≡ false =
                rw (e, perf_counter_open) at sw in
              absurd (clash (open_instr-hw pc' fd (perf_event_open a w).1 refl h') sw')
        ]

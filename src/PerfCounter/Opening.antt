-- ===== src/PerfCounter/Opening.antt =====
-- `perf_counter_open` of final/src/perf_counter.c on every path: what it opens, what it closes when
-- it gives up, and what a counter holds afterwards.
use capstone_monitor.Base.{
  ℕ, ◌≡◌, refl, sym, ap, ◌∙◌, inl, inr, Bool, true, false, ◌||◌, ◌&&◌, not, Option, none, some,
  ◌==◌, Option-cases, arith,
}
use capstone_monitor.Os.{Os, IsKernel, Event, cpu_cycles, cache_misses, cpu_clock, reset, enable}
use capstone_monitor.PerfCounter.{
  PerfCounter, counter_attr, no_fds, perf_counter_close, open_software, open_llc, open_instr,
  perf_counter_open,
}
use capstone_monitor.PerfCounter.Descriptors.{
  is_fd, holds, or-false, minus_own, perf_counter_close-is_open, Owns, Opens,
}
use capstone_monitor.PerfCounter.Descriptors

or-none :
    (f : ℕ) (a b c : Option ℕ)
    → a ≡ none
    → b ≡ none
    → c ≡ none
    → (is_fd a f || (is_fd b f || is_fd c f)) ≡ false
or-none f a b c p q r = rw (p, q, r)

or_comm : (a b : Bool) → (b || a) ≡ (a || b)
or_comm a b = ground arith

last_or : (a b c : Bool) → (a || (b || c)) ≡ ((a || (b || false)) || c)
last_or a b c = ground arith

mid_or : (a b : Bool) → (a || (b || false)) ≡ ((a || false) || b)
mid_or a b = ground arith

module _ (os : Os) (kernel : IsKernel os) where
  open os use {World, is_open, perf_event_open}

  open_software-Opens :
      (w w1 : World) (pc : PerfCounter)
      → pc.fd_cycles ≡ none
      → pc.fd_instr ≡ none
      → pc.fd_llc ≡ none
      → Owns os kernel w pc w1
      → Opens os kernel w (open_software os pc w1)
  unfolding open_software
  open_software-Opens w w1 pc c i l o =
      let a = counter_attr cpu_clock pc.pid pc.cpu_id none in
      elim (Option-cases (perf_event_open a w1).0) [
        | inl e ↦
            rw (e, open_software)
              (
                Descriptors.Owns-same os kernel w w1 a (record pc { hw_available = false }) e
                    (record { all = o.all; new = o.new }),
                λ f. or-none f pc.fd_cycles pc.fd_instr pc.fd_llc c i l,
              )
        | inr (fd, e) ↦
            rw (e, open_software)
              (
                Descriptors.Owns-ioctl os kernel w _ enable false fd _ (
                    Descriptors.Owns-ioctl os kernel w _ reset false fd _ (
                      Descriptors.Owns-add os kernel w w1 a fd pc
                        (record pc { fd_cycles = some fd; hw_available = false }) e
                        (λ f. rw c (or_comm (is_fd pc.fd_instr f || is_fd pc.fd_llc f) (fd == f)))
                        o)),
                λ f. refl,
              )
      ]

  open_llc-Opens :
      (w w1 : World) (pc : PerfCounter) (leader fi : ℕ)
      → pc.fd_llc ≡ none
      → Owns os kernel w pc w1
      → Opens os kernel w (open_llc os pc leader fi w1)
  unfolding open_llc
  open_llc-Opens w w1 pc leader fi l o =
      let a = counter_attr cache_misses pc.pid pc.cpu_id (some leader) in
      elim (Option-cases (perf_event_open a w1).0) [
        | inl e ↦
            rw (e, open_llc)
              (Descriptors.Owns-close os kernel w _ pc
                (Descriptors.Owns-same os kernel w w1 a pc e o))
        | inr (fl, e) ↦
            rw (e, open_llc)
              (
                Descriptors.Owns-ioctl os kernel w _ enable true leader _ (
                    Descriptors.Owns-ioctl os kernel w _ reset true leader _ (
                      Descriptors.Owns-add os kernel w w1 a fl pc _ e
                        (λ f. rw l (last_or (is_fd pc.fd_cycles f) (is_fd pc.fd_instr f) (fl == f)))
                        o)),
                λ f. refl,
              )
      ]

  open_instr-Opens :
      (w w1 : World) (pc : PerfCounter) (leader : ℕ)
      → pc.fd_instr ≡ none
      → pc.fd_llc ≡ none
      → Owns os kernel w pc w1
      → Opens os kernel w (open_instr os pc leader w1)
  unfolding open_instr
  open_instr-Opens w w1 pc leader i l o =
      let a = counter_attr Event.instructions pc.pid pc.cpu_id (some leader) in
      elim (Option-cases (perf_event_open a w1).0) [
        | inl e ↦
            rw (e, open_instr)
              (Descriptors.Owns-close os kernel w _ pc
                (Descriptors.Owns-same os kernel w w1 a pc e o))
        | inr (fi, e) ↦
            rw (e, open_instr)
              (open_llc-Opens w _ (record pc { fd_instr = some fi }) leader fi l
                (Descriptors.Owns-add os kernel w w1 a fi pc _ e
                  (λ f. rw (i, l) (mid_or (is_fd pc.fd_cycles f) (fi == f))) o))
      ]

  perf_counter_open-Opens :
      (pid : ℕ) (cpu_id : Option ℕ) (w : World)
      → Opens os kernel w (perf_counter_open os pid cpu_id w)
  unfolding perf_counter_open
  perf_counter_open-Opens pid cpu_id w =
      let a = counter_attr cpu_cycles pid cpu_id none in
      let pc : PerfCounter = record no_fds { pid = pid; cpu_id = cpu_id; hw_available = true } in
      let start : Owns os kernel w pc w = record {
        all = λ f. or-false (is_open w f);
        new = λ f. refl;
      } in
      elim (Option-cases (perf_event_open a w).0) [
        | inl e ↦
            rw (e, perf_counter_open)
              (open_software-Opens w _ pc refl refl refl
                (Descriptors.Owns-same os kernel w w a pc e start))
        | inr (fd, e) ↦
            rw (e, perf_counter_open)
              (open_instr-Opens w _ (record pc { fd_cycles = some fd }) fd refl refl
                (Descriptors.Owns-add os kernel w w a fd pc (record pc { fd_cycles = some fd }) e
                  (λ f. sym (or-false (fd == f))) start))
      ]

  -- After `perf_counter_open` the open descriptors are those from before and those that the counter
  -- holds, which were not open before. If it fails the counter holds none, so nothing leaks.
  pub perf_counter_open-is_open :
      (pid : ℕ) (cpu_id : Option ℕ) (w : World) (f : ℕ)
      → let r = perf_counter_open os pid cpu_id w in
        (is_open r.2 f ≡ (is_open w f || holds r.1 f))
        × ((holds r.1 f && is_open w f) ≡ false)
        × (holds r.1 f ≡ (r.0 && holds r.1 f))
  perf_counter_open-is_open pid cpu_id w f =
      let o = perf_counter_open-Opens pid cpu_id w in (o.0.all f, o.0.new f, o.1 f)

  -- Opening a counter and closing it again leaves the descriptors as they were, whether or not the
  -- open succeeded.
  pub close-open-is_open :
      (pid : ℕ) (cpu_id : Option ℕ) (w : World) (f : ℕ)
      → let r = perf_counter_open os pid cpu_id w in
        is_open (perf_counter_close os r.1 r.2).1 f ≡ is_open w f
  close-open-is_open pid cpu_id w f =
      let r = perf_counter_open os pid cpu_id w in
      let o = (perf_counter_open-Opens pid cpu_id w).0 in
      (perf_counter_close-is_open os kernel r.1 r.2 f).0
      ∙ ap (λ b. b && not (holds r.1 f)) (o.all f)
      ∙ minus_own (is_open w f) (holds r.1 f) (o.new f)

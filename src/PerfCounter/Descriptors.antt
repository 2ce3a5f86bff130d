-- ===== src/PerfCounter/Descriptors.antt =====
-- Which descriptors final/src/perf_counter.c opens and closes.
use capstone_monitor.Base.{
  ℕ, ◌≡◌, refl, sym, ap, ◌∙◌, inl, inr, Bool, false, ◌||◌, ◌&&◌, not, Option, none, some, ◌==◌,
  Bool-cases, ==→eq, arith,
}
use capstone_monitor.Os.{Os, IsKernel, Attr, Request, disable}
use capstone_monitor.PerfCounter.{PerfCounter, close_fd, disable_fd, perf_counter_close}

-- whether a descriptor is `fd`
abbrev pub is_fd : Option ℕ → ℕ → Bool
is_fd none fd = false
is_fd (some n) fd = n == fd

-- whether a counter holds the descriptor
abbrev pub holds : PerfCounter → ℕ → Bool
holds pc fd = is_fd pc.fd_cycles fd || (is_fd pc.fd_instr fd || is_fd pc.fd_llc fd)

minus_three : (a b c e : Bool) → (((a && not b) && not c) && not e) ≡ (a && not (b || (c || e)))
minus_three a b c e = ground arith

pub or-false : (a : Bool) → a ≡ (a || false)
or-false a = ground arith

pub minus_own : (a h : Bool) → (h && a) ≡ false → ((a || h) && not h) ≡ a
minus_own a h e = ground arith

plus_one : (a h k : Bool) → ((a || h) || k) ≡ (a || (h || k))
plus_one a h k = ground arith

new_or : (a h k : Bool) → (h && a) ≡ false → (k && (a || h)) ≡ false → ((h || k) && a) ≡ false
new_or a h k p q = ground arith

-- A descriptor that is not open is none of those that are.
fresh_and : (open? : ℕ → Bool) (fd f : ℕ) → open? fd ≡ false → ((fd == f) && open? f) ≡ false
fresh_and open? fd f h = elim (Bool-cases (fd == f)) [
  | inl e ↦ rw e (rw (← ==→eq fd f e) h)
  | inr e ↦ rw e
]

module _ (os : Os) (kernel : IsKernel os) where
  open os use {World, is_open, perf_event_open, close, ioctl}

  close_fd-is_open :
      (o : Option ℕ) (w : World) (f : ℕ)
      → is_open (close_fd os o w) f ≡ (is_open w f && not (is_fd o f))
  unfolding close_fd
  close_fd-is_open none w f = ground arith
  close_fd-is_open (some fd) w f = kernel.close_removes fd w f

  disable_fd-is_open :
      (hw : Bool) (o : Option ℕ) (w : World) (f : ℕ)
      → is_open (disable_fd os hw o w) f ≡ is_open w f
  unfolding disable_fd
  disable_fd-is_open hw none w f = refl
  disable_fd-is_open hw (some fd) w f = kernel.ioctl_keeps disable hw fd w f

  -- `perf_counter_close` closes exactly the descriptors that the counter holds, and leaves a counter
  -- that holds none.
  pub perf_counter_close-is_open :
      (pc : PerfCounter) (w : World) (f : ℕ)
      → (is_open (perf_counter_close os pc w).1 f ≡ (is_open w f && not (holds pc f)))
        × (holds (perf_counter_close os pc w).0 f ≡ false)
  unfolding perf_counter_close
  perf_counter_close-is_open pc w f = (
    rw
        (
          close_fd-is_open pc.fd_llc,
          close_fd-is_open pc.fd_instr,
          close_fd-is_open pc.fd_cycles,
          disable_fd-is_open pc.hw_available pc.fd_cycles w f,
        )
        (minus_three (is_open w f) (is_fd pc.fd_cycles f) (is_fd pc.fd_instr f)
          (is_fd pc.fd_llc f)),
    refl,
  )

  -- the descriptors of `w'` are those of `w` and those that the counter holds, which are new
  pub record Owns (w : World) (pc : PerfCounter) (w' : World) : Type 0 where
    pub all : (f : ℕ) → is_open w' f ≡ (is_open w f || holds pc f)
    pub new : (f : ℕ) → (holds pc f && is_open w f) ≡ false

  abbrev pub Opens : World → Bool × PerfCounter × World → Type 0
  Opens w r = Owns w r.1 r.2 × ((f : ℕ) → holds r.1 f ≡ (r.0 && holds r.1 f))

  -- one more descriptor
  pub Owns-add :
      (w w1 : World) (a : Attr) (fd : ℕ) (pc pc' : PerfCounter)
      → (perf_event_open a w1).0 ≡ some fd
      → ((f : ℕ) → holds pc' f ≡ (holds pc f || fd == f))
      → Owns w pc w1
      → Owns w pc' (perf_event_open a w1).1
  Owns-add w w1 a fd pc pc' e more o = record {
    all = λ f.
        kernel.open_adds a w1 fd e f
        ∙ ap (λ b. b || fd == f) (o.all f)
        ∙ plus_one (is_open w f) (holds pc f) (fd == f)
        ∙ ap (λ b. is_open w f || b) (sym (more f));
    new = λ f.
        ap (λ b. b && is_open w f) (more f)
        ∙ new_or (is_open w f) (holds pc f) (fd == f) (o.new f) (
            ap (λ b. (fd == f) && b) (sym (o.all f))
            ∙ fresh_and (is_open w1) fd f (kernel.open_fresh a w1 fd e));
  }

  -- a failed open
  pub Owns-same :
      (w w1 : World) (a : Attr) (pc : PerfCounter)
      → (perf_event_open a w1).0 ≡ none
      → Owns w pc w1
      → Owns w pc (perf_event_open a w1).1
  Owns-same w w1 a pc e o = record { all = λ f. kernel.open_fails a w1 e f ∙ o.all f; new = o.new }

  pub Owns-ioctl :
      (w w1 : World) (r : Request) (b : Bool) (fd : ℕ) (pc : PerfCounter)
      → Owns w pc w1
      → Owns w pc (ioctl r b fd w1)
  Owns-ioctl w w1 r b fd pc o = record {
    all = λ f. kernel.ioctl_keeps r b fd w1 f ∙ o.all f;
    new = o.new;
  }

  -- giving up: every descriptor is closed again
  pub Owns-close :
      (w w1 : World) (pc : PerfCounter)
      → Owns w pc w1
      → let c = perf_counter_close os pc w1 in Opens w (false, c.0, c.1)
  unfolding perf_counter_close
  Owns-close w w1 pc o = (
    record {
      all = λ f.
          (perf_counter_close-is_open pc w1 f).0
          ∙ ap (λ b. b && not (holds pc f)) (o.all f)
          ∙ minus_own (is_open w f) (holds pc f) (o.new f)
          ∙ or-false (is_open w f);
      new = λ f. refl;
    },
    λ f. refl,
  )
